-- ===== src/NameList/Edits.antt =====
-- `one_edit_apart` of src/ai_cli/name_list.py.
pub mod Sound
use ai_cli_utils.Prelude.{
  ℕ, zero, suc, ◌+◌, ◌-◌, ◌≢◌, Bool, true, false, ◌&&◌, ◌||◌, List, [], ◌∷◌, ◌++◌, length, get_or,
  take, drop, list_eq, eqb, ltb, leb, if◌then◌else◌,
}

-- `[i for i, (x, y) in enumerate(zip(a, b)) if x != y]`, counted from `i`
unfoldable pub diffs : ℕ → List ℕ → List ℕ → List ℕ
diffs i (x ∷ a) (y ∷ b) = let rest = diffs (suc i) a b in if eqb x y then rest else i ∷ rest
diffs i [] b = []
diffs i (x ∷ a) [] = []

-- The verdict on two texts of one length, from the places where they differ. The places lie in
-- both texts, so the default of `get_or` is never read.
unfoldable pub few_diffs : List ℕ → List ℕ → List ℕ → Bool
few_diffs a b (d ∷ []) = true
few_diffs a b (d ∷ e ∷ []) =
    eqb e (d + 1) && eqb (get_or a d 0) (get_or b e 0) && eqb (get_or a e 0) (get_or b d 0)
few_diffs a b _ = false

-- `any(a == b[:i] + b[i + 1 :] for i in range(len(b)))`, for the `n` places from `i`
unfoldable pub drops_to : List ℕ → List ℕ → ℕ → ℕ → Bool
drops_to a b i zero = false
drops_to a b i (suc n) = list_eq a (take i b ++ drop (suc i) b) || drops_to a b (suc i) n

-- the body from the length tests on, with `a` the shorter text
unfoldable pub apart_sorted : List ℕ → List ℕ → Bool
unfolding diffs few_diffs drops_to
apart_sorted a b =
    if ltb 1 (length b - length a)
    then false
    else if eqb (length a) (length b)
    then few_diffs a b (diffs 0 a b)
    else drops_to a b 0 (length b)

unfoldable pub one_edit_apart : List ℕ → List ℕ → Bool
unfolding apart_sorted
one_edit_apart first second =
    if list_eq first second
    then false
    else if leb (length first) (length second)
    then apart_sorted first second
    else apart_sorted second first

-- One substitution, insertion, deletion or swap of neighbours, somewhere in the text.
pub data OneEdit : List ℕ → List ℕ → Type 0 where
  substitute : {x y : ℕ} {r : List ℕ} → x ≢ y → OneEdit (x ∷ r) (y ∷ r)
  add : {y : ℕ} {r : List ℕ} → OneEdit r (y ∷ r)
  delete : {x : ℕ} {r : List ℕ} → OneEdit (x ∷ r) r
  swap : {x y : ℕ} {r : List ℕ} → x ≢ y → OneEdit (x ∷ y ∷ r) (y ∷ x ∷ r)
  skip : {x : ℕ} {a b : List ℕ} → OneEdit a b → OneEdit (x ∷ a) (x ∷ b)
