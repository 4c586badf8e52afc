-- ===== src/NameList/Edits/Sound.antt =====
-- `one_edit_apart` decides the relation `OneEdit`.
use native.Mathlib.Decide.{ℕ_discrete, dec_le}
use ai_cli_utils.Prelude.{
  ℕ, zero, suc, ◌+◌, ◌≤◌, ◌<◌, ◌↔◌, ◌++◌, ap, take, drop, ◌≡◌, refl, sym, ◌∙◌, ◌≢◌, Bool, true,
  false, List, [], ◌∷◌, map, arith, length, list_eq, list_eq→eq, list_eq_refl, Bool-cases, inl, inr,
}
use ai_cli_utils.NameList.Edits.{
  diffs, few_diffs, drops_to, apart_sorted, one_edit_apart, OneEdit, substitute, add, delete, swap,
  skip,
}

diffs-suc : (i : ℕ) (a b : List ℕ) → diffs (suc i) a b ≡ map suc (diffs i a b)
unfolding diffs
diffs-suc i (x ∷ a) (y ∷ b) = ground (arith, diffs-suc (suc i) a b)
diffs-suc i [] b = refl
diffs-suc i (x ∷ a) [] = refl

diffs-nil : (i : ℕ) (a b : List ℕ) → length a ≡ length b → diffs i a b ≡ [] → a ≡ b
unfolding diffs
diffs-nil i (x ∷ a) (y ∷ b) h e = ground (arith, diffs-nil (suc i) a b)
diffs-nil i [] [] h e = refl
diffs-nil i [] (y ∷ b) h e = absurd (omega arith)
diffs-nil i (x ∷ a) [] h e = absurd (omega arith)

diffs_self : (i : ℕ) (a : List ℕ) → diffs i a a ≡ []
unfolding diffs
diffs_self i [] = refl
diffs_self i (x ∷ a) = ground (arith, diffs_self (suc i) a)

few_diffs-skip :
    (x : ℕ) (a b ds : List ℕ) → few_diffs (x ∷ a) (x ∷ b) (map suc ds) ≡ few_diffs a b ds
unfolding few_diffs
few_diffs-skip x a b [] = refl
few_diffs-skip x a b (d ∷ []) = refl
few_diffs-skip x a b (d ∷ e ∷ []) = ground arith
few_diffs-skip x a b (d ∷ e ∷ f ∷ ds) = refl

-- two texts of one length, by their differences
abbrev same_length : List ℕ → List ℕ → Bool
same_length a b = few_diffs a b (diffs 0 a b)

same_length-skip : (x y : ℕ) (a b : List ℕ) → x ≡ y → same_length (x ∷ a) (y ∷ b) ≡ same_length a b
unfolding diffs
same_length-skip x y a b e =
    rw e (ground (arith, few_diffs-skip y a b (diffs 0 a b), diffs-suc 0 a b))

-- one difference in front, and the differences `ds` of the rest
abbrev front_verdict : ℕ → ℕ → List ℕ → List ℕ → List ℕ → Bool
front_verdict x y a b ds = few_diffs (x ∷ a) (y ∷ b) (0 ∷ map suc ds)

swap_case :
    (x y : ℕ) (a b : List ℕ) (d : ℕ)
    → x ≢ y
    → length a ≡ length b
    → diffs 0 a b ≡ d ∷ []
    → front_verdict x y a b (d ∷ []) ≡ true
    → OneEdit (x ∷ a) (y ∷ b)
unfolding few_diffs diffs
swap_case x y (p ∷ a) (q ∷ b) d ne h e t =
    let same : a ≡ b = diffs-nil 1 a b (omega arith) (ground arith) in
    let xq : x ≡ q = ground arith in
    let py : p ≡ y = ground arith in rw (same, xq, py) (swap (λ e'. ne (xq ∙ e')))
swap_case x y [] b d ne h e t = cc
swap_case x y (p ∷ a) [] d ne h e t = cc

front_sound :
    (x y : ℕ) (a b ds : List ℕ)
    → x ≢ y
    → length a ≡ length b
    → diffs 0 a b ≡ ds
    → front_verdict x y a b ds ≡ true
    → OneEdit (x ∷ a) (y ∷ b)
unfolding few_diffs
front_sound x y a b [] ne h e t = rw (diffs-nil 0 a b h e) (substitute ne)
front_sound x y a b (d ∷ []) ne h e t = swap_case x y a b d ne h e t
front_sound x y a b (d ∷ f ∷ ds) ne h e t = cc

same_length-front :
    (x y : ℕ) (a b : List ℕ)
    → x ≢ y
    → same_length (x ∷ a) (y ∷ b) ≡ front_verdict x y a b (diffs 0 a b)
unfolding diffs
same_length-front x y a b ne = ground (arith, diffs-suc 0 a b)

same_length_sound : (a b : List ℕ) → length a ≡ length b → same_length a b ≡ true → OneEdit a b
same_length_sound (x ∷ a) (y ∷ b) h t = elim (ℕ_discrete x y) [
  | yes e ↦ rw e (skip (same_length_sound a b (omega arith) (sym (same_length-skip x y a b e) ∙ t)))
  | no ne ↦
      front_sound x y a b (diffs 0 a b) ne (omega arith) refl
        (sym (same_length-front x y a b ne) ∙ t)
]
same_length_sound [] [] h t = unfold diffs few_diffs in cc
same_length_sound [] (y ∷ b) h t = absurd (omega arith)
same_length_sound (x ∷ a) [] h t = absurd (omega arith)

same_length_complete : {a b : List ℕ} → OneEdit a b → length a ≡ length b → same_length a b ≡ true
unfolding diffs few_diffs
same_length_complete (substitute {x} {y} {r} ne) h =
    same_length-front x y r r ne ∙ rw (diffs_self 0 r)
same_length_complete add h = absurd (omega arith)
same_length_complete delete h = absurd (omega arith)
same_length_complete (swap {x} {y} {r} ne) h = ground (arith, diffs_self 2 r)
same_length_complete (skip {x} {a} {b} o) h =
    same_length-skip x x a b refl ∙ same_length_complete o (omega arith)

-- `a` is `b` without the element at `i`
abbrev without_at : List ℕ → ℕ → List ℕ
without_at b i = take i b ++ drop (suc i) b

drops_to_sound :
    (a b : List ℕ) (i n : ℕ)
    → drops_to a b i n ≡ true
    → (j : ℕ) × (j < i + n) × (a ≡ without_at b j)
unfolding drops_to
drops_to_sound a b i zero h = cc
drops_to_sound a b i (suc n) h = elim (Bool-cases (list_eq a (without_at b i))) [
  | inl hit ↦ (i, omega arith, list_eq→eq a (without_at b i) hit)
  | inr miss ↦ let (j, lt, e) = drops_to_sound a b (suc i) n (ground arith) in (j, omega arith, e)
]

drops_to_complete :
    (a b : List ℕ) (i n j : ℕ) → i ≤ j → j < i + n → a ≡ without_at b j → drops_to a b i n ≡ true
unfolding drops_to
drops_to_complete a b i zero j low high e = absurd (omega arith)
drops_to_complete a b i (suc n) j low high e = elim (ℕ_discrete i j) [
  | yes here ↦ rw (here, e, list_eq_refl)
  | no later ↦ ground (arith, drops_to_complete a b (suc i) n j)
]

without_at-OneEdit : (b : List ℕ) (i : ℕ) → i < length b → OneEdit (without_at b i) b
without_at-OneEdit [] i h = absurd (omega arith)
without_at-OneEdit (y ∷ b) zero h = add
without_at-OneEdit (y ∷ b) (suc i) h = skip (without_at-OneEdit b i (omega arith))

OneEdit-without_at :
    {a b : List ℕ}
    → OneEdit a b
    → length b ≡ suc (length a)
    → (i : ℕ) × (i < length b) × (a ≡ without_at b i)
OneEdit-without_at (substitute ne) h = absurd (omega arith)
OneEdit-without_at add h = (0, omega arith, refl)
OneEdit-without_at delete h = absurd (omega arith)
OneEdit-without_at (swap ne) h = absurd (omega arith)
OneEdit-without_at (skip {x} o) h =
    let (i, lt, e) = OneEdit-without_at o (omega arith) in (suc i, omega arith, ap (◌∷◌ x) e)

OneEdit-length :
    {a b : List ℕ} → OneEdit a b → (length a ≤ length b + 1) × (length b ≤ length a + 1)
OneEdit-length (skip o) = omega (arith, OneEdit-length o)
OneEdit-length _ = omega arith

pub OneEdit-symm : {a b : List ℕ} → OneEdit a b → OneEdit b a
OneEdit-symm (substitute ne) = substitute (λ e. ne (sym e))
OneEdit-symm add = delete
OneEdit-symm delete = add
OneEdit-symm (swap ne) = swap (λ e. ne (sym e))
OneEdit-symm (skip o) = skip (OneEdit-symm o)

pub OneEdit-ne : {a b : List ℕ} → OneEdit a b → a ≢ b
OneEdit-ne (substitute ne) e = ne (cc)
OneEdit-ne add e = omega (arith, ap (length {A = ℕ}) e)
OneEdit-ne delete e = omega (arith, ap (length {A = ℕ}) e)
OneEdit-ne (swap ne) e = ne (cc)
OneEdit-ne (skip o) e = OneEdit-ne o (cc)

apart_sorted_sound : (a b : List ℕ) → length a ≤ length b → apart_sorted a b ≡ true → OneEdit a b
unfolding apart_sorted
apart_sorted_sound a b le h = elim (ℕ_discrete (length a) (length b)) [
  | yes e ↦ same_length_sound a b e (ground arith)
  | no ne ↦
      let (i, lt, e) = drops_to_sound a b 0 (length b) (ground arith) in
      rw e (without_at-OneEdit b i (omega arith))
]

apart_sorted_complete : (a b : List ℕ) → length a ≤ length b → OneEdit a b → apart_sorted a b ≡ true
unfolding apart_sorted
apart_sorted_complete a b le o = elim (ℕ_discrete (length a) (length b)) [
  | yes e ↦ ground (arith, same_length_complete o e)
  | no ne ↦
      let bound = OneEdit-length o in
      let (i, lt, e) = OneEdit-without_at o (omega arith) in
      ground (arith, drops_to_complete a b 0 (length b) i)
]

list_eq_of_ne : (a b : List ℕ) → a ≢ b → list_eq a b ≡ false
list_eq_of_ne a b ne = elim (Bool-cases (list_eq a b)) [
  | inl e ↦ absurd (ne (list_eq→eq a b e))
  | inr e ↦ e
]

sound : (a b : List ℕ) → one_edit_apart a b ≡ true → OneEdit a b
unfolding one_edit_apart
sound a b h = elim (dec_le (length a) (length b)) [
  | yes le ↦ apart_sorted_sound a b le (ground arith)
  | no gt ↦ OneEdit-symm (apart_sorted_sound b a (omega arith) (ground arith))
]

complete : (a b : List ℕ) → OneEdit a b → one_edit_apart a b ≡ true
unfolding one_edit_apart
complete a b o = elim (dec_le (length a) (length b)) [
  | yes le ↦ ground (arith, list_eq_of_ne a b (OneEdit-ne o), apart_sorted_complete a b le o)
  | no gt ↦ ground (
    arith,
    list_eq_of_ne a b (OneEdit-ne o),
    apart_sorted_complete b a (omega arith) (OneEdit-symm o),
  )
]

-- `one_edit_apart` answers true exactly when one substitution, insertion, deletion or swap of
-- neighbours turns the first text into the second.
pub one_edit_apart_iff : (a b : List ℕ) → (one_edit_apart a b ≡ true) ↔ OneEdit a b
one_edit_apart_iff a b = (sound a b, complete a b)
