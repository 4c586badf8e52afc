-- ===== src/Names/Number.antt =====
-- `name_number` of src/ai_cli/session_naming.py, over the code points of a name.
use ai_cli_utils.Prelude.{
  ℕ, ◌+◌, ◌-◌, ◌*◌, ◌≤◌, ◌≡◌, refl, sym, ap, ◌∙◌, List, [], ◌∷◌, ◌++◌, All, arith,
}

-- the loop, with `number` as its state
unfoldable pub numeral : ℕ → List ℕ → ℕ
numeral number [] = number
numeral number (c ∷ name) = numeral (number * 27 + (c - 96)) name

unfoldable pub name_number : List ℕ → ℕ
unfolding numeral
name_number name = numeral 0 name

abbrev pub IsLetter : ℕ → Type 0
IsLetter c = (97 ≤ c) × (c ≤ 122)

-- the letters in front of `seen`, the last one first
turn : List ℕ → List ℕ → List ℕ
turn [] seen = seen
turn (c ∷ name) seen = turn name (c ∷ seen)

-- the number of a name that is read from its end
from_end : List ℕ → ℕ
from_end [] = 0
from_end (c ∷ cs) = from_end cs * 27 + (c - 96)

numeral-from_end : (name seen : List ℕ) → numeral (from_end seen) name ≡ from_end (turn name seen)
unfolding numeral turn from_end
numeral-from_end [] seen = refl
numeral-from_end (c ∷ name) seen = numeral-from_end name (c ∷ seen)

turn-turn : (name seen rest : List ℕ) → turn (turn name seen) rest ≡ turn seen (name ++ rest)
unfolding turn
turn-turn [] seen rest = refl
turn-turn (c ∷ name) seen rest = turn-turn name (c ∷ seen) rest

append_nil : (name : List ℕ) → name ++ [] ≡ name
append_nil [] = refl
append_nil (c ∷ name) = ap (λ cs. c ∷ cs) (append_nil name)

turn_twice : (name : List ℕ) → turn (turn name []) [] ≡ name
unfolding turn
turn_twice name = turn-turn name [] [] ∙ append_nil name

turn-All :
    (name seen : List ℕ) → All IsLetter name → All IsLetter seen → All IsLetter (turn name seen)
unfolding turn
turn-All [] seen h k = k
turn-All (c ∷ name) seen h k = turn-All name (c ∷ seen) h.1 (h.0, k)

from_end-inj : (a b : List ℕ) → All IsLetter a → All IsLetter b → from_end a ≡ from_end b → a ≡ b
unfolding from_end
from_end-inj [] [] h k e = refl
from_end-inj [] (c ∷ b) h k e = absurd (omega (arith, k.0.0, e))
from_end-inj (c ∷ a) [] h k e = absurd (omega (arith, h.0.0, e))
from_end-inj (c ∷ a) (d ∷ b) h k e =
    (let tail = from_end-inj a b h.1 k.1 (omega (arith, h.0, k.0, e)) in
      let head : c ≡ d = omega (arith, h.0, k.0, e) in rw (tail, head))

-- Two names of lowercase letters that have the same number are the same name.
pub name_number-inj :
    (a b : List ℕ) → All IsLetter a → All IsLetter b → name_number a ≡ name_number b → a ≡ b
unfolding name_number turn from_end
name_number-inj a b h k e =
    sym (turn_twice a)
    ∙ ap (λ cs. turn cs [])
        (from_end-inj (turn a []) (turn b []) (turn-All a [] h tt) (turn-All b [] k tt) ends)
    ∙ turn_twice b
  where
    ends : from_end (turn a []) ≡ from_end (turn b [])
    ends = sym (numeral-from_end a []) ∙ e ∙ numeral-from_end b []
