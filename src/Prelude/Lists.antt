-- ===== src/Prelude/Lists.antt =====
-- Lists over the native numbers, and Boolean searches in lists.
use Prim.Native.Nat.{ℕ, zero, suc, ◌+◌}
use mathlib.Core.Path.{◌≡◌, refl, sym, subst}
use mathlib.Core.Logic.{◌⊎◌, inl, inr}
use mathlib.Core.Bool.{Bool, true, false, ◌&&◌, ◌||◌}
use mathlib.Core.List.{List, [], ◌∷◌, ◌++◌}
use native.Mathlib.Omega.{arith}
use ai_cli_utils.Prelude.Tests.{eqb, if◌then◌else◌}

module _ {ℓ} {A : Type ℓ} where
  abbrev pub length : List A → ℕ
  length [] = 0
  length (x ∷ xs) = suc (length xs)

  abbrev pub get_or : List A → ℕ → A → A
  get_or [] i d = d
  get_or (x ∷ xs) zero d = x
  get_or (x ∷ xs) (suc i) d = get_or xs i d

  abbrev pub take : ℕ → List A → List A
  take zero xs = []
  take (suc n) [] = []
  take (suc n) (x ∷ xs) = x ∷ take n xs

  abbrev pub drop : ℕ → List A → List A
  drop zero xs = xs
  drop (suc n) [] = []
  drop (suc n) (x ∷ xs) = drop n xs

  -- Python's `all` and `any` over a list
  abbrev pub all : (A → Bool) → List A → Bool
  all p [] = true
  all p (x ∷ xs) = p x && all p xs

  abbrev pub any : (A → Bool) → List A → Bool
  any p [] = false
  any p (x ∷ xs) = p x || any p xs

  -- a comprehension with one `if`
  abbrev pub keep : (A → Bool) → List A → List A
  keep p [] = []
  keep p (x ∷ xs) = let rest = keep p xs in if p x then x ∷ rest else rest

-- A predicate on every element, by recursion, and on some element.
abbrev pub All {ℓ κ} : {A : Type ℓ} → (A → Type κ) → List A → Type κ
All P [] = Unit
All P (x ∷ xs) = P x × All P xs

-- Membership with its place, by recursion.
abbrev pub In : {A : Type 0} → A → List A → Type 0
In a [] = ⊥
In a (x ∷ xs) = (a ≡ x) ⊎ In a xs

pub All-In {κ} : {A : Type 0} (P : A → Type κ) (a : A) (xs : List A) → In a xs → All P xs → P a
All-In P a (x ∷ xs) (inl e) h = subst P (sym e) h.0
All-In P a (x ∷ xs) (inr m) h = All-In P a xs m h.1
All-In P a [] m h = absurd m

pub All-of {κ} : {A : Type 0} (P : A → Type κ) (xs : List A) → ((a : A) → In a xs → P a) → All P xs
All-of P [] f = tt
All-of P (x ∷ xs) f = (f x (inl refl), All-of P xs (λ a m. f a (inr m)))

module _ {A : Type 0} (a : A) where
  pub In-append_left : (xs ys : List A) → In a xs → In a (xs ++ ys)
  In-append_left (x ∷ xs) ys m = ground (arith, In-append_left xs ys)
  In-append_left [] ys m = absurd m

  pub In-append_right : (xs ys : List A) → In a ys → In a (xs ++ ys)
  In-append_right [] ys m = m
  In-append_right (x ∷ xs) ys m = inr (In-append_right xs ys m)

  pub In-append : (xs ys : List A) → In a (xs ++ ys) → In a xs ⊎ In a ys
  In-append [] ys m = inr m
  In-append (x ∷ xs) ys m = ground (arith, In-append xs ys)

  pub In-keep : (p : A → Bool) (xs : List A) → In a (keep p xs) → In a xs × (p a ≡ true)
  In-keep p [] m = absurd m
  In-keep p (x ∷ xs) m = ground (arith, In-keep p xs)

  pub keep-In : (p : A → Bool) (xs : List A) → In a xs → p a ≡ true → In a (keep p xs)
  keep-In p [] m h = absurd m
  keep-In p (x ∷ xs) m h = ground (arith, keep-In p xs)

-- Texts that are taken apart are lists of code points.
abbrev pub list_eq : List ℕ → List ℕ → Bool
list_eq [] [] = true
list_eq (x ∷ xs) (y ∷ ys) = eqb x y && list_eq xs ys
list_eq _ _ = false

pub list_eq→eq : (xs ys : List ℕ) → list_eq xs ys ≡ true → xs ≡ ys
list_eq→eq [] [] h = refl
list_eq→eq (x ∷ xs) (y ∷ ys) h = ground (arith, list_eq→eq xs ys)
list_eq→eq [] (y ∷ ys) h = cc
list_eq→eq (x ∷ xs) [] h = cc

pub list_eq_refl : (xs : List ℕ) → list_eq xs xs ≡ true
list_eq_refl [] = refl
list_eq_refl (x ∷ xs) = ground (arith, list_eq_refl xs)

pub length-append {ℓ} : {A : Type ℓ} (xs ys : List A) → length (xs ++ ys) ≡ length xs + length ys
length-append [] ys = omega arith
length-append (x ∷ xs) ys = omega (arith, length-append xs ys)
