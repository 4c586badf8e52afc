-- ===== src/Prelude/Sorting.antt =====
-- Sets as lists without repetition, and sorting by insertion.
use mathlib.Core.Path.{◌≡◌, refl, sym, subst}
use mathlib.Core.Logic.{◌⊎◌, inl, inr}
use mathlib.Core.Bool.{Bool, true, false}
use Prim.Native.Nat.{ℕ, ◌≤◌}
use mathlib.Core.List.{List, [], ◌∷◌}
use native.Mathlib.Omega.{arith}
use ai_cli_utils.Prelude.Tests.{if◌then◌else◌}
use ai_cli_utils.Prelude.Lists.{any, In}

module _ {A : Type 0} where
  abbrev pub insert_by : (A → A → Bool) → A → List A → List A
  insert_by le x [] = x ∷ []
  insert_by le x (y ∷ ys) = let rest = insert_by le x ys in if le x y then x ∷ y ∷ ys else y ∷ rest

  -- `sorted`
  abbrev pub sort_by : (A → A → Bool) → List A → List A
  sort_by le [] = []
  sort_by le (x ∷ xs) = insert_by le x (sort_by le xs)

  -- a list as a set: the last of equal elements is kept
  abbrev pub distinct : (A → A → Bool) → List A → List A
  distinct eq [] = []
  distinct eq (x ∷ xs) = let rest = distinct eq xs in if any (eq x) rest then rest else x ∷ rest

  pub In-insert_by :
      (le : A → A → Bool) (a x : A) (xs : List A) → In a (insert_by le x xs) → (a ≡ x) ⊎ In a xs
  In-insert_by le a x [] m = m
  In-insert_by le a x (y ∷ ys) m = ground (arith, In-insert_by le a x ys)

  pub insert_by-In :
      (le : A → A → Bool) (a x : A) (xs : List A) → (a ≡ x) ⊎ In a xs → In a (insert_by le x xs)
  insert_by-In le a x [] m = m
  insert_by-In le a x (y ∷ ys) m = ground (arith, insert_by-In le a x ys)

  pub In-sort_by : (le : A → A → Bool) (a : A) (xs : List A) → In a (sort_by le xs) → In a xs
  In-sort_by le a [] m = m
  In-sort_by le a (x ∷ xs) m =
      ground (arith, In-sort_by le a xs, In-insert_by le a x (sort_by le xs) m)

  pub sort_by-In : (le : A → A → Bool) (a : A) (xs : List A) → In a xs → In a (sort_by le xs)
  sort_by-In le a [] m = m
  sort_by-In le a (x ∷ xs) (inl e) = insert_by-In le a x (sort_by le xs) (inl e)
  sort_by-In le a (x ∷ xs) (inr m) =
      insert_by-In le a x (sort_by le xs) (inr (sort_by-In le a xs m))

  pub In-distinct : (eq : A → A → Bool) (a : A) (xs : List A) → In a (distinct eq xs) → In a xs
  In-distinct eq a [] m = m
  In-distinct eq a (x ∷ xs) m = ground (arith, In-distinct eq a xs)

  -- `eq` decides equality
  pub any-In :
      (eq : A → A → Bool)
      → ((a b : A) → eq a b ≡ true → a ≡ b)
      → (a : A) (xs : List A) → any (eq a) xs ≡ true
      → In a xs
  any-In eq sound a [] h = cc
  any-In eq sound a (x ∷ xs) h = ground (arith, any-In eq sound a xs, sound a x)

  pub distinct-In :
      (eq : A → A → Bool)
      → ((a b : A) → eq a b ≡ true → a ≡ b)
      → (a : A) (xs : List A) → In a xs
      → In a (distinct eq xs)
  distinct-In eq sound a [] m = m
  distinct-In eq sound a (x ∷ xs) m =
      ground (arith, distinct-In eq sound a xs, any-In eq sound x (distinct eq xs), m)

-- sorting puts an element of the least measure first
module _ {A : Type 0} (measure : A → ℕ) (le : A → A → Bool)
    (below : (a b : A) → le a b ≡ true → measure a ≤ measure b)
    (above : (a b : A) → le a b ≡ false → measure b ≤ measure a) where
  abbrev pub HeadLeast : List A → Type 0
  HeadLeast [] = Unit
  HeadLeast (y ∷ ys) = (z : A) → In z (y ∷ ys) → measure y ≤ measure z

  insert_by-HeadLeast : (x : A) (ys : List A) → HeadLeast ys → HeadLeast (insert_by le x ys)
  insert_by-HeadLeast x [] h = first
    where
      first : (z : A) → In z (x ∷ []) → measure x ≤ measure z
      first z (inl e) = subst (λ a. measure x ≤ measure a) (sym e) (omega arith)
      first z (inr m) = absurd m
  insert_by-HeadLeast x (y ∷ ys) h = go (le x y) refl
    where
      front : measure x ≤ measure y → (z : A) → In z (x ∷ y ∷ ys) → measure x ≤ measure z
      front k z (inl e) = subst (λ a. measure x ≤ measure a) (sym e) (omega arith)
      front k z (inr m) = omega (arith, k, h z m)

      behind :
          measure y ≤ measure x → (z : A) → In z (y ∷ insert_by le x ys) → measure y ≤ measure z
      behind k z (inl e) = h z (inl e)
      behind k z (inr m) = elim (In-insert_by le z x ys m) [
        | inl e ↦ subst (λ a. measure y ≤ measure a) (sym e) k
        | inr n ↦ h z (inr n)
      ]

      go : (b : Bool) → le x y ≡ b → HeadLeast (if b then x ∷ y ∷ ys else y ∷ insert_by le x ys)
      go true e = front (below x y e)
      go false e = behind (above x y e)

  pub sort_by-HeadLeast : (xs : List A) → HeadLeast (sort_by le xs)
  sort_by-HeadLeast [] = tt
  sort_by-HeadLeast (x ∷ xs) = insert_by-HeadLeast x (sort_by le xs) (sort_by-HeadLeast xs)
