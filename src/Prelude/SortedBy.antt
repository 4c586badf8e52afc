-- ===== src/Prelude/SortedBy.antt =====
-- Sorting by an order of one's own: what comes out is in that order.
use ai_cli_utils.Prelude.{
  ◌≡◌, refl, subst, sym, inl, inr, Bool, true, false, List, [], ◌∷◌, In, In-insert_by, insert_by,
  sort_by, if◌then◌else◌,
}

module _ {A : Type 0} (le : A → A → Bool) (total : (a b : A) → le a b ≡ false → le b a ≡ true)
    (trans : (a b c : A) → le a b ≡ true → le b c ≡ true → le a c ≡ true) where
  -- each element is before all later ones
  abbrev pub Ordered : List A → Type 0
  Ordered [] = Unit
  Ordered (x ∷ xs) = ((z : A) → In z xs → le x z ≡ true) × Ordered xs

  insert_by-Ordered : (x : A) (ys : List A) → Ordered ys → Ordered (insert_by le x ys)
  insert_by-Ordered x [] h = (λ z m. absurd m, tt)
  insert_by-Ordered x (y ∷ ys) (first, rest) = go (le x y) refl (insert_by-Ordered x ys rest)
    where
      front : le x y ≡ true → (z : A) → In z (y ∷ ys) → le x z ≡ true
      front e z (inl same) = subst (λ a. le x a ≡ true) (sym same) e
      front e z (inr m) = trans x y z e (first z m)

      behind : le y x ≡ true → (z : A) → In z (insert_by le x ys) → le y z ≡ true
      behind e z m = elim (In-insert_by le z x ys m) [
        | inl same ↦ subst (λ a. le y a ≡ true) (sym same) e
        | inr n ↦ first z n
      ]

      go :
          (b : Bool)
          → le x y ≡ b
          → Ordered (insert_by le x ys)
          → Ordered (if b then x ∷ y ∷ ys else y ∷ insert_by le x ys)
      go true e o = (front e, (first, rest))
      go false e o = (behind (total x y e), o)

  pub sort_by-Ordered : (xs : List A) → Ordered (sort_by le xs)
  sort_by-Ordered [] = tt
  sort_by-Ordered (x ∷ xs) = insert_by-Ordered x (sort_by le xs) (sort_by-Ordered xs)
