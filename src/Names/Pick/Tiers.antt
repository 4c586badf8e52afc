-- ===== src/Names/Pick/Tiers.antt =====
-- The tiers of names and the run of the top ones: `pick_name` of src/ai_cli/session_naming.py.
use ai_cli_utils.Prelude.{
  ℕ, ◌≤◌, ◌≡◌, refl, sym, subst, ap, ◌⊎◌, inl, inr, String, Bool, true, false, List, [], ◌∷◌, ◌++◌,
  map, length, arith, keep, In, In-append, In-append_left, In-append_right, In-keep, keep-In, leb,
  if◌then◌else◌,
}
use ai_cli_utils.Names.Pick.{run_of_tiers, shortest, size, Tier, tier_eq}

pub tier_eq→eq : (s t : Tier) → tier_eq s t ≡ true → s ≡ t
tier_eq→eq (m, true) (n, true) h = ground arith
tier_eq→eq (m, true) (n, false) h = ground arith
tier_eq→eq (m, false) (n, true) h = ground arith
tier_eq→eq (m, false) (n, false) h = ground arith

pub tier_eq_refl : (t : Tier) → tier_eq t t ≡ true
tier_eq_refl (m, true) = ground arith
tier_eq_refl (m, false) = ground arith

pub In-map : {A B : Type 0} (f : A → B) (a : A) (xs : List A) → In a xs → In (f a) (map f xs)
In-map f a [] m = absurd m
In-map f a (x ∷ xs) (inl e) = inl (ap f e)
In-map f a (x ∷ xs) (inr m) = inr (In-map f a xs m)

-- the least length, from the first on
pub shortest-le :
    (n : ℕ) (names : List String)
    → (shortest n names ≤ n) × ((c : String) → In c names → shortest n names ≤ size c)
shortest-le n [] = (omega arith, λ c m. absurd m)
shortest-le n (x ∷ names) =
    (let (a, b) = shortest-le n names in (ground arith, λ c m. below c m (b c)))
  where
    below :
        (c : String)
        → In c (x ∷ names)
        → (In c names → shortest n names ≤ size c)
        → shortest n (x ∷ names) ≤ size c
    below c (inl e) f = subst (λ y. shortest n (x ∷ names) ≤ size y) (sym e) (ground arith)
    below c (inr m) f = (let le = f m in ground arith)

pub shortest-attained :
    (n : ℕ) (names : List String)
    → (shortest n names ≡ n) ⊎ ((c : String) × (In c names × (size c ≡ shortest n names)))
shortest-attained n [] = inl refl
shortest-attained n (x ∷ names) = go (leb (size x) (shortest n names)) (shortest-attained n names)
  where
    go :
        (b : Bool)
        → (shortest n names ≡ n) ⊎ ((c : String) × (In c names × (size c ≡ shortest n names)))
        → ((if b then size x else shortest n names) ≡ n)
          ⊎ ((c : String) × (In c (x ∷ names)
                × (size c ≡ (if b then size x else shortest n names))))
    go true h = inr (x, (inl refl, refl))
    go false (inl e) = inl e
    go false (inr (c, (m, e))) = inr (c, (inr m, e))

module _ (key : String → Tier) (floor : ℕ) (names : List String) where
  -- the tiers add names of the list only, and stop once there are enough
  pub run-In :
      (tiers : List Tier) (run : List String) (c : String)
      → In c (run_of_tiers key floor names tiers run)
      → In c run ⊎ In c names
  unfolding run_of_tiers
  run-In [] run c m = inl m
  run-In (t ∷ tiers) run c m = go (leb floor (length longer)) m (run-In tiers longer c)
    where
      longer : List String
      longer = run ++ keep (λ name. tier_eq (key name) t) names

      added : In c longer → In c run ⊎ In c names
      added k = (elim (In-append c run (keep (λ name. tier_eq (key name) t) names) k) [
        | inl x ↦ inl x
        | inr x ↦ inr (In-keep c _ names x).0
      ])

      go :
          (b : Bool)
          → In c (if b then longer else run_of_tiers key floor names tiers longer)
          → (In c (run_of_tiers key floor names tiers longer) → In c longer ⊎ In c names)
          → In c run ⊎ In c names
      go true k f = added k
      go false k f = (elim (f k) [ inl x ↦ added x | inr x ↦ inr x ])

  pub run-enough :
      (tiers : List Tier) (run : List String)
      → (floor ≤ length (run_of_tiers key floor names tiers run))
        ⊎ ((c : String)
            → In c run ⊎ (In c names × In (key c) tiers)
            → In c (run_of_tiers key floor names tiers run))
  unfolding run_of_tiers
  run-enough [] run = inr (λ c m. elim m [ inl x ↦ x | inr x ↦ absurd x.1 ])
  run-enough (t ∷ tiers) run = go (leb floor (length longer)) refl (run-enough tiers longer)
    where
      longer : List String
      longer = run ++ keep (λ name. tier_eq (key name) t) names

      carried :
          (c : String)
          → In c run ⊎ (In c names × ((key c ≡ t) ⊎ In (key c) tiers))
          → In c longer ⊎ (In c names × In (key c) tiers)
      carried c (inl x) = inl (In-append_left c run _ x)
      carried c (inr (m, inl e)) = inl (
          In-append_right c run _ (
            keep-In c (λ name. tier_eq (key name) t) names m
              (subst (λ u. tier_eq (key c) u ≡ true) e (tier_eq_refl (key c)))))
      carried c (inr (m, inr k)) = inr (m, k)

      go :
          (b : Bool)
          → leb floor (length longer) ≡ b
          → (floor ≤ length (run_of_tiers key floor names tiers longer))
            ⊎ ((c : String)
                → In c longer ⊎ (In c names × In (key c) tiers)
                → In c (run_of_tiers key floor names tiers longer))
          → (floor ≤ length (if b then longer else run_of_tiers key floor names tiers longer))
            ⊎ ((c : String)
                → In c run ⊎ (In c names × In (key c) (t ∷ tiers))
                → In c (if b then longer else run_of_tiers key floor names tiers longer))
      go true e f = inl (ground arith)
      go false e (inl f) = inl f
      go false e (inr f) = inr (λ c m. f c (carried c m))

  pub run-keeps :
      (tiers : List Tier) (run : List String) (c : String)
      → In c run
      → In c (run_of_tiers key floor names tiers run)
  unfolding run_of_tiers
  run-keeps [] run c m = m
  run-keeps (t ∷ tiers) run c m =
      go (leb floor (length longer)) longer_has (run-keeps tiers longer c longer_has)
    where
      longer : List String
      longer = run ++ keep (λ name. tier_eq (key name) t) names

      longer_has : In c longer
      longer_has = In-append_left c run _ m

      go :
          (b : Bool)
          → In c longer
          → In c (run_of_tiers key floor names tiers longer)
          → In c (if b then longer else run_of_tiers key floor names tiers longer)
      go true x y = x
      go false x y = y

  -- the names of the first tier are in the run
  pub run-first :
      (t : Tier) (tiers : List Tier) (c : String)
      → In c names
      → key c ≡ t
      → In c (run_of_tiers key floor names (t ∷ tiers) [])
  unfolding run_of_tiers
  run-first t tiers c m e = go (leb floor (length first)) has (run-keeps tiers first c has)
    where
      first : List String
      first = keep (λ name. tier_eq (key name) t) names

      has : In c first
      has =
          keep-In c (λ name. tier_eq (key name) t) names m
            (subst (λ u. tier_eq (key c) u ≡ true) e (tier_eq_refl (key c)))

      go :
          (b : Bool)
          → In c first
          → In c (run_of_tiers key floor names tiers first)
          → In c (if b then first else run_of_tiers key floor names tiers first)
      go true x y = x
      go false x y = y

pub From-map :
    {A B : Type 0} (f : A → B) (b : B) (xs : List A)
    → In b (map f xs)
    → (a : A) × (In a xs × (f a ≡ b))
From-map f b [] m = absurd m
From-map f b (x ∷ xs) (inl e) = (x, (inl refl, sym e))
From-map f b (x ∷ xs) (inr m) = (let (a, (k, e)) = From-map f b xs m in (a, (inr k, e)))
