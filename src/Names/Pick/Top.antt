-- ===== src/Names/Pick/Top.antt =====
-- The order of the tiers, and that a run is made of the top ones: `pick_name` of
-- src/ai_cli/session_naming.py.
use ai_cli_utils.Prelude.{
  ℕ, suc, ◌≤◌, ◌≡◌, refl, sym, subst, ap, ◌∙◌, ◌⊎◌, inl, inr, String, Bool, true, false, not, List,
  [], ◌∷◌, ◌++◌, length, arith, keep, Bool-cases, In, In-append, In-append_right, In-keep, keep-In,
  leb, if◌then◌else◌,
}
use ai_cli_utils.Prelude.SortedBy.{Ordered}
use ai_cli_utils.Names.Pick.{run_of_tiers, Tier, tier_eq, tier_ge}
use ai_cli_utils.Names.Pick.Tiers.{tier_eq→eq, tier_eq_refl, run-keeps}

-- the order of the tiers
pub tier_ge_total : (s t : Tier) → tier_ge s t ≡ false → tier_ge t s ≡ true
tier_ge_total (m, a) (n, b) h = ground arith

pub tier_ge_trans : (s t u : Tier) → tier_ge s t ≡ true → tier_ge t u ≡ true → tier_ge s u ≡ true
tier_ge_trans (m, a) (n, b) (o, c) h k = ground arith

pub tier_ge_antisym : (s t : Tier) → tier_ge s t ≡ true → tier_ge t s ≡ true → s ≡ t
tier_ge_antisym (m, true) (n, true) h k = ground arith
tier_ge_antisym (m, true) (n, false) h k = ground arith
tier_ge_antisym (m, false) (n, true) h k = ground arith
tier_ge_antisym (m, false) (n, false) h k = ground arith

pub tier_ge_refl : (t : Tier) → tier_ge t t ≡ true
tier_ge_refl (m, true) = ground arith
tier_ge_refl (m, false) = ground arith

append_nil_lem : (xs : List String) → xs ++ [] ≡ xs
append_nil_lem [] = refl
append_nil_lem (x ∷ xs) = ap (λ ys. x ∷ ys) (append_nil_lem xs)

append_assoc_lem : (xs ys zs : List String) → (xs ++ ys) ++ zs ≡ xs ++ (ys ++ zs)
append_assoc_lem [] ys zs = refl
append_assoc_lem (x ∷ xs) ys zs = ap (λ ws. x ∷ ws) (append_assoc_lem xs ys zs)

keep-none :
    (p : String → Bool) (ys : List String) → ((c : String) → In c ys → p c ≡ false) → keep p ys ≡ []
keep-none p [] f = refl
keep-none p (y ∷ ys) f = rw (f y (inl refl), keep-none p ys (λ c m. f c (inr m)))

keep-append-le :
    (p : String → Bool) (xs ys : List String)
    → ((c : String) → In c ys → p c ≡ false)
    → length (keep p (xs ++ ys)) ≤ length xs
keep-append-le p [] ys f = subst (λ zs. length zs ≤ 0) (sym (keep-none p ys f)) (omega arith)
keep-append-le p (x ∷ xs) ys f = (let le = keep-append-le p xs ys f in ground arith)

-- none at all, or fewer than the floor
abbrev pub Few : ℕ → ℕ → Type 0
Few floor n = (n ≡ 0) ⊎ (suc n ≤ floor)

module _ (key : String → Tier) (floor : ℕ) (names : List String) where
  -- The tiers that are left out are strictly below those of the names that were added.
  pub run-top :
      (tiers : List Tier) (run : List String)
      → Ordered tier_ge tier_ge_total tier_ge_trans tiers
      → (d : String) → In d (run_of_tiers key floor names tiers run)
      → In d run
        ⊎ ((c : String)
            → In c names
            → In (key c) tiers
            → ¬ In c (run_of_tiers key floor names tiers run)
            → tier_ge (key c) (key d) ≡ false)
  unfolding run_of_tiers
  run-top [] run o d m = inl m
  run-top (t ∷ tiers) run (first, o) d m =
      go (leb floor (length longer)) (λ c x. run-keeps key floor names tiers longer c x)
        (run-top tiers longer o d) m
    where
      longer : List String
      longer = run ++ keep (λ name. tier_eq (key name) t) names

      rest : List String
      rest = run_of_tiers key floor names tiers longer

      Above : List String → Type 0
      Above result =
          (c : String)
          → In c names
          → In (key c) (t ∷ tiers)
          → ¬ In c result
          → tier_ge (key c) (key d) ≡ false

      same_tier : (c : String) → In c names → key c ≡ t → In c longer
      same_tier c n e = In-append_right c run _ (
          keep-In c (λ name. tier_eq (key name) t) names n
            (subst (λ u. tier_eq (key c) u ≡ true) e (tier_eq_refl (key c))))

      strict :
          (c : String)
          → In c names
          → tier_ge t (key c) ≡ true
          → ¬ In c longer
          → tier_ge (key c) t ≡ false
      strict c n e out = elim (Bool-cases (tier_ge (key c) t)) [
        | inl x ↦ absurd (out (same_tier c n (tier_ge_antisym (key c) t x e)))
        | inr x ↦ x
      ]

      here :
          (result : List String)
          → ((c : String) → In c longer → In c result)
          → key d ≡ t
          → Above result
      here result keeps e c n (inl x) out = absurd (out (keeps c (same_tier c n x)))
      here result keeps e c n (inr k) out =
          subst (λ u. tier_ge (key c) u ≡ false) (sym e)
            (strict c n (first (key c) k) (λ x. out (keeps c x)))

      added :
          (result : List String)
          → ((c : String) → In c longer → In c result)
          → In d longer
          → In d run ⊎ Above result
      added result keeps k = elim (In-append d run (keep (λ name. tier_eq (key name) t) names) k) [
        | inl x ↦ inl x
        | inr x ↦ inr (here result keeps (tier_eq→eq (key d) t (In-keep d _ names x).1))
      ]

      later :
          ((c : String) → In c longer → In c rest)
          → ((c : String)
              → In c names
              → In (key c) tiers
              → ¬ In c rest
              → tier_ge (key c) (key d) ≡ false)
          → Above rest
      later keeps f c n (inl x) out = absurd (out (keeps c (same_tier c n x)))
      later keeps f c n (inr k) out = f c n k out

      go :
          (b : Bool)
          → ((c : String) → In c longer → In c rest)
          → (In d rest
              → In d longer
                ⊎ ((c : String)
                    → In c names
                    → In (key c) tiers
                    → ¬ In c rest
                    → tier_ge (key c) (key d) ≡ false))
          → In d (if b then longer else rest)
          → In d run ⊎ Above (if b then longer else rest)
      go true keeps f k = added longer (λ c x. x) k
      go false keeps f k = elim (f k) [ inl x ↦ added rest keeps x | inr g ↦ inr (later keeps g) ]

  -- what a run has gained, with tiers among those that were left
  run-split :
      (tiers : List Tier) (run : List String)
      → (more : List String) × ((run_of_tiers key floor names tiers run ≡ run ++ more)
          × ((c : String) → In c more → In (key c) tiers))
  unfolding run_of_tiers
  run-split [] run = ([], (sym (append_nil_lem run), λ c m. absurd m))
  run-split (t ∷ tiers) run = go (leb floor (length longer)) (run-split tiers longer)
    where
      new : List String
      new = keep (λ name. tier_eq (key name) t) names

      longer : List String
      longer = run ++ new

      rest : List String
      rest = run_of_tiers key floor names tiers longer

      of_tier : (c : String) → In c new → In (key c) (t ∷ tiers)
      of_tier c m = inl (tier_eq→eq (key c) t (In-keep c (λ name. tier_eq (key name) t) names m).1)

      go :
          (b : Bool)
          → ((more : List String) × ((rest ≡ longer ++ more)
                × ((c : String) → In c more → In (key c) tiers)))
          → (more : List String) × (((if b then longer else rest) ≡ run ++ more)
              × ((c : String) → In c more → In (key c) (t ∷ tiers)))
      go true f = (new, (refl, of_tier))
      go false (more, (e, f)) = (
        new ++ more,
        (
          e ∙ append_assoc_lem run new more,
          λ c m. elim (In-append c new more m) [ inl x ↦ of_tier c x | inr x ↦ inr (f c x) ],
        ),
      )

  -- The names of strictly higher tiers than that of one that was added were not enough.
  pub run-Few :
      (tiers : List Tier) (run : List String)
      → Ordered tier_ge tier_ge_total tier_ge_trans tiers
      → Few floor (length run)
      → (d : String) → In d (run_of_tiers key floor names tiers run)
      → In d run
        ⊎ Few floor (
            length
              (keep (λ c. not (tier_ge (key d) (key c))) (run_of_tiers key floor names tiers run)))
  unfolding run_of_tiers
  run-Few [] run o few d m = inl m
  run-Few (t ∷ tiers) run (first, o) few d m =
      go (leb floor (length longer)) refl (run-split (t ∷ tiers) run)
        (λ f. run-Few tiers longer o f d) m
    where
      longer : List String
      longer = run ++ keep (λ name. tier_eq (key name) t) names

      rest : List String
      rest = run_of_tiers key floor names tiers longer

      higher : String → Bool
      higher c = not (tier_ge (key d) (key c))

      below : key d ≡ t → (c : String) → In (key c) (t ∷ tiers) → higher c ≡ false
      below e c (inl x) =
          subst (λ u. not (tier_ge u (key c)) ≡ false) (sym e)
            (subst (λ u. not (tier_ge t u) ≡ false) (sym x) (ap not (tier_ge_refl t)))
      below e c (inr k) =
          subst (λ u. not (tier_ge u (key c)) ≡ false) (sym e) (ap not (first (key c) k))

      fewer : (n : ℕ) → n ≤ length run → Few floor n
      fewer n le = elim few [
        | inl x ↦ inl (omega (arith, le, x))
        | inr x ↦ inr (omega (arith, le, x))
      ]

      Split : List String → Type 0
      Split result =
          (more : List String) × ((result ≡ run ++ more)
            × ((c : String) → In c more → In (key c) (t ∷ tiers)))

      added :
          (result : List String)
          → Split result
          → In d longer
          → In d run ⊎ Few floor (length (keep higher result))
      added result (more, (e, f)) k =
          elim (In-append d run (keep (λ name. tier_eq (key name) t) names) k) [
            | inl x ↦ inl x
            | inr x ↦ inr (
                fewer (length (keep higher result)) (
                  subst (λ ys. length (keep higher ys) ≤ length run) (sym e)
                    (keep-append-le higher run more
                      (λ c n. below (tier_eq→eq (key d) t (In-keep d _ names x).1) c (f c n)))))
          ]

      go :
          (b : Bool)
          → leb floor (length longer) ≡ b
          → Split (if b then longer else rest)
          → (Few floor (length longer)
              → In d rest
              → In d longer ⊎ Few floor (length (keep higher rest)))
          → In d (if b then longer else rest)
          → In d run ⊎ Few floor (length (keep higher (if b then longer else rest)))
      go true e split f k = added longer split k
      go false e split f k = elim (f (inr (ground arith)) k) [
        | inl x ↦ added rest split x
        | inr x ↦ inr x
      ]
