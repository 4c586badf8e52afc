-- ===== src/Names/Pick/Picked.antt =====
-- What `pick_name` of src/ai_cli/session_naming.py picks.
use ai_cli_utils.Prelude.{
  eqb_iff, ℕ, ◌≤◌, ◌≡◌, refl, sym, subst, ◌∙◌, ◌⊎◌, inl, inr, String, none, some, List, [], ◌∷◌,
  map, length, In, Bool, false, not, keep, In-keep, keep-In, In-sort_by, sort_by, sort_by-In,
  In-distinct, distinct, distinct-In, eqb,
}
use ai_cli_utils.Names.Pick.{
  PickRequest, NamePick, name_candidates, pick_from, pick_name, picked_from, top_run, run_of_tiers,
  shortest, at_length, key_of, size, Tier, tier_eq, tier_ge, text_le,
}
use ai_cli_utils.Names.Pick.Candidates.{Free, name_candidates-Free}
use ai_cli_utils.Prelude.SortedBy.{Ordered, sort_by-Ordered}
use ai_cli_utils.Names.Pick.Top.{tier_ge_total, tier_ge_trans, run-top, Few, run-Few}
use ai_cli_utils.Names.Pick.Tiers.{
  tier_eq→eq, In-map, shortest-le, shortest-attained, From-map, run-In, run-enough, run-first,
}

module _ (lower_case : String → String) (choice : List String → String) (r : PickRequest) where
  ranked : List String → List Tier
  ranked names = sort_by tier_ge (distinct tier_eq (map (key_of lower_case choice r) names))

  tier-In :
      (names : List String) (c : String)
      → In c names
      → In (key_of lower_case choice r c) (ranked names)
  unfolding ranked
  tier-In names c m =
      sort_by-In tier_ge _ _
        (distinct-In tier_eq tier_eq→eq _ _ (In-map (key_of lower_case choice r) c names m))

  top_run-nonempty :
      (names : List String) (c : String)
      → In c names
      → (d : String) × In d (top_run lower_case choice r names)
  unfolding top_run ranked
  top_run-nonempty names c m = go (ranked names) (tier-In names c m) (λ t k.
      From-map (key_of lower_case choice r) t names
        (In-distinct tier_eq t _ (In-sort_by tier_ge t _ k)))
    where
      go :
          (tiers : List Tier)
          → In (key_of lower_case choice r c) tiers
          → ((t : Tier)
              → In t tiers
              → (d : String) × (In d names × (key_of lower_case choice r d ≡ t)))
          → (d : String) × In d
              (run_of_tiers (key_of lower_case choice r) r.pick_floor names tiers [])
      go [] k f = absurd k
      go (t ∷ tiers) k f =
          (let (d, (n, e)) = f t (inl refl) in
            (d, run-first (key_of lower_case choice r) r.pick_floor names t tiers d n e))

  -- whether a name is of a strictly higher tier than another
  abbrev pub higher : String → String → Bool
  higher d c = not (tier_ge (key_of lower_case choice r d) (key_of lower_case choice r c))

  -- what holds of a pick
  pub record Picked (p : NamePick) : Type 0 where
    pub free : Free r p.name
    pub short : (c : String) → Free r c → size p.name ≤ size c
    pub total : p.free_total ≡ length (name_candidates r).0
    -- the names that it was picked from
    pub run : List String
    pub in_run : In p.name run
    pub run_length : p.run_size ≡ length run
    pub run_free : (c : String) → In c run → Free r c × (size c ≡ size p.name)
    pub wide :
        (r.pick_floor ≤ p.run_size) ⊎ ((c : String) → Free r c → size c ≡ size p.name → In c run)
    -- it is made of whole tiers, the top ones: what is left out is of a strictly lower tier
    pub top :
        (d c : String)
        → In d run
        → Free r c
        → size c ≡ size p.name
        → ¬ In c run
        → tier_ge (key_of lower_case choice r c) (key_of lower_case choice r d) ≡ false
    -- and of no more tiers than needed: the names above any tier in it were not enough
    pub lean : (d : String) → In d run → Few r.pick_floor (length (keep (higher d) run))
    pub tier : p.tier ≡ key_of lower_case choice r p.name

  module _
      (chosen : (names : List String) (c : String) → In c names → In (choice names) names) where
    -- what is picked from the candidates `c ∷ cs`, where those are the free names
    picked_lem :
        (c : String) (cs : List String)
        → ((d : String) → In d (c ∷ cs) → Free r d)
        → ((d : String) → Free r d → In d (c ∷ cs))
        → length (c ∷ cs) ≡ length (name_candidates r).0
        → Picked (
            picked_from lower_case choice r
              (c ∷ cs)
              (at_length lower_case choice (shortest (size c) cs) (c ∷ cs)))
    unfolding top_run
    picked_lem c cs sound complete counted = record {
      free = free_at name (from_run name in_run);
      short = λ d f.
          subst (λ n. n ≤ size d) (sym (of_length name (from_run name in_run)))
            (least d (complete d f));
      total = counted;
      run = run;
      in_run = in_run;
      run_length = refl;
      run_free = λ d m. (
        free_at d (from_run d m),
        of_length d (from_run d m) ∙ sym (of_length name (from_run name in_run)),
      );
      wide = elim (run-enough (key_of lower_case choice r) r.pick_floor names (ranked_tiers) []) [
        | inl x ↦ inl x
        | inr f ↦ inr (λ d free same. f d (
            inr (
              at d (complete d free) (same ∙ of_length name (from_run name in_run)),
              tiers_have d (at d (complete d free) (same ∙ of_length name (from_run name in_run))),
            )))
      ];
      top = λ d x m free same out.
          (let has = at x (complete x free) (same ∙ of_length name (from_run name in_run)) in
            elim (run-top key r.pick_floor names ranked_tiers [] ordered d m) [
              | inl y ↦ absurd y
              | inr f ↦ f x has (tiers_have x has) out
            ]);
      lean = λ d m. elim (run-Few key r.pick_floor names ranked_tiers [] ordered (inl refl) d m) [
        | inl y ↦ absurd y
        | inr f ↦ f
      ];
      tier = refl;
    }
      where
        key : String → Tier
        key = key_of lower_case choice r

        n : ℕ
        n = shortest (size c) cs

        names : List String
        names = at_length lower_case choice n (c ∷ cs)

        ranked_tiers : List Tier
        ranked_tiers = sort_by tier_ge (distinct tier_eq (map (key_of lower_case choice r) names))

        ordered : Ordered tier_ge tier_ge_total tier_ge_trans ranked_tiers
        ordered =
            sort_by-Ordered tier_ge tier_ge_total tier_ge_trans
              (distinct tier_eq (map (key_of lower_case choice r) names))

        run : List String
        run = top_run lower_case choice r names

        name : String
        name = choice (sort_by text_le run)

        tiers_have : (d : String) → In d names → In (key_of lower_case choice r d) ranked_tiers
        tiers_have d m =
            sort_by-In tier_ge _ _
              (distinct-In tier_eq tier_eq→eq _ _ (In-map (key_of lower_case choice r) d names m))

        at : (d : String) → In d (c ∷ cs) → size d ≡ n → In d names
        at d m e = keep-In d (λ x. eqb (size x) n) (c ∷ cs) m ((eqb_iff (size d) n).1 e)

        attained : (d : String) × In d names
        attained = elim (shortest-attained (size c) cs) [
          | inl e ↦ (c, at c (inl refl) (sym e))
          | inr x ↦ (x.0, at x.0 (inr x.1.0) x.1.1)
        ]

        least : (d : String) → In d (c ∷ cs) → n ≤ size d
        least d (inl e) = subst (λ x. n ≤ size x) (sym e) (shortest-le (size c) cs).0
        least d (inr m) = (shortest-le (size c) cs).1 d m

        of_length : (d : String) → In d names → size d ≡ n
        of_length d m = (eqb_iff (size d) n).0 (In-keep d (λ x. eqb (size x) n) (c ∷ cs) m).1

        free_at : (d : String) → In d names → Free r d
        free_at d m = sound d (In-keep d (λ x. eqb (size x) n) (c ∷ cs) m).0

        from_run : (d : String) → In d run → In d names
        from_run d m =
            elim (run-In (key_of lower_case choice r) r.pick_floor names ranked_tiers [] d m) [
              | inl x ↦ absurd x
              | inr x ↦ x
            ]

        in_run : In name run
        in_run =
            (let (d, m) = top_run-nonempty names attained.0 attained.1 in
              In-sort_by text_le name run
                (chosen (sort_by text_le run) d (sort_by-In text_le d run m)))

    -- If any name is free for the request, a name is picked: it is free, none that is free is shorter,
    -- and it comes from the top run of its length: free names of that length, of which there are as
    -- many as the floor asks for or all; every free name of that length that is left out is of a
    -- strictly lower tier than each of them, and those of strictly higher tiers than one of them are
    -- none or fewer than the floor. If none is free, the picker raises. It is assumed that the random
    -- choice answers an element of a list that has one.
    pub pick_name-Picked :
        ((p : NamePick) × ((pick_name lower_case choice r ≡ some p) × Picked p))
        ⊎ ((pick_name lower_case choice r ≡ none) × ((c : String) → ¬ Free r c))
    unfolding pick_name
    pick_name-Picked =
        go (name_candidates r).0 (λ d. (name_candidates-Free r d).0)
          (λ d. (name_candidates-Free r d).1) refl
      where
        go :
            (cs : List String)
            → ((d : String) → In d cs → Free r d)
            → ((d : String) → Free r d → In d cs)
            → length cs ≡ length (name_candidates r).0
            → ((p : NamePick) × ((pick_from lower_case choice r cs ≡ some p) × Picked p))
              ⊎ ((pick_from lower_case choice r cs ≡ none) × ((c : String) → ¬ Free r c))
        go [] sound complete e = inr (refl, λ c f. complete c f)
        go (c ∷ cs) sound complete e = inl (_, (refl, picked_lem c cs sound complete e))
