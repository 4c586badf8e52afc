-- ===== src/Names/Pick/Candidates.antt =====
-- Which names are free for a request: src/ai_cli/session_naming.py.
use Prim.Native.String.{◌++◌ as append}
use ai_cli_utils.Prelude.{
  Bool-cases, eqb_iff, ℕ, ◌≤◌, ◌≡◌, refl, sym, subst, ◌↔◌, ◌⊎◌, inl, inr, String, Bool, true, false,
  not, ◌&&◌, ◌||◌, Option, none, some, List, [], ◌∷◌, ◌++◌, arith, any, keep, In, In-append,
  In-append_left, In-append_right, In-keep, keep-In, In-sort_by, sort_by-In, In-distinct,
  distinct-In, any-In, leb, eqb, ◌==◌, eq_iff, eq_refl, if◌then◌else◌,
}
use ai_cli_utils.Names.Pick.{
  PickRequest, Filter, removed_by, name_candidates, prefix_pair, is_token, size, text_in, by_hand,
  passes, one_edit, is_free, considered, outside_limits, denylisted, failing_static, held_already,
  near_held, reserved_word, prefix_title,
}

pub any-In_iff : (name : String) (names : List String) → (text_in name names ≡ true) ↔ In name names
any-In_iff name names = (any-In ◌==◌ (λ a b. (eq_iff a b).0) name names, found names)
  where
    found : (ts : List String) → In name ts → text_in name ts ≡ true
    found [] m = absurd m
    found (t ∷ ts) m = ground (arith, found ts, eq_refl name)

-- a name may be given for a request
pub record Free (r : PickRequest) (name : String) : Type 0 where
  pub known : In name r.generated ⊎ (In name r.manual × (passes r.passes_static name ≡ true))
  pub token : is_token name ≡ true
  pub long_enough : r.min_length ≤ size name
  pub short_enough : size name ≤ r.max_length
  pub allowed : ¬ In name r.denylist
  pub not_held : ¬ In name r.held
  pub not_near :
      (held : String) → In held r.held → (r.max_edit_distance ≡ 0) ⊎ (one_edit name held ≡ false)
  pub not_reserved : ¬ In name r.reserved_words
  pub no_pair : prefix_pair (append r.title_prefix name) r.held_titles r.stem ≡ false

-- a test of the chain, and what follows it
gate :
    (b : Bool) (f : Filter) (rest : Option Filter)
    → (if b then some f else rest) ≡ none
    → (b ≡ false) × (rest ≡ none)
gate true f rest h = cc
gate false f rest h = (refl, h)

pub absent : (name : String) (names : List String) → text_in name names ≡ false → ¬ In name names
absent name names h m = cc ((any-In_iff name names).1 m, h)

pub unlisted : (name : String) (names : List String) → ¬ In name names → text_in name names ≡ false
unlisted name names f = go (text_in name names) refl
  where
    go : (b : Bool) → text_in name names ≡ b → b ≡ false
    go true e = absurd (f ((any-In_iff name names).0 e))
    go false e = refl

neither : (a b : Bool) → (a || b) ≡ false → (a ≡ false) × (b ≡ false)
neither a b h = ground arith

-- none of the elements passes
none_near :
    (p : String → Bool) (ts : List String) → any p ts ≡ false → (t : String) → In t ts → p t ≡ false
none_near p [] h t m = absurd m
none_near p (x ∷ ts) h t (inl e) = subst (λ u. p u ≡ false) (sym e) (neither (p x) (any p ts) h).0
none_near p (x ∷ ts) h t (inr m) = none_near p ts (neither (p x) (any p ts) h).1 t m

all_far :
    (p : String → Bool) (ts : List String)
    → ((t : String) → In t ts → p t ≡ false)
    → any p ts ≡ false
all_far p [] f = refl
all_far p (x ∷ ts) f = rw (f x (inl refl), all_far p ts (λ t m. f t (inr m)))

-- where a considered name comes from
considered-known :
    (r : PickRequest) (name : String)
    → In name (considered r)
    → (text_in name (by_hand r) && not (passes r.passes_static name)) ≡ false
    → In name r.generated ⊎ (In name r.manual × (passes r.passes_static name ≡ true))
considered-known r name m h =
    go (In-append name r.generated (by_hand r) (In-distinct ◌==◌ name _ (In-sort_by _ name _ m)))
  where
    go :
        In name r.generated ⊎ In name (by_hand r)
        → In name r.generated ⊎ (In name r.manual × (passes r.passes_static name ≡ true))
    go (inl x) = inl x
    go (inr x) =
        (let (m, test) = In-keep name (λ t. not (text_in t r.generated)) r.manual x in
          let listed = (any-In_iff name (by_hand r)).1 x in inr (m, ground arith))

known-considered :
    (r : PickRequest) (name : String)
    → In name r.generated ⊎ (In name r.manual × (passes r.passes_static name ≡ true))
    → In name (considered r)
      × ((text_in name (by_hand r) && not (passes r.passes_static name)) ≡ false)
known-considered r name k = go k (Bool-cases (text_in name r.generated))
  where
    sound : (a b : String) → (a == b) ≡ true → a ≡ b
    sound a b = (eq_iff a b).0

    listed : In name (r.generated ++ by_hand r) → In name (considered r)
    listed m = sort_by-In _ name _ (distinct-In ◌==◌ sound name _ m)

    generated :
        In name r.generated
        → In name (considered r)
          × ((text_in name (by_hand r) && not (passes r.passes_static name)) ≡ false)
    generated m = (
      listed (In-append_left name r.generated (by_hand r) m),
      rw (
          unlisted name (by_hand r) (λ b. cc (
            (any-In_iff name r.generated).1 m,
            (In-keep name (λ t. not (text_in t r.generated)) r.manual b).1,
          ))),
    )

    go :
        In name r.generated ⊎ (In name r.manual × (passes r.passes_static name ≡ true))
        → (text_in name r.generated ≡ true) ⊎ (text_in name r.generated ≡ false)
        → In name (considered r)
          × ((text_in name (by_hand r) && not (passes r.passes_static name)) ≡ false)
    go (inl m) c = generated m
    go (inr (m, p)) (inl c) = generated ((any-In_iff name r.generated).0 c)
    go (inr (m, p)) (inr c) = (
      listed (
          In-append_right name r.generated (by_hand r)
            (keep-In name (λ t. not (text_in t r.generated)) r.manual m (rw c))),
      ground arith,
    )

-- the tests of `removed_by` in their order
removed_by-Free :
    (r : PickRequest) (name : String)
    → In name (considered r)
    → removed_by r name ≡ none
    → Free r name
unfolding removed_by
removed_by-Free r name m h =
    (let (n0, r0) =
        gate
          (not (is_token name)
            || not (leb r.min_length (size name) && leb (size name) r.max_length))
          outside_limits _ h in
      let (n1, r1) = gate (text_in name r.denylist) denylisted _ r0 in
      let (n2, r2) =
        gate (text_in name (by_hand r) && not (passes r.passes_static name)) failing_static _ r1 in
      let (n3, r3) = gate (text_in name r.held) held_already _ r2 in
      let (n4, r4) =
        gate (not (eqb r.max_edit_distance 0) && any (one_edit name) r.held) near_held _ r3 in
      let (n5, r5) = gate (text_in name r.reserved_words) reserved_word _ r4 in
      let (n6, r6) =
        gate (prefix_pair (append r.title_prefix name) r.held_titles r.stem) prefix_title _ r5 in
      let (t, l) = within _ _ _ _ n0 in
      record {
        known = considered-known r name m n2;
        token = t;
        long_enough = l.0;
        short_enough = l.1;
        allowed = absent name r.denylist n1;
        not_held = absent name r.held n3;
        not_near = λ held k. far held k (Bool-cases (eqb r.max_edit_distance 0)) n4;
        not_reserved = absent name r.reserved_words n5;
        no_pair = n6;
      })
  where
    within :
        (b : Bool) (low n high : ℕ)
        → (not b || not (leb low n && leb n high)) ≡ false
        → (b ≡ true) × ((low ≤ n) × (n ≤ high))
    within b low n high h = ground arith

    far :
        (held : String)
        → In held r.held
        → (eqb r.max_edit_distance 0 ≡ true) ⊎ (eqb r.max_edit_distance 0 ≡ false)
        → (not (eqb r.max_edit_distance 0) && any (one_edit name) r.held) ≡ false
        → (r.max_edit_distance ≡ 0) ⊎ (one_edit name held ≡ false)
    far held k (inl e) x = inl ((eqb_iff r.max_edit_distance 0).0 e)
    far held k (inr e) x = inr (
        none_near (one_edit name) r.held
          (subst (λ b. (not b && any (one_edit name) r.held) ≡ false) e x) held k)

Free-removed_by : (r : PickRequest) (name : String) → Free r name → removed_by r name ≡ none
unfolding removed_by
Free-removed_by r name f = rw (
  inside,
  unlisted name r.denylist f.allowed,
  (known-considered r name f.known).1,
  unlisted name r.held f.not_held,
  distant (Bool-cases (eqb r.max_edit_distance 0)),
  unlisted name r.reserved_words f.not_reserved,
  f.no_pair,
)
  where
    inside :
        (not (is_token name) || not (leb r.min_length (size name) && leb (size name) r.max_length))
        ≡ false
    inside = ground (arith, f.token, f.long_enough, f.short_enough)

    distant :
        (eqb r.max_edit_distance 0 ≡ true) ⊎ (eqb r.max_edit_distance 0 ≡ false)
        → (not (eqb r.max_edit_distance 0) && any (one_edit name) r.held) ≡ false
    distant (inl e) = rw e
    distant (inr e) = rw (e, all_far (one_edit name) r.held near)
      where
        near : (held : String) → In held r.held → one_edit name held ≡ false
        near held k = go (f.not_near held k)
          where
            go :
                (r.max_edit_distance ≡ 0) ⊎ (one_edit name held ≡ false)
                → one_edit name held ≡ false
            go (inl x) = cc ((eqb_iff r.max_edit_distance 0).1 x, e)
            go (inr x) = x

-- The candidates for a request are exactly the names that may be given: generated, or added by hand
-- and passing the static filters; a token within the limits of length; not denied, held, reserved,
-- near a held name while that is asked for, or one of a prefix pair of titles.
pub name_candidates-Free :
    (r : PickRequest) (name : String) → In name (name_candidates r).0 ↔ Free r name
unfolding name_candidates
name_candidates-Free r name = (free, candidate)
  where
    is_none : (o : Option Filter) → is_free o ≡ true → o ≡ none
    is_none none h = refl
    is_none (some f) h = cc

    free : In name (keep (λ n. is_free (removed_by r n)) (considered r)) → Free r name
    free m =
        (let (k, h) = In-keep name (λ n. is_free (removed_by r n)) (considered r) m in
          removed_by-Free r name k (is_none (removed_by r name) h))

    candidate : Free r name → In name (keep (λ n. is_free (removed_by r n)) (considered r))
    candidate f =
        keep-In name (λ n. is_free (removed_by r n)) (considered r)
          (known-considered r name f.known).0 (rw (Free-removed_by r name f))
