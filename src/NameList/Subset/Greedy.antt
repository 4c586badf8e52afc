-- ===== src/NameList/Subset/Greedy.antt =====
-- The greedy subset is independent, and nothing more can be added to it.
use mathlib.Core.Bool.{false≢true}
use ai_cli_utils.Prelude.{
  ◌≡◌, refl, sym, ◌∙◌, ◌⊎◌, inl, inr, true, List, [], ◌∷◌, ◌++◌, arith, sort_by, In-sort_by,
  sort_by-In, list_eq→eq, list_eq_refl, In, In-append, In-append_left, In-append_right, In-keep,
  keep-In, Bool-cases, subst,
}
use ai_cli_utils.NameList.Edits.{one_edit_apart, OneEdit}
use ai_cli_utils.NameList.Edits.Sound.{one_edit_apart_iff, OneEdit-symm, OneEdit-ne}
use ai_cli_utils.NameList.Subset.{
  Text, member, dedup, neighbours, greedy, text_le, key_le, one_edit_free_subset,
}

member→In : (x : Text) (xs : List Text) → member x xs ≡ true → In x xs
member→In x [] h = cc
member→In x (y ∷ ys) h = ground (arith, list_eq→eq x y, member→In x ys)

In→member : (x : Text) (xs : List Text) → In x xs → member x xs ≡ true
In→member x [] m = absurd m
In→member x (y ∷ ys) m = ground (arith, list_eq_refl x, In→member x ys)

module _ (a : Text) where
  dedup-In : (xs : List Text) → In a (dedup xs) → In a xs
  dedup-In [] m = m
  dedup-In (x ∷ xs) m = ground (arith, dedup-In xs)

  In-dedup : (xs : List Text) → In a xs → In a (dedup xs)
  In-dedup [] m = m
  In-dedup (x ∷ xs) (inl e) = elim (Bool-cases (member x (dedup xs))) [
    | inl old ↦ rw old (subst (λ t. In t (dedup xs)) (sym e) (member→In x (dedup xs) old))
    | inr new ↦ rw new (inl e)
  ]
  In-dedup (x ∷ xs) (inr m) = ground (arith, In-dedup xs m)

-- no two of the names are one edit apart
abbrev pub Independent : List Text → Type 0
Independent names = (a b : Text) → In a names → In b names → ¬ OneEdit a b

-- the name is one of them, or one edit from one of them
abbrev pub Near : Text → List Text → Type 0
Near x names = In x names ⊎ ((c : Text) × In c names × OneEdit c x)

-- What the loop keeps: the chosen names are independent, their neighbours are excluded, and what
-- is excluded is near a chosen name.
record Keeps (pool chosen excluded : List Text) : Type 0 where
  independent : Independent chosen
  shut_out : (a b : Text) → In a chosen → In b pool → OneEdit a b → In b excluded
  near : (x : Text) → In x excluded → Near x chosen
  within : (x : Text) → In x chosen → In x pool

Near-mono :
    (x : Text) (xs ys : List Text) → ((c : Text) → In c xs → In c ys) → Near x xs → Near x ys
Near-mono x xs ys f (inl m) = inl (f x m)
Near-mono x xs ys f (inr (c, m, o)) = inr (c, f c m, o)

only : (a x : Text) → In a (x ∷ []) → a ≡ x
only a x (inl e) = e
only a x (inr m) = absurd m

module _ (pool chosen excluded : List Text) (k : Keeps pool chosen excluded) (name : Text) where
  neighbour-In : (b : Text) → In b pool → OneEdit name b → In b (neighbours pool name)
  unfolding neighbours
  neighbour-In b m o = keep-In b (one_edit_apart name) pool m ((one_edit_apart_iff name b).1 o)

  -- a chosen name one edit away would have excluded `name`
  no_edit_into : In name pool → ¬ In name excluded → (a : Text) → In a chosen → ¬ OneEdit a name
  no_edit_into mem fresh a m o = fresh (k.shut_out a name m mem o)

  pick-Independent : In name pool → ¬ In name excluded → Independent (chosen ++ name ∷ [])
  pick-Independent mem fresh a b ma mb o = elim (In-append a chosen (name ∷ []) ma) [
    | inl old ↦ elim (In-append b chosen (name ∷ []) mb) [
      | inl old' ↦ k.independent a b old old' o
      | inr new' ↦ no_edit_into mem fresh a old (subst (OneEdit a) (only b name new') o)
    ]
    | inr new ↦ elim (In-append b chosen (name ∷ []) mb) [
      | inl old' ↦
          no_edit_into mem fresh b old'
            (OneEdit-symm (subst (λ t. OneEdit t b) (only a name new) o))
      | inr new' ↦ OneEdit-ne o (only a name new ∙ sym (only b name new'))
    ]
  ]

  pick_shut_out :
      (a b : Text)
      → In a (chosen ++ name ∷ [])
      → In b pool
      → OneEdit a b
      → In b (name ∷ neighbours pool name ++ excluded)
  pick_shut_out a b ma mb o = elim (In-append a chosen (name ∷ []) ma) [
    | inl old ↦ inr (In-append_right b (neighbours pool name) excluded (k.shut_out a b old mb o))
    | inr new ↦ inr (
        In-append_left b (neighbours pool name) excluded
          (neighbour-In b mb (subst (λ t. OneEdit t b) (only a name new) o)))
  ]

  name-In : In name (chosen ++ name ∷ [])
  name-In = In-append_right name chosen (name ∷ []) (inl refl)

  pick-Near :
      (x : Text) → In x (name ∷ neighbours pool name ++ excluded) → Near x (chosen ++ name ∷ [])
  unfolding neighbours
  pick-Near x (inl e) = inl (subst (λ t. In t (chosen ++ name ∷ [])) (sym e) name-In)
  pick-Near x (inr m) = elim (In-append x (neighbours pool name) excluded m) [
    | inl new ↦
        inr (
          name,
          name-In,
          (one_edit_apart_iff name x).0 (In-keep x (one_edit_apart name) pool new).1,
        )
    | inr old ↦
        Near-mono x chosen (chosen ++ name ∷ []) (λ c. In-append_left c chosen (name ∷ []))
          (k.near x old)
  ]

  pick_within : In name pool → (x : Text) → In x (chosen ++ name ∷ []) → In x pool
  pick_within mem x m = elim (In-append x chosen (name ∷ []) m) [
    | inl old ↦ k.within x old
    | inr new ↦ subst (λ t. In t pool) (sym (only x name new)) mem
  ]

  pick-Keeps :
      In name pool
      → ¬ In name excluded
      → Keeps pool (chosen ++ name ∷ []) (name ∷ neighbours pool name ++ excluded)
  pick-Keeps mem fresh = record {
    independent = pick-Independent mem fresh;
    shut_out = pick_shut_out;
    near = pick-Near;
    within = pick_within mem;
  }

Near-cons :
    (name : Text) (rest result : List Text)
    → Near name result
    → ((x : Text) → In x rest → Near x result)
    → (x : Text) → In x (name ∷ rest)
    → Near x result
Near-cons name rest result h t x (inl e) = subst (λ y. Near y result) (sym e) h
Near-cons name rest result h t x (inr m) = t x m

-- What the loop ends with: the names it was given last are near the result too.
record Result (pool chosen order result : List Text) : Type 0 where
  independent : Independent result
  grown : (x : Text) → In x chosen → In x result
  near : (x : Text) → In x order → Near x result
  within : (x : Text) → In x result → In x pool

greedy-Result :
    (pool order chosen excluded : List Text)
    → ((x : Text) → In x order → In x pool)
    → Keeps pool chosen excluded
    → Result pool chosen order (greedy pool order chosen excluded)
unfolding greedy
greedy-Result pool [] chosen excluded sub k = record {
  independent = k.independent;
  grown = λ x m. m;
  near = λ x m. absurd m;
  within = k.within;
}
greedy-Result pool (name ∷ rest) chosen excluded sub k = elim (Bool-cases (member name excluded)) [
  | inl old ↦ rw old (
      passed _ (greedy-Result pool rest chosen excluded (λ x m. sub x (inr m)) k)
        (member→In name excluded old))
  | inr new ↦ rw new (
      picked _ (
        greedy-Result pool rest (chosen ++ name ∷ []) (name ∷ neighbours pool name ++ excluded)
          (λ x m. sub x (inr m))
          (pick-Keeps pool chosen excluded k name (sub name (inl refl))
            (λ m. false≢true (sym new ∙ In→member name excluded m)))))
]
  where
    passed :
        (result : List Text)
        → Result pool chosen rest result
        → In name excluded
        → Result pool chosen (name ∷ rest) result
    passed result r old = record {
      independent = r.independent;
      grown = r.grown;
      near =
          Near-cons name rest result (Near-mono name chosen result r.grown (k.near name old))
            r.near;
      within = r.within;
    }

    picked :
        (result : List Text)
        → Result pool (chosen ++ name ∷ []) rest result
        → Result pool chosen (name ∷ rest) result
    picked result r = record {
      independent = r.independent;
      grown = λ x m. r.grown x (In-append_left x chosen (name ∷ []) m);
      near =
          Near-cons name rest result (inl (r.grown name (name-In pool chosen excluded k name)))
            r.near;
      within = r.within;
    }

ordered : List Text → List Text
ordered names = let pool = sort_by text_le (dedup names) in sort_by (key_le pool) pool

subset-Result :
    (names : List Text)
    → Result
        (sort_by text_le (dedup names))
        []
        (ordered names)
        (greedy (sort_by text_le (dedup names)) (ordered names) [] [])
unfolding ordered
subset-Result names =
    let pool = sort_by text_le (dedup names) in
    greedy-Result pool (sort_by (key_le pool) pool) [] [] (λ x. In-sort_by (key_le pool) x pool)
      (record {
        independent = λ a b m. absurd m;
        shut_out = λ a b m. absurd m;
        near = λ x m. absurd m;
        within = λ x m. absurd m;
      })

-- The subset holds only given names, no two of them are one edit apart, and every given name is in
-- it or one edit from a name in it, so no name can be added.
pub one_edit_free_subset_maximal :
    (names : List Text)
    → ((x : Text) → In x (one_edit_free_subset names) → In x names)
      × Independent (one_edit_free_subset names)
      × ((x : Text) → In x names → Near x (one_edit_free_subset names))
unfolding one_edit_free_subset ordered
one_edit_free_subset_maximal names =
    let pool = sort_by text_le (dedup names) in
    let r = subset-Result names in
    let found = greedy pool (ordered names) [] [] in
    (
      λ x m.
          dedup-In x names
            (In-sort_by text_le x (dedup names) (r.within x (In-sort_by text_le x found m))),
      λ a b ma mb.
          r.independent a b (In-sort_by text_le a found ma) (In-sort_by text_le b found mb),
      λ x m.
          Near-mono x found (sort_by text_le found) (λ c. sort_by-In text_le c found)
            (r.near x (
              sort_by-In (key_le pool) x pool
                (sort_by-In text_le x (dedup names) (In-dedup x names m)))),
    )
