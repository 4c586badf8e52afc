-- ===== src/Titles/Parsed.antt =====
-- How `parse_title` reads what was composed: src/ai_cli/session_title.py.
use ai_cli_utils.Prelude.{
  ℕ, suc, both, Bool-cases, eqb_iff, ◌⊎◌, inl, inr, ◌≡◌, refl, sym, ap, ◌∙◌, subst, Bool, true,
  false, not, ◌&&◌, ◌||◌, Option, none, some, List, [], ◌∷◌, ◌++◌, arith, all, any, length, drop,
  list_eq, eqb, if◌then◌else◌,
}
use ai_cli_utils.Titles.{
  Text, dash, is_empty, nonempty, rpartition, parts, last_segment, member, is_prefix, all_digits,
  check_label, classify_positional, ParsedTitle, Parsing, parsed, int_raises, parse_index,
  parse_segments, parse_rest, parse_title, Positional, empty_kind, slot_kind, label_kind,
  title_kind,
}

is_prefix-join : (stem t : Text) → is_prefix (stem ++ dash ∷ []) (stem ++ dash ∷ t) ≡ true
is_prefix-join [] t = refl
is_prefix-join (c ∷ cs) t = ground (arith, is_prefix-join cs t)

drop-join : (stem t : Text) → drop (suc (length stem)) (stem ++ dash ∷ t) ≡ t
drop-join [] t = refl
drop-join (c ∷ cs) t = drop-join cs t

-- a text without a dash
abbrev pub no_dash : Text → Bool
no_dash t = not (any (λ c. eqb c dash) t)

rpartition-none : (t : Text) → no_dash t ≡ true → rpartition t ≡ none
unfolding rpartition
rpartition-none [] h = refl
rpartition-none (c ∷ cs) h = ground (arith, rpartition-none cs)

rpartition-join :
    (head tail : Text) → no_dash tail ≡ true → rpartition (head ++ dash ∷ tail) ≡ some (head, tail)
unfolding rpartition
rpartition-join [] tail h = rw (rpartition-none tail h)
rpartition-join (c ∷ cs) tail h = rw (rpartition-join cs tail h)

absurd_bool : {A : Type 0} → true ≡ false → A
absurd_bool h = cc

module _ (is_digit : ℕ → Bool) (to_int : Text → Option ℕ) (names : List Text) where
  -- what follows the stem and a dash is what is parsed
  parse_title-join :
      (stem t : Text)
      → parse_title is_digit to_int names (stem ++ dash ∷ t) stem
        ≡ some (parse_rest is_digit to_int names stem t)
  unfolding parse_title
  parse_title-join stem t = go (list_eq (stem ++ dash ∷ t) stem)
    where
      go :
          (b : Bool)
          → (if not b && not (is_prefix (stem ++ dash ∷ []) (stem ++ dash ∷ t))
              then none
              else some (
                  parse_rest is_digit to_int names stem
                    (drop (suc (length stem)) (stem ++ dash ∷ t))))
            ≡ some (parse_rest is_digit to_int names stem t)
      go true = rw (drop-join stem t)
      go false = rw (is_prefix-join stem t, drop-join stem t)

  -- how the last segment of a title is read
  pub record Joined (stem head tail : Text) (p : Parsing) : Type 0 where
    pub index :
        (i : ℕ)
        → all_digits is_digit to_int names tail ≡ true
        → to_int tail ≡ some i
        → p ≡ parsed (record { stem = stem; label = nonempty head; name = none; index = some i })
    pub no_integer :
        all_digits is_digit to_int names tail ≡ true → to_int tail ≡ none → p ≡ int_raises
    pub name :
        all_digits is_digit to_int names tail ≡ false
        → member tail names ≡ true
        → p ≡ parsed (record { stem = stem; label = nonempty head; name = some tail; index = none })
    pub label :
        all_digits is_digit to_int names tail ≡ false
        → member tail names ≡ false
        → p
          ≡ parsed (record {
            stem = stem;
            label = some (head ++ dash ∷ tail);
            name = none;
            index = none;
          })

  parsed_segments :
      (stem head tail : Text)
      → Joined stem head tail
          (parse_segments is_digit to_int names stem (head ++ dash ∷ tail) (head, tail))
  parsed_segments stem head tail = record {
    index = λ i a e. rw (a, e);
    no_integer = λ a e. rw (a, e);
    name = λ a b. rw (a, b);
    label = λ a b. rw (a, b);
  }

  is_empty-join : (head tail : Text) → is_empty (head ++ dash ∷ tail) ≡ false
  is_empty-join [] tail = refl
  is_empty-join (c ∷ cs) tail = refl

  parse_rest-join :
      (stem head tail : Text)
      → no_dash tail ≡ true
      → parse_rest is_digit to_int names stem (head ++ dash ∷ tail)
        ≡ parse_segments is_digit to_int names stem (head ++ dash ∷ tail) (head, tail)
  parse_rest-join stem head tail h = rw (is_empty-join head tail, rpartition-join head tail h)

  -- A title made of a stem, a label (perhaps empty) and a last segment without a dash is read back:
  -- the segment as an index if it is digits that are an integer, as the name if it is no digits and
  -- one of the names, and as a part of the label otherwise; digits that are no integer raise.
  pub parse_title-Joined :
      (stem head tail : Text)
      → no_dash tail ≡ true
      → (p : Parsing) × ((parse_title is_digit to_int names
              (stem ++ dash ∷ (head ++ dash ∷ tail))
              stem
            ≡ some p)
          × Joined stem head tail p)
  parse_title-Joined stem head tail h = (
    parse_segments is_digit to_int names stem (head ++ dash ∷ tail) (head, tail),
    (
      parse_title-join stem (head ++ dash ∷ tail) ∙ ap some (parse_rest-join stem head tail h),
      parsed_segments stem head tail,
    ),
  )

  abbrev pub Reads : (ParsedTitle → Type 0) → Parsing → Type 0
  Reads holds (parsed p) = holds p
  Reads holds int_raises = ⊥

  -- digits at the end are an index, or no integer
  abbrev pub AgreesIndex : Option ℕ → Parsing → Type 0
  AgreesIndex none q = q ≡ int_raises
  AgreesIndex (some i) q = Reads (λ p. (p.name ≡ none) × (p.index ≡ some i)) q

  -- what a positional argument is read as, and what its title is parsed as
  abbrev pub Agrees : Positional → Parsing → Type 0
  Agrees empty_kind q = Reads (λ p. (p.label ≡ none) × ((p.name ≡ none) × (p.index ≡ none))) q
  Agrees (slot_kind t) q = AgreesIndex (to_int (last_segment t)) q
  Agrees (title_kind t name) q = Reads (λ p. (p.name ≡ some name) × (p.index ≡ none)) q
  Agrees (label_kind t) q =
      Reads
        (λ p.
          (p.label ≡ some t)
          × ((p.name ≡ none) × ((p.index ≡ none) × (check_label is_digit to_int names t ≡ none))))
        q

  parse_index-AgreesIndex :
      (stem head : Text) (o : Option ℕ) → AgreesIndex o (parse_index stem head o)
  parse_index-AgreesIndex stem head none = refl
  parse_index-AgreesIndex stem head (some i) = (refl, refl)

  all_digits-last :
      (t : Text)
      → is_digit dash ≡ false
      → all_digits is_digit to_int names t ≡ true
      → all_digits is_digit to_int names (last_segment t) ≡ true
  unfolding last_segment
  all_digits-last t d h =
      subst (λ o. all_digits is_digit to_int names (parts t o).1 ≡ true)
        (sym (rpartition-none t (plain t (both _ _ h).1))) h
    where
      one : (c : ℕ) → is_digit c ≡ true → eqb c dash ≡ false
      one c e = go (Bool-cases (eqb c dash))
        where
          go : (eqb c dash ≡ true) ⊎ (eqb c dash ≡ false) → eqb c dash ≡ false
          go (inl x) =
              absurd_bool (sym (subst (λ k. is_digit k ≡ true) ((eqb_iff c dash).0 x) e) ∙ d)
          go (inr x) = x

      plain : (t : Text) → all is_digit t ≡ true → no_dash t ≡ true
      plain [] e = refl
      plain (c ∷ cs) e = (let (x, y) = both _ _ e in rw (one c x, plain cs y))

  parse_rest-Agrees :
      (stem clean : Text)
      → is_digit dash ≡ false
      → Agrees
          (classify_positional is_digit to_int names clean)
          (parse_rest is_digit to_int names stem clean)
  unfolding classify_positional check_label last_segment
  parse_rest-Agrees stem clean d =
      go (is_empty clean) (all_digits is_digit to_int names clean)
        (all_digits is_digit to_int names tail) (member tail names) refl refl
        (all_digits-last clean d)
    where
      head : Text
      head = (parts clean (rpartition clean)).0

      tail : Text
      tail = (parts clean (rpartition clean)).1

      go :
          (e x y z : Bool)
          → all_digits is_digit to_int names tail ≡ y
          → member tail names ≡ z
          → (x ≡ true → y ≡ true)
          → Agrees
              (if e
                then empty_kind
                else if x || y
                then slot_kind clean
                else if z
                then title_kind clean tail
                else label_kind clean)
              (if e
                then parsed (record { stem = stem; label = none; name = none; index = none })
                else if y
                then parse_index stem head (to_int tail)
                else if z
                then parsed
                    (record { stem = stem; label = nonempty head; name = some tail; index = none })
                else parsed (record { stem = stem; label = some clean; name = none; index = none }))
      go true x y z p q f = (refl, (refl, refl))
      go false true true z p q f = parse_index-AgreesIndex stem head (to_int tail)
      go false true false z p q f = absurd_bool (sym (f refl))
      go false false true z p q f = parse_index-AgreesIndex stem head (to_int tail)
      go false false false true p q f = (refl, refl)
      go false false false false p q f = (refl, (refl, (refl, rw (p, q))))

  -- What a positional argument is read as is what the title made of it is parsed as, for every stem:
  -- digits at the end as the index that they are, where the parsing raises exactly if they are no
  -- integer, a name at the end as that name, and anything else as a label, which is then one that
  -- `check_label` allows; an empty one as no part. It is assumed that a dash is no digit.
  pub classify_positional-Agrees :
      (stem clean : Text)
      → is_digit dash ≡ false
      → (p : Parsing) × ((parse_title is_digit to_int names (stem ++ dash ∷ clean) stem ≡ some p)
          × Agrees (classify_positional is_digit to_int names clean) p)
  classify_positional-Agrees stem clean d = (
    parse_rest is_digit to_int names stem clean,
    (parse_title-join stem clean, parse_rest-Agrees stem clean d),
  )
