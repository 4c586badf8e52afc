-- ===== src/Names/Ledger/Chosen.antt =====
-- The name that a rename of src/ai_cli/name_registry.py takes.
use Prim.Native.String.{◌++◌ as append}
use text.Mathlib.TextLemmas.{append_assoc}
use ai_cli_utils.Prelude.{
  ℕ, ◌≡◌, refl, sym, ap, subst, ◌∙◌, String, Bool, true, false, not, ◌&&◌, ◌||◌, Option, none, some,
  List, [], In, arith, any, eqb, ◌==◌, if◌then◌else◌,
}
use ai_cli_utils.Value.Files.{lookup}
use ai_cli_utils.Names.Segment.{last_segment, last_segment-is_token}
use ai_cli_utils.Names.Pick.{one_edit, prefix_pair, text_in, is_token}
use ai_cli_utils.Names.Snapshot.{
  Snapshot, Verdict, held, confusable, word, unknown, limits, free, Policy, ok, policy, is_held,
  held_tokens, held_titles, is_common_word, available, out_of_limits,
}
use ai_cli_utils.Names.Reserve.{
  Surroundings, Slot, pick_request, pick, require_pick, title_for, prefix_from, stem,
}
use ai_cli_utils.Names.ByHand.{check_hand_chosen, verdict_in}
use ai_cli_utils.Names.Reserve.Own.{bound, ok-inj, lookup-none, pick-Free, request-covers}
use ai_cli_utils.Names.Reserve.Kept.{not_held, require_pick-some}
use ai_cli_utils.Names.Ledger.{choose_name, require_free}

prefix_lem :
    (s name : String) (label : Option String)
    → is_token name ≡ true
    → last_segment (append (prefix_from s label) name) ≡ name
prefix_lem s name none t =
    ap last_segment (append_assoc s "-" name) ∙ last_segment-is_token s name t
prefix_lem s name (some label) t = go (label == "")
  where
    go :
        (b : Bool)
        → last_segment
            (append (if b then append s "-" else append s (append "-" (append label "-"))) name)
          ≡ name
    go true = ap last_segment (append_assoc s "-" name) ∙ last_segment-is_token s name t
    go false =
        ap last_segment (
          append_assoc s (append "-" (append label "-")) name
          ∙ ap (append s) (
              append_assoc "-" (append label "-") name
              ∙ ap (append "-") (append_assoc label "-" name))
          ∙ ap (append s) (sym (append_assoc "-" label (append "-" name)))
          ∙ sym (append_assoc s (append "-" label) (append "-" name)))
        ∙ last_segment-is_token (append s (append "-" label)) name t

-- the token of a title is the name that it ends with
pub last_segment-title_for :
    (slot : Slot) (name : String) → is_token name ≡ true → last_segment (title_for slot name) ≡ name
unfolding title_for
last_segment-title_for slot name t = prefix_lem (stem slot) name slot.label t

-- a verdict that lets a name be reserved: the first and the last test do not refuse it
unrefused :
    (a b c d e f : Bool)
    → (if a
        then held
        else if b
        then confusable
        else if c
        then confusable
        else if d
        then word
        else if e
        then unknown
        else if f
        then limits
        else free)
      ≡ free
    → (a ≡ false) × (f ≡ false)
unrefused a b c d e f h = ground arith

is_token-within : (a b c : Bool) → (not a || b || c) ≡ false → a ≡ true
is_token-within a b c h = ground arith

-- a name that a rename may take
pub record Chosen (s : Snapshot) (name : String) : Type 0 where
  pub absent : lookup name s.rows ≡ none
  pub token : is_token name ≡ true

module _ (env : Surroundings) where
  open env use {writer, now}

  verdict_in-Chosen :
      (p : Policy) (s : Snapshot) (name : String) (slot : Slot) (words : List String)
      → verdict_in env p s name slot words ≡ free
      → Chosen s name
  unfolding out_of_limits
  verdict_in-Chosen p s name slot words h =
      (let (a, f) =
          unrefused (is_held name s)
            (is_token name
              && (not (eqb p.max_edit_distance 0) && any (one_edit name) (held_tokens s [])))
            (is_token name && prefix_pair (title_for slot name) (held_titles s []) (stem slot))
            (is_token name && is_common_word name p words) (not (text_in name (available s)))
            (out_of_limits name p) h in
        record { absent = not_held name s a; token = is_token-within _ _ _ f })

  require_free_lem : (v : Verdict) (u : Unit {0}) → require_free env v ≡ ok u → v ≡ free
  require_free_lem free u h = refl
  require_free_lem held u h = cc
  require_free_lem confusable u h = cc
  require_free_lem word u h = cc
  require_free_lem unknown u h = cc
  require_free_lem limits u h = cc

  check_hand_chosen-Chosen :
      (p : Snapshot) (name : String) (slot : Slot) (words : List String) (verdict : Verdict)
      → check_hand_chosen env p name slot words ≡ ok verdict
      → verdict ≡ free
      → Chosen p name
  unfolding check_hand_chosen
  check_hand_chosen-Chosen s name slot words verdict v e =
      (let (p, (q, v1)) =
          bound (policy s) (λ p. ok (verdict_in env p s name slot words)) verdict v in
        verdict_in-Chosen p s name slot words (ok-inj v1 ∙ e))

  module _
      (chosen : (names : List String) (c : String) → In c names → In (env.choice names) names) where
    pub choose_name-Chosen :
        (slot : Slot) (name : Option String) (max_length : Option ℕ) (words : List String)
        (s : Snapshot) (out : String × Option String)
        → choose_name env slot name max_length words s ≡ ok out
        → Chosen s out.0
    choose_name-Chosen slot none max_length words s out h =
        (let (request, (q, h1)) =
            bound (pick_request env s slot [] max_length (some words)) _ out h in
          let (p, (e, h2)) = bound (require_pick env (pick env request)) _ out h1 in
          let covers = request-covers env chosen s slot [] max_length (some words) request q in
          let given =
            pick-Free env chosen request p (require_pick-some env (pick env request) p e) in
          let absent = lookup-none p.name s.rows (λ m. given.not_held (covers p.name m)) in
          subst (λ o. Chosen s o.0) (ok-inj h2) (record { absent = absent; token = given.token }))
    choose_name-Chosen slot (some name) max_length words s out h =
        (let (verdict, (v, h1)) = bound (check_hand_chosen env s name slot words) _ out h in
          let (u, (e, h2)) = bound (require_free env verdict) _ out h1 in
          let allowed =
            check_hand_chosen-Chosen s name slot words verdict v (require_free_lem verdict u e) in
          subst (λ o. Chosen s o.0) (ok-inj h2) allowed)
