-- ===== src/Names/Release/Tested.antt =====
-- What a reconcile of src/ai_cli/name_registry.py may write.
use ai_cli_utils.Prelude.{
  ◌≡◌, refl, ◌∙◌, Bool, true, false, sym, ap, subst, ◌⊎◌, inl, inr, String, not, Option, none, some,
  List, [], ◌∷◌, ◌++◌, In, All, All-In, All-of, In-append, In-append_left, In-keep, keep-In, keep,
  some-inj,
}
use ai_cli_utils.Value.Dicts.{Dict}
use ai_cli_utils.Value.Files.{lookup}
use ai_cli_utils.Names.Pick.{text_in}
use ai_cli_utils.Names.Snapshot.{
  Snapshot, Policy, ok, Write, put_row, drop_row, put_entry, drop_entry, Change, Build, policy,
  held_tokens, keys, Entries,
}
use ai_cli_utils.Names.Reserve.{Surroundings, spare_writes}
use ai_cli_utils.Names.Reserve.Own.{bound, ok-inj, Own, spare_writes-Own}
use ai_cli_utils.Names.Release.{
  Probes, Report, Marked, tokens, candidates_in, unchanged, spare_plan, reconcile_plan, ready,
  spare_ready, without, drops, change_of, top_up_slot, transacts, reconcile_build, reconcile_next,
  reconcile,
}
use ai_cli_utils.Names.Release.Found.{
  tokens-In, TestedRow, SurplusRow, Allowed, Origin, candidates_in-Origin, ContentsTold,
  ready-TestedRow, spare_ready-SurplusRow, drops-In, without-covers,
}

transacts-inj : {a b : Build Report} → transacts a ≡ transacts b → a ≡ b
transacts-inj h = cc

module _ (env : Surroundings) (probes : Probes) (blob : Dict → String) (machine : String) where
  held-covers :
      (gone : List String) (tip : Snapshot) (spool : Entries) (token : String)
      → In token (keys (without env probes blob machine gone tip.rows))
      → In token (keep (λ t. not (text_in t gone)) (held_tokens tip spool))
  unfolding held_tokens
  held-covers gone tip spool token m =
      (let (k, out) = without-covers env probes blob machine gone token tip.rows m in
        keep-In token (λ t. not (text_in t gone)) (keys tip.rows ++ keys spool)
          (In-append_left token (keys tip.rows) (keys spool) k) (ap not out))

  change_of_lem :
      (ws : List Write) (r : Report) (change : Change Report)
      → change_of env probes blob machine ws r ≡ ok (some change)
      → record { writes = ws; result = r } ≡ change
  change_of_lem [] r change h = cc
  change_of_lem (w ∷ ws) r change h = some-inj (ok-inj h)

  drops_all :
      (token : String) (gone : List String)
      → In token gone
      → In (drop_row token) (drops env probes blob machine gone)
  drops_all token [] m = absurd m
  drops_all token (t ∷ gone) (inl e) = inl (ap drop_row e)
  drops_all token (t ∷ gone) (inr m) = inr (drops_all token gone m)

  Own-Allowed :
      (tested tip : Snapshot) (spool : Entries) (gone : List String) (w : Write)
      → Own env machine (record tip { rows = without env probes blob machine gone tip.rows }) w
      → Allowed env probes blob machine tested tip spool gone w
  Own-Allowed tested tip spool gone (put_row token row) o = o
  Own-Allowed tested tip spool gone (drop_row token) o = absurd o
  Own-Allowed tested tip spool gone (put_entry shelf name entry) o = tt
  Own-Allowed tested tip spool gone (drop_entry shelf name) o = tt

  module _
      (chosen : (names : List String) (c : String) → In c names → In (env.choice names) names) where
    written :
        (tested tip : Snapshot) (spool : Entries) (gone : List String) (more : List Write)
        → All
            (Own env machine (record tip { rows = without env probes blob machine gone tip.rows }))
            more
        → ((token : String)
            → In token gone
            → Allowed env probes blob machine tested tip spool gone (drop_row token))
        → (x : Write) → In x (drops env probes blob machine gone) ⊎ In x more
        → Allowed env probes blob machine tested tip spool gone x
    written tested tip spool gone more own f x (inl m) =
        (let (token, (k, e)) = drops-In env probes blob machine x gone m in
          subst (Allowed env probes blob machine tested tip spool gone) (sym e) (f token k))
    written tested tip spool gone more own f x (inr m) = Own-Allowed tested tip spool gone x (
        All-In
          (Own env machine (record tip { rows = without env probes blob machine gone tip.rows })) x
          more m own)

    planned-Origin :
        (title : Option String) (tested again : Snapshot) (before : Entries)
        (plan : List Marked × List Marked)
        → reconcile_plan env probes blob machine title tested again before ≡ ok plan
        → (m : Marked) → In m plan.0
        → Origin env probes blob machine title tested tested.rows m
    unfolding reconcile_plan
    planned-Origin title tested again before plan planned m k =
        (let (spares, (f, g)) =
            bound (spare_plan env probes blob machine title again before)
              (λ x. ok (
                keep (unchanged env probes blob machine again)
                    (candidates_in env probes blob machine title tested tested.rows),
                x,
              ))
              plan planned in
          let k' = subst (λ x. In m x.0) (sym (ok-inj g)) k in
          candidates_in-Origin env probes blob machine title tested tested.rows m
            (In-keep m (unchanged env probes blob machine again)
              (candidates_in env probes blob machine title tested tested.rows) k').0)

    dropped_lem :
        (title : Option String) (tested tip : Snapshot)
        (told : ContentsTold env probes blob machine tested tip) (spool : Entries)
        (plan : List Marked × List Marked) (p : Policy)
        → policy tip ≡ ok p
        → ((m : Marked) → In m plan.0 → Origin env probes blob machine title tested tested.rows m)
        → (token : String)
        → In token (
            tokens (keep (ready env probes blob machine tip) plan.0)
            ++ tokens (keep (spare_ready env probes blob machine tip spool p) plan.1))
        → (row : Dict) × ((lookup token tip.rows ≡ some row)
            × (TestedRow env probes blob machine tested tip token row
                ⊎ SurplusRow env probes blob machine tip spool token row))
    dropped_lem title tested tip told spool plan p q origins token k =
        elim (In-append token (tokens (keep (ready env probes blob machine tip) plan.0))
          (tokens (keep (spare_ready env probes blob machine tip spool p) plan.1)) k) [
            | inl x ↦
                (let (b, y) = tokens-In token (keep (ready env probes blob machine tip) plan.0) x in
                  let (z, r) = In-keep (token, b) (ready env probes blob machine tip) plan.0 y in
                  let (row, (l, t)) =
                    ready-TestedRow env probes blob machine tested tip told title (token, b)
                      (origins (token, b) z) r in
                  (row, (l, inl t)))
            | inr x ↦
                (let (b, y) =
                    tokens-In token (keep (spare_ready env probes blob machine tip spool p) plan.1)
                      x in
                  let (z, r) =
                    In-keep (token, b) (spare_ready env probes blob machine tip spool p) plan.1 y in
                  let (row, (l, t)) =
                    spare_ready-SurplusRow env probes blob machine tip spool p (token, b) q r in
                  (row, (l, inr t)))
          ]

    -- the transaction that a reconcile runs, and what it may write
    pub record Reconciled (dry_run : Bool) (title : Option String) (tested tip : Snapshot)
        (spool : Entries) (change : Change Report) : Type 0 where
      pub no_dry_run : dry_run ≡ false
      pub asked :
          (title ≡ none)
          ⊎ ((m : Marked) × Origin env probes blob machine title tested tested.rows m)
      pub dropped :
          (token : String)
          → In token (change.result.released ++ change.result.spares_released)
          → In (drop_row token) change.writes
      pub allowed :
          All
            (Allowed env probes blob machine tested tip spool
              (change.result.released ++ change.result.spares_released))
            change.writes

    reconcile_build-Allowed :
        (title : Option String) (tested tip : Snapshot) (spool : Entries)
        (plan : List Marked × List Marked) (host_alias : String) (change : Change Report)
        → ContentsTold env probes blob machine tested tip
        → ((m : Marked) → In m plan.0 → Origin env probes blob machine title tested tested.rows m)
        → reconcile_build env probes blob machine host_alias plan spool tip ≡ ok (some change)
        → ((token : String)
            → In token (change.result.released ++ change.result.spares_released)
            → In (drop_row token) change.writes)
          × All
              (Allowed env probes blob machine tested tip spool
                (change.result.released ++ change.result.spares_released))
              change.writes
    unfolding reconcile_build held_tokens
    reconcile_build-Allowed title tested tip spool plan host_alias change told origins h =
        (let (p, (q, h1)) = bound (policy tip) _ (some change) h in
          let rows_out = tokens (keep (ready env probes blob machine tip) plan.0) in
          let spares_out = tokens (keep (spare_ready env probes blob machine tip spool p) plan.1) in
          let gone = rows_out ++ spares_out in
          let left : Snapshot = record tip {
            rows = without env probes blob machine gone tip.rows;
          } in
          let held = keep (λ token. not (text_in token gone)) (held_tokens tip spool) in
          let (top_up, (w, h2)) =
            bound (spare_writes env left (top_up_slot env probes blob machine host_alias) held none)
              _ (some change) h1 in
          let own =
            spare_writes-Own env chosen left (top_up_slot env probes blob machine host_alias) held
              none top_up (held-covers gone tip spool) w in
          let built =
            All-of (Allowed env probes blob machine tested tip spool gone)
              (drops env probes blob machine gone ++ top_up.0)
              (λ x m.
                written tested tip spool gone top_up.0 own
                  (dropped_lem title tested tip told spool plan p q origins) x
                  (In-append x (drops env probes blob machine gone) top_up.0 m)) in
          let out : (token : String)
              → In token gone
              → In (drop_row token) (drops env probes blob machine gone ++ top_up.0) =
            λ token m.
              In-append_left (drop_row token) (drops env probes blob machine gone) top_up.0
                (drops_all token gone m) in
          subst
            (λ x.
              ((token : String)
                → In token (x.result.released ++ x.result.spares_released)
                → In (drop_row token) x.writes)
              × All
                  (Allowed env probes blob machine tested tip spool
                    (x.result.released ++ x.result.spares_released))
                  x.writes)
            (change_of_lem _ _ change h2) (out, built))

    -- a transaction is run only without a dry run, and for a title only if something was found
    next_lem :
        (dry_run : Bool) (title : Option String) (host_alias : String)
        (plan : List Marked × List Marked) (spool : Entries) (build : Build Report)
        → reconcile_next env probes blob machine dry_run title host_alias plan spool
          ≡ transacts build
        → (dry_run ≡ false)
          × ((reconcile_build env probes blob machine host_alias plan spool ≡ build)
              × ((title ≡ none) ⊎ ((m : Marked) × (In m plan.0 ⊎ In m plan.1))))
    next_lem true title host_alias plan spool build h = cc
    next_lem false none host_alias plan spool build h = (refl, (transacts-inj h, inl refl))
    next_lem false (some title) host_alias ([], []) spool build h = cc
    next_lem false (some title) host_alias (m ∷ ms, spares) spool build h =
        (refl, (transacts-inj h, inr (m, inl (inl refl))))
    next_lem false (some title) host_alias ([], m ∷ ms) spool build h =
        (refl, (transacts-inj h, inr (m, inr (inl refl))))

    -- no spare is released for a title
    asked_lem :
        (title : Option String) (tested again : Snapshot) (before : Entries)
        (plan : List Marked × List Marked)
        → reconcile_plan env probes blob machine title tested again before ≡ ok plan
        → (title ≡ none) ⊎ ((m : Marked) × (In m plan.0 ⊎ In m plan.1))
        → (title ≡ none)
          ⊎ ((m : Marked) × Origin env probes blob machine title tested tested.rows m)
    unfolding reconcile_plan
    asked_lem none tested again before plan planned found = inl refl
    asked_lem (some title) tested again before plan planned (inl e) = cc
    asked_lem (some title) tested again before plan planned (inr (m, inl k)) =
        inr (m, planned-Origin (some title) tested again before plan planned m k)
    asked_lem (some title) tested again before plan planned (inr (m, inr k)) =
        absurd (subst (λ x. In m x.1) (sym (ok-inj planned)) k)

    -- When a reconcile runs a transaction, it is no dry run and, if it is for one title, some row of
    -- that title passed the tests. When that transaction has something to write, it drops every row
    -- it reports as released. Each row it drops from the tip is the very row whose worktree and
    -- transcript were found absent, a row of this machine that is neither held for a migration nor
    -- part of a recorded rename; or a spare of this machine that nobody has taken and whose name the
    -- limits do not allow. What it puts is new where the released rows are gone: rows of this machine
    -- without a problem. The rows may have been read, read again and changed by others in between.
    -- It is assumed that the blob IDs of a row that was read and of the row of its token in the tip
    -- are the same only if the rows are, and that the random choice answers an element of a list
    -- that has one.
    pub reconcile-Allowed :
        (dry_run : Bool) (title : Option String) (tested again tip : Snapshot)
        (before spool : Entries) (host_alias : String) (build : Build Report)
        (change : Change Report)
        → ContentsTold env probes blob machine tested tip
        → reconcile env probes blob machine dry_run title host_alias tested again before spool
          ≡ ok (transacts build)
        → build tip ≡ ok (some change)
        → Reconciled dry_run title tested tip spool change
    unfolding reconcile
    reconcile-Allowed dry_run title tested again tip before spool host_alias build change told h b =
        (let (plan, (planned, n)) =
            bound (reconcile_plan env probes blob machine title tested again before) _
              (transacts build) h in
          let (dry, (same, found)) =
            next_lem dry_run title host_alias plan spool build (ok-inj n) in
          let (out, allowed) =
            reconcile_build-Allowed title tested tip spool plan host_alias change told
              (planned-Origin title tested again before plan planned) (ap (λ f. f tip) same ∙ b) in
          record {
            no_dry_run = dry;
            asked = asked_lem title tested again before plan planned found;
            dropped = out;
            allowed = allowed;
          })
