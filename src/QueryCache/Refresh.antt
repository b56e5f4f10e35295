-- ===== src/QueryCache/Refresh.antt =====
-- slayer/engine/query_engine.py: `refresh`. Other tasks run while a query is executed again; what they
-- do to the cache in that time is a parameter.
use slayer.Prelude.{ℕ, Bool, ◌&&◌, not, any, Option, none, some, List, [], ◌∷◌, ◌++◌, if◌then◌else◌}
use slayer.Prelude.Result.{Result, err, ok, ◌>>=◌}
use slayer.Prelude.Text.{Text, text_eq, member, sort_texts}
use slayer.Prelude.TextDict.{TextDict}
use slayer.QueryCache.{CacheConfig, Cache, commit_replace, is_expired}
use slayer.QueryCache.Engine.{
  DsKey, Held, Bucket, refreshed_bucket, expired_bucket, refresh_key_scan, re_execute, RefreshError,
  RefreshResult, Backend, Entry, Times, scan_one_table, build_fresh_entry, key_of,
}

-- a scan target: a datasource and a table
abbrev pub Target : Type 0
Target = DsKey × Text

unfoldable pub same_target : Target → Target → Bool
unfolding text_eq
same_target ((connection, runtime), table) ((connection', runtime'), table') =
    text_eq connection connection' && (text_eq runtime runtime' && text_eq table table')

-- `targets.setdefault(target, set()).add(expr)`
unfoldable pub add_target : List (Target × List Text) → Target → Text → List (Target × List Text)
unfolding same_target member
add_target [] target expr = (target, expr ∷ []) ∷ []
add_target ((t, exprs) ∷ targets) target expr =
    let rest = add_target targets target expr in
    if same_target t target
    then (t, if member expr exprs then exprs else exprs ++ expr ∷ []) ∷ targets
    else (t, exprs) ∷ rest

unfoldable pub add_targets :
    List (Target × List Text) → DsKey → List (Text × Text) → List (Target × List Text)
unfolding add_target
add_targets targets ds_key [] = targets
add_targets targets ds_key ((table, expr) ∷ applicable) =
    add_targets (add_target targets (ds_key, table) expr) ds_key applicable

-- `(ds_key, t) in failed_tables`
unfoldable pub has_target : Target → List Target → Bool
unfolding same_target
has_target target failed = any (λ t. same_target t target) failed

-- what the scans of all targets give
pub record Scanned (Value : Type 0) : Type 0 where
  pub fresh : List (Target × Text × Value)
  pub failed : List Target
  pub errors : List RefreshError

abbrev pub empty_result : RefreshResult
empty_result = record { refreshed = []; expired_refreshed = []; unchanged = []; errors = [] }

-- `getattr(result, bucket).append(key)`
unfoldable pub add_to : Bucket → Text → RefreshResult → RefreshResult
add_to refreshed_bucket key result = record result { refreshed = result.refreshed ++ key ∷ [] }
add_to expired_bucket key result = record result {
  expired_refreshed = result.expired_refreshed ++ key ∷ [];
}

module _ {Response Input Value : Type 0} (B : Backend Response Input Value) where
  abbrev pub Snapshot : Type 0
  Snapshot = TextDict (Entry B)

  unfoldable pub targets_of : Snapshot → List (Target × List Text) → List (Target × List Text)
  unfolding add_targets
  targets_of [] targets = targets
  targets_of ((key, entry) ∷ snapshot) targets =
      targets_of snapshot (add_targets targets entry.response.ds_key entry.response.applicable)

  -- the values of a target's row, under its expressions
  unfoldable pub fresh_of : Target → List Text → List Value → List (Target × Text × Value)
  fresh_of target [] row = []
  fresh_of target (expr ∷ exprs) [] = []
  fresh_of target (expr ∷ exprs) (v ∷ row) = (target, expr, v) ∷ fresh_of target exprs row

  -- one target of `_refresh_scan_all`
  unfoldable pub note_scan :
      Target → List Text → Scanned Value → Result Text (List Value) → Scanned Value
  unfolding fresh_of
  note_scan target exprs s (ok row) = record s { fresh = s.fresh ++ fresh_of target exprs row }
  note_scan target exprs s (err message) = record s {
    failed = target ∷ s.failed;
    errors =
        s.errors ++ record { key = target.1; phase = refresh_key_scan; message = message } ∷ [];
  }

  -- `_refresh_scan_all`, over the targets of the snapshot
  unfoldable pub refresh_scan_all : ℕ → List (Target × List Text) → Scanned Value → Scanned Value
  unfolding note_scan sort_texts
  refresh_scan_all time [] s = s
  refresh_scan_all time ((target, exprs) ∷ targets) s = refresh_scan_all time targets (
      note_scan target (sort_texts exprs) s
        (scan_one_table B time target.0 target.1 (sort_texts exprs)))

  -- `fresh_values.get((ds_key, table, expression))`
  unfoldable pub fresh_value : List (Target × Text × Value) → Target → Text → Value
  unfolding same_target text_eq
  fresh_value [] target expression = B.none_value
  fresh_value ((t, expr, v) ∷ fresh) target expression =
      let rest = fresh_value fresh target expression in
      if same_target t target && text_eq expr expression then v else rest

  -- what is done with an entry: it is executed again, for the list of `result`, or it stays
  unfoldable pub decide : CacheConfig → ℕ → Scanned Value → Entry B → Option Bucket
  unfolding is_expired has_target fresh_value
  decide config now s entry =
      let ds_key = entry.response.ds_key in
      if is_expired config now entry
      then some expired_bucket
      else (if any (λ a. has_target (ds_key, a.0) s.failed) entry.response.applicable
          then none
          else (if any
                (λ rkv.
                  not (
                    B.same_value rkv.value
                      (fresh_value s.fresh (ds_key, rkv.table) rkv.expression)))
                entry.response.refresh_key_values
              then some refreshed_bucket
              else none))

  -- `_reexecute_entry`
  unfoldable pub reexecute_entry : ℕ → Times B → ℕ → Entry B → Result Text (Text × Entry B)
  unfolding build_fresh_entry
  reexecute_entry time times identity entry =
      B.prepare time entry.response.original_input >>= λ prepared.
      build_fresh_entry B times identity prepared entry.response.original_input >>= λ new_entry.
      ok (key_of B prepared, new_entry)

  abbrev pub State : Type 0
  State = Cache (Held Response Input Value) × RefreshResult

  -- the times, the identities and the other tasks of one refresh, by the key that is refreshed
  pub record Pass : Type 0 where
    pub now : ℕ
    pub times : Text → Times B
    pub identity : Text → ℕ
    pub others : Text → Cache (Held Response Input Value) → Cache (Held Response Input Value)

  unfoldable pub note_commit :
      Bucket → Text → RefreshResult → Bool × Cache (Held Response Input Value) → State
  unfolding add_to
  note_commit bucket key result (committed, c) =
      (c, if committed then add_to bucket key result else result)

  -- `_refresh_reexec`, for what the re-execution gives
  unfoldable pub commit_reexec :
      Pass → Text → Entry B → Bucket → State → Result Text (Text × Entry B) → State
  unfolding commit_replace note_commit
  commit_reexec p key entry bucket (c, result) (err message) = (
    p.others key c,
    record result {
      errors = result.errors ++ record { key = key; phase = re_execute; message = message } ∷ [];
    },
  )
  commit_reexec p key entry bucket (c, result) (ok (new_key, new_entry)) =
      note_commit bucket key result (commit_replace (p.others key c) key entry new_key new_entry)

  unfoldable pub apply_decision : Pass → Text → Entry B → State → Option Bucket → State
  unfolding commit_reexec reexecute_entry
  apply_decision p key entry (c, result) none =
      (c, record result { unchanged = result.unchanged ++ key ∷ [] })
  apply_decision p key entry s (some bucket) =
      commit_reexec p key entry bucket s
        (reexecute_entry p.now (p.times key) (p.identity key) entry)

  -- `_refresh_one`
  unfoldable pub refresh_one : Pass → Scanned Value → Text → Entry B → State → State
  unfolding apply_decision decide
  refresh_one p scanned key entry s =
      apply_decision p key entry s (decide s.0.config p.now scanned entry)

  unfoldable pub refresh_each : Pass → Scanned Value → Snapshot → State → State
  unfolding refresh_one
  refresh_each p scanned [] s = s
  refresh_each p scanned ((key, entry) ∷ snapshot) s =
      refresh_each p scanned snapshot (refresh_one p scanned key entry s)

  -- `refresh`, for what other tasks do while the tables are scanned
  unfoldable pub refresh :
      Pass
      → (Cache (Held Response Input Value) → Cache (Held Response Input Value))
      → Cache (Held Response Input Value)
      → State
  unfolding refresh_each refresh_scan_all targets_of
  refresh p during_scan c =
      let scanned =
        refresh_scan_all p.now (targets_of c.entries [])
          (record { fresh = []; failed = []; errors = [] }) in
      refresh_each p scanned c.entries
        (during_scan c, record empty_result { errors = scanned.errors })
