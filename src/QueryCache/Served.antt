-- ===== src/QueryCache/Served.antt =====
-- slayer/engine/query_engine.py: what cached executions and refreshes serve and keep.
use slayer.Prelude.{
  ℕ, ◌≡◌, refl, sym, subst, ap, ◌∙◌, ◌⊎◌, inl, inr, false, Bool-cases, Option, Option-cases, none,
  some, [], ◌∷◌, arith,
}
use slayer.Prelude.Result.{Result, err, ok, ◌>>=◌, bind-ok, ok_eq}
use slayer.Prelude.Text.{Text}
use slayer.Prelude.TextDict.{lookup}
use slayer.QueryCache.{Cache, is_expired, get, get_live}
use slayer.QueryCache.Engine.{
  Prepared, Held, Bucket, Backend, Entry, Times, build_fresh_entry, key_of, store_built, serve,
  execute_cached,
}
use slayer.QueryCache.Refresh.{
  Scanned, State, Pass, reexecute_entry, commit_reexec, note_commit, apply_decision, refresh_one,
  refresh_each, refresh, Snapshot, refresh_scan_all, targets_of, empty_result,
}
use slayer.QueryCache.Genuine.{
  IsOrdered, IsGenuine, AllGenuine, rekeyed, build_fresh_entry-run, build_fresh_entry-IsGenuine,
  put-AllGenuine, get-AllGenuine, commit_replace-AllGenuine,
}

module _ {Response Input Value : Type 0} (B : Backend Response Input Value) where
  -- what another task does keeps every entry genuine
  abbrev pub Keeps :
      (Cache (Held Response Input Value) → Cache (Held Response Input Value)) → Type 0
  Keeps others = (c : Cache (Held Response Input Value)) → AllGenuine B c → AllGenuine B (others c)

  reexecute_entry-IsGenuine :
      (time : ℕ) (times : Times B) (identity : ℕ) (entry : Entry B) (new_key : Text)
      (new_entry : Entry B)
      → IsOrdered B times
      → reexecute_entry B time times identity entry ≡ ok (new_key, new_entry)
      → IsGenuine B new_key new_entry
  unfolding reexecute_entry
  reexecute_entry-IsGenuine time times identity entry new_key new_entry ordered h =
      let input = entry.response.original_input in
      let (prepared, _, rest) =
        bind-ok (B.prepare time input)
          (λ prepared. build_fresh_entry B times identity prepared input >>= λ built.
            ok (rekeyed B prepared built))
          h in
      let (built, made, e) =
        bind-ok (build_fresh_entry B times identity prepared input)
          (λ built. ok (rekeyed B prepared built)) rest in
      let same = ok_eq (rekeyed B prepared built) (new_key, new_entry) e in
      subst (λ (k : Text × Entry B). IsGenuine B k.0 k.1) same
        (build_fresh_entry-IsGenuine B times identity prepared input built ordered made)

  commit_reexec-AllGenuine :
      (p : Pass B) (key : Text) (entry : Entry B) (bucket : Bucket) (s : State B)
      (outcome : Result Text (Text × Entry B))
      → Keeps (p.others key)
      → IsOrdered B (p.times key)
      → reexecute_entry B p.now (p.times key) (p.identity key) entry ≡ outcome
      → AllGenuine B s.0
      → AllGenuine B (commit_reexec B p key entry bucket s outcome).0
  unfolding commit_reexec note_commit
  commit_reexec-AllGenuine p key entry bucket (c, result) (err message) keeps ordered e all =
      keeps c all
  commit_reexec-AllGenuine p key entry bucket (c, result) (ok (new_key, new_entry)) keeps ordered e
        all =
      commit_replace-AllGenuine B (p.others key c) key new_key entry new_entry (keeps c all) (
        reexecute_entry-IsGenuine p.now (p.times key) (p.identity key) entry new_key new_entry
          ordered e)

  apply_decision-AllGenuine :
      (p : Pass B) (key : Text) (entry : Entry B) (s : State B) (decision : Option Bucket)
      → Keeps (p.others key)
      → IsOrdered B (p.times key)
      → AllGenuine B s.0
      → AllGenuine B (apply_decision B p key entry s decision).0
  unfolding apply_decision
  apply_decision-AllGenuine p key entry (c, result) none keeps ordered all = all
  apply_decision-AllGenuine p key entry s (some bucket) keeps ordered all =
      commit_reexec-AllGenuine p key entry bucket s _ keeps ordered refl all

  refresh_each-AllGenuine :
      (p : Pass B) (scanned : Scanned Value) (snapshot : Snapshot B) (s : State B)
      → ((key : Text) → Keeps (p.others key))
      → ((key : Text) → IsOrdered B (p.times key))
      → AllGenuine B s.0
      → AllGenuine B (refresh_each B p scanned snapshot s).0
  unfolding refresh_each refresh_one
  refresh_each-AllGenuine p scanned [] s keeps ordered all = all
  refresh_each-AllGenuine p scanned ((key, entry) ∷ snapshot) s keeps ordered all =
      refresh_each-AllGenuine p scanned snapshot (refresh_one B p scanned key entry s) keeps ordered
        (apply_decision-AllGenuine p key entry s _ (keeps key) (ordered key) all)

  -- A refresh keeps every entry of the cache genuine, whatever genuine entries other tasks write
  -- while the tables are scanned and while each entry is executed again.
  pub refresh-AllGenuine :
      (p : Pass B)
      (during_scan : Cache (Held Response Input Value) → Cache (Held Response Input Value))
      (c : Cache (Held Response Input Value))
      → ((key : Text) → Keeps (p.others key))
      → Keeps during_scan
      → ((key : Text) → IsOrdered B (p.times key))
      → AllGenuine B c
      → AllGenuine B (refresh B p during_scan c).0
  unfolding refresh
  refresh-AllGenuine p during_scan c keeps keeps_scan ordered all =
      let scanned =
        refresh_scan_all B p.now (targets_of B c.entries [])
          (record { fresh = []; failed = []; errors = [] }) in
      refresh_each-AllGenuine p scanned c.entries
        (during_scan c, record empty_result { errors = scanned.errors }) keeps ordered
        (keeps_scan c all)

  -- where a served response comes from
  abbrev pub Served : ℕ → Times B → Prepared → Cache (Held Response Input Value) → Response → Type 0
  Served at times prepared c response =
      (B.run times.ran prepared ≡ ok response)
      ⊎ ((entry : Entry B) × (entry.response.response ≡ response)
          × IsGenuine B (key_of B prepared) entry
          × (is_expired c.config at entry ≡ false))

  get_hit :
      (c : Cache (Held Response Input Value)) (key : Text) (at : ℕ) (entry : Entry B)
      → (get c key at).0 ≡ some entry
      → (lookup c.entries key ≡ some entry) × (is_expired c.config at entry ≡ false)
  unfolding get get_live
  get_hit c key at entry h = elim (Option-cases (lookup c.entries key)) [
    | inl missing ↦ absurd (ground (arith))
    | inr (held, found) ↦ elim (Bool-cases (is_expired c.config at held)) [
      | inl expired ↦ absurd (ground (arith))
      | inr live ↦
          let e : held ≡ entry = ground (arith) in
          (found ∙ ap some e, sym (ap (is_expired c.config at) e) ∙ live)
    ]
  ]

  store_built-AllGenuine :
      (times : Times B) (identity : ℕ)
      (others : Cache (Held Response Input Value) → Cache (Held Response Input Value))
      (prepared : Prepared) (input : Input) (c : Cache (Held Response Input Value))
      (response : Response) (built : Result Text (Entry B))
      → build_fresh_entry B times identity prepared input ≡ built
      → Keeps others
      → IsOrdered B times
      → AllGenuine B c
      → (store_built B (key_of B prepared) others c built).0 ≡ ok response
      → (B.run times.ran prepared ≡ ok response)
        × AllGenuine B (store_built B (key_of B prepared) others c built).1
  unfolding store_built
  store_built-AllGenuine times identity others prepared input c response (err raised) made keeps
        ordered all h =
      absurd (cc)
  store_built-AllGenuine times identity others prepared input c response (ok entry) made keeps
        ordered all h =
      (
        build_fresh_entry-run B times identity prepared input entry made ∙ h,
        put-AllGenuine B (others c) (key_of B prepared) entry (keeps c all)
            (build_fresh_entry-IsGenuine B times identity prepared input entry ordered made),
      )

  -- A cached execution that returns gives what its query answers now, or what the query of its key
  -- answered for an entry that has not outlived its time to live, and it keeps every entry genuine.
  pub execute_cached-AllGenuine :
      (at : ℕ) (times : Times B) (identity : ℕ)
      (others : Cache (Held Response Input Value) → Cache (Held Response Input Value))
      (prepared : Prepared) (input : Input) (c : Cache (Held Response Input Value))
      (response : Response)
      → Keeps others
      → IsOrdered B times
      → AllGenuine B c
      → (execute_cached B at times identity others prepared input c).0 ≡ ok response
      → Served at times prepared c response
        × AllGenuine B (execute_cached B at times identity others prepared input c).1
  unfolding execute_cached AllGenuine
  execute_cached-AllGenuine at times identity others prepared input c response keeps ordered all h =
      let key = key_of B prepared in
      from_hit (get c key at).0 (get c key at).1 refl (get-AllGenuine B c key at all) h
    where
      served_eq :
          (entry : Entry B)
          → ◌≡◌ {A = Result Text Response} (ok entry.response.response) (ok response)
          → entry.response.response ≡ response
      served_eq entry e = ok_eq entry.response.response response e

      from_hit :
          (hit : Option (Entry B)) (c' : Cache (Held Response Input Value))
          → (get c (key_of B prepared) at).0 ≡ hit
          → AllGenuine B c'
          → (serve B times identity others prepared input (hit, c')).0 ≡ ok response
          → Served at times prepared c response
            × AllGenuine B (serve B times identity others prepared input (hit, c')).1
      from_hit (some entry) c' found kept h =
          let (held, live) = get_hit c (key_of B prepared) at entry found in
          (inr (entry, served_eq entry h, all (key_of B prepared) entry held, live), kept)
      from_hit none c' found kept h =
          let (answered, kept') =
            store_built-AllGenuine times identity others prepared input c' response _ refl keeps
              ordered kept h in
          (inl answered, kept')
