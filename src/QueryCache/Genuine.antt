-- ===== src/QueryCache/Genuine.antt =====
-- slayer/engine/query_engine.py: where the responses of the cache come from.
use slayer.Prelude.{
  ℕ, ◌≤◌, ◌≡◌, refl, sym, subst, ap, ◌∙◌, inl, inr, Bool-cases, Option-cases, some, arith,
}
use slayer.Prelude.Result.{ok, ◌>>=◌, bind-ok, ok_eq}
use slayer.Prelude.Text.{Text, text_eq, text_eq_iff}
use slayer.Prelude.TextDict.{lookup, lookup-assign, lookup-discard}
use slayer.QueryCache.{Cache, is_expired, get, get_live, put, commit_replace}
use slayer.QueryCache.Replace.{commit_replace-lookup}
use slayer.QueryCache.Engine.{
  Prepared, Held, Backend, Entry, Times, scan_refresh_keys, entry_of, build_fresh_entry, key_of,
}

module _ {Response Input Value : Type 0} (B : Backend Response Input Value) where
  -- the baselines are scanned before the query runs, and the entry is built after it
  abbrev pub IsOrdered : Times B → Type 0
  IsOrdered times = (times.scanned ≤ times.ran) × (times.ran ≤ times.built)

  -- The entry holds what the query of its key answered at some time, with the baselines that were
  -- scanned no later than that, and is dated no earlier.
  unfoldable pub IsGenuine : Text → Entry B → Type 0
  IsGenuine key entry =
      (prepared : Prepared) × (times : Times B) × IsOrdered times
      × (key ≡ key_of B prepared)
      × (B.run times.ran prepared ≡ ok entry.response.response)
      × (scan_refresh_keys B times.scanned prepared.ds_key prepared.applicable
          ≡ ok entry.response.refresh_key_values)
      × (entry.created_at ≡ times.built)

  -- every entry of the cache is
  unfoldable pub AllGenuine : Cache (Held Response Input Value) → Type 0
  AllGenuine c =
      (key : Text) (entry : Entry B) → lookup c.entries key ≡ some entry → IsGenuine key entry

  abbrev pub rekeyed : Prepared → Entry B → Text × Entry B
  rekeyed prepared entry = (key_of B prepared, entry)

  pub build_fresh_entry-run :
      (times : Times B) (identity : ℕ) (prepared : Prepared) (input : Input) (entry : Entry B)
      → build_fresh_entry B times identity prepared input ≡ ok entry
      → B.run times.ran prepared ≡ ok entry.response.response
  unfolding build_fresh_entry
  build_fresh_entry-run times identity prepared input entry h =
      let (values, scanned, rest) =
        bind-ok (scan_refresh_keys B times.scanned prepared.ds_key prepared.applicable)
          (λ values. B.run times.ran prepared >>= λ response.
            ok (entry_of B times identity prepared input values response))
          h in
      let (response, answered, e) =
        bind-ok (B.run times.ran prepared)
          (λ response. ok (entry_of B times identity prepared input values response)) rest in
      answered
      ∙ ap (λ (k : Entry B). ok k.response.response)
          (ok_eq (entry_of B times identity prepared input values response) entry e)

  pub build_fresh_entry-IsGenuine :
      (times : Times B) (identity : ℕ) (prepared : Prepared) (input : Input) (entry : Entry B)
      → IsOrdered times
      → build_fresh_entry B times identity prepared input ≡ ok entry
      → IsGenuine (key_of B prepared) entry
  unfolding build_fresh_entry IsGenuine
  build_fresh_entry-IsGenuine times identity prepared input entry ordered h =
      let (values, scanned, rest) =
        bind-ok (scan_refresh_keys B times.scanned prepared.ds_key prepared.applicable)
          (λ values. B.run times.ran prepared >>= λ response.
            ok (entry_of B times identity prepared input values response))
          h in
      let (response, answered, e) =
        bind-ok (B.run times.ran prepared)
          (λ response. ok (entry_of B times identity prepared input values response)) rest in
      let same = ok_eq (entry_of B times identity prepared input values response) entry e in
      (
        prepared,
        times,
        ordered,
        refl,
        answered ∙ ap (λ (k : Entry B). ok k.response.response) same,
        scanned ∙ ap (λ (k : Entry B). ok k.response.refresh_key_values) same,
        sym (ap (λ (k : Entry B). k.created_at) same),
      )

  pub put-AllGenuine :
      (c : Cache (Held Response Input Value)) (key : Text) (entry : Entry B)
      → AllGenuine c
      → IsGenuine key entry
      → AllGenuine (put c key entry)
  unfolding AllGenuine put
  put-AllGenuine c key entry all genuine asked held h = elim (Bool-cases (text_eq key asked)) [
    | inl same ↦
        let e : entry ≡ held = ground (arith, lookup-assign entry key asked c.entries) in
        subst (λ k. IsGenuine k held) ((text_eq_iff key asked).0 same)
          (subst (IsGenuine key) e genuine)
    | inr other ↦ all asked held (ground (arith, lookup-assign entry key asked c.entries))
  ]

  pub get-AllGenuine :
      (c : Cache (Held Response Input Value)) (key : Text) (now : ℕ)
      → AllGenuine c
      → AllGenuine (get c key now).1
  unfolding AllGenuine get get_live
  get-AllGenuine c key now all asked held h =
      all asked held (elim (Option-cases (lookup c.entries key)) [
        | inl missing ↦ ground (arith, missing)
        | inr (entry, found) ↦ elim (Bool-cases (is_expired c.config now entry)) [
          | inl expired ↦ ground (arith, found, expired, lookup-discard key asked c.entries)
          | inr live ↦ ground (arith, found, live)
        ]
      ])

  pub commit_replace-AllGenuine :
      (c : Cache (Held Response Input Value)) (old_key new_key : Text)
      (expected new_entry : Entry B)
      → AllGenuine c
      → IsGenuine new_key new_entry
      → AllGenuine (commit_replace c old_key expected new_key new_entry).1
  unfolding AllGenuine
  commit_replace-AllGenuine c old_key new_key expected new_entry all genuine asked held h =
      let (_, after) = commit_replace-lookup c old_key new_key asked expected new_entry in
      let done = (commit_replace c old_key expected new_key new_entry).0 in
      elim (Bool-cases done) [
        | inr denied ↦ all asked held (ground (arith, denied, after))
        | inl committed ↦ elim (Bool-cases (text_eq new_key asked)) [
          | inl same ↦
              let e : new_entry ≡ held = ground (arith, committed, after) in
              subst (λ k. IsGenuine k held) ((text_eq_iff new_key asked).0 same)
                (subst (IsGenuine new_key) e genuine)
          | inr other ↦ elim (Bool-cases (text_eq old_key asked)) [
            | inl dropped ↦ absurd (ground (arith, committed, after))
            | inr kept ↦ all asked held (ground (arith, committed, after))
          ]
        ]
      ]
