-- ===== src/QueryCache/Replace.antt =====
-- slayer/engine/cache.py: what a lookup and a guarded replacement do to every key.
use slayer.Prelude.{ℕ, ◌≡◌, inl, inr, Option, none, some, if◌then◌else◌, Bool-cases, arith}
use slayer.Prelude.Text.{Text, text_eq, text_eq_iff}
use slayer.Prelude.TextDict.{lookup, discard, lookup-assign, lookup-discard}
use slayer.QueryCache.{CacheEntry, Cache, is_expired, is_same, commit_replace}

module _ {Response : Type 0} where
  -- the entry that a reader of the cache sees at a time
  unfoldable pub visible : Cache Response → ℕ → Text → Option (CacheEntry Response)
  unfolding lookup is_expired
  visible c now key = elim (lookup c.entries key) [
    | none ↦ none
    | some entry ↦ if is_expired c.config now entry then none else some entry
  ]

  -- A refresh commits only over the very entry that it started from. Then the new key holds the new
  -- entry, an old key that differs from it holds nothing, and every other key what it held; if the
  -- entry is gone or another one, nothing changes.
  pub commit_replace-lookup :
      (c : Cache Response) (old_key new_key asked : Text) (expected new_entry : CacheEntry Response)
      → let done = commit_replace c old_key expected new_key new_entry in
        (done.0 ≡ is_same (lookup c.entries old_key) expected)
        × (lookup done.1.entries asked ≡ (
            if done.0
            then (if text_eq new_key asked
                then some new_entry
                else if text_eq old_key asked
                then none
                else lookup c.entries asked)
            else lookup c.entries asked))
  unfolding commit_replace
  commit_replace-lookup c old_key new_key asked expected new_entry = (
    ground arith,
    elim (Bool-cases (is_same (lookup c.entries old_key) expected)) [
      | inr other ↦ ground (arith, other)
      | inl same ↦ ground (
        arith,
        same,
        lookup-assign new_entry new_key asked c.entries,
        lookup-assign new_entry new_key asked (discard c.entries old_key),
        lookup-discard old_key asked c.entries,
        text_eq_iff new_key old_key,
        text_eq_iff new_key asked,
        text_eq_iff old_key asked,
      )
    ],
  )
