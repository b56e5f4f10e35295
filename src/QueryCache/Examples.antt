-- ===== src/QueryCache/Examples.antt =====
-- The cache on a few entries.
use slayer.Prelude.{ℕ, ◌≡◌, refl, true, false, none, some, [], ◌∷◌}
use slayer.Prelude.Text.{text}
use slayer.Prelude.TextDict.{lookup}
use slayer.QueryCache.{CacheEntry, Cache, get, commit_replace, table_matches}
use slayer.QueryCache.Replace.{commit_replace-lookup}

abbrev entry : CacheEntry ℕ
entry = record { identity = 1; response = 10; created_at = 5 }

abbrev newer : CacheEntry ℕ
newer = record { identity = 2; response = 20; created_at = 9 }

abbrev held : Cache ℕ
held = record {
  config = record { ttl_seconds = some 3; refresh_keys = [] };
  entries = (text "a", entry) ∷ (text "b", newer) ∷ [];
}

-- at 9 the first entry has outlived its three seconds
test_expired : (get held (text "a") 9).0 ≡ none
unfolding get
test_expired = refl

test_get : (get held (text "b") 9).0 ≡ some newer
unfolding get
test_get = refl

commit_replace-lookup_example :
    ((commit_replace held (text "a") entry (text "c") newer).0 ≡ true)
    × (lookup (commit_replace held (text "a") entry (text "c") newer).1.entries (text "a") ≡ none)
unfolding commit_replace
commit_replace-lookup_example =
    commit_replace-lookup held (text "a") (text "c") (text "a") entry newer

-- a configured name matches in every schema, a configured schema in that one only
test_table_matches :
    (table_matches
        (record { catalog = none; db = none; name = text "o" })
        (record { catalog = none; db = some (text "p"); name = text "o" })
      ≡ true)
    × (table_matches
          (record { catalog = none; db = some (text "p"); name = text "o" })
          (record { catalog = none; db = none; name = text "o" })
        ≡ false)
unfolding table_matches
test_table_matches = (refl, refl)
