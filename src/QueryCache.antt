-- ===== src/QueryCache.antt =====
-- slayer/engine/cache.py: the cache of query results. The identity of an entry as a Python object,
-- which `is` compares, is a number that the entry carries. The lock makes each operation one step.
-- The normalization of table names and the tables of a query are sqlglot's.
pub mod Replace
pub mod Engine
pub mod Refresh
pub mod Genuine
pub mod Served
mod Examples
mod EngineExamples
use slayer.Prelude.{
  ℕ, ◌-◌, Bool, true, false, ◌&&◌, any, Option, none, some, List, [], ◌∷◌, eqb, ltb, if◌then◌else◌,
}
use slayer.Prelude.Text.{Text, text_eq}
use slayer.Prelude.TextDict.{TextDict, lookup, assign, discard}

pub record CacheConfig : Type 0 where
  pub ttl_seconds : Option ℕ
  pub refresh_keys : List (Text × Text)

-- of the fields of `_CacheEntry`, those that the cache reads
pub record CacheEntry (Response : Type 0) : Type 0 where
  pub identity : ℕ
  pub response : Response
  pub created_at : ℕ

pub record Cache (Response : Type 0) : Type 0 where
  pub config : CacheConfig
  pub entries : TextDict (CacheEntry Response)

module _ {Response : Type 0} where
  -- `ttl_seconds is not None and now - entry.created_at > ttl_seconds`
  unfoldable pub is_expired : CacheConfig → ℕ → CacheEntry Response → Bool
  is_expired config now entry = elim config.ttl_seconds [
    | none ↦ false
    | some ttl ↦ ltb ttl (now - entry.created_at)
  ]

  -- `get` on what the dictionary holds
  unfoldable pub get_live :
      Cache Response
      → Text
      → ℕ
      → Option (CacheEntry Response)
      → Option (CacheEntry Response) × Cache Response
  unfolding is_expired discard
  get_live c key now none = (none, c)
  get_live c key now (some entry) =
      if is_expired c.config now entry
      then (none, record c { entries = discard c.entries key })
      else (some entry, c)

  unfoldable pub get : Cache Response → Text → ℕ → Option (CacheEntry Response) × Cache Response
  unfolding lookup get_live
  get c key now = get_live c key now (lookup c.entries key)

  unfoldable pub put : Cache Response → Text → CacheEntry Response → Cache Response
  unfolding assign
  put c key entry = record c { entries = assign c.entries key entry }

  unfoldable delete : Cache Response → Text → Bool × Cache Response
  unfolding lookup discard
  delete c key = elim (lookup c.entries key) [
    | none ↦ (false, c)
    | some entry ↦ (true, record c { entries = discard c.entries key })
  ]

  -- `clear`
  unfoldable clear : Cache Response → Cache Response
  clear c = record c { entries = [] }

  -- `self._entries.get(old_key) is expected`
  unfoldable pub is_same : Option (CacheEntry Response) → CacheEntry Response → Bool
  is_same none expected = false
  is_same (some entry) expected = eqb entry.identity expected.identity

  unfoldable pub commit_replace :
      Cache Response
      → Text
      → CacheEntry Response
      → Text
      → CacheEntry Response
      → Bool × Cache Response
  unfolding lookup is_same text_eq discard assign
  commit_replace c old_key expected new_key new_entry =
      if is_same (lookup c.entries old_key) expected
      then (
        true,
        record c {
          entries =
              assign (if text_eq new_key old_key then c.entries else discard c.entries old_key)
                new_key new_entry;
        },
      )
      else (false, c)

-- `NormalizedTable`
pub record NormalizedTable : Type 0 where
  pub catalog : Option Text
  pub db : Option Text
  pub name : Text

-- `c is None or c == s`
abbrev wildcard_matches : Option Text → Option Text → Bool
wildcard_matches none s = true
wildcard_matches (some c) none = false
wildcard_matches (some c) (some s) = text_eq c s

-- `_table_matches`
unfoldable pub table_matches : NormalizedTable → NormalizedTable → Bool
unfolding text_eq
table_matches config sql_table =
    text_eq config.name sql_table.name
    && (wildcard_matches config.db sql_table.db
        && wildcard_matches config.catalog sql_table.catalog)

-- `applicable_keys`, for the tables of a query
unfoldable applicable_keys :
    (Text → NormalizedTable) → List NormalizedTable → List (Text × Text) → List (Text × Text)
unfolding table_matches
applicable_keys normalize sql_tables [] = []
applicable_keys normalize sql_tables (refresh_key ∷ refresh_keys) =
    let rest = applicable_keys normalize sql_tables refresh_keys in
    if any (table_matches (normalize refresh_key.0)) sql_tables then refresh_key ∷ rest else rest
