-- ===== src/QueryCache/Engine.antt =====
-- slayer/engine/query_engine.py: cached executions and `refresh`, over the cache of
-- slayer/engine/cache.py. What the database answers at a time is a parameter, and so are the
-- preparation of a query, the digest of its key and the comparison of scanned values. A client of a
-- datasource that cannot be reopened is one whose scan fails.
use slayer.Prelude.{ℕ, Bool, Option, none, some, List, [], ◌∷◌, ◌++◌}
use slayer.Prelude.Result.{Result, err, ok, ◌>>=◌}
use slayer.Prelude.Text.{Text, text}
use slayer.Prelude.TextDict.{TextDict, lookup, assign}
use slayer.QueryCache.{CacheEntry, Cache, get, put}

abbrev pub DsKey : Type 0
DsKey = Text × Text

-- what the engine reads of a `_Prepared`
pub record Prepared : Type 0 where
  pub sql : Text
  pub ds_fingerprint : Text
  pub ds_key : DsKey
  pub applicable : List (Text × Text)

pub record RefreshKeyValue (Value : Type 0) : Type 0 where
  pub table : Text
  pub expression : Text
  pub value : Value

-- the fields of a `_CacheEntry` that the engine reads, with its response
pub record Held (Response Input Value : Type 0) : Type 0 where
  pub response : Response
  pub ds_key : DsKey
  pub original_input : Input
  pub applicable : List (Text × Text)
  pub refresh_key_values : List (RefreshKeyValue Value)

pub data Phase : Type 0 where
  refresh_key_scan : Phase
  re_execute : Phase

pub record RefreshError : Type 0 where
  pub key : Text
  pub phase : Phase
  pub message : Text

pub record RefreshResult : Type 0 where
  pub refreshed : List Text
  pub expired_refreshed : List Text
  pub unchanged : List Text
  pub errors : List RefreshError

-- what the engine calls: the scan of a table, the run of a query and its preparation, each at a time
pub record Backend (Response Input Value : Type 0) : Type 0 where
  pub make_key : Text → Text → Text
  pub scan : ℕ → DsKey → Text → List Text → Result Text (List (List Value))
  pub run : ℕ → Prepared → Result Text Response
  pub prepare : ℕ → Input → Result Text Prepared
  pub same_value : Value → Value → Bool
  pub none_value : Value

-- the lists of `result`, by the reason of a re-execution
pub data Bucket : Type 0 where
  refreshed_bucket : Bucket
  expired_bucket : Bucket

-- `by_table.setdefault(table, []).append(expr)`
unfoldable pub append_to : TextDict (List Text) → Text → Text → TextDict (List Text)
unfolding lookup assign
append_to by_table table expr = elim (lookup by_table table) [
  | none ↦ assign by_table table (expr ∷ [])
  | some exprs ↦ assign by_table table (exprs ++ expr ∷ [])
]

unfoldable pub group_by_table : List (Text × Text) → TextDict (List Text) → TextDict (List Text)
unfolding append_to
group_by_table [] by_table = by_table
group_by_table ((table, expr) ∷ applicable) by_table =
    group_by_table applicable (append_to by_table table expr)

module _ {Response Input Value : Type 0} (B : Backend Response Input Value) where
  abbrev pub Entry : Type 0
  Entry = CacheEntry (Held Response Input Value)

  abbrev pub Values : Type 0
  Values = List (RefreshKeyValue Value)

  -- `len(rows) != 1`
  unfoldable pub single_row : List (List Value) → Result Text (List Value)
  single_row [] = err (text "expected exactly 1")
  single_row (row ∷ []) = ok row
  single_row (row ∷ row' ∷ rows) = err (text "expected exactly 1")

  -- `_scan_one_table`
  unfoldable pub scan_one_table : ℕ → DsKey → Text → List Text → Result Text (List Value)
  unfolding single_row
  scan_one_table time ds_key table exprs = B.scan time ds_key table exprs >>= single_row

  -- the values of a row under the aliases of the expressions
  unfoldable pub values_of : Text → List Text → List Value → Values
  values_of table [] row = []
  values_of table (expr ∷ exprs) [] = []
  values_of table (expr ∷ exprs) (v ∷ row) =
      record { table = table; expression = expr; value = v } ∷ values_of table exprs row

  unfoldable pub scan_tables : ℕ → DsKey → TextDict (List Text) → Result Text Values
  unfolding scan_one_table values_of
  scan_tables time ds_key [] = ok []
  scan_tables time ds_key ((table, exprs) ∷ by_table) =
      scan_one_table time ds_key table exprs >>= λ row.
      scan_tables time ds_key by_table >>= λ rest. ok (values_of table exprs row ++ rest)

  unfoldable pub scan_refresh_keys : ℕ → DsKey → List (Text × Text) → Result Text Values
  unfolding scan_tables group_by_table
  scan_refresh_keys time ds_key applicable = scan_tables time ds_key (group_by_table applicable [])

  -- the times at which an execution scans, runs its query and builds the entry
  pub record Times : Type 0 where
    pub scanned : ℕ
    pub ran : ℕ
    pub built : ℕ

  abbrev pub entry_of : Times → ℕ → Prepared → Input → Values → Response → Entry
  entry_of times identity prepared input values response = record {
    identity = identity;
    created_at = times.built;
    response = record {
      response = response;
      ds_key = prepared.ds_key;
      original_input = input;
      applicable = prepared.applicable;
      refresh_key_values = values;
    };
  }

  -- `_build_fresh_entry`, for the identity of the new object
  unfoldable pub build_fresh_entry : Times → ℕ → Prepared → Input → Result Text Entry
  unfolding scan_refresh_keys
  build_fresh_entry times identity prepared input =
      scan_refresh_keys times.scanned prepared.ds_key prepared.applicable >>= λ values.
      B.run times.ran prepared >>= λ response.
      ok (entry_of times identity prepared input values response)

  abbrev pub key_of : Prepared → Text
  key_of prepared = B.make_key prepared.sql prepared.ds_fingerprint

  abbrev pub Store : Type 0
  Store = Cache (Held Response Input Value)

  -- the end of a cache miss; other tasks change the cache while the query runs
  unfoldable pub store_built :
      Text → (Store → Store) → Store → Result Text Entry → Result Text Response × Store
  unfolding put
  store_built key others c (err raised) = (err raised, others c)
  store_built key others c (ok entry) = (ok entry.response.response, put (others c) key entry)

  unfoldable pub serve :
      Times
      → ℕ
      → (Store → Store)
      → Prepared
      → Input
      → Option Entry × Store
      → Result Text Response × Store
  unfolding store_built build_fresh_entry
  serve times identity others prepared input (some entry, c) = (ok entry.response.response, c)
  serve times identity others prepared input (none, c) =
      store_built (key_of prepared) others c (build_fresh_entry times identity prepared input)

  -- `_execute_cached`
  unfoldable pub execute_cached :
      ℕ → Times → ℕ → (Store → Store) → Prepared → Input → Store → Result Text Response × Store
  unfolding get serve
  execute_cached at times identity others prepared input c =
      serve times identity others prepared input (get c (key_of prepared) at)
