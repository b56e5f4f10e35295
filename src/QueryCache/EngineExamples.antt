-- ===== src/QueryCache/EngineExamples.antt =====
-- Tests of cached executions and `refresh` of slayer/engine/query_engine.py, and the witnesses.
use slayer.Prelude.{ℕ, ◌≡◌, refl, some, [], ◌∷◌, eqb, arith}
use slayer.Prelude.Result.{ok}
use slayer.Prelude.Text.{text}
use slayer.Prelude.TextDict.{lookup}
use slayer.QueryCache.{Cache}
use slayer.QueryCache.Engine.{Prepared, Held, Backend, Times, execute_cached}
use slayer.QueryCache.Refresh.{Pass, refresh}
use slayer.QueryCache.Genuine.{IsOrdered, AllGenuine}
use slayer.QueryCache.Served.{Served, refresh-AllGenuine, execute_cached-AllGenuine}

abbrev prepared : Prepared
prepared = record {
  sql = text "q";
  ds_fingerprint = text "f";
  ds_key = (text "c", text "r");
  applicable = (text "t", text "max(x)") ∷ [];
}

-- a database whose table changes at every moment: its answers and scans are the time
abbrev database : Backend ℕ ℕ ℕ
database = record {
  make_key = λ sql fingerprint. sql;
  scan = λ time ds_key table exprs. ok ((time ∷ []) ∷ []);
  run = λ time p. ok time;
  prepare = λ time input. ok prepared;
  same_value = eqb;
  none_value = 0;
}

abbrev times_at : ℕ → Times database
times_at n = record { scanned = n; ran = n; built = n }

abbrev empty : Cache (Held ℕ ℕ ℕ)
empty = record { config = record { ttl_seconds = some 10; refresh_keys = [] }; entries = [] }

abbrev filled : Cache (Held ℕ ℕ ℕ)
filled = (execute_cached database 3 (times_at 3) 1 (λ c. c) prepared 0 empty).1

miss : (execute_cached database 3 (times_at 3) 1 (λ c. c) prepared 0 empty).0 ≡ ok 3
unfolding execute_cached
miss = refl

hit : (execute_cached database 9 (times_at 9) 2 (λ c. c) prepared 0 filled).0 ≡ ok 3
unfolding execute_cached
hit = refl

expired : (execute_cached database 14 (times_at 14) 2 (λ c. c) prepared 0 filled).0 ≡ ok 14
unfolding execute_cached
expired = refl

abbrev pass : Pass database
pass = record { now = 9; times = λ key. times_at 9; identity = λ key. 7; others = λ key c. c }

-- the scanned value moved, so the entry is executed again
refreshes : (refresh database pass (λ c. c) filled).1.refreshed ≡ text "q" ∷ []
unfolding refresh execute_cached
refreshes = refl

refreshed_entry :
    (execute_cached database 9
      (times_at 9)
      2
      (λ c. c)
      prepared
      0
      (refresh database pass (λ c. c) filled).0).0
    ≡ ok 9
unfolding refresh execute_cached
refreshed_entry = refl

times_at-IsOrdered : (n : ℕ) → IsOrdered database (times_at n)
times_at-IsOrdered n = (omega arith, omega arith)

empty-AllGenuine : AllGenuine database empty
unfolding AllGenuine lookup
empty-AllGenuine key entry h = absurd (cc)

execute_cached-AllGenuine_example :
    Served database 3 (times_at 3) prepared empty 3 × AllGenuine database filled
execute_cached-AllGenuine_example =
    execute_cached-AllGenuine database 3 (times_at 3) 1 (λ c. c) prepared 0 empty 3 (λ c all. all)
      (times_at-IsOrdered 3) empty-AllGenuine miss

filled-AllGenuine : AllGenuine database filled
filled-AllGenuine =
    (execute_cached-AllGenuine database 3 (times_at 3) 1 (λ c. c) prepared 0 empty 3 (λ c all. all)
      (times_at-IsOrdered 3) empty-AllGenuine miss).1

refresh-AllGenuine_example : AllGenuine database (refresh database pass (λ c. c) filled).0
refresh-AllGenuine_example =
    refresh-AllGenuine database pass (λ c. c) filled (λ key c all. all) (λ c all. all)
      (λ key. times_at-IsOrdered 9) filled-AllGenuine
