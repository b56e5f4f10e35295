-- ===== src/Session/Refresh.antt =====
-- slayer/pg_facade/connection.py: the catalog is rebuilt at most once in a time to live, between
-- transactions, and where the storage has changed.
use slayer.Prelude.{◌-◌, Bool, false, Option, none, some, ltb, if◌then◌else◌}
use slayer.Prelude.Result.{Result, err, ok}
use slayer.Prelude.Text.{Text, text_eq}
use slayer.Session.{idle, Raised, Backend, PgConnection, Act}

-- `fingerprint is not None and fingerprint == self._catalog_fingerprint`
unfoldable same_fingerprint : Option Text → Option Text → Bool
unfolding text_eq
same_fingerprint none _ = false
same_fingerprint (some s) none = false
same_fingerprint (some s) (some t) = text_eq s t

module _ (b : Backend) where
  -- `_read_fingerprint`
  unfoldable read_fingerprint : PgConnection b → Result Raised (Option Text)
  read_fingerprint c = elim c.catalog_ttl_seconds [
    | none ↦ ok none
    | some ttl ↦ b.graph_fingerprint c.world
  ]

  -- the rebuild, after the time of the check is set
  unfoldable pub rebuild_catalog : PgConnection b → PgConnection b
  unfolding read_fingerprint same_fingerprint
  rebuild_catalog c = elim (read_fingerprint c) [
    | err raised ↦ c
    | ok fingerprint ↦
        if same_fingerprint fingerprint c.catalog_fingerprint
        then c
        else elim (b.build_catalog c.world) [
          | none ↦ c
          | some catalog ↦ record c { catalog = catalog; catalog_fingerprint = fingerprint }
        ]
  ]

  -- `_maybe_refresh_catalog`
  unfoldable pub maybe_refresh_catalog : Act b (Unit {0})
  unfolding rebuild_catalog
  maybe_refresh_catalog c = elim c.catalog_ttl_seconds [
    | none ↦ (ok tt, c)
    | some ttl ↦ elim c.tx_state [
      | idle ↦
          let now = b.monotonic c.world in
          if ltb (now - c.catalog_checked_at) ttl
          then (ok tt, c)
          else (ok tt, rebuild_catalog (record c { catalog_checked_at = now }))
      | _ ↦ (ok tt, c)
    ]
  ]
