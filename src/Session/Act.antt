-- ===== src/Session/Act.antt =====
-- slayer/pg_facade/connection.py: sequencing of the handlers, and the helpers that write a reply or
-- change the state of the transaction.
use slayer.Prelude.{true, [], ◌∷◌, ◌++◌}
use slayer.Prelude.Result.{Result, err, ok}
use slayer.Prelude.Text.{Text}
use slayer.Wire.{Wire}
use slayer.Session.{
  idle, in_transaction, failed, Backend, Raised, malformed, PgConnection, Act, Reply,
  ready_for_query, error_response, Notice,
}

module _ {b : Backend} where
  abbrev pub pure {ℓ} : {A : Type ℓ} → A → Act b A
  pure value c = (ok value, c)

  abbrev pub raise {ℓ} : {A : Type ℓ} → Raised → Act b A
  raise raised c = (err raised, c)

  infixl 5 ◌>>=◌ ◌>>◌
  abbrev pub ◌>>=◌ {ℓ κ} : {A : Type ℓ} {B : Type κ} → Act b A → (A → Act b B) → Act b B
  (step >>= next) c =
      let done = step c in
      elim done.0 [ err raised ↦ (err raised, done.1) | ok value ↦ next value done.1 ]

  abbrev pub ◌>>◌ {ℓ κ} : {A : Type ℓ} {B : Type κ} → Act b A → Act b B → Act b B
  (step >> next) c =
      let done = step c in
      elim done.0 [ err raised ↦ (err raised, done.1) | ok value ↦ next done.1 ]

  abbrev pub reads {ℓ} : {A : Type ℓ} → (PgConnection b → A) → Act b A
  reads field c = (ok (field c), c)

  abbrev pub change : (PgConnection b → PgConnection b) → Act b (Unit {0})
  change f c = (ok tt, f c)

  abbrev pub lift {ℓ} : {A : Type ℓ} → Result Raised A → Act b A
  lift (err raised) c = (err raised, c)
  lift (ok value) c = (ok value, c)

  -- the decoders raise `struct.error` and `ValueError` only
  abbrev pub lift_wire {ℓ} : {A : Type ℓ} → Wire A → Act b A
  lift_wire (err e) c = (err malformed, c)
  lift_wire (ok value) c = (ok value, c)

  -- `self._writer.write`
  unfoldable pub write : Reply → Act b (Unit {0})
  write reply = change (λ c. record c { written = c.written ++ reply ∷ [] })

  unfoldable pub send_ready : Act b (Unit {0})
  unfolding write
  send_ready c = write (ready_for_query c.tx_state) c

  unfoldable pub send_error : Text → Notice → Act b (Unit {0})
  unfolding write
  send_error code notice = write (error_response code notice)

  unfoldable pub fail_tx : Act b (Unit {0})
  fail_tx c = elim c.tx_state [
    | in_transaction ↦ (ok tt, record c { tx_state = failed })
    | idle ↦ (ok tt, c)
    | failed ↦ (ok tt, c)
  ]

  -- `_extended_error`
  unfoldable pub extended_error : Text → Notice → Act b (Unit {0})
  unfolding send_error fail_tx
  extended_error code notice =
      send_error code notice >> fail_tx >> change (λ c. record c { skip_until_sync = true })
