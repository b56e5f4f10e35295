-- ===== src/Session/Moves.antt =====
-- slayer/pg_facade/connection.py: the elementary changes that a statement makes to a session, and
-- the sessions that are reached by them.
use slayer.Prelude.{
  ℕ, ◌≡◌, refl, sym, subst, ◌⊎◌, inl, inr, Bool, true, false, Option, [], ◌∷◌, ◌++◌, if◌then◌else◌,
  arith,
}
use slayer.Prelude.Result.{Result, err, ok}
use slayer.Prelude.Text.{Text}
use slayer.Prelude.TextDict.{TextDict}
use slayer.Wire.{Wire}
use slayer.Session.{
  idle, in_transaction, failed, Backend, PreparedStatement, Portal, PgConnection, Act, Raised,
  Reply, ready_for_query, error_response, Notice,
}
use slayer.Session.Act.{
  pure, raise, reads, lift, lift_wire, ◌>>=◌, ◌>>◌, write, send_error, fail_tx,
}

-- a reply other than ReadyForQuery
abbrev pub is_ready : Reply → Bool
is_ready reply = elim reply [ ready_for_query s ↦ true | _ ↦ false ]

-- A statement changes less than a message does: the messages of the extended protocol also store and
-- drop prepared statements and portals, and set the flags of the session.
pub data Scope : Type 0 where
  statement session : Scope

module _ {b : Backend} where
  pub data Move (s : Scope) : PgConnection b → PgConnection b → Type 0 where
    wrote :
        (c : PgConnection b) (reply : Reply)
        → is_ready reply ≡ false
        → Move s c (record c { written = c.written ++ reply ∷ [] })
    tx_failed :
        (c : PgConnection b)
        → c.tx_state ≡ in_transaction
        → Move s c (record c { tx_state = failed })
    tx_opened : (c : PgConnection b) → Move s c (record c { tx_state = in_transaction })
    tx_ended : (c : PgConnection b) → Move s c (record c { tx_state = idle })
    settings_changed :
        (c : PgConnection b) (settings : TextDict Text)
        → Move s c (record c { session_settings = settings })
    catalog_checked :
        (c : PgConnection b) (catalog : b.Catalog) (now : ℕ) (fingerprint : Option Text)
        → c.tx_state ≡ idle
        → Move s c (record c {
          catalog = catalog;
          catalog_checked_at = now;
          catalog_fingerprint = fingerprint;
        })
    engine_called : (c : PgConnection b) (world : b.World) → Move s c (record c { world = world })
    statements_changed :
        (c : PgConnection b) (statements : TextDict PreparedStatement)
        → s ≡ session
        → Move s c (record c { statements = statements })
    portals_changed :
        (c : PgConnection b) (portals : TextDict Portal)
        → s ≡ session
        → Move s c (record c { portals = portals })
    skip_changed :
        (c : PgConnection b) (skip : Bool)
        → s ≡ session
        → Move s c (record c { skip_until_sync = skip })
    describe_changed :
        (c : PgConnection b) (in_describe : Bool)
        → s ≡ session
        → Move s c (record c { in_describe = in_describe })

  pub data Moves (s : Scope) : PgConnection b → PgConnection b → Type 0 where
    stay : {c : PgConnection b} → Moves s c c
    move : {c d e : PgConnection b} → Move s c d → Moves s d e → Moves s c e

  Moves-trans : {s : Scope} {c d e : PgConnection b} → Moves s c d → Moves s d e → Moves s c e
  Moves-trans stay more = more
  Moves-trans (move first rest) more = move first (Moves-trans rest more)

  pub one : {s : Scope} {c d : PgConnection b} → Move s c d → Moves s c d
  one m = move m stay

  -- a handler that makes such changes only
  abbrev pub Steady {ℓ} : {A : Type ℓ} → Scope → Act b A → Type 0
  Steady s act = (c : PgConnection b) → Moves s c (act c).1

  Moves-after {ℓ κ} :
      {s : Scope} {A : Type ℓ} {B : Type κ} (c : PgConnection b)
      (done : Result Raised A × PgConnection b) (next : A → Act b B)
      → Moves s c done.1
      → ((value : A) → Steady s (next value))
      → Moves s c (((λ _. done) >>= next) c).1
  Moves-after c (err raised, d) next first rest = first
  Moves-after c (ok value, d) next first rest = Moves-trans first (rest value d)

  pub Steady-bind {ℓ κ} :
      {s : Scope} {A : Type ℓ} {B : Type κ} (step : Act b A) (next : A → Act b B)
      → Steady s step
      → ((value : A) → Steady s (next value))
      → Steady s (step >>= next)
  Steady-bind step next first rest c = Moves-after c (step c) next (first c) rest

  pub Steady-then {ℓ κ} :
      {s : Scope} {A : Type ℓ} {B : Type κ} (step : Act b A) (next : Act b B)
      → Steady s step
      → Steady s next
      → Steady s (step >> next)
  Steady-then step next first rest c = Moves-after c (step c) (λ _. next) (first c) (λ _. rest)

  pub Steady-pure {ℓ} : {s : Scope} {A : Type ℓ} (value : A) → Steady s (pure {b = b} value)
  Steady-pure value c = stay

  pub Steady-done : {s : Scope} → Steady {A = Unit {0}} s (pure tt)
  Steady-done c = stay

  pub Steady-raise {ℓ} :
      {s : Scope} (A : Type ℓ) (raised : Raised) → Steady {A = A} s (raise raised)
  Steady-raise A raised c = stay

  pub Steady-lift {ℓ} : {s : Scope} {A : Type ℓ} (r : Result Raised A) → Steady s (lift {b = b} r)
  Steady-lift (err raised) c = stay
  Steady-lift (ok value) c = stay

  pub Steady-lift_wire {ℓ} : {s : Scope} {A : Type ℓ} (r : Wire A) → Steady s (lift_wire {b = b} r)
  Steady-lift_wire (err raised) c = stay
  Steady-lift_wire (ok value) c = stay

  pub Steady-write : {s : Scope} (reply : Reply) → is_ready reply ≡ false → Steady s (write reply)
  unfolding write
  Steady-write reply h c = one (wrote c reply h)

  pub Steady-send_error :
      {s : Scope} (code : Text) (notice : Notice) → Steady s (send_error code notice)
  unfolding send_error
  Steady-send_error code notice = Steady-write (error_response code notice) refl

  fail_tx-cases :
      (c : PgConnection b)
      → ((fail_tx c).1 ≡ c)
        ⊎ ((c.tx_state ≡ in_transaction) × ((fail_tx c).1 ≡ record c { tx_state = failed }))
  unfolding fail_tx
  fail_tx-cases c = ground arith

  pub Steady-fail_tx : {s : Scope} → Steady s fail_tx
  Steady-fail_tx {s = s} c = elim (fail_tx-cases c) [
    | inl same ↦ subst (Moves s c) (sym same) stay
    | inr (open_tx, new) ↦ subst (Moves s c) (sym new) (one (tx_failed c open_tx))
  ]

  -- an error is sent and the transaction fails: how a statement is refused
  pub Steady-refuse :
      {s : Scope} (code : Text) (notice : Notice)
      → Steady s (send_error code notice >> (fail_tx >> pure false))
  Steady-refuse code notice =
      Steady-then (send_error code notice) (fail_tx >> pure false) (Steady-send_error code notice)
        (Steady-then fail_tx (pure false) Steady-fail_tx (Steady-pure false))

  pub Steady-if {ℓ} :
      {s : Scope} {A : Type ℓ} (t : Bool) (x y : Act b A)
      → Steady s x
      → Steady s y
      → Steady s (if t then x else y)
  Steady-if true x y hx hy = hx
  Steady-if false x y hx hy = hy

  pub Steady-reads {ℓ κ} :
      {s : Scope} {A : Type ℓ} {B : Type κ} (field : PgConnection b → A) (next : A → Act b B)
      → ((value : A) → Steady s (next value))
      → Steady s (reads field >>= next)
  Steady-reads field next rest c = rest (field c) c
