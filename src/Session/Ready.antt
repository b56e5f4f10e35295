-- ===== src/Session/Ready.antt =====
-- slayer/pg_facade/connection.py: how many times ReadyForQuery is written.
use slayer.Prelude.{
  ℕ, ◌+◌, ◌≡◌, refl, sym, subst, inl, inr, Bool, true, false, ◌||◌, ◌&&◌, not, [], ◌∷◌, eqb,
  eqb_iff, Bool-cases, if◌then◌else◌, arith,
}
use slayer.Prelude.Result.{Result, err, ok}
use slayer.Prelude.Text.{Text, text}
use slayer.Wire.{Wire, Bytes}
use slayer.Wire.Decode.{decode_query}
use slayer.Session.{
  Raised, malformed, finished, crash, translation_error, Backend, PgConnection, Act,
  ready_for_query, malformed_message, Notice,
}
use slayer.Session.Act.{
  change, lift, lift_wire, ◌>>=◌, ◌>>◌, write, send_ready, send_error, fail_tx,
}
use slayer.Session.Handlers.{parse_statements, run_parsed, handle_simple_query, handle_sync}
use slayer.Session.Loop.{dispatch_message, recover, caught, ends_skip, handle_message}
use slayer.Session.Moves.{
  session, Moves, Steady-bind, Steady-lift, Steady-send_error, Steady-fail_tx,
}
use slayer.Session.Extended.{Steady-run_parsed}
use slayer.Session.Dispatch.{readies, readies-append, readies-Moves, dispatch_extended-Steady}

module _ (b : Backend) where
  fail_tx-readies : (c : PgConnection b) → readies (fail_tx c).1.written ≡ readies c.written
  fail_tx-readies c = readies-Moves (Steady-fail_tx {s = session} c)

  send_ready-readies :
      (c : PgConnection b) → readies (send_ready c).1.written ≡ readies c.written + 1
  unfolding send_ready write readies
  send_ready-readies c = ground (arith, readies-append c.written (ready_for_query c.tx_state ∷ []))

  send_error-readies :
      (code : Text) (notice : Notice) (c : PgConnection b)
      → readies (send_error code notice c).1.written ≡ readies c.written
  send_error-readies code notice c = readies-Moves (Steady-send_error {s = session} code notice c)

  -- after a step that returned, `k` of the replies that it wrote are ReadyForQuery; after one that
  -- raised, none is
  unfoldable pub Counts {ℓ} :
      {A : Type ℓ} → ℕ → PgConnection b → Result Raised A × PgConnection b → Type 0
  unfolding readies
  Counts k c (ok _, d) = readies d.written ≡ readies c.written + k
  Counts k c (err _, d) = readies d.written ≡ readies c.written

  Counts-from {ℓ} :
      {A : Type ℓ} (k : ℕ) (c d : PgConnection b) (done : Result Raised A × PgConnection b)
      → readies d.written ≡ readies c.written
      → Counts k d done
      → Counts k c done
  unfolding Counts
  Counts-from k c d (ok value, e) same h = omega arith
  Counts-from k c d (err raised, e) same h = omega arith

  Counts-Steady {ℓ} :
      {A : Type ℓ} (c : PgConnection b) (done : Result Raised A × PgConnection b)
      → Moves session c done.1
      → Counts 0 c done
  unfolding Counts
  Counts-Steady c (ok value, d) h = omega (arith, readies-Moves h)
  Counts-Steady c (err raised, d) h = readies-Moves h

  Counts-then {ℓ κ} :
      {A : Type ℓ} {B : Type κ} (k : ℕ) (c : PgConnection b)
      (done : Result Raised A × PgConnection b) (next : A → Act b B)
      → Moves session c done.1
      → ((value : A) (d : PgConnection b) → Counts k d (next value d))
      → Counts k c (((λ _. done) >>= next) c)
  unfolding Counts
  Counts-then k c (ok value, d) next h rest =
      Counts-from k c d (next value d) (readies-Moves h) (rest value d)
  Counts-then k c (err raised, d) next h rest = readies-Moves h

  Counts-send_ready : (c : PgConnection b) → Counts 1 c (send_ready c)
  unfolding Counts send_ready write
  Counts-send_ready c = send_ready-readies c

  simple_query-Counts : (sql : Text) (c : PgConnection b) → Counts 1 c (handle_simple_query b sql c)
  unfolding handle_simple_query
  simple_query-Counts sql c =
      Counts-then 1 c ((lift (parse_statements b sql) >>= run_parsed b) c) (λ _. send_ready)
        (Steady-bind (lift (parse_statements b sql)) (run_parsed b)
          (Steady-lift (parse_statements b sql)) Steady-run_parsed c)
        (λ _ d. Counts-send_ready d)

  -- the messages that are followed by ReadyForQuery
  abbrev pub expected : ℕ → ℕ
  expected t = if eqb t b'Q' || eqb t b'S' then 1 else 0

  recovered-Counts :
      (is_query : Bool) (c : PgConnection b)
      → Counts
          (if is_query then 1 else 0)
          c
          ((if is_query then send_ready else change (λ d. record d { skip_until_sync = true })) c)
  unfolding Counts
  recovered-Counts true c = Counts-send_ready c
  recovered-Counts false c = omega arith

  recover-Counts :
      (t : ℕ) (c : PgConnection b) → Counts (if eqb t b'Q' then 1 else 0) c (recover b t c)
  unfolding recover
  recover-Counts t c =
      let is_query = eqb t b'Q' in
      let k = if is_query then 1 else 0 in
      let last =
        if is_query then send_ready else change (λ d. record d { skip_until_sync = true }) in
      Counts-then k c (send_error (text "08P01") (malformed_message t) c) (λ _. fail_tx >> last)
        (Steady-send_error (text "08P01") (malformed_message t) c)
        (λ _ d.
          Counts-then k d (fail_tx d) (λ _. last) (Steady-fail_tx d)
            (λ _ e. recovered-Counts is_query e))

  caught-Counts :
      (t : ℕ) (c : PgConnection b) (done : Result Raised (Unit {0}) × PgConnection b)
      → Counts (if eqb t b'Q' then 1 else 0) c done
      → Counts (if eqb t b'Q' then 1 else 0) c (caught b t done)
  unfolding Counts caught
  caught-Counts t c (ok _, d) h = h
  caught-Counts t c (err malformed, d) h =
      Counts-from (if eqb t b'Q' then 1 else 0) c d (recover b t d) h (recover-Counts t d)
  caught-Counts t c (err finished, d) h = h
  caught-Counts t c (err crash, d) h = h
  caught-Counts t c (err (translation_error message), d) h = h

  Counts-chosen :
      (k : ℕ) (c : PgConnection b) (t : Bool) (x y : Act b (Unit {0}))
      → t ≡ true
      → Counts k c (x c)
      → Counts k c ((if t then x else y) c)
  Counts-chosen k c true x y h hx = hx
  Counts-chosen k c false x y h hx = ground arith

  Counts-same :
      (j k : ℕ) (c : PgConnection b) (done : Result Raised (Unit {0}) × PgConnection b)
      → j ≡ k
      → Counts j c done
      → Counts k c done
  Counts-same j k c done h = subst (λ n. Counts n c done) h

  decoded-Counts :
      (r : Wire Text) (c : PgConnection b) → Counts 1 c ((lift_wire r >>= handle_simple_query b) c)
  unfolding Counts
  decoded-Counts (err e) c = refl
  decoded-Counts (ok sql) c = simple_query-Counts sql c

  query-Counts :
      (t : ℕ) (body : Bytes) (c : PgConnection b)
      → eqb t b'Q' ≡ true
      → Counts 1 c (dispatch_message b t body c)
  unfolding dispatch_message
  query-Counts t body c h =
      Counts-chosen 1 c (eqb t b'Q')
        (lift_wire (decode_query b.utf8 body) >>= handle_simple_query b) _ h
        (decoded-Counts (decode_query b.utf8 body) c)

  sync-Counts :
      (body : Bytes) (c : PgConnection b)
      → Counts 1 c (caught b b'S' (dispatch_message b b'S' body c))
  unfolding dispatch_message handle_sync caught Counts send_ready
  sync-Counts body c = send_ready-readies (record c { skip_until_sync = false })

  -- a message that is not skipped
  handled-Counts :
      (t : ℕ) (body : Bytes) (c : PgConnection b)
      → Counts (expected t) c (caught b t (dispatch_message b t body c))
  handled-Counts t body c = elim (Bool-cases (eqb t b'Q')) [
    | inl query ↦
        Counts-same (if eqb t b'Q' then 1 else 0) (expected t) c
          (caught b t (dispatch_message b t body c)) (ground (arith, query))
          (caught-Counts t c (dispatch_message b t body c) (
            Counts-same 1 (if eqb t b'Q' then 1 else 0) c (dispatch_message b t body c)
              (ground (arith, query)) (query-Counts t body c query)))
    | inr other ↦ elim (Bool-cases (eqb t b'S')) [
      | inl sync ↦
          subst (λ u. Counts (expected u) c (caught b u (dispatch_message b u body c)))
            (sym ((eqb_iff t b'S').0 sync)) (sync-Counts body c)
      | inr extended ↦
          Counts-same (if eqb t b'Q' then 1 else 0) (expected t) c
            (caught b t (dispatch_message b t body c)) (ground (arith, other, extended))
            (caught-Counts t c (dispatch_message b t body c) (
              Counts-same 0 (if eqb t b'Q' then 1 else 0) c (dispatch_message b t body c)
                (ground (arith, other))
                (Counts-Steady c (dispatch_message b t body c)
                  (dispatch_extended-Steady b t body other extended c))))
    ]
  ]

  skipped-Counts :
      (skipped : Bool) (k : ℕ) (c : PgConnection b)
      (done : Result Raised (Unit {0}) × PgConnection b)
      → Counts k c done
      → Counts (if skipped then 0 else k) c (if skipped then (ok tt, c) else done)
  unfolding Counts
  skipped-Counts true k c done h = omega arith
  skipped-Counts false k c done h = h

  -- Of the replies to a Query or a Sync that is not skipped, exactly one is ReadyForQuery, whether the
  -- body is well formed or not; of the replies to any other message, to a skipped one, and to one at
  -- which the session ends or crashes, none is.
  pub handle_message-Counts :
      (t : ℕ) (body : Bytes) (c : PgConnection b)
      → Counts
          (if c.skip_until_sync && not (ends_skip t) then 0 else expected t)
          c
          (handle_message b t body c)
  unfolding handle_message
  handle_message-Counts t body c =
      skipped-Counts (c.skip_until_sync && not (ends_skip t)) (expected t) c
        (caught b t (dispatch_message b t body c)) (handled-Counts t body c)
