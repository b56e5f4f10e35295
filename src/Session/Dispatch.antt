-- ===== src/Session/Dispatch.antt =====
-- slayer/pg_facade/connection.py: ReadyForQuery and the moves, and the dispatch of the messages other
-- than Query and Sync.
use slayer.Prelude.{
  ℕ, suc, ◌+◌, ◌≡◌, refl, Bool, true, false, List, [], ◌∷◌, ◌++◌, eqb, if◌then◌else◌, arith,
}
use slayer.Prelude.Text.{text}
use slayer.Wire.{Bytes}
use slayer.Wire.Decode.{
  decode_query, decode_parse, decode_bind, decode_describe, decode_execute, decode_close,
}
use slayer.Session.{finished, Backend, PgConnection, Act, Reply, unsupported, unknown_type}
use slayer.Session.Act.{pure, raise, lift_wire, ◌>>=◌, extended_error}
use slayer.Session.Handlers.{
  handle_simple_query, handle_parse, handle_bind, handle_describe, handle_execute, handle_sync,
  handle_close,
}
use slayer.Session.Loop.{is_copy, dispatch_message}
use slayer.Session.Moves.{
  is_ready, Scope, session, Move, wrote, tx_failed, tx_opened, tx_ended, settings_changed,
  catalog_checked, engine_called, statements_changed, portals_changed, skip_changed,
  describe_changed, skip_changed, Moves, stay, move, Steady, Steady-bind, Steady-done, Steady-if,
  Steady-raise, Steady-lift_wire,
}
use slayer.Session.Extended.{
  Steady-extended_error, Steady-handle_parse, Steady-handle_bind, Steady-handle_describe,
  Steady-handle_execute, Steady-handle_close,
}

-- how many of the replies are ReadyForQuery
unfoldable pub readies : List Reply → ℕ
readies [] = 0
readies (reply ∷ replies) = let rest = readies replies in if is_ready reply then suc rest else rest

pub readies-append : (xs ys : List Reply) → readies (xs ++ ys) ≡ readies xs + readies ys
unfolding readies
readies-append [] ys = omega arith
readies-append (x ∷ xs) ys = ground (arith, readies-append xs ys)

module _ {b : Backend} {s : Scope} where
  readies-Move : {c d : PgConnection b} → Move s c d → readies d.written ≡ readies c.written
  unfolding readies
  readies-Move (wrote c reply h) = ground (arith, readies-append c.written (reply ∷ []))
  readies-Move (tx_failed c h) = refl
  readies-Move (tx_opened c) = refl
  readies-Move (tx_ended c) = refl
  readies-Move (settings_changed c settings) = refl
  readies-Move (catalog_checked c catalog now fingerprint h) = refl
  readies-Move (engine_called c world) = refl
  readies-Move (statements_changed c statements h) = refl
  readies-Move (portals_changed c portals h) = refl
  readies-Move (skip_changed c skip h) = refl
  readies-Move (describe_changed c in_describe h) = refl

  pub readies-Moves : {c d : PgConnection b} → Moves s c d → readies d.written ≡ readies c.written
  readies-Moves stay = refl
  readies-Moves (move first rest) = omega (arith, readies-Move first, readies-Moves rest)

  Steady-unless {ℓ} :
      {A : Type ℓ} (t : Bool) (x y : Act b A)
      → t ≡ false
      → Steady s y
      → Steady s (if t then x else y)
  Steady-unless true x y h hy = ground arith
  Steady-unless false x y h hy = hy

module _ (b : Backend) where
  pub dispatch_extended-Steady :
      (t : ℕ) (body : Bytes)
      → eqb t b'Q' ≡ false
      → eqb t b'S' ≡ false
      → Steady session (dispatch_message b t body)
  unfolding dispatch_message
  dispatch_extended-Steady t body not_query not_sync =
      let other =
        if is_copy t
        then extended_error {b = b} (text "0A000") (unsupported t)
        else extended_error (text "0A000") (unknown_type t) in
      let terminate = if eqb t b'X' then raise finished else other in
      let flush = if eqb t b'H' then pure tt else terminate in
      let close = lift_wire (decode_close b.utf8 body) >>= handle_close b in
      let closing = if eqb t b'C' then close else flush in
      let syncing = if eqb t b'S' then handle_sync b else closing in
      let execute = lift_wire (decode_execute b.utf8 body) >>= handle_execute b in
      let executing = if eqb t b'E' then execute else syncing in
      let describe = lift_wire (decode_describe b.utf8 body) >>= handle_describe b in
      let describing = if eqb t b'D' then describe else executing in
      let bind = lift_wire (decode_bind b.utf8 body) >>= handle_bind b in
      let binding = if eqb t b'B' then bind else describing in
      let parse = lift_wire (decode_parse b.utf8 body) >>= handle_parse b in
      let parsing = if eqb t b'P' then parse else binding in
      let query = lift_wire (decode_query b.utf8 body) >>= handle_simple_query b in
      Steady-unless (eqb t b'Q') query parsing not_query (
        Steady-if (eqb t b'P') parse binding
          (Steady-bind (lift_wire (decode_parse b.utf8 body)) (handle_parse b)
            (Steady-lift_wire (decode_parse b.utf8 body)) Steady-handle_parse)
          (Steady-if (eqb t b'B') bind describing
            (Steady-bind (lift_wire (decode_bind b.utf8 body)) (handle_bind b)
              (Steady-lift_wire (decode_bind b.utf8 body)) Steady-handle_bind)
            (Steady-if (eqb t b'D') describe executing
              (Steady-bind (lift_wire (decode_describe b.utf8 body)) (handle_describe b)
                (Steady-lift_wire (decode_describe b.utf8 body)) Steady-handle_describe)
              (Steady-if (eqb t b'E') execute syncing
                (Steady-bind (lift_wire (decode_execute b.utf8 body)) (handle_execute b)
                  (Steady-lift_wire (decode_execute b.utf8 body)) Steady-handle_execute)
                (Steady-unless (eqb t b'S') (handle_sync b) closing not_sync (
                  Steady-if (eqb t b'C') close flush
                    (Steady-bind (lift_wire (decode_close b.utf8 body)) (handle_close b)
                      (Steady-lift_wire (decode_close b.utf8 body)) Steady-handle_close)
                    (Steady-if (eqb t b'H') (pure tt) terminate Steady-done (
                      Steady-if (eqb t b'X') (raise finished) other
                        (Steady-raise (Unit {0}) finished)
                        (Steady-if (is_copy t) (extended_error (text "0A000") (unsupported t))
                          (extended_error (text "0A000") (unknown_type t))
                          (Steady-extended_error (text "0A000") (unsupported t))
                          (Steady-extended_error (text "0A000") (unknown_type t)))))))))))
