-- ===== src/Session/Loop.antt =====
-- slayer/pg_facade/connection.py: the dispatch of a message and the main loop.
use slayer.Prelude.{
  ℕ, zero, suc, Bool, true, ◌||◌, ◌&&◌, not, Option, none, some, eqb, if◌then◌else◌,
}
use slayer.Prelude.Result.{Result, err, ok}
use slayer.Prelude.Text.{text}
use slayer.Wire.{Wire, Bytes}
use slayer.Wire.Decode.{
  decode_query, decode_parse, decode_bind, decode_describe, decode_execute, decode_close,
}
use slayer.Wire.Frames.{read_message}
use slayer.Session.{
  Raised, malformed, finished, crash, translation_error, Backend, PgConnection, Act,
  malformed_message, unsupported, unknown_type,
}
use slayer.Session.Act.{
  pure, raise, change, lift_wire, ◌>>=◌, ◌>>◌, send_ready, send_error, fail_tx, extended_error,
}
use slayer.Session.Handlers.{
  handle_simple_query, handle_parse, handle_bind, handle_describe, handle_execute, handle_sync,
  handle_close,
}

-- the types of COPY
abbrev pub is_copy : ℕ → Bool
is_copy t = eqb t b'F' || (eqb t b'd' || (eqb t b'c' || eqb t b'f'))

-- Sync and Terminate
abbrev pub ends_skip : ℕ → Bool
ends_skip t = eqb t b'S' || eqb t b'X'

module _ (b : Backend) where
  -- `_dispatch_message`
  unfoldable pub dispatch_message : ℕ → Bytes → Act b (Unit {0})
  unfolding decode_query decode_parse decode_bind decode_describe decode_execute decode_close
      handle_simple_query handle_parse handle_bind handle_describe handle_execute handle_sync
      handle_close extended_error
  dispatch_message t body =
      if eqb t b'Q'
      then lift_wire (decode_query b.utf8 body) >>= handle_simple_query b
      else if eqb t b'P'
      then lift_wire (decode_parse b.utf8 body) >>= handle_parse b
      else if eqb t b'B'
      then lift_wire (decode_bind b.utf8 body) >>= handle_bind b
      else if eqb t b'D'
      then lift_wire (decode_describe b.utf8 body) >>= handle_describe b
      else if eqb t b'E'
      then lift_wire (decode_execute b.utf8 body) >>= handle_execute b
      else if eqb t b'S'
      then handle_sync b
      else if eqb t b'C'
      then lift_wire (decode_close b.utf8 body) >>= handle_close b
      else if eqb t b'H'
      then pure tt
      else if eqb t b'X'
      then raise finished
      else if is_copy t
      then extended_error (text "0A000") (unsupported t)
      else extended_error (text "0A000") (unknown_type t)

  -- what the loop does after a malformed body
  unfoldable pub recover : ℕ → Act b (Unit {0})
  unfolding send_error fail_tx send_ready
  recover t =
      send_error (text "08P01") (malformed_message t)
      >> (fail_tx
          >> (if eqb t b'Q' then send_ready else change (λ c. record c { skip_until_sync = true })))

  -- the `except` clauses around the dispatch
  unfoldable pub caught :
      ℕ → Result Raised (Unit {0}) × PgConnection b → Result Raised (Unit {0}) × PgConnection b
  unfolding recover
  caught t (ok _, c) = (ok tt, c)
  caught t (err malformed, c) = recover t c
  caught t (err finished, c) = (err finished, c)
  caught t (err crash, c) = (err crash, c)
  caught t (err (translation_error message), c) = (err (translation_error message), c)

  -- one round of the loop
  unfoldable pub handle_message : ℕ → Bytes → Act b (Unit {0})
  unfolding dispatch_message caught
  handle_message t body c =
      if c.skip_until_sync && not (ends_skip t)
      then (ok tt, c)
      else caught t (dispatch_message t body c)

  abbrev pub wait : Act b (Unit {0})
  wait = change (λ c. record c { world = b.wait c.world })

  -- one message of the main loop, and `next` on the rest of the stream
  unfoldable pub turn :
      Wire (Option ((ℕ × Bytes) × Bytes)) → (Bytes → Act b (Unit {0})) → Act b (Unit {0})
  unfolding handle_message
  turn (err e) next = raise malformed
  turn (ok none) next = pure tt
  turn (ok (some ((t, body), rest))) next = wait >> (handle_message t body >> next rest)

  -- `_main_loop` on the stream from here on; a round takes a byte of it at least
  unfoldable pub main_loop : ℕ → Bytes → Act b (Unit {0})
  unfolding read_message turn
  main_loop zero stream = pure tt
  main_loop (suc fuel) stream = turn (read_message stream) (main_loop fuel)
