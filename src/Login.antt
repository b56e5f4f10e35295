-- ===== src/Login.antt =====
-- slayer/pg_facade/auth.py, and the handshake of slayer/pg_facade/connection.py before a session:
-- the startup packet and the password. The streams before and after a TLS upgrade are one stream
-- here: the upgrade is asyncio's. `hmac.compare_digest` raises where a text is not ASCII.
mod Examples
pub mod Guard
use slayer.Prelude.{
  ℕ, zero, suc, ◌+◌, ◌/◌, ◌^◌, Bool, true, false, ◌||◌, ◌&&◌, not, all, Option, none, some, List,
  [], ◌∷◌, ◌++◌, eqb, ltb, if◌then◌else◌,
}
use slayer.Prelude.Result.{Result, err, ok}
use slayer.Prelude.Text.{Text, text, text_eq}
use slayer.Prelude.TextDict.{lookup}
use slayer.Wire.{ℤ, pos, negsuc, Wire, Bytes, Utf8, unpack32}
use slayer.Wire.Decode.{StartupMessage, decode_startup, decode_password}
use slayer.Wire.Frames.{read_startup_frame, read_message}

-- `malformed_input` stands for `struct.error` and `ValueError`, `type_error` for `TypeError`
pub data LoginError : Type 0 where
  malformed_input type_error : LoginError

pub data IpAddress : Type 0 where
  ipv4 ipv6 : ℕ → IpAddress

-- `ip in net for net in _LOOPBACK_NETWORKS`
unfoldable in_loopback : IpAddress → Bool
in_loopback (ipv4 n) = eqb (n / 16777216) 127
in_loopback (ipv6 n) = eqb n 1

-- `_is_loopback`; `ip_address` is that of Python's `ipaddress`, `none` where it raises
unfoldable is_loopback : (Text → Option IpAddress) → Text → Bool
unfolding text_eq in_loopback
is_loopback ip_address host =
    if text_eq host (text "localhost")
    then true
    else elim (ip_address host) [ none ↦ false | some ip ↦ in_loopback ip ]

-- a Python text that may be missing, as a condition
abbrev is_truthy : Option Text → Bool
is_truthy none = false
is_truthy (some []) = false
is_truthy (some (c ∷ s)) = true

-- `validate_bind_address`; `err` for its `ValueError`
unfoldable validate_bind_address :
    (Text → Option IpAddress) → Text → Option Text → Bool → Result LoginError (Unit {0})
unfolding is_loopback
validate_bind_address ip_address host token authenticated =
    if is_truthy token || authenticated
    then ok tt
    else if is_loopback ip_address host
    then ok tt
    else err malformed_input

abbrev is_some : Option Text → Bool
is_some none = false
is_some (some s) = true

-- `validate_tls_pair`
unfoldable validate_tls_pair : Option Text → Option Text → Result LoginError (Unit {0})
validate_tls_pair cert key =
    if (is_some cert && is_some key) || (not (is_some cert) && not (is_some key))
    then ok tt
    else err malformed_input

-- `hmac.compare_digest`
unfoldable pub compare_digest : Text → Text → Result LoginError Bool
unfolding text_eq
compare_digest a b =
    if all (λ c. ltb c 128) a && all (λ c. ltb c 128) b then ok (text_eq a b) else err type_error

unfoldable pub verify_password : Text → Option Text → Result LoginError Bool
unfolding compare_digest
verify_password [] expected = ok false
verify_password (c ∷ password) none = ok true
verify_password (c ∷ password) (some expected) = compare_digest (c ∷ password) expected

-- `AuthOutcome`; the principal of an outcome belongs to the host
pub record AuthOutcome : Type 0 where
  pub accepted : Bool
  pub message : Text

pub record Authenticator : Type 0 where
  pub requires_password : Bool
  pub authenticate : Option Text → Option Text → Option Text → Result LoginError AuthOutcome

abbrev accept : AuthOutcome
accept = record { accepted = true; message = text "password authentication failed" }

abbrev reject : AuthOutcome
reject = record { accepted = false; message = text "password authentication failed" }

unfoldable pub outcome_of : Result LoginError Bool → Result LoginError AuthOutcome
outcome_of (err e) = err e
outcome_of (ok true) = ok accept
outcome_of (ok false) = ok reject

-- `StaticTokenAuthenticator.authenticate`
unfoldable pub static_authenticate : Option Text → Option Text → Result LoginError AuthOutcome
unfolding verify_password outcome_of
static_authenticate none password = ok accept
static_authenticate (some token) none = ok reject
static_authenticate (some token) (some password) =
    outcome_of (verify_password password (some token))

abbrev pub static_token : Option Text → Authenticator
static_token token = record {
  requires_password = is_some token;
  authenticate = λ username password database. static_authenticate token password;
}

pub data LoginReply : Type 0 where
  tls_accepted tls_refused cleartext_password authentication_ok : LoginReply
  fatal : Text → Text → LoginReply

-- what a step of the handshake returns: the value, the rest of the stream and the replies
pub record Handshake (A : Type 0) : Type 0 where
  pub returned : Result LoginError A
  pub stream : Bytes
  pub replies : List LoginReply

module _ (utf8 : Utf8) where
  -- the body of a startup packet, after its code
  unfoldable pub start : Bytes → Result LoginError (Option StartupMessage)
  unfolding decode_startup
  start body = elim (decode_startup utf8 body) [
    | err e ↦ err malformed_input
    | ok startup ↦ ok (some startup)
  ]

  abbrev is_code : ℕ → ℤ → Bool
  is_code n (pos code) = eqb code n
  is_code n (negsuc code) = false

  -- `_handle_startup`; every round takes a packet of eight bytes at least
  unfoldable pub handle_startup :
      Bool → ℕ → Bytes → List LoginReply → Handshake (Option StartupMessage)
  unfolding read_startup_frame unpack32 start
  handle_startup tls zero stream replies = record {
    returned = ok none;
    stream = stream;
    replies = replies;
  }
  handle_startup tls (suc fuel) stream replies = elim (read_startup_frame stream) [
    | err e ↦ record { returned = err malformed_input; stream = stream; replies = replies }
    | ok none ↦ record { returned = ok none; stream = stream; replies = replies }
    | ok (some (body, rest)) ↦ elim (unpack32 body) [
      | err e ↦ record { returned = err malformed_input; stream = rest; replies = replies }
      | ok (code, _) ↦
          let is_ssl = is_code 80877103 code in
          let answer = if is_ssl && tls then tls_accepted else tls_refused in
          elim (is_ssl || is_code 80877104 code) [
            | true ↦ handle_startup tls fuel rest (replies ++ answer ∷ [])
            | false ↦
                if is_code 80877102 code
                then record { returned = ok none; stream = rest; replies = replies }
                else if is_code 196608 code
                then record { returned = start body; stream = rest; replies = replies }
                else record {
                  returned = ok none;
                  stream = rest;
                  replies =
                      replies ++ fatal (text "0A000") (text "unsupported protocol version") ∷ [];
                }
          ]
    ]
  ]

  -- what follows the authenticator's answer
  unfoldable pub conclude : Result LoginError AuthOutcome → Bytes → List LoginReply → Handshake Bool
  conclude (err e) stream replies = record { returned = err e; stream = stream; replies = replies }
  conclude (ok outcome) stream replies =
      if outcome.accepted
      then record {
        returned = ok true;
        stream = stream;
        replies = replies ++ authentication_ok ∷ [];
      }
      else record {
        returned = ok false;
        stream = stream;
        replies = replies ++ fatal (text "28P01") outcome.message ∷ [];
      }

  -- the password message, after its type
  unfoldable pub with_password :
      Authenticator
      → Option Text
      → Option Text
      → ℕ
      → Bytes
      → Bytes
      → List LoginReply
      → Handshake Bool
  unfolding decode_password conclude
  with_password auth username database type_char body rest replies =
      if not (eqb type_char b'p')
      then record {
        returned = ok false;
        stream = rest;
        replies = replies ++ fatal (text "28000") (text "expected password message") ∷ [];
      }
      else elim (decode_password utf8 body) [
        | err e ↦ record {
          returned = ok false;
          stream = rest;
          replies = replies ++ fatal (text "08P01") (text "malformed password message") ∷ [];
        }
        | ok password ↦ conclude (auth.authenticate username (some password) database) rest replies
      ]

  -- the exchange of the password
  unfoldable pub ask_password :
      Authenticator → Option Text → Option Text → Bytes → List LoginReply → Handshake Bool
  unfolding read_message with_password
  ask_password auth username database stream replies = elim (read_message stream) [
    | err e ↦ record { returned = err malformed_input; stream = stream; replies = replies }
    | ok none ↦ record { returned = ok false; stream = stream; replies = replies }
    | ok (some ((type_char, body), rest)) ↦
        with_password auth username database type_char body rest replies
  ]

  -- `_authenticate`
  unfoldable pub authenticate :
      Authenticator → StartupMessage → Bytes → List LoginReply → Handshake Bool
  unfolding lookup ask_password conclude
  authenticate auth startup stream replies =
      let username = lookup startup.parameters (text "user") in
      let database = lookup startup.parameters (text "database") in
      if auth.requires_password
      then ask_password auth username database stream (replies ++ cleartext_password ∷ [])
      else conclude (auth.authenticate username none database) stream replies
