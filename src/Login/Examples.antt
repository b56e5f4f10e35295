-- ===== src/Login/Examples.antt =====
-- The handshake on concrete streams.
use slayer.Prelude.{◌≡◌, refl, ◌↔◌, true, false, some, [], ◌∷◌, ◌++◌}
use slayer.Prelude.Result.{ok, err}
use slayer.Prelude.Text.{text}
use slayer.Wire.{pos, Bytes}
use slayer.Wire.Decode.{StartupMessage}
use slayer.Wire.Examples.{plain}
use slayer.Login.{
  static_authenticate, static_token, type_error, tls_refused, cleartext_password, authentication_ok,
  handle_startup, authenticate,
}
use slayer.Login.Guard.{Shows, authenticate_iff}

abbrev startup : StartupMessage
startup = record { protocol_version = pos 196608; parameters = (text "user", text "ann") ∷ [] }

-- a request for TLS that is refused, then the startup packet
abbrev packets : Bytes
packets =
    0 ∷ 0 ∷ 0 ∷ 8 ∷ 4 ∷ 210 ∷ 22 ∷ 47 ∷ 0 ∷ 0 ∷ 0 ∷ 18 ∷ 0 ∷ 3 ∷ 0 ∷ 0 ∷ text "user"
    ++ (0 ∷ text "ann")
    ++ (0 ∷ 0 ∷ [])

test_startup :
    handle_startup plain false 9 packets []
    ≡ record { returned = ok (some startup); stream = []; replies = tls_refused ∷ [] }
unfolding handle_startup
test_startup = refl

abbrev password_message : Bytes
password_message = b'p' ∷ 0 ∷ 0 ∷ 0 ∷ 7 ∷ text "ab" ++ (0 ∷ [])

test_accepted :
    authenticate plain (static_token (some (text "ab"))) startup password_message [] ≡ record {
      returned = ok true;
      stream = [];
      replies = cleartext_password ∷ authentication_ok ∷ [];
    }
unfolding authenticate static_authenticate
test_accepted = refl

test_rejected :
    (authenticate plain (static_token (some (text "abc"))) startup password_message []).returned
    ≡ ok false
unfolding authenticate static_authenticate
test_rejected = refl

-- a password that is not ASCII
test_type_error :
    (authenticate plain
      (static_token (some (text "ab")))
      startup
      (b'p' ∷ 0 ∷ 0 ∷ 0 ∷ 6 ∷ 252 ∷ 0 ∷ [])
      []).returned
    ≡ err type_error
unfolding authenticate static_authenticate
test_type_error = refl

authenticate_iff_example :
    ((authenticate plain (static_token (some (text "ab"))) startup password_message []).returned
      ≡ ok true)
    ↔ Shows plain (text "ab") password_message
authenticate_iff_example = authenticate_iff plain b'a' (text "b") refl startup password_message []
