-- ===== src/Login/Guard.antt =====
-- slayer/pg_facade/connection.py and auth.py: who gets in.
use slayer.Prelude.{
  ◌≡◌, refl, sym, subst, ap, ◌∙◌, ◌&&◌, if◌then◌else◌, ◌↔◌, inl, inr, ℕ, Bool-cases, Bool, true,
  false, all, Option, none, some, List, [], ◌∷◌, ◌++◌, ltb, eqb, eqb_iff, arith,
}
use slayer.Prelude.Result.{Result, err, ok, Result-cases}
use slayer.Prelude.Text.{Text, text, text_eq, text_eq_iff}
use slayer.Prelude.TextDict.{lookup}
use slayer.Wire.{Bytes, Utf8}
use slayer.Wire.Decode.{StartupMessage, decode_password}
use slayer.Wire.Frames.{read_message}
use slayer.Login.{
  LoginError, type_error, outcome_of, LoginReply, cleartext_password, compare_digest,
  verify_password, static_authenticate, static_token, conclude, with_password, ask_password,
  authenticate,
}

-- the next message of the stream is a password, and it is this text
abbrev pub Shows : Utf8 → Text → Bytes → Type 0
Shows utf8 token stream =
    (body : Bytes) × (rest : Bytes) × (read_message stream ≡ ok (some ((b'p', body), rest)))
    × (decode_password utf8 body ≡ ok token)

compare_digest-same :
    (a b : Text) → all (λ x. ltb x 128) b ≡ true → a ≡ b → compare_digest a b ≡ ok true
unfolding compare_digest
compare_digest-same a b ascii same =
    subst (λ t. compare_digest t b ≡ ok true) (sym same)
      (ground (arith, ascii, (text_eq_iff b b).1 refl))

digest_true :
    (ascii same : Bool) → (if ascii then ok same else err type_error) ≡ ok true → same ≡ true
digest_true true same h = ground (arith, h)
digest_true false same h = ground (arith, h)

compare_digest-true : (a b : Text) → compare_digest a b ≡ ok true → a ≡ b
unfolding compare_digest
compare_digest-true a b h =
    (text_eq_iff a b).0
      (digest_true (all (λ c. ltb c 128) a && all (λ c. ltb c 128) b) (text_eq a b) h)

-- the whole token is compared
verify_password_iff :
    (c : ℕ) (token password : Text)
    → all (λ x. ltb x 128) (c ∷ token) ≡ true
    → (verify_password password (some (c ∷ token)) ≡ ok true) ↔ (password ≡ c ∷ token)
unfolding verify_password
verify_password_iff c token [] ascii = (λ h. ground (arith, h), λ h. ground (arith, h))
verify_password_iff c token (d ∷ password) ascii = (
  λ h. compare_digest-true (d ∷ password) (c ∷ token) h,
  λ h. compare_digest-same (d ∷ password) (c ∷ token) ascii h,
)

concluded_true :
    (utf8 : Utf8) (verdict : Result LoginError Bool) (stream : Bytes) (replies : List LoginReply)
    → (conclude utf8 (outcome_of verdict) stream replies).returned ≡ ok true
    → verdict ≡ ok true
unfolding conclude outcome_of
concluded_true utf8 (err e) stream replies h = ground (arith, h)
concluded_true utf8 (ok true) stream replies h = refl
concluded_true utf8 (ok false) stream replies h = ground (arith, h)

-- what lets a client in: the right password in the next message
module _ (utf8 : Utf8) (c : ℕ) (token : Text)
    (ascii : all (λ x. ltb x 128) (c ∷ token) ≡ true) where
  asked :
      (username database : Option Text) (stream body rest : Bytes) (t : ℕ) (password : Text)
      (replies : List LoginReply)
      → read_message stream ≡ ok (some ((t, body), rest))
      → eqb t b'p' ≡ true
      → decode_password utf8 body ≡ ok password
      → ask_password utf8 (static_token (some (c ∷ token))) username database stream replies
        ≡ conclude utf8 (outcome_of (verify_password password (some (c ∷ token)))) rest replies
  unfolding ask_password with_password static_authenticate
  asked username database stream body rest t password replies found is_password decoded =
      ground (arith, found, is_password, decoded)

  asked-true :
      (username database : Option Text) (stream : Bytes) (replies : List LoginReply)
      → (ask_password utf8
          (static_token (some (c ∷ token)))
          username
          database
          stream
          replies).returned
        ≡ ok true
      → Shows utf8 (c ∷ token) stream
  unfolding ask_password with_password static_authenticate
  asked-true username database stream replies h = elim (Result-cases (read_message stream)) [
    | inl (e, bad) ↦ ground (arith, bad, h)
    | inr (none, ended) ↦ ground (arith, ended, h)
    | inr (some ((t, body), rest), found) ↦ elim (Bool-cases (eqb t b'p')) [
      | inr other ↦ ground (arith, found, other, h)
      | inl is_password ↦ elim (Result-cases (decode_password utf8 body)) [
        | inl (e, bad) ↦ ground (arith, found, is_password, bad, h)
        | inr (password, decoded) ↦ (
          body,
          rest,
          found ∙ ap (λ u. ok (some ((u, body), rest))) ((eqb_iff t b'p').0 is_password),
          decoded
              ∙ ap ok (
                  (verify_password_iff c token password ascii).0 (
                    concluded_true utf8 (verify_password password (some (c ∷ token))) rest replies (
                      sym (
                        ap (λ x. x.returned)
                          (asked username database stream body rest t password replies found
                            is_password decoded))
                      ∙ h))),
        )
      ]
    ]
  ]

  -- With a static token that is ASCII and not empty, a client is let in exactly if its next message is
  -- a password message that decodes to the token; whatever else comes, and a stream that ends, does
  -- not.
  pub authenticate_iff :
      (startup : StartupMessage) (stream : Bytes) (replies : List LoginReply)
      → ((authenticate utf8 (static_token (some (c ∷ token))) startup stream replies).returned
          ≡ ok true)
        ↔ Shows utf8 (c ∷ token) stream
  unfolding authenticate conclude outcome_of
  authenticate_iff startup stream replies =
      let username = lookup startup.parameters (text "user") in
      let database = lookup startup.parameters (text "database") in
      let sent = replies ++ cleartext_password ∷ [] in
      (
        asked-true username database stream sent,
        λ shown.
            let (body, rest, found, decoded) = shown in
            ap (λ x. x.returned)
              (asked username database stream body rest b'p' (c ∷ token) sent found refl decoded)
            ∙ ap (λ v. (conclude utf8 (outcome_of v) rest sent).returned)
                ((verify_password_iff c token (c ∷ token) ascii).1 refl),
      )
