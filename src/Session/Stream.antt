-- ===== src/Session/Stream.antt =====
-- slayer/pg_facade/connection.py: the main loop on a stream of framed messages, and its fuel.
use slayer.Prelude.{
  ℕ, zero, suc, ◌+◌, ◌-◌, ◌<◌, ◌≤◌, ◌≡◌, refl, sym, subst, ap, ◌∙◌, ◌⊎◌, inl, inr, Bool, true,
  false, Option, none, some, List, [], ◌∷◌, ◌++◌, take, drop, length, All, ltb, leb, Option-cases,
  if◌then◌else◌, arith,
}
use slayer.Prelude.Result.{Result, err, ok, bind-bind-ok, Result-cases}
use slayer.Wire.{Wire, Bytes, pos, negsuc, unpack32, msg}
use slayer.Wire.Frames.{readexactly, read_message}
use slayer.Wire.Bodies.{read_message-msg}
use slayer.Session.{Raised, Backend, PgConnection, Act}
use slayer.Session.Act.{pure, ◌>>◌}
use slayer.Session.Loop.{handle_message, wait, turn, main_loop}

-- the stream of framed messages
unfoldable pub frames : List (ℕ × Bytes) → Wire Bytes
unfolding msg
frames [] = ok []
frames ((t, body) ∷ messages) =
    slayer.Prelude.Result.◌>>=◌ (msg t body)
      (λ first. slayer.Prelude.Result.◌>>=◌ (frames messages) (λ rest. ok (first ++ rest)))

-- a type byte that is ASCII
abbrev IsAscii : ℕ × Bytes → Type 0
IsAscii message = message.0 < 128

length-drop : (n : ℕ) (bytes : Bytes) → length (drop n bytes) ≡ length bytes - n
length-drop zero bytes = omega arith
length-drop (suc n) [] = omega arith
length-drop (suc n) (x ∷ bytes) = omega (arith, length-drop n bytes)

readexactly_shorter :
    (n : ℕ) (bytes part rest : Bytes)
    → readexactly n bytes ≡ some (part, rest)
    → length rest ≤ length bytes
unfolding readexactly
readexactly_shorter n bytes part rest h = ground (arith, length-drop n bytes)

read_message_shorter :
    (stream : Bytes) (t : ℕ) (body rest : Bytes)
    → read_message stream ≡ ok (some ((t, body), rest))
    → length rest < length stream
unfolding read_message
read_message_shorter [] t body rest h = ground arith
read_message_shorter (c ∷ stream) t body rest h = elim (Option-cases (readexactly 4 stream)) [
  | inl missing ↦ ground (arith, missing)
  | inr ((header, after), found) ↦ elim (Result-cases (unpack32 header)) [
    | inl (e, bad) ↦ ground (arith, found, bad)
    | inr ((pos size, left), number) ↦ elim (Option-cases (readexactly (size - 4) after)) [
      | inl missing ↦ ground (arith, found, number, missing)
      | inr ((body2, left2), found2) ↦ ground (
        arith,
        found,
        number,
        found2,
        readexactly_shorter 4 stream header after found,
        readexactly_shorter (size - 4) after body2 left2 found2,
      )
    ]
    | inr ((negsuc size, left), number) ↦ ground (arith, found, number)
  ]
]

module _ (b : Backend) where
  -- the messages, one after the other
  unfoldable pub handle_all : List (ℕ × Bytes) → Act b (Unit {0})
  unfolding handle_message
  handle_all [] = pure tt
  handle_all ((t, body) ∷ messages) = wait b >> (handle_message b t body >> handle_all messages)

  frames-split :
      (m : ℕ × Bytes) (messages : List (ℕ × Bytes)) (stream : Bytes)
      → frames (m ∷ messages) ≡ ok stream
      → (first : Bytes) × (rest : Bytes) × (msg m.0 m.1 ≡ ok first)
        × (frames messages ≡ ok rest)
        × (first ++ rest ≡ stream)
  unfolding frames
  frames-split (t, body) messages stream h =
      bind-bind-ok (msg t body) (frames messages) (λ first rest. first ++ rest) h

  -- two handlers that do the same, after one step
  after-cong :
      (done : Result Raised (Unit {0}) × PgConnection b) (one two : Act b (Unit {0}))
      (c : PgConnection b)
      → ((d : PgConnection b) → one d ≡ two d)
      → ((λ _. done) >> one) c ≡ ((λ _. done) >> two) c
  after-cong (err raised, d) one two c h = refl
  after-cong (ok value, d) one two c h = h d

  then-cong :
      (step one two : Act b (Unit {0})) (c : PgConnection b)
      → ((d : PgConnection b) → one d ≡ two d)
      → (step >> one) c ≡ (step >> two) c
  then-cong step one two c h = after-cong (step c) one two c h

  -- On the stream of framed messages with ASCII types, the main loop handles the messages one after
  -- the other and ends where the stream does; fuel for one round more than there are messages is
  -- enough.
  pub main_loop-frames :
      (messages : List (ℕ × Bytes)) (stream : Bytes) (fuel : ℕ) (c : PgConnection b)
      → All IsAscii messages
      → frames messages ≡ ok stream
      → length messages < fuel
      → main_loop b fuel stream c ≡ handle_all messages c
  unfolding main_loop handle_all frames turn
  main_loop-frames messages stream zero c ascii h enough = ground arith
  main_loop-frames [] [] (suc fuel) c ascii h enough = refl
  main_loop-frames [] (x ∷ stream) (suc fuel) c ascii h enough = ground arith
  main_loop-frames ((t, body) ∷ messages) stream (suc fuel) c ascii h enough =
      let (first, rest, framed, more, joined) = frames-split (t, body) messages stream h in
      subst (λ whole. main_loop b (suc fuel) whole c ≡ handle_all ((t, body) ∷ messages) c) joined
        (ap (λ r. turn b r (main_loop b fuel) c) (read_message-msg t body first rest ascii.0 framed)
          ∙ then-cong (wait b) (handle_message b t body >> main_loop b fuel rest)
              (handle_message b t body >> handle_all messages) c
              (λ d.
                then-cong (handle_message b t body) (main_loop b fuel rest) (handle_all messages) d
                  (λ e. main_loop-frames messages rest fuel e ascii.1 more (omega arith))))

  -- Every stream is handled to its end: with fuel for each of its bytes and one round more, the
  -- main loop does what it does with any fuel beyond that.
  pub main_loop-fuel :
      (stream : Bytes) (fuel more : ℕ) (c : PgConnection b)
      → length stream < fuel
      → length stream < more
      → main_loop b fuel stream c ≡ main_loop b more stream c
  unfolding main_loop turn
  main_loop-fuel stream zero more c h k = ground arith
  main_loop-fuel stream (suc fuel) zero c h k = ground arith
  main_loop-fuel stream (suc fuel) (suc more) c h k = elim (Result-cases (read_message stream)) [
    | inl (e, bad) ↦
        ap (λ r. turn b r (main_loop b fuel) c) bad
        ∙ sym (ap (λ r. turn b r (main_loop b more) c) bad)
    | inr (none, ended) ↦
        ap (λ r. turn b r (main_loop b fuel) c) ended
        ∙ sym (ap (λ r. turn b r (main_loop b more) c) ended)
    | inr (some ((t, body), rest), found) ↦
        ap (λ r. turn b r (main_loop b fuel) c) found
        ∙ then-cong (wait b) (handle_message b t body >> main_loop b fuel rest)
            (handle_message b t body >> main_loop b more rest) c
            (λ d.
              then-cong (handle_message b t body) (main_loop b fuel rest) (main_loop b more rest) d
                (λ e.
                  main_loop-fuel rest fuel more e
                    (omega (arith, read_message_shorter stream t body rest found, h))
                    (omega (arith, read_message_shorter stream t body rest found, k))))
        ∙ sym (ap (λ r. turn b r (main_loop b more) c) found)
  ]
