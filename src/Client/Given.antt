-- ===== src/Client/Given.antt =====
-- What each event at the client does to the stream with one id.
use mathlib.Core.Option
use mathlib.Core.List.{append_assoc}
use muvee.Prelude.{
  ℕ, ◌+◌, ◌≤◌, ◌<◌, ◌^◌, ◌≡◌, refl, sym, ap, ◌∙◌, inl, inr, Bool, true, false, Option, none, some,
  List, [], ◌∷◌, ◌++◌, ◌==◌, ltb, if◌then◌else◌, length, update, arith, Bool-cases, ==_iff, lt→ltb,
}
use muvee.Prelude.Keys.{first-update, first-holds}
use muvee.Tunnel.{Bytes, frame_open, frame_data, frame_close, Frame, write_frame, put_uint32}
use muvee.Tunnel.Frames.{uint32-bytes, concat}
use muvee.Tunnel.Given.{concat-snoc}
use muvee.Client.{
  inbox_size, CliStream, Streams, is_stream, get_cli_stream, close_stream, open_stream,
  receive_data, read_message, receive_frame, receive_read, write_oldest, write_local,
}

pub read_message-write_frame :
    (kind sid : ℕ) (payload : Bytes)
    → sid < 2 ^ 32
    → read_message (write_frame kind sid payload)
      ≡ some (record { kind = kind; stream_id = sid; payload = payload })
unfolding read_message write_frame put_uint32
read_message-write_frame kind sid payload h = rw (uint32-bytes sid h) refl

-- The message is a frame of the stream.
abbrev pub concerns : ℕ → Option Frame → Bool
concerns sid none = false
concerns sid (some f) = f.stream_id == sid

-- What the stream has been given in all: what is written, and then what waits.
abbrev pub given_to : CliStream → Bytes
given_to s = s.written ++ concat s.inbox

-- The map leads to a stream that was given the bytes, with at most so many payloads waiting.
pub record IsGiven (sid : ℕ) (m : Streams) (bytes : Bytes) (waiting : ℕ) : Type 0 where
  pub stream : CliStream
  pub found : get_cli_stream sid m ≡ some stream
  pub given : given_to stream ≡ bytes
  pub backlog : length stream.inbox ≤ waiting

get-close_other :
    (sid other : ℕ) (m : Streams)
    → (other == sid) ≡ false
    → get_cli_stream sid (close_stream other m) ≡ get_cli_stream sid m
unfolding get_cli_stream close_stream
get-close_other sid other [] n = refl
get-close_other sid other (s ∷ m) n = ground (arith, get-close_other sid other m n)

get-update_other :
    (sid other : ℕ) (f : CliStream → CliStream) (m : Streams)
    → (other == sid) ≡ false
    → ((s : CliStream) → (f s).sid ≡ s.sid)
    → get_cli_stream sid (update (is_stream other) f m) ≡ get_cli_stream sid m
unfolding get_cli_stream
get-update_other sid other f [] n k = refl
get-update_other sid other f (s ∷ m) n k = ground (arith, get-update_other sid other f m n k, k s)

get-update_self :
    (sid : ℕ) (f : CliStream → CliStream) (m : Streams) (s : CliStream)
    → ((s : CliStream) → (f s).sid ≡ s.sid)
    → get_cli_stream sid m ≡ some s
    → get_cli_stream sid (update (is_stream sid) f m) ≡ some (f s)
unfolding get_cli_stream
get-update_self sid f m s k h =
    first-update (is_stream sid) (is_stream sid) f m (λ x. ap (λ (n : ℕ). n == sid) (k x))
    ∙ ap (Option.map (λ x. if is_stream sid x then f x else x)) h
    ∙ rw (first-holds (is_stream sid) m s h) refl

write_oldest_sid : (s : CliStream) (i : List Bytes) → s.inbox ≡ i → (write_oldest s).sid ≡ s.sid
unfolding write_oldest
write_oldest_sid s [] e = rw e refl
write_oldest_sid s (p ∷ i) e = rw e refl

write_oldest-given :
    (s : CliStream) (i : List Bytes) → s.inbox ≡ i → given_to (write_oldest s) ≡ given_to s
unfolding write_oldest
write_oldest-given s [] e = rw e refl
write_oldest-given s (p ∷ i) e = rw e (append_assoc s.written p (concat i))

write_oldest-backlog :
    (s : CliStream) (i : List Bytes) → s.inbox ≡ i → length (write_oldest s).inbox ≤ length s.inbox
unfolding write_oldest
write_oldest-backlog s [] e = rw e (omega arith)
write_oldest-backlog s (p ∷ i) e = rw e (omega arith)

-- A frame of another stream leaves the stream alone.
receive_data-other :
    (sid other : ℕ) (payload : Bytes) (o : Option CliStream) (m : Streams)
    → (other == sid) ≡ false
    → get_cli_stream sid (receive_data other payload o m) ≡ get_cli_stream sid m
unfolding receive_data
receive_data-other sid other payload none m n = refl
receive_data-other sid other payload (some s) m n =
    elim (Bool-cases (ltb (length s.inbox) inbox_size)) [
      | inl e ↦ rw e (get-update_other sid other _ m n (λ t. refl))
      | inr e ↦ rw e (get-close_other sid other m n)
    ]

open_stream-other :
    (sid other : ℕ) (dialed : Bool) (m : Streams)
    → (other == sid) ≡ false
    → get_cli_stream sid (open_stream dialed other m) ≡ get_cli_stream sid m
unfolding open_stream get_cli_stream
open_stream-other sid other false m n = refl
open_stream-other sid other true m n = rw n (unfold get_cli_stream in get-close_other sid other m n)

pub receive-other :
    (sid : ℕ) (dialed : Bool) (o : Option Frame) (m : Streams)
    → concerns sid o ≡ false
    → get_cli_stream sid (receive_read dialed o m) ≡ get_cli_stream sid m
unfolding receive_read receive_frame
receive-other sid dialed none m n = refl
receive-other sid dialed (some f) m n = elim (Bool-cases (f.kind == frame_open)) [
  | inl e ↦ rw e (open_stream-other sid f.stream_id dialed m n)
  | inr e ↦ elim (Bool-cases (f.kind == frame_data)) [
    | inl d ↦
        rw (e, d) (receive_data-other sid f.stream_id f.payload (get_cli_stream f.stream_id m) m n)
    | inr d ↦ elim (Bool-cases (f.kind == frame_close)) [
      | inl c ↦ rw (e, d, c) (get-close_other sid f.stream_id m n)
      | inr c ↦ rw (e, d, c) refl
    ]
  ]
]

pub IsGiven-same :
    (sid : ℕ) (m m' : Streams) (bytes : Bytes) (waiting : ℕ)
    → get_cli_stream sid m' ≡ get_cli_stream sid m
    → IsGiven sid m bytes waiting
    → IsGiven sid m' bytes waiting
IsGiven-same sid m m' bytes waiting e g = record {
  stream = g.stream;
  found = e ∙ g.found;
  given = g.given;
  backlog = g.backlog;
}

pub write_local-IsGiven :
    (sid other : ℕ) (m : Streams) (bytes : Bytes) (waiting : ℕ)
    → IsGiven sid m bytes waiting
    → IsGiven sid (write_local other m) bytes waiting
unfolding write_local
write_local-IsGiven sid other m bytes waiting g = elim (Bool-cases (other == sid)) [
  | inl e ↦ rw ((==_iff other sid).0 e) (record {
    stream = write_oldest g.stream;
    found = get-update_self sid write_oldest m g.stream keeps g.found;
    given = write_oldest-given g.stream _ refl ∙ g.given;
    backlog = omega (arith, g.backlog, write_oldest-backlog g.stream _ refl);
  })
  | inr e ↦ IsGiven-same sid m _ bytes waiting (get-update_other sid other write_oldest m e keeps) g
]
  where
    keeps : (s : CliStream) → (write_oldest s).sid ≡ s.sid
    keeps s = write_oldest_sid s s.inbox refl

length-snoc : (xs : List Bytes) (x : Bytes) → length (xs ++ x ∷ []) ≡ length xs + 1
length-snoc [] x = refl
length-snoc (y ∷ xs) x = omega (arith, length-snoc xs x)

receive_data-some :
    (sid : ℕ) (payload : Bytes) (o : Option CliStream) (s : CliStream) (m : Streams)
    → o ≡ some s
    → length s.inbox < inbox_size
    → receive_data sid payload o m
      ≡ update (is_stream sid) (λ t. record t { inbox = t.inbox ++ payload ∷ [] }) m
unfolding receive_data
receive_data-some sid payload none s m e b = cc e
receive_data-some sid payload (some t) s m e b =
    let same : t ≡ s = cc e in
    rw (ap length (ap (λ (x : CliStream). x.inbox) same), lt→ltb _ _ b) refl

pub receive-data :
    (sid : ℕ) (dialed : Bool) (payload : Bytes) (m : Streams) (bytes : Bytes) (waiting : ℕ)
    → IsGiven sid m bytes waiting
    → waiting < inbox_size
    → IsGiven sid
        (receive_read dialed
          (some (record { kind = frame_data; stream_id = sid; payload = payload }))
          m)
        (bytes ++ payload)
        (waiting + 1)
unfolding receive_read receive_frame
receive-data sid dialed payload m bytes waiting g room =
    rw
      (receive_data-some sid payload (get_cli_stream sid m) g.stream m g.found
        (omega (arith, g.backlog, room)))
      (record {
        stream = record g.stream { inbox = g.stream.inbox ++ payload ∷ [] };
        found = get-update_self sid _ m g.stream (λ t. refl) g.found;
        given =
            ap (◌++◌ g.stream.written) (concat-snoc g.stream.inbox payload)
            ∙ sym (append_assoc g.stream.written (concat g.stream.inbox) payload)
            ∙ ap (λ (b : Bytes). b ++ payload) g.given;
        backlog = omega (arith, g.backlog, length-snoc g.stream.inbox payload);
      })
