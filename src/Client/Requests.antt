-- ===== src/Client/Requests.antt =====
-- A request that muvee-server sends through a tunnel, at the client's end.
use muvee.Prelude.{
  ℕ, suc, ◌+◌, ◌≤◌, ◌<◌, ◌^◌, ◌≡◌, refl, sym, ap, ◌∙◌, inl, inr, Bool, true, false, some, List, [],
  ◌∷◌, ◌++◌, map, length, arith, Bool-cases, ==_refl,
}
use mathlib.Core.Path.{subst}
use mathlib.Core.List.{append-nil, append_assoc}
use muvee.Tunnel.{Bytes, frame_open, frame_data, write_frame, chunks, request_messages}
use muvee.Tunnel.Frames.{concat, concat-chunks}
use muvee.Client.{
  inbox_size, CliStream, Streams, get_cli_stream, open_stream, read_message, receive_frame,
  receive_read, Event, receives, writes, step, run,
}
use muvee.Client.Given.{
  concerns, IsGiven, read_message-write_frame, receive-other, IsGiven-same, write_local-IsGiven,
  receive-data,
}

abbrev keep_if : Bool → Bytes → List Bytes → List Bytes
keep_if true raw rest = raw ∷ rest
keep_if false raw rest = rest

-- The messages for the stream among the events.
abbrev pub messages_for : ℕ → List Event → List Bytes
messages_for sid [] = []
messages_for sid (receives dialed raw ∷ es) =
    keep_if (concerns sid (read_message raw)) raw (messages_for sid es)
messages_for sid (writes other ∷ es) = messages_for sid es

-- The local service answers whenever the stream is opened.
abbrev pub Answers : ℕ → List Event → Type 0
Answers sid [] = Unit
Answers sid (receives dialed raw ∷ es) =
    (concerns sid (read_message raw) ≡ true → dialed ≡ true) × Answers sid es
Answers sid (writes other ∷ es) = Answers sid es

message-frame :
    (kind sid : ℕ) (payload raw : Bytes)
    → sid < 2 ^ 32
    → raw ≡ write_frame kind sid payload
    → read_message raw ≡ some (record { kind = kind; stream_id = sid; payload = payload })
message-frame kind sid payload raw h e =
    ap read_message e ∙ read_message-write_frame kind sid payload h

-- The first of the messages that are expected, and the others.
record Splits (sid : ℕ) (raw : Bytes) (rest : List Bytes) (cs : List Bytes) : Type 0 where
  chunk : Bytes
  others : List Bytes
  all : chunk ∷ others ≡ cs
  head : raw ≡ write_frame frame_data sid chunk
  tail : rest ≡ map (write_frame frame_data sid) others

splits :
    (sid : ℕ) (raw : Bytes) (rest cs : List Bytes)
    → raw ∷ rest ≡ map (write_frame frame_data sid) cs
    → Splits sid raw rest cs
splits sid raw rest [] e = cc e
splits sid raw rest (c ∷ cs) e = record {
  chunk = c;
  others = cs;
  all = refl;
  head = cc e;
  tail = cc e;
}

-- The data frames of a stream that is open and has room for them.
run-IsGiven :
    (sid : ℕ) (es : List Event) (cs : List Bytes) (m : Streams) (bytes : Bytes) (waiting : ℕ)
    → sid < 2 ^ 32
    → messages_for sid es ≡ map (write_frame frame_data sid) cs
    → IsGiven sid m bytes waiting
    → waiting + length cs ≤ inbox_size
    → IsGiven sid (run es m) (bytes ++ concat cs) inbox_size
unfolding run step
run-IsGiven sid [] [] m bytes waiting i e g room = rw (append-nil bytes) (record {
  stream = g.stream;
  found = g.found;
  given = g.given;
  backlog = omega (arith, g.backlog, room);
})
run-IsGiven sid [] (c ∷ cs) m bytes waiting i e g room = cc e
run-IsGiven sid (writes other ∷ es) cs m bytes waiting i e g room =
    run-IsGiven sid es cs _ bytes waiting i e (write_local-IsGiven sid other m bytes waiting g) room
run-IsGiven sid (receives dialed raw ∷ es) cs m bytes waiting i e g room =
    elim (Bool-cases (concerns sid (read_message raw))) [
      | inr n ↦
          run-IsGiven sid es cs _ bytes waiting i (sym (rw n refl) ∙ e)
            (IsGiven-same sid m _ bytes waiting (receive-other sid dialed (read_message raw) m n) g)
            room
      | inl y ↦
          let s : Splits sid raw (messages_for sid es) cs =
            splits sid raw (messages_for sid es) cs (sym (rw y refl) ∙ e) in
          let c : Bytes = s.chunk in
          let left : suc (length s.others) ≡ length cs = ap length s.all in
          let m' : Streams = receive_read dialed (read_message raw) m in
          let next : IsGiven sid m' (bytes ++ c) (waiting + 1) =
            rw (message-frame frame_data sid c raw i s.head)
              (receive-data sid dialed c m bytes waiting g (omega (arith, left, room))) in
          subst (λ (b : Bytes). IsGiven sid (run es m') b inbox_size)
            (append_assoc bytes c (concat s.others) ∙ ap (λ ds. bytes ++ concat ds) s.all)
            (run-IsGiven sid es s.others m' (bytes ++ c) (waiting + 1) i s.tail next
              (omega (arith, left, room)))
    ]

open-IsGiven :
    (sid : ℕ) (dialed : Bool) (raw : Bytes) (m : Streams)
    → sid < 2 ^ 32
    → raw ≡ write_frame frame_open sid []
    → (concerns sid (read_message raw) ≡ true → dialed ≡ true)
    → IsGiven sid (receive_read dialed (read_message raw) m) [] 0
unfolding receive_read receive_frame open_stream get_cli_stream
open-IsGiven sid dialed raw m i e d =
    let frame = message-frame frame_open sid [] raw i e in
    let y : concerns sid (read_message raw) ≡ true = rw frame (==_refl sid) in
    rw (frame, d y)
      (record {
        stream = record { sid = sid; inbox = []; written = [] };
        found = rw (==_refl sid) refl;
        given = refl;
        backlog = omega arith;
      })

-- Wherever the events begin, the stream is opened and then gets its data.
run-opened :
    (sid : ℕ) (es : List Event) (cs : List Bytes) (m : Streams)
    → sid < 2 ^ 32
    → Answers sid es
    → messages_for sid es ≡ write_frame frame_open sid [] ∷ map (write_frame frame_data sid) cs
    → length cs ≤ inbox_size
    → IsGiven sid (run es m) (concat cs) inbox_size
unfolding run step
run-opened sid [] cs m i d e room = cc e
run-opened sid (writes other ∷ es) cs m i d e room = run-opened sid es cs _ i d e room
run-opened sid (receives dialed raw ∷ es) cs m i d e room =
    elim (Bool-cases (concerns sid (read_message raw))) [
      | inr n ↦ run-opened sid es cs _ i d.1 (sym (rw n refl) ∙ e) room
      | inl y ↦
          let k : raw ∷ messages_for sid es
              ≡ write_frame frame_open sid [] ∷ map (write_frame frame_data sid) cs =
            sym (rw y refl) ∙ e in
          run-IsGiven sid es cs _ [] 0 i (cc k) (open-IsGiven sid dialed raw m i (cc k) d.0)
            (omega (arith, room))
    ]

-- A request that muvee-server sends on a stream reaches the local service's end entire. Among the
-- events at the client the messages for the stream are those of the request, in their order, with
-- frames of other streams and writes to the local service in between as may be; the service answers
-- when the stream is opened; and the request is no longer than the inbox has room for, 1024 chunks.
-- Then the stream is still in the map at the end, and what its writer has written and what waits in
-- its inbox are together the bytes of the request.
pub run-request :
    (sid : ℕ) (request : Bytes) (es : List Event) (m : Streams)
    → sid < 2 ^ 32
    → Answers sid es
    → messages_for sid es ≡ request_messages sid request
    → length (chunks request) ≤ inbox_size
    → (s : CliStream) × (get_cli_stream sid (run es m) ≡ some s)
      × (s.written ++ concat s.inbox ≡ request)
unfolding request_messages
run-request sid request es m i d e room =
    let g : IsGiven sid (run es m) (concat (chunks request)) inbox_size =
      run-opened sid es (chunks request) m i d e room in
    (g.stream, g.found, g.given ∙ (concat-chunks request).0)
