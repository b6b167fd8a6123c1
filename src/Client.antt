-- ===== src/Client.antt =====
-- cmd/muveectl/tunnel.go: the read loop of the client end of a tunnel, and the writers that carry
-- what it has received to the local service. The list of streams is the map of the loop; a stream
-- that leaves it still writes out its inbox, which is not modelled.
pub mod Given
pub mod Requests
use muvee.Prelude.{
  ℕ, ◌+◌, Bool, true, false, ◌&&◌, not, Option, none, some, List, [], ◌∷◌, ◌++◌, ◌==◌, ltb,
  if◌then◌else◌, length, first, select, update,
}
use muvee.Tunnel.{Bytes, frame_open, frame_data, frame_close, uint32, Frame}

abbrev pub inbox_size : ℕ
inbox_size = 1024

-- cliStream, with what its writer has written to the local service.
pub record CliStream : Type 0 where
  pub sid : ℕ
  pub inbox : List Bytes
  pub written : Bytes

abbrev pub Streams : Type 0
Streams = List CliStream

abbrev pub is_stream : ℕ → CliStream → Bool
is_stream sid s = s.sid == sid

unfoldable pub get_cli_stream : ℕ → Streams → Option CliStream
get_cli_stream sid m = first (is_stream sid) m

unfoldable pub close_stream : ℕ → Streams → Streams
close_stream sid m = select (λ s. not (is_stream sid s)) m

-- A frame OPEN; `dialed` is whether the local service answers. An older stream of the id leaves the
-- map.
unfoldable pub open_stream : Bool → ℕ → Streams → Streams
unfolding close_stream
open_stream false sid m = m
open_stream true sid m = record { sid = sid; inbox = []; written = [] } ∷ close_stream sid m

-- A frame DATA for a stream of the map; where the inbox is full, the stream is closed.
unfoldable pub receive_data : ℕ → Bytes → Option CliStream → Streams → Streams
unfolding close_stream
receive_data sid payload none m = m
receive_data sid payload (some s) m =
    if ltb (length s.inbox) inbox_size
    then update (is_stream sid) (λ t. record t { inbox = t.inbox ++ payload ∷ [] }) m
    else close_stream sid m

-- How the loop reads a binary message; a short one is ignored.
unfoldable pub read_message : Bytes → Option Frame
unfolding uint32
read_message (kind ∷ a ∷ b ∷ c ∷ d ∷ payload) =
    some (record { kind = kind; stream_id = uint32 a b c d; payload = payload })
read_message _ = none

-- The switch on the type of a frame.
unfoldable pub receive_frame : Bool → Frame → Streams → Streams
unfolding open_stream receive_data close_stream get_cli_stream
receive_frame dialed f m =
    if f.kind == frame_open
    then open_stream dialed f.stream_id m
    else if f.kind == frame_data
    then receive_data f.stream_id f.payload (get_cli_stream f.stream_id m) m
    else if f.kind == frame_close
    then close_stream f.stream_id m
    else m

unfoldable pub receive_read : Bool → Option Frame → Streams → Streams
unfolding receive_frame
receive_read dialed none m = m
receive_read dialed (some f) m = receive_frame dialed f m

unfoldable pub write_oldest : CliStream → CliStream
write_oldest s = elim s.inbox [
  | [] ↦ s
  | payload ∷ rest ↦ record s { inbox = rest; written = s.written ++ payload }
]

-- The writer of a stream writes the oldest payload of its inbox to the local service.
unfoldable pub write_local : ℕ → Streams → Streams
unfolding write_oldest
write_local sid m = update (is_stream sid) write_oldest m

-- What may happen at the client, in any order. A write to the local service that fails, the end of
-- its answer and the loss of the connection are no events.
pub data Event : Type 0 where
  receives : Bool → Bytes → Event
  writes : ℕ → Event

unfoldable pub step : Event → Streams → Streams
unfolding receive_read read_message write_local
step (receives dialed raw) m = receive_read dialed (read_message raw) m
step (writes sid) m = write_local sid m

unfoldable pub run : List Event → Streams → Streams
unfolding step
run [] m = m
run (e ∷ es) m = run es (step e m)
