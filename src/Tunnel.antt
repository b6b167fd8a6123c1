-- ===== src/Tunnel.antt =====
-- internal/api/tunnel.go: the frames between muvee-server and muveectl, and the streams of one
-- tunnel. A byte is a number below 256. A stream whose handler still runs stays in the list after
-- it has left the map of the connection; `mapped` is whether the map leads to it.
pub mod Frames
pub mod Given
pub mod Delivery
pub mod Wiring
pub mod Registry
pub mod Ownership
pub mod Routing
use muvee.Prelude.{
  ℕ, zero, suc, ◌+◌, ◌*◌, ◌/◌, ◌%◌, ◌^◌, Bool, true, false, ◌&&◌, Option, none, some, List, [], ◌∷◌,
  ◌++◌, ◌==◌, ltb, if◌then◌else◌, length, first, update, take, drop, map,
}

abbrev pub Bytes : Type 0
Bytes = List ℕ

abbrev pub frame_open : ℕ
frame_open = 1

abbrev pub frame_data : ℕ
frame_data = 2

abbrev pub frame_close : ℕ
frame_close = 3

-- binary.BigEndian.PutUint32, before the payload
unfoldable pub put_uint32 : ℕ → Bytes → Bytes
put_uint32 v rest =
    v / 0x100_0000 % 0x100 ∷ v / 0x1_0000 % 0x100 ∷ v / 0x100 % 0x100 ∷ v % 0x100 ∷ rest

-- binary.BigEndian.Uint32
unfoldable pub uint32 : ℕ → ℕ → ℕ → ℕ → ℕ
uint32 a b c d = a * 0x100_0000 + b * 0x1_0000 + c * 0x100 + d

-- The message that writeFrame sends.
unfoldable pub write_frame : ℕ → ℕ → Bytes → Bytes
unfolding put_uint32
write_frame kind stream_id payload = kind ∷ put_uint32 stream_id payload

pub record Frame : Type 0 where
  pub kind : ℕ
  pub stream_id : ℕ
  pub payload : Bytes

-- How serveConn reads a binary message; a short one is ignored.
unfoldable pub read_frame : Bytes → Option Frame
unfolding uint32
read_frame (kind ∷ a ∷ b ∷ c ∷ d ∷ payload) =
    some (record { kind = kind; stream_id = uint32 a b c d; payload = payload })
read_frame _ = none

abbrev pub chunk_size : ℕ
chunk_size = 16 * 1024

-- The chunks that the loop of handleTunnelTraffic cuts the request into, on fuel.
unfoldable pub chunks_in : ℕ → Bytes → List Bytes
chunks_in zero bytes = []
chunks_in (suc fuel) [] = []
chunks_in (suc fuel) (b ∷ bs) = take chunk_size (b ∷ bs) ∷ chunks_in fuel (drop chunk_size (b ∷ bs))

-- The loop goes on by at least one byte.
unfoldable pub chunks : Bytes → List Bytes
unfolding chunks_in
chunks bytes = chunks_in (length bytes) bytes

-- The messages of a request: the opening of the stream and then its bytes.
unfoldable pub request_messages : ℕ → Bytes → List Bytes
unfolding write_frame chunks
request_messages stream_id request =
    write_frame frame_open stream_id [] ∷ map (write_frame frame_data stream_id) (chunks request)

abbrev pub inbox_size : ℕ
inbox_size = 1024

-- tunnelStream, with what its handler has written to the browser. `handle` tells the streams of a
-- connection apart.
pub record TunnelStream : Type 0 where
  pub handle : ℕ
  pub id : ℕ
  pub inbox : List Bytes
  pub closed : Bool
  pub mapped : Bool
  pub written : Bytes

pub record TunnelConn : Type 0 where
  pub streams : List TunnelStream
  pub next_stream_id : ℕ
  pub next_handle : ℕ

-- tc.streams[id]
abbrev pub is_at : ℕ → TunnelStream → Bool
is_at id s = s.mapped && (s.id == id)

abbrev pub with_streams : TunnelConn → List TunnelStream → TunnelConn
with_streams tc ss = record tc { streams = ss }

-- newStream: the next id of 32 bits; a stream that the map had there is left without an entry.
unfoldable pub new_stream : TunnelConn → TunnelConn
new_stream tc =
    let id : ℕ = (tc.next_stream_id + 1) % 2 ^ 32 in
    record {
      streams =
          update (is_at id) (λ s. record s { mapped = false }) tc.streams
          ++ (record {
            handle = tc.next_handle;
            id = id;
            inbox = [];
            closed = false;
            mapped = true;
            written = [];
          }
              ∷ []);
      next_stream_id = id;
      next_handle = tc.next_handle + 1;
    }

unfoldable pub get_stream : ℕ → TunnelConn → Option TunnelStream
get_stream id tc = first (is_at id) tc.streams

unfoldable pub remove_stream : ℕ → TunnelConn → TunnelConn
remove_stream id tc =
    with_streams tc (update (is_at id) (λ s. record s { mapped = false; closed = true }) tc.streams)

unfoldable pub close_all_streams : TunnelConn → TunnelConn
close_all_streams tc =
    with_streams tc
      (update (λ s. s.mapped) (λ s. record s { mapped = false; closed = true }) tc.streams)

-- The payload goes into the inbox of the stream that the map has at the id. `none` is a full
-- inbox, at which the read loop waits; that the stream may be closed meanwhile is the step that
-- drops it.
unfoldable pub deliver : ℕ → Bytes → TunnelConn → TunnelStream → Option TunnelConn
deliver id payload tc s =
    if ltb (length s.inbox) inbox_size
    then some (
        with_streams tc
          (update (is_at id) (λ t. record t { inbox = t.inbox ++ (payload ∷ []) }) tc.streams))
    else none

-- The switch of serveConn on a frame of a known stream.
unfoldable pub handle_frame : Frame → TunnelConn → TunnelStream → Option TunnelConn
unfolding deliver remove_stream
handle_frame f tc s =
    if f.kind == frame_data
    then deliver f.stream_id f.payload tc s
    else if f.kind == frame_close
    then some (remove_stream f.stream_id tc)
    else some tc

-- A frame of an unknown stream is ignored.
unfoldable pub dispatch_to : Frame → TunnelConn → Option TunnelStream → Option TunnelConn
unfolding handle_frame
dispatch_to f tc none = some tc
dispatch_to f tc (some s) = handle_frame f tc s

unfoldable pub dispatch_frame : TunnelConn → Option Frame → Option TunnelConn
unfolding dispatch_to get_stream
dispatch_frame tc none = some tc
dispatch_frame tc (some f) = dispatch_to f tc (get_stream f.stream_id tc)

-- One round of serveConn: the message is binary or not.
unfoldable pub serve_message : Bool → Bytes → TunnelConn → Option TunnelConn
unfolding dispatch_frame read_frame
serve_message false raw tc = some tc
serve_message true raw tc = dispatch_frame tc (read_frame raw)

-- The handler of a stream writes the oldest payload of its inbox to the browser. After a write that
-- fails, and at the browser's end, it drops the stream.
unfoldable pub write_out : TunnelStream → TunnelStream
write_out s = elim s.inbox [
  | [] ↦ s
  | payload ∷ rest ↦ record s { inbox = rest; written = s.written ++ payload }
]

unfoldable pub forward : ℕ → TunnelConn → TunnelConn
unfolding write_out
forward handle tc = with_streams tc (update (λ s. s.handle == handle) write_out tc.streams)

-- What may happen on a tunnel, in any order.
pub data Event : Type 0 where
  message : Bool → Bytes → Event
  forwards : ℕ → Event
  opens : Event
  drops : ℕ → Event

unfoldable pub step : Event → TunnelConn → Option TunnelConn
unfolding serve_message forward new_stream remove_stream
step (message binary raw) tc = serve_message binary raw tc
step (forwards handle) tc = some (forward handle tc)
step opens tc = some (new_stream tc)
step (drops id) tc = some (remove_stream id tc)

abbrev pub after : Option TunnelConn → (TunnelConn → Option TunnelConn) → Option TunnelConn
after none f = none
after (some tc) f = f tc

-- What follows the first event; the loop that waits goes no further.
unfoldable pub run : List Event → TunnelConn → Option TunnelConn
unfolding step
run [] tc = some tc
run (e ∷ es) tc = after (step e tc) (run es)
