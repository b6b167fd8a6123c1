-- ===== src/Control.antt =====
-- internal/api/agentcontrol.go: the sessions of one agent's control channel. A Go channel is a
-- record that the map of sessions names by its handle. `dispatch` looks the channel up under the
-- lock and sends after it, so these are two steps, and `held` is what it has between them. A send on
-- a closed channel panics.
pub mod Panics
use muvee.Prelude.{
  ℕ, ◌+◌, Bool, true, false, ◌&&◌, ◌||◌, not, Option, none, some, List, [], ◌∷◌, ◌++◌, ◌==◌, ltb,
  if◌then◌else◌, length, first, select, update,
}

-- The frames of an agent that are dispatched to sessions; session and payload are numbers here.
pub data FrameType : Type 0 where
  stdio cp_down_tar cp_end exit error : FrameType

pub record Frame : Type 0 where
  pub kind : FrameType
  pub session : ℕ
  pub payload : ℕ

pub record Channel : Type 0 where
  pub handle : ℕ
  pub buffer : List Frame
  pub closed : Bool

pub record SessionEntry : Type 0 where
  pub session : ℕ
  pub handle : ℕ

pub record AgentControlConn : Type 0 where
  pub sessions : List SessionEntry
  pub channels : List Channel
  pub next_handle : ℕ
  pub held : Option (Frame × ℕ)
  pub panicked : Bool

abbrev pub session_buffer : ℕ
session_buffer = 32

abbrev pub is_session : ℕ → SessionEntry → Bool
is_session n e = e.session == n

abbrev pub channel_of : ℕ → AgentControlConn → Option SessionEntry
channel_of n a = first (is_session n) a.sessions

abbrev pub is_handle : ℕ → Channel → Bool
is_handle h c = c.handle == h

abbrev pub find_channel : ℕ → AgentControlConn → Option Channel
find_channel h a = first (is_handle h) a.channels

unfoldable pub open_session : ℕ → AgentControlConn → AgentControlConn
open_session n a = record a {
  sessions =
      record { session = n; handle = a.next_handle }
      ∷ select (λ e. not (is_session n e)) a.sessions;
  channels = a.channels ++ (record { handle = a.next_handle; buffer = []; closed = false } ∷ []);
  next_handle = a.next_handle + 1;
}

unfoldable pub close_found : ℕ → Option SessionEntry → AgentControlConn → AgentControlConn
close_found n none a = a
close_found n (some e) a = record a {
  sessions = select (λ x. not (is_session n x)) a.sessions;
  channels = update (is_handle e.handle) (λ c. record c { closed = true }) a.channels;
}

unfoldable pub close_session : ℕ → AgentControlConn → AgentControlConn
unfolding close_found
close_session n a = close_found n (channel_of n a) a

-- The first half of dispatch. A frame without a session is dropped.
unfoldable pub hold : Frame → Option SessionEntry → AgentControlConn → AgentControlConn
hold f none a = a
hold f (some e) a = record a { held = some (f, e.handle) }

unfoldable pub look_up : Frame → AgentControlConn → AgentControlConn
unfolding hold
look_up f a = hold f (channel_of f.session a) a

-- The select of dispatch: a full buffer drops the frame.
unfoldable pub send_to : Frame → Option Channel → AgentControlConn → AgentControlConn
send_to f none a = a
send_to f (some c) a =
    if c.closed
    then record a { panicked = true }
    else if ltb (length c.buffer) session_buffer
    then record a {
      channels =
          update (is_handle c.handle) (λ x. record x { buffer = x.buffer ++ f ∷ [] }) a.channels;
    }
    else a

abbrev pub is_last : FrameType → Bool
is_last FrameType.exit = true
is_last FrameType.error = true
is_last _ = false

-- After the last frame of a session handleAgentControl closes it.
unfoldable pub finish_frame : Frame → AgentControlConn → AgentControlConn
unfolding close_session
finish_frame f a = if is_last f.kind then close_session f.session a else a

unfoldable pub send_held : Option (Frame × ℕ) → AgentControlConn → AgentControlConn
unfolding send_to finish_frame
send_held none a = a
send_held (some (f, h)) a =
    let sent : AgentControlConn = send_to f (find_channel h a) (record a { held = none }) in
    if sent.panicked then sent else finish_frame f sent

-- What may happen: a client's session begins, and ends; the agent's reader looks a frame's channel
-- up, and sends.
pub data Event : Type 0 where
  opens : ℕ → Event
  closes : ℕ → Event
  looks_up : Frame → Event
  sends : Event

unfoldable pub step : Event → AgentControlConn → AgentControlConn
unfolding open_session close_session look_up send_held
step (opens n) a = open_session n a
step (closes n) a = close_session n a
step (looks_up f) a = look_up f a
step sends a = send_held a.held a

unfoldable pub run : List Event → AgentControlConn → AgentControlConn
unfolding step
run [] a = a
run (e ∷ es) a = run es (step e a)
