-- ===== src/Examples/Tunnels.antt =====
-- The theorems on tunnels, applied to a connection with one stream and to one registered tunnel.
use muvee.Prelude.{◌≡◌, refl, true, false, ◌&&◌, none, some, List, [], ◌∷◌, ◌++◌, arith, str_eq}
use muvee.Db.{Db, User, UserRole, Project, ProjectType}
use muvee.Text.{codes}
use muvee.Tunnel.{
  TunnelConn, Event, message, forwards, opens, write_frame, frame_open, put_uint32, uint32, chunks,
  frame_data, frame_close, step, run, request_messages,
}
use muvee.Tunnel.Frames.{concat}
use muvee.Tunnel.Given.{given}
use muvee.Tunnel.Delivery.{payloads, run-given}
use muvee.Tunnel.Wiring.{IsWired, run-IsWired}
use muvee.Tunnel.Registry.{
  Tunnel, Registry, get, register, handle_tunnel_connect, accepted, tunnel_of, Reachable, new, next,
  registers, is_admin, handle_tunnel_traffic, through,
}
use muvee.Tunnel.Ownership.{IsExclusive, Reachable-IsExclusive, IsResolved, connect-IsResolved}
use muvee.Tunnel.Routing.{handle_tunnel_traffic-host}
use muvee.Client.{
  CliStream, get_cli_stream, read_message, Event as ClientEvent, receives, writes,
  run as run_client,
}
use muvee.Client.Requests.{run-request}
use muvee.Control.{AgentControlConn, Frame, FrameType, looks_up, closes, sends, run as run_control}
use muvee.Control.Panics.{close-panics}
use muvee.Examples.{busy, web}

abbrev fresh_conn : TunnelConn
fresh_conn = record { streams = []; next_stream_id = 0; next_handle = 0 }

-- A stream is opened, gets two payloads between which the first is written out, and is closed.
abbrev session : List Event
session =
    opens
    ∷ message true (write_frame frame_data 1 (72 ∷ 105 ∷ []))
    ∷ forwards 0
    ∷ message true (write_frame frame_data 1 (33 ∷ []))
    ∷ message true (write_frame frame_close 1 [])
    ∷ message true (write_frame frame_data 1 (63 ∷ []))
    ∷ []

abbrev after_session : TunnelConn
after_session = record {
  streams =
      record {
        handle = 0;
        id = 1;
        inbox = (33 ∷ []) ∷ [];
        closed = true;
        mapped = false;
        written = 72 ∷ 105 ∷ [];
      }
      ∷ [];
  next_stream_id = 1;
  next_handle = 1;
}

session-run : run session fresh_conn ≡ some after_session
unfolding run step write_frame
session-run = refl

run-given_example : given 0 after_session ≡ given 0 fresh_conn ++ payloads 0 session fresh_conn
run-given_example = run-given 0 session fresh_conn after_session session-run

run-IsWired_example : IsWired after_session
run-IsWired_example =
    run-IsWired session fresh_conn after_session session-run (λ id. omega arith, tt)

-- The request opens stream 1, its bytes come while another stream is opened, and are written.
abbrev arrival : List ClientEvent
arrival =
    receives true (write_frame frame_open 1 [])
    ∷ receives false (write_frame frame_open 2 [])
    ∷ receives true (write_frame frame_data 1 (71 ∷ 69 ∷ 84 ∷ []))
    ∷ writes 1
    ∷ []

run-request_example :
    (s : CliStream) × (get_cli_stream 1 (run_client arrival []) ≡ some s)
    × (s.written ++ concat s.inbox ≡ 71 ∷ 69 ∷ 84 ∷ [])
unfolding request_messages chunks read_message write_frame put_uint32 uint32
run-request_example =
    run-request 1 (71 ∷ 69 ∷ 84 ∷ []) arrival [] (omega arith)
      ((λ e. refl), ((λ e. cc e), ((λ e. refl), tt))) refl (omega arith)

abbrev ann : User
ann = record { id = 3; email = "ann@example.org"; role = UserRole.member }

abbrev reserved : Project
reserved = record web {
  name = "demo";
  project_type = ProjectType.domain_only;
  domain_prefix = "demo";
}

abbrev reserved_db : Db
reserved_db = record busy { projects = reserved ∷ [] }

demo-accepted :
    handle_tunnel_connect reserved_db [] ann "" "demo" true ≡ accepted (codes "demo") "demo"
unfolding handle_tunnel_connect
demo-accepted = refl

connect-IsResolved_example :
    IsResolved reserved_db ann "" "demo" (codes "demo") "demo"
    × (get (codes "demo") [] ≡ none)
    × (true && str_eq "demo" "" ≡ true → is_admin ann.role ≡ true)
connect-IsResolved_example =
    connect-IsResolved reserved_db [] ann "" "demo" true (codes "demo") "demo" demo-accepted

abbrev demo_tunnel : Tunnel
demo_tunnel = tunnel_of 1 ann true "demo"

abbrev demo_registry : Registry
demo_registry = (register (codes "demo") demo_tunnel []).1

demo-Reachable : Reachable demo_registry
demo-Reachable =
    next [] demo_registry new
      (registers reserved_db [] [] ann "" "demo" true 1 (codes "demo") "demo" demo-accepted)

Reachable-IsExclusive_example : IsExclusive demo_registry
Reachable-IsExclusive_example = Reachable-IsExclusive demo_registry demo-Reachable

handle_tunnel_traffic-host_example :
    (handle_tunnel_traffic demo_registry [] (codes "example.org") (codes "demo.example.org")
      ≡ through demo_tunnel)
    × (handle_tunnel_traffic demo_registry [] (codes "example.org") (codes "demo.example.org:443")
        ≡ through demo_tunnel)
unfolding get register
handle_tunnel_traffic-host_example =
    handle_tunnel_traffic-host demo_registry [] (codes "demo") (codes "example.org") (codes "443")
      refl refl refl

-- An agent with one session.
abbrev one_session : AgentControlConn
one_session = record {
  sessions = record { session = 5; handle = 0 } ∷ [];
  channels = record { handle = 0; buffer = []; closed = false } ∷ [];
  next_handle = 1;
  held = none;
  panicked = false;
}

abbrev output : Frame
output = record { kind = FrameType.stdio; session = 5; payload = 0 }

close-panics_example :
    (run_control (looks_up output ∷ closes 5 ∷ sends ∷ []) one_session).panicked ≡ true
close-panics_example =
    close-panics one_session output (record { session = 5; handle = 0 })
      (record { handle = 0; buffer = []; closed = false }) refl refl
