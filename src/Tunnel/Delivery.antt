-- ===== src/Tunnel/Delivery.antt =====
-- The bytes that a stream of a tunnel was given, along any order of events.
use mathlib.Core.List.{append-nil, append_assoc}
use muvee.Prelude.{
  ℕ, true, false, Option, none, some, List, [], ◌∷◌, ◌++◌, ◌==◌, first, ◌≡◌, refl, ap, ◌∙◌, sym,
  arith, Bool-cases, Option-cases, inl, inr,
}
use muvee.Tunnel.{
  dispatch_to, after, Bytes, frame_data, frame_close, Frame, read_frame, TunnelStream, TunnelConn,
  is_at, new_stream, get_stream, remove_stream, handle_frame, dispatch_frame, serve_message,
  forward, Event, message, forwards, opens, drops, step, run,
}
use muvee.Tunnel.Given.{
  some_injective, given, stream_of, accepts, accepts_read, deliver-given, remove_stream-given,
  forward-given, new_stream-given,
}

-- The payload of a data frame for the stream, while the map leads to it.
abbrev pub payload_for : ℕ → Event → TunnelConn → Bytes
payload_for handle (message false raw) tc = []
payload_for handle (message true raw) tc = accepts_read (read_frame raw) (stream_of handle tc)
payload_for handle (forwards _) tc = []
payload_for handle opens tc = []
payload_for handle (drops _) tc = []

abbrev onwards : Option TunnelConn → Bytes → (TunnelConn → Bytes) → Bytes
onwards none bs f = []
onwards (some tc) bs f = bs ++ f tc

-- The payloads for the stream, in the order of the events.
abbrev pub payloads : ℕ → List Event → TunnelConn → Bytes
payloads handle [] tc = []
payloads handle (e ∷ es) tc = onwards (step e tc) (payload_for handle e tc) (payloads handle es)

unmapped-ignored :
    (f : Frame) (handle : ℕ) (ss : List TunnelStream)
    → first (is_at f.stream_id) ss ≡ none
    → accepts f (first (λ x. x.handle == handle) ss) ≡ []
unmapped-ignored f handle [] h = refl
unmapped-ignored f handle (s ∷ ss) h = elim (Bool-cases (is_at f.stream_id s)) [
  | inl e ↦ ground arith
  | inr e ↦ elim (Bool-cases (s.handle == handle)) [
    | inl k ↦ rw (k, e) (ground arith)
    | inr k ↦ rw k (unmapped-ignored f handle ss (ground arith))
  ]
]

other_kind :
    (f : Frame) (o : Option TunnelStream) → (f.kind == frame_data) ≡ false → accepts f o ≡ []
other_kind f none k = refl
other_kind f (some s) k = rw k refl

-- An event that gives the stream nothing.
unchanged :
    (handle : ℕ) (tc next tc' : TunnelConn)
    → given handle next ≡ given handle tc
    → some next ≡ some tc'
    → given handle tc' ≡ given handle tc ++ []
unchanged handle tc next tc' g h =
    ap (given handle) (sym (some_injective h)) ∙ g ∙ sym (append-nil (given handle tc))

handle_frame-given :
    (handle : ℕ) (f : Frame) (tc tc' : TunnelConn) (s : TunnelStream)
    → handle_frame f tc s ≡ some tc'
    → given handle tc' ≡ given handle tc ++ accepts f (stream_of handle tc)
unfolding handle_frame
handle_frame-given handle f tc tc' s h = elim (Bool-cases (f.kind == frame_data)) [
  | inl k ↦ deliver-given handle f tc tc' s k (ground arith)
  | inr k ↦ rw (other_kind f (stream_of handle tc) k) (elim (Bool-cases (f.kind == frame_close)) [
    | inl c ↦
        unchanged handle tc (remove_stream f.stream_id tc) tc'
          (remove_stream-given handle f.stream_id tc) (ground arith)
    | inr c ↦ unchanged handle tc tc tc' refl (ground arith)
  ])
]

dispatch_to-given :
    (handle : ℕ) (f : Frame) (tc tc' : TunnelConn) (o : Option TunnelStream)
    → get_stream f.stream_id tc ≡ o
    → dispatch_to f tc o ≡ some tc'
    → given handle tc' ≡ given handle tc ++ accepts f (stream_of handle tc)
unfolding dispatch_to get_stream
dispatch_to-given handle f tc tc' none g h =
    ap (given handle) (sym (some_injective h))
    ∙ sym (append-nil (given handle tc))
    ∙ ap (◌++◌ (given handle tc)) (sym (unmapped-ignored f handle tc.streams g))
dispatch_to-given handle f tc tc' (some s) g h = handle_frame-given handle f tc tc' s h

dispatch_frame-given :
    (handle : ℕ) (tc tc' : TunnelConn) (o : Option Frame)
    → dispatch_frame tc o ≡ some tc'
    → given handle tc' ≡ given handle tc ++ accepts_read o (stream_of handle tc)
unfolding dispatch_frame
dispatch_frame-given handle tc tc' none h =
    ap (given handle) (sym (some_injective h)) ∙ sym (append-nil (given handle tc))
dispatch_frame-given handle tc tc' (some f) h =
    dispatch_to-given handle f tc tc' (get_stream f.stream_id tc) refl h

step-given :
    (handle : ℕ) (e : Event) (tc tc' : TunnelConn)
    → step e tc ≡ some tc'
    → given handle tc' ≡ given handle tc ++ payload_for handle e tc
unfolding step serve_message
step-given handle (message false raw) tc tc' h = unchanged handle tc tc tc' refl h
step-given handle (message true raw) tc tc' h =
    dispatch_frame-given handle tc tc' (read_frame raw) h
step-given handle (forwards other) tc tc' h =
    unchanged handle tc (forward other tc) tc' (forward-given handle other tc) h
step-given handle opens tc tc' h =
    unchanged handle tc (new_stream tc) tc' (new_stream-given handle tc) h
step-given handle (drops id) tc tc' h =
    unchanged handle tc (remove_stream id tc) tc' (remove_stream-given handle id tc) h

-- After any events at which the read loop did not have to wait, a stream was given exactly the
-- payloads of the data frames that named its id while the map led to it, in their order, after
-- what it had been given before.
pub run-given :
    (handle : ℕ) (es : List Event) (tc tc' : TunnelConn)
    → run es tc ≡ some tc'
    → given handle tc' ≡ given handle tc ++ payloads handle es tc
unfolding run
run-given handle [] tc tc' h = unchanged handle tc tc tc' refl h
run-given handle (e ∷ es) tc tc' h = elim (Option-cases (step e tc)) [
  | inl q ↦ cc (h, ap (λ o. after o (run es)) q)
  | inr (tc1, q) ↦ rw q (
      run-given handle es tc1 tc' (sym (ap (λ o. after o (run es)) q) ∙ h)
      ∙ ap (λ bs. bs ++ payloads handle es tc1) (step-given handle e tc tc1 q)
      ∙ append_assoc (given handle tc) (payload_for handle e tc) (payloads handle es tc1))
]
