-- ===== src/Tunnel/Given.antt =====
-- What a stream was given, and what each operation on the connection adds to it.
use mathlib.Core.Option
use mathlib.Core.List.{append-nil, append_assoc}
use muvee.Prelude.{
  ℕ, ◌+◌, ◌%◌, ◌^◌, Bool, true, false, ◌&&◌, Option, none, some, List, [], ◌∷◌, ◌++◌, ◌==◌,
  if◌then◌else◌, first, update, ◌≡◌, refl, ap, ◌∙◌, sym, arith, Bool-cases, inl, inr,
}
use muvee.Prelude.Keys.{first-update}
use muvee.Tunnel.{
  Bytes, frame_data, Frame, TunnelStream, TunnelConn, is_at, with_streams, new_stream,
  remove_stream, deliver, write_out, forward,
}
use muvee.Tunnel.Frames.{concat}

pub concat-snoc : (cs : List Bytes) (c : Bytes) → concat (cs ++ c ∷ []) ≡ concat cs ++ c
concat-snoc [] c = append-nil c
concat-snoc (d ∷ cs) c = ap (◌++◌ d) (concat-snoc cs c) ∙ sym (append_assoc d (concat cs) c)

abbrev pub put_payload : Bytes → TunnelStream → TunnelStream
put_payload payload s = record s { inbox = s.inbox ++ (payload ∷ []) }

-- The stream of a handler.
abbrev pub stream_of : ℕ → TunnelConn → Option TunnelStream
stream_of handle tc = first (λ s. s.handle == handle) tc.streams

abbrev pub carried : Option TunnelStream → Bytes
carried none = []
carried (some s) = s.written ++ concat s.inbox

-- What a stream was given: what its handler wrote to the browser, and what waits in its inbox.
abbrev pub given : ℕ → TunnelConn → Bytes
given handle tc = carried (stream_of handle tc)

abbrev pub accepts : Frame → Option TunnelStream → Bytes
accepts f none = []
accepts f (some s) = if (f.kind == frame_data) && is_at f.stream_id s then f.payload else []

abbrev pub accepts_read : Option Frame → Option TunnelStream → Bytes
accepts_read none o = []
accepts_read (some f) o = accepts f o

pub deliver-some :
    (id : ℕ) (payload : Bytes) (tc tc' : TunnelConn) (s : TunnelStream)
    → deliver id payload tc s ≡ some tc'
    → tc' ≡ with_streams tc (update (is_at id) (put_payload payload) tc.streams)
unfolding deliver
deliver-some id payload tc tc' s h = ground arith

put_payload-carried :
    (f : Frame) (o : Option TunnelStream)
    → (f.kind == frame_data) ≡ true
    → carried (Option.map (λ s. if is_at f.stream_id s then put_payload f.payload s else s) o)
      ≡ carried o ++ accepts f o
put_payload-carried f none k = refl
put_payload-carried f (some s) k = elim (Bool-cases (is_at f.stream_id s)) [
  | inl e ↦
      rw (k, e)
        (ap (◌++◌ s.written) (concat-snoc s.inbox f.payload)
          ∙ sym (append_assoc s.written (concat s.inbox) f.payload))
  | inr e ↦ rw (k, e) (sym (append-nil (s.written ++ concat s.inbox)))
]

pub deliver-given :
    (handle : ℕ) (f : Frame) (tc tc' : TunnelConn) (s : TunnelStream)
    → (f.kind == frame_data) ≡ true
    → deliver f.stream_id f.payload tc s ≡ some tc'
    → given handle tc' ≡ given handle tc ++ accepts f (stream_of handle tc)
deliver-given handle f tc tc' s k h =
    ap (given handle) (deliver-some f.stream_id f.payload tc tc' s h)
    ∙ ap carried (
        first-update (λ x. x.handle == handle) (is_at f.stream_id) (put_payload f.payload)
          tc.streams (λ x. refl))
    ∙ put_payload-carried f (stream_of handle tc) k

unmap-carried :
    (id : ℕ) (o : Option TunnelStream)
    → carried
        (Option.map (λ s. if is_at id s then record s { mapped = false; closed = true } else s) o)
      ≡ carried o
unmap-carried id none = refl
unmap-carried id (some s) = elim (Bool-cases (is_at id s)) [ inl e ↦ rw e refl | inr e ↦ rw e refl ]

pub remove_stream-given :
    (handle id : ℕ) (tc : TunnelConn) → given handle (remove_stream id tc) ≡ given handle tc
unfolding remove_stream
remove_stream-given handle id tc =
    ap carried (
      first-update (λ x. x.handle == handle) (is_at id)
        (λ s. record s { mapped = false; closed = true }) tc.streams (λ x. refl))
    ∙ unmap-carried id (stream_of handle tc)

write_out-inbox :
    (s : TunnelStream) (i : List Bytes) (w : Bytes)
    → carried (some (write_out (record s { inbox = i; written = w }))) ≡ w ++ concat i
unfolding write_out
write_out-inbox s [] w = refl
write_out-inbox s (c ∷ cs) w = append_assoc w c (concat cs)

write_out-handle :
    (s : TunnelStream) (i : List Bytes) → (write_out (record s { inbox = i })).handle ≡ s.handle
unfolding write_out
write_out-handle s [] = refl
write_out-handle s (c ∷ cs) = refl

write_out-carried :
    (other : ℕ) (o : Option TunnelStream)
    → carried (Option.map (λ s. if s.handle == other then write_out s else s) o) ≡ carried o
write_out-carried other none = refl
write_out-carried other (some s) = elim (Bool-cases (s.handle == other)) [
  | inl e ↦ rw e (write_out-inbox s s.inbox s.written)
  | inr e ↦ rw e refl
]

pub forward-given :
    (handle other : ℕ) (tc : TunnelConn) → given handle (forward other tc) ≡ given handle tc
unfolding forward
forward-given handle other tc =
    ap carried (
      first-update (λ x. x.handle == handle) (λ s. s.handle == other) write_out tc.streams
        (λ x. ap (λ n. n == handle) (write_out-handle x x.inbox)))
    ∙ write_out-carried other (stream_of handle tc)

first-snoc :
    {A : Type 0} (q : A → Bool) (xs : List A) (y : A)
    → first q (xs ++ y ∷ [])
      ≡ (elim (first q xs) [ none ↦ if q y then some y else none | some x ↦ some x ])
first-snoc q [] y = refl
first-snoc q (x ∷ xs) y = ground (arith, first-snoc q xs y)

displaced-carried :
    (id handle : ℕ) (o : Option TunnelStream) (s : TunnelStream)
    → carried (some s) ≡ []
    → carried (elim (Option.map (λ s. if is_at id s then record s { mapped = false } else s) o) [
      | none ↦ if s.handle == handle then some s else none
      | some x ↦ some x
    ])
      ≡ carried o
displaced-carried id handle none s h = elim (Bool-cases (s.handle == handle)) [
  | inl e ↦ rw e h
  | inr e ↦ rw e refl
]
displaced-carried id handle (some t) s h = elim (Bool-cases (is_at id t)) [
  | inl e ↦ rw e refl
  | inr e ↦ rw e refl
]

pub new_stream-given :
    (handle : ℕ) (tc : TunnelConn) → given handle (new_stream tc) ≡ given handle tc
unfolding new_stream
new_stream-given handle tc =
    let id : ℕ = (tc.next_stream_id + 1) % 2 ^ 32 in
    let s : TunnelStream = record {
      handle = tc.next_handle;
      id = id;
      inbox = [];
      closed = false;
      mapped = true;
      written = [];
    } in
    rw
      (
        first-snoc (λ x. x.handle == handle)
            (update (is_at id) (λ s. record s { mapped = false }) tc.streams) s,
        first-update (λ x. x.handle == handle) (is_at id) (λ s. record s { mapped = false })
            tc.streams (λ x. refl),
      )
      (displaced-carried id handle (stream_of handle tc) s refl)

pub some_injective : {a b : TunnelConn} → some a ≡ some b → a ≡ b
some_injective h = ground arith
