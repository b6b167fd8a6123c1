-- ===== src/Tunnel/Wiring.antt =====
-- The map of a connection from the ids of 32 bits to its streams.
use muvee.Prelude.{
  ℕ, ◌+◌, ◌%◌, ◌^◌, ◌≤◌, ◌<◌, Bool, true, false, ◌&&◌, Option, none, some, List, [], ◌∷◌, ◌++◌,
  ◌==◌, length, first, update, count, count-append, count-update-le, ◌≡◌, refl, ap, ◌∙◌, sym, arith,
  All, Bool-cases, Option-cases, inl, inr, ==_iff, count-le-length, length-append,
}
use mathlib.Core.Path.{subst}
use muvee.Prelude.Keys.{All-update, All-weaken}
use muvee.Tunnel.Given.{put_payload, deliver-some, some_injective}
use muvee.Tunnel.{
  Bytes, frame_data, frame_close, Frame, read_frame, inbox_size, TunnelStream, TunnelConn, is_at,
  new_stream, get_stream, remove_stream, deliver, handle_frame, dispatch_to, dispatch_frame,
  serve_message, write_out, forward, Event, message, forwards, opens, drops, step, after, run,
}

-- The map leads to at most one stream of an id, to no closed one, and no inbox is past its size.
abbrev IsWiredStream : TunnelStream → Type 0
IsWiredStream s = (s.mapped && s.closed ≡ false) × (length s.inbox ≤ inbox_size)

abbrev IsWiredList : List TunnelStream → Type 0
IsWiredList ss = ((id : ℕ) → count (is_at id) ss ≤ 1) × All IsWiredStream ss

abbrev pub IsWired : TunnelConn → Type 0
IsWired tc = IsWiredList tc.streams

All-snoc :
    {A : Type 0} (P : A → Type 0) (xs : List A) (x : A) → All P xs → P x → All P (xs ++ x ∷ [])
All-snoc P [] x h k = (k, tt)
All-snoc P (y ∷ ys) x h k = (h.0, All-snoc P ys x h.1 k)

-- An update that maps no stream anew keeps the wiring.
update-IsWired :
    (p : TunnelStream → Bool) (f : TunnelStream → TunnelStream) (ss : List TunnelStream)
    → ((id : ℕ) (s : TunnelStream) → is_at id (f s) ≡ true → is_at id s ≡ true)
    → ((s : TunnelStream) → p s ≡ true → IsWiredStream s → IsWiredStream (f s))
    → IsWiredList ss
    → IsWiredList (update p f ss)
update-IsWired p f ss k w h = (
  λ id. omega (arith, h.0 id, count-update-le (is_at id) p f ss (k id)),
  All-update IsWiredStream p f ss w h.1,
)

remove_stream-IsWired : (id : ℕ) (tc : TunnelConn) → IsWired tc → IsWired (remove_stream id tc)
unfolding remove_stream
remove_stream-IsWired id tc h =
    update-IsWired (is_at id) (λ s. record s { mapped = false; closed = true }) tc.streams
      (λ k s e. ground arith) (λ s _ w. (refl, w.1)) h

write_out-IsWired :
    (s : TunnelStream) (i : List Bytes)
    → IsWiredStream (record s { inbox = i })
    → IsWiredStream (write_out (record s { inbox = i }))
unfolding write_out
write_out-IsWired s [] h = h
write_out-IsWired s (c ∷ cs) h = (h.0, omega (arith, h.1))

write_out-at :
    (id : ℕ) (s : TunnelStream) (i : List Bytes)
    → is_at id (write_out (record s { inbox = i })) ≡ is_at id s
unfolding write_out
write_out-at id s [] = refl
write_out-at id s (c ∷ cs) = refl

forward-IsWired : (h : ℕ) (tc : TunnelConn) → IsWired tc → IsWired (forward h tc)
unfolding forward
forward-IsWired h tc w =
    update-IsWired (λ s. s.handle == h) write_out tc.streams
      (λ id s e. sym (write_out-at id s s.inbox) ∙ e) (λ s _ k. write_out-IsWired s s.inbox k) w

unmap-count :
    (id : ℕ) (ss : List TunnelStream)
    → count (is_at id) (update (is_at id) (λ s. record s { mapped = false }) ss) ≡ 0
unmap-count id [] = refl
unmap-count id (s ∷ ss) = elim (Bool-cases (is_at id s)) [
  | inl e ↦ rw e (unmap-count id ss)
  | inr e ↦ rw (e, e) (unmap-count id ss)
]

fresh-count :
    (id k : ℕ) (s : TunnelStream) (ss : List TunnelStream)
    → ((id : ℕ) → count (is_at id) ss ≤ 1)
    → s.id ≡ id
    → count (is_at k) (update (is_at id) (λ s. record s { mapped = false }) ss ++ s ∷ []) ≤ 1
fresh-count id k s ss h e =
    let un : TunnelStream → TunnelStream = λ s. record s { mapped = false } in
    let old : List TunnelStream = update (is_at id) un ss in
    elim (Bool-cases (id == k)) [
      | inl q ↦
          subst (λ k. count (is_at k) (old ++ s ∷ []) ≤ 1) ((==_iff id k).0 q)
            (omega (
              arith,
              count-append (is_at id) old (s ∷ []),
              unmap-count id ss,
              count-le-length (is_at id) (s ∷ []),
            ))
      | inr q ↦
          rw (count-append (is_at k) old (s ∷ []), e, q)
            (ground (arith, h k, count-update-le (is_at k) (is_at id) un ss (λ x w. ground arith)))
    ]

new_stream-IsWired : (tc : TunnelConn) → IsWired tc → IsWired (new_stream tc)
unfolding new_stream
new_stream-IsWired tc h =
    let id : ℕ = (tc.next_stream_id + 1) % 2 ^ 32 in
    let s : TunnelStream = record {
      handle = tc.next_handle;
      id = id;
      inbox = [];
      closed = false;
      mapped = true;
      written = [];
    } in
    (
      λ k. fresh-count id k s tc.streams h.0 refl,
      All-snoc IsWiredStream (update (is_at id) (λ s. record s { mapped = false }) tc.streams) s
          (All-update IsWiredStream (is_at id) (λ s. record s { mapped = false }) tc.streams
            (λ x _ w. (refl, w.1)) h.1)
          (refl, omega arith),
    )

none_of_count :
    {A : Type 0} (p : A → Bool) (xs : List A) → count p xs ≡ 0 → All (λ y. p y ≡ false) xs
none_of_count p [] h = tt
none_of_count p (x ∷ xs) h = (ground arith, none_of_count p xs (ground arith))

-- The stream that the map has at an id is the only one there.
first-only :
    {A : Type 0} (p : A → Bool) (xs : List A) (a : A)
    → first p xs ≡ some a
    → count p xs ≤ 1
    → All (λ x. p x ≡ true → x ≡ a) xs
first-only p [] a h u = tt
first-only p (x ∷ xs) a h u = elim (Bool-cases (p x)) [
  | inl e ↦ (
    (λ _. ground arith),
    All-weaken (λ y. p y ≡ false) (λ y. p y ≡ true → y ≡ a) xs (λ y n m. cc (n, m))
        (none_of_count p xs (ground arith)),
  )
  | inr e ↦ ((λ m. cc (e, m)), first-only p xs a (ground arith) (ground arith))
]

All-update-with :
    {A : Type 0} (P Q : A → Type 0) (p : A → Bool) (f : A → A) (xs : List A)
    → ((x : A) → p x ≡ true → P x → Q x → P (f x))
    → All P xs
    → All Q xs
    → All P (update p f xs)
All-update-with P Q p f [] k h g = tt
All-update-with P Q p f (x ∷ xs) k h g = elim (Bool-cases (p x)) [
  | inl e ↦ rw e (k x e h.0 g.0, All-update-with P Q p f xs k h.1 g.1)
  | inr e ↦ rw e (h.0, All-update-with P Q p f xs k h.1 g.1)
]

length-snoc : (cs : List Bytes) (c : Bytes) → length (cs ++ c ∷ []) ≡ length cs + 1
length-snoc cs c = omega (arith, length-append cs (c ∷ []))

deliver-room :
    (id : ℕ) (payload : Bytes) (tc tc' : TunnelConn) (s : TunnelStream)
    → deliver id payload tc s ≡ some tc'
    → length s.inbox < inbox_size
unfolding deliver
deliver-room id payload tc tc' s d = ground arith

deliver-IsWired :
    (id : ℕ) (payload : Bytes) (tc tc' : TunnelConn) (s : TunnelStream)
    → get_stream id tc ≡ some s
    → deliver id payload tc s ≡ some tc'
    → IsWired tc
    → IsWired tc'
unfolding get_stream
deliver-IsWired id payload tc tc' s g d h =
    subst IsWired (sym (deliver-some id payload tc tc' s d)) (
      λ k. omega (
        arith,
        h.0 k,
        count-update-le (is_at k) (is_at id) (put_payload payload) tc.streams (λ x e. e),
      ),
      All-update-with IsWiredStream (λ x. is_at id x ≡ true → x ≡ s) (is_at id)
          (put_payload payload) tc.streams
          (λ x e w u. (
            w.0,
            omega (
              arith,
              length-snoc x.inbox payload,
              ap (λ y. length y.inbox) (u e),
              deliver-room id payload tc tc' s d,
            ),
          ))
          h.1 (first-only (is_at id) tc.streams s g (h.0 id)),
    )

becomes : (next tc' : TunnelConn) → IsWired next → some next ≡ some tc' → IsWired tc'
becomes next tc' h e = subst IsWired (some_injective e) h

handle_frame-IsWired :
    (f : Frame) (tc tc' : TunnelConn) (s : TunnelStream)
    → get_stream f.stream_id tc ≡ some s
    → handle_frame f tc s ≡ some tc'
    → IsWired tc
    → IsWired tc'
unfolding handle_frame
handle_frame-IsWired f tc tc' s g e h = elim (Bool-cases (f.kind == frame_data)) [
  | inl k ↦ deliver-IsWired f.stream_id f.payload tc tc' s g (ground arith) h
  | inr k ↦ elim (Bool-cases (f.kind == frame_close)) [
    | inl c ↦
        becomes (remove_stream f.stream_id tc) tc' (remove_stream-IsWired f.stream_id tc h)
          (ground arith)
    | inr c ↦ becomes tc tc' h (ground arith)
  ]
]

dispatch_to-IsWired :
    (f : Frame) (tc tc' : TunnelConn) (o : Option TunnelStream)
    → get_stream f.stream_id tc ≡ o
    → dispatch_to f tc o ≡ some tc'
    → IsWired tc
    → IsWired tc'
unfolding dispatch_to
dispatch_to-IsWired f tc tc' none g e h = becomes tc tc' h e
dispatch_to-IsWired f tc tc' (some s) g e h = handle_frame-IsWired f tc tc' s g e h

dispatch_frame-IsWired :
    (tc tc' : TunnelConn) (o : Option Frame)
    → dispatch_frame tc o ≡ some tc'
    → IsWired tc
    → IsWired tc'
unfolding dispatch_frame
dispatch_frame-IsWired tc tc' none e h = becomes tc tc' h e
dispatch_frame-IsWired tc tc' (some f) e h =
    dispatch_to-IsWired f tc tc' (get_stream f.stream_id tc) refl e h

step-IsWired : (e : Event) (tc tc' : TunnelConn) → step e tc ≡ some tc' → IsWired tc → IsWired tc'
unfolding step serve_message
step-IsWired (message false raw) tc tc' e h = becomes tc tc' h e
step-IsWired (message true raw) tc tc' e h = dispatch_frame-IsWired tc tc' (read_frame raw) e h
step-IsWired (forwards other) tc tc' e h =
    becomes (forward other tc) tc' (forward-IsWired other tc h) e
step-IsWired opens tc tc' e h = becomes (new_stream tc) tc' (new_stream-IsWired tc h) e
step-IsWired (drops id) tc tc' e h =
    becomes (remove_stream id tc) tc' (remove_stream-IsWired id tc h) e

-- Along any events, also after the ids have wrapped round, the map of a connection leads to at most
-- one stream of an id and to no closed one, and no inbox holds more than 1024 payloads, if it was so
-- before them.
pub run-IsWired :
    (es : List Event) (tc tc' : TunnelConn) → run es tc ≡ some tc' → IsWired tc → IsWired tc'
unfolding run
run-IsWired [] tc tc' e h = becomes tc tc' h e
run-IsWired (x ∷ es) tc tc' e h = elim (Option-cases (step x tc)) [
  | inl q ↦ cc (e, ap (λ o. after o (run es)) q)
  | inr (tc1, q) ↦
      run-IsWired es tc1 tc' (sym (ap (λ o. after o (run es)) q) ∙ e) (step-IsWired x tc tc1 q h)
]
