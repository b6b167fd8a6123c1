-- ===== src/Events/Follow.antt =====
-- A follower of a project's events: it asks for those after the last id that it knows.
use muvee.Prelude.Keys.{All-weaken}
use muvee.Prelude.{
  ℕ, zero, suc, ◌+◌, ◌-◌, ◌≤◌, ◌≡◌, refl, sym, ap, ◌∙◌, Bool, List, [], ◌∷◌, ◌++◌, arith, ltb,
  lt→ltb, length, select, drop, All,
}
use muvee.Events.{
  Event, Ring, max_per_project, newest, stamp, push_event, effective_limit, events_since,
}
use muvee.Events.Window.{newest-all, newest-drop, newest-append, newest-keeps, newest-length}

-- A ring holds at most 200 events, and none that is newer than the last id given.
pub record IsRing (r : Ring) : Type 0 where
  pub bounded : length r.events ≤ max_per_project
  pub given : All (λ e. e.id ≤ r.next_id) r.events

All-append : {A : Type 0} (P : A → Type 0) (xs ys : List A) → All P xs → All P ys → All P (xs ++ ys)
All-append P [] ys h k = k
All-append P (x ∷ xs) ys h k = (h.0, All-append P xs ys h.1 k)

All-drop : {A : Type 0} (P : A → Type 0) (k : ℕ) (xs : List A) → All P xs → All P (drop k xs)
All-drop P zero xs h = h
All-drop P (suc k) [] h = tt
All-drop P (suc k) (x ∷ xs) h = All-drop P k xs h.1

-- A push keeps a ring within its bound, and keeps its newest id the last one that was given.
pub push-IsRing : (e : Event) (r : Ring) → IsRing r → IsRing (push_event e r)
unfolding push_event
push-IsRing e r h =
    let all = r.events ++ stamp (r.next_id + 1) e ∷ [] in
    record {
      bounded = newest-length max_per_project all;
      given = rw (newest-drop max_per_project all) (
          All-drop (λ x. x.id ≤ r.next_id + 1) (length all - max_per_project) all
            (All-append (λ x. x.id ≤ r.next_id + 1) r.events (stamp (r.next_id + 1) e ∷ [])
              (All-weaken (λ x. x.id ≤ r.next_id) (λ x. x.id ≤ r.next_id + 1) r.events
                (λ x k. omega (arith, k)) h.given)
              (omega arith, tt)));
    }

-- Events one after another.
pub push_all : List Event → Ring → Ring
push_all [] r = r
push_all (e ∷ es) r = push_all es (push_event e r)

-- Events with the ids after n.
pub numbered : ℕ → List Event → List Event
numbered n [] = []
numbered n (e ∷ es) = stamp (n + 1) e ∷ numbered (n + 1) es

length-numbered : (n : ℕ) (es : List Event) → length (numbered n es) ≡ length es
unfolding numbered
length-numbered n [] = refl
length-numbered n (e ∷ es) = ap suc (length-numbered (n + 1) es)

append-nil : (xs : List Event) → xs ++ [] ≡ xs
append-nil [] = refl
append-nil (x ∷ xs) = ap (◌∷◌ x) (append-nil xs)

append_assoc : (xs : List Event) (e : Event) (ys : List Event) → (xs ++ e ∷ []) ++ ys ≡ xs ++ e ∷ ys
append_assoc [] e ys = refl
append_assoc (x ∷ xs) e ys = ap (◌∷◌ x) (append_assoc xs e ys)

push_all-events :
    (es : List Event) (r : Ring)
    → length r.events ≤ max_per_project
    → (push_all es r).events ≡ newest max_per_project (r.events ++ numbered r.next_id es)
unfolding push_all numbered push_event
push_all-events [] r h =
    sym (ap (newest max_per_project) (append-nil r.events) ∙ newest-all max_per_project r.events h)
push_all-events (e ∷ es) r h =
    let stamped = stamp (r.next_id + 1) e in
    push_all-events es (push_event e r) (newest-length max_per_project (r.events ++ stamped ∷ []))
    ∙ newest-append max_per_project (r.events ++ stamped ∷ []) (numbered (r.next_id + 1) es)
    ∙ ap (newest max_per_project) (append_assoc r.events stamped (numbered (r.next_id + 1) es))

select-append :
    (p : Event → Bool) (xs ys : List Event) → select p (xs ++ ys) ≡ select p xs ++ select p ys
select-append p [] ys = refl
select-append p (x ∷ xs) ys = ground (arith, select-append p xs ys)

select-old : (n : ℕ) (xs : List Event) → All (λ e. e.id ≤ n) xs → select (λ e. ltb n e.id) xs ≡ []
select-old n [] h = refl
select-old n (x ∷ xs) h = ground (arith, h.0, select-old n xs h.1)

select-numbered :
    (m n : ℕ) (es : List Event) → m ≤ n → select (λ e. ltb m e.id) (numbered n es) ≡ numbered n es
unfolding numbered
select-numbered m n [] h = refl
select-numbered m n (e ∷ es) h =
    rw (lt→ltb m (n + 1) (omega (arith, h)))
      (ap (◌∷◌ (stamp (n + 1) e)) (select-numbered m (n + 1) es (omega (arith, h))))

-- A follower that knows all of a ring's events and asks again, after at most 200 more were pushed,
-- gets exactly those, in their order and with consecutive ids.
pub follow-all :
    (r : Ring) (es : List Event)
    → IsRing r
    → length es ≤ max_per_project
    → events_since r.next_id 0 (push_all es r) ≡ numbered r.next_id es
unfolding events_since effective_limit
follow-all r es h k =
    let new = numbered r.next_id es in
    let fits : length new ≤ max_per_project = omega (arith, k, length-numbered r.next_id es) in
    let old = drop (length (r.events ++ new) - max_per_project) r.events in
    ap (λ (xs : List Event). newest max_per_project (select (λ e. ltb r.next_id e.id) xs))
      (push_all-events es r h.bounded ∙ newest-keeps max_per_project r.events new fits)
    ∙ ap (newest max_per_project) (
        select-append (λ e. ltb r.next_id e.id) old new
        ∙ ap (λ (xs : List Event). xs ++ select (λ e. ltb r.next_id e.id) new)
            (select-old r.next_id old (
              All-drop (λ e. e.id ≤ r.next_id) (length (r.events ++ new) - max_per_project) r.events
                h.given))
        ∙ select-numbered r.next_id r.next_id es (omega arith))
    ∙ newest-all max_per_project new fits
