-- ===== src/Events.antt =====
-- internal/projectevents/events.go: the last events of every project. Each operation holds its
-- ring's lock from start to end, so it is one function on the rings. A project without a ring gets
-- an empty one where it is asked for, so `Buffers` gives every project one. Event ids, int64 in
-- the source, are counted per project from 1 and are numbers here.
pub mod Window
pub mod Follow
use muvee.Prelude.{
  ℕ, ◌+◌, ◌-◌, String, Bool, true, false, List, [], ◌∷◌, ◌++◌, ◌==◌, ◌||◌, ltb, if◌then◌else◌,
  length, select, drop,
}

abbrev pub max_per_project : ℕ
max_per_project = 200

pub record Event : Type 0 where
  pub id : ℕ
  pub project_id : ℕ
  pub kind : String
  pub severity : String
  pub message : String
  pub at : ℕ

pub record Ring : Type 0 where
  pub next_id : ℕ
  pub events : List Event

-- r.events[len(r.events)-n:], where there are more than n; all of them otherwise.
unfoldable pub newest {ℓ} : {A : Type ℓ} → ℕ → List A → List A
newest n xs = if ltb n (length xs) then drop (length xs - n) xs else xs

abbrev pub stamp : ℕ → Event → Event
stamp n e = record e { id = n }

unfoldable pub push_event : Event → Ring → Ring
unfolding newest
push_event e r = record {
  next_id = r.next_id + 1;
  events = newest max_per_project (r.events ++ stamp (r.next_id + 1) e ∷ []);
}

-- limit <= 0 || limit > maxPerProject; a negative limit is 0.
unfoldable pub effective_limit : ℕ → ℕ
effective_limit limit = if (limit == 0) || ltb max_per_project limit then max_per_project else limit

unfoldable pub events_since : ℕ → ℕ → Ring → List Event
unfolding newest effective_limit
events_since since limit r = newest (effective_limit limit) (select (λ e. ltb since e.id) r.events)

abbrev pub Buffers : Type 0
Buffers = ℕ → Ring

abbrev pub no_events : Buffers
no_events p = record { next_id = 0; events = [] }

abbrev pub ring_for : ℕ → Buffers → Ring
ring_for p b = b p

-- Push
unfoldable pub push : ℕ → ℕ → String → String → String → Buffers → Buffers
unfolding push_event
push now p kind severity message b q =
    if q == p
    then push_event
        (record {
          id = 0;
          project_id = p;
          kind = kind;
          severity = severity;
          message = message;
          at = now;
        })
        (ring_for p b)
    else b q

-- Since
unfoldable pub since : ℕ → ℕ → ℕ → Buffers → List Event
unfolding events_since
since p since_id limit b = events_since since_id limit (ring_for p b)
