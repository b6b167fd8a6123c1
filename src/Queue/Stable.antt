-- ===== src/Queue/Stable.antt =====
-- Repeating AdvanceDeployQueue, and the bound on how long a lost deployment can hold the queue.
use muvee.Prelude.Keys.{update-none, select-none, count-select, count-and-le, All-weaken}
use muvee.Prelude.{
  ℕ, ◌+◌, ◌<◌, ◌≡◌, refl, ap, ◌∙◌, ◌⊎◌, inl, inr, false, none, List, [], ◌∷◌, map, arith, ◌&&◌,
  count, select, update, All, ==_refl,
}
use muvee.Db.{Db, Deployment, Task}
use muvee.Db.Rows.{in_flight_of, queued_of, has_id}
use muvee.Queue.{
  DeployQueuePolicy, DeployQueueAdvance, is_lost, lost_of, fail_deployment, presumed_lost,
  open_task_of, fail_task, ids, reap, start, supersede, queue, pick_next, release_next,
  advance_deploy_queue,
}
use muvee.Queue.Counts.{UniqueIds, in_flight_count}
use muvee.Queue.Advance.{settle, occurrences-newest_first}
use muvee.Queue.Outcome.{Outcome, held, idle, started, waiting, advance-Outcome}
use muvee.Queue.Reap.{none_lost}
use muvee.Queue.Counts.{UniqueIds-reap}

settled_in_flight :
    (now p n : ℕ) (ds : List Deployment)
    → count (in_flight_of p) (map (settle now p n) ds)
      ≡ count (in_flight_of p) ds + count (λ d. queued_of p d && has_id n d) ds
unfolding settle start supersede
settled_in_flight now p n [] = omega arith
settled_in_flight now p n (d ∷ ds) = ground (arith, settled_in_flight now p n ds)

pub settled_queued :
    (now p n : ℕ) (ds : List Deployment) → count (queued_of p) (map (settle now p n) ds) ≡ 0
unfolding settle start supersede
settled_queued now p n [] = refl
settled_queued now p n (d ∷ ds) = ground (arith, settled_queued now p n ds)

-- Exactly one row is started.
pub started_in_flight :
    (now p : ℕ) (db : Db) (d : Deployment) (others : List Deployment)
    → UniqueIds db.deployments
    → in_flight_count p db ≡ 0
    → waiting p db ≡ d ∷ others
    → count (in_flight_of p) (map (settle now p d.id) db.deployments) ≡ 1
started_in_flight now p db d others u z e = omega (
  arith,
  z,
  u d.id,
  settled_in_flight now p d.id db.deployments,
  count-select (queued_of p) (has_id d.id) db.deployments,
  count-and-le (queued_of p) (has_id d.id) db.deployments,
  occurrences-newest_first d.id (select (queued_of p) db.deployments),
  head_counts,
)
  where
    head_counts : 0 < count (has_id d.id) (waiting p db)
    head_counts = rw e (ground (arith, ==_refl d.id))

-- A row that has just been written is not lost, and the others are as they were.
settled_row :
    (now : ℕ) (policy : DeployQueuePolicy) (p n : ℕ) (db : Db) (d : Deployment)
    → lost_of now policy p db d ≡ false
    → lost_of now policy p db (settle now p n d) ≡ false
unfolding lost_of is_lost settle start supersede
settled_row now policy p n db d h = ground arith

All-map :
    (P : Deployment → Type 0) (f : Deployment → Deployment) (xs : List Deployment)
    → All (λ x. P (f x)) xs
    → All P (map f xs)
All-map P f [] h = tt
All-map P f (x ∷ xs) h = (h.0, All-map P f xs h.1)

none_lost-advance :
    (now : ℕ) (policy : DeployQueuePolicy) (p : ℕ) (db : Db) (r : DeployQueueAdvance) (db' : Db)
    → Outcome now p db r db'
    → All (λ d. lost_of now policy p db d ≡ false) db.deployments
    → All (λ d. lost_of now policy p db' d ≡ false) db'.deployments
none_lost-advance now policy p db r db' (held b e _ _) h = rw e h
none_lost-advance now policy p db r db' (idle _ _ e _ _) h = rw e h
none_lost-advance now policy p db r db' (started d others _ _ _ _ e) h = rw e (
    unfold lost_of in
    All-map (λ x. lost_of now policy p db x ≡ false) (settle now p d.id) db.deployments
      (All-weaken (λ x. lost_of now policy p db x ≡ false)
        (λ x. lost_of now policy p db (settle now p d.id x) ≡ false) db.deployments
        (settled_row now policy p d.id db) h))

open_task_of_none :
    (ts : List Task) → update (open_task_of []) (fail_task "deployment presumed lost") ts ≡ ts
unfolding open_task_of
open_task_of_none [] = refl
open_task_of_none (t ∷ ts) = ap (◌∷◌ t) (open_task_of_none ts)

reap-none :
    (now : ℕ) (policy : DeployQueuePolicy) (p : ℕ) (db : Db)
    → All (λ d. lost_of now policy p db d ≡ false) db.deployments
    → reap now policy p db ≡ ([], db)
unfolding reap
reap-none now policy p db h =
    rw
      (
        select-none (lost_of now policy p db) db.deployments h,
        update-none (lost_of now policy p db) (fail_deployment now presumed_lost) db.deployments h,
      )
      (ap (λ (ts : List Task). let r : List ℕ × Db = ([], record db { tasks = ts }) in r)
        (open_task_of_none db.tasks))

release_none :
    (now p : ℕ) (reaped : List ℕ) (db : Db) (w : List ℕ)
    → queue p db ≡ w
    → (0 < in_flight_count p db) ⊎ (w ≡ [])
    → release_next now p reaped db
      ≡ (record { dispatch = none; superseded = []; reaped = reaped }, db)
unfolding release_next pick_next
release_none now p reaped db [] e (inl b) = ground arith
release_none now p reaped db (n ∷ w) e (inl b) = ground arith
release_none now p reaped db [] e (inr b) = rw (e, release_next) (ground arith)
release_none now p reaped db (n ∷ w) e (inr b) = cc

-- After a call the project has something in flight, or nothing waits.
advance_settled :
    (now p : ℕ) (db : Db) (r : DeployQueueAdvance) (db' : Db)
    → UniqueIds db.deployments
    → Outcome now p db r db'
    → (0 < in_flight_count p db') ⊎ (queue p db' ≡ [])
unfolding queue
advance_settled now p db r db' u (held b e _ _) = inl (rw e b)
advance_settled now p db r db' u (idle _ w e _ _) = inr (rw e (ap ids w))
advance_settled now p db r db' u (started d others z w _ _ e) =
    inl (rw e (omega (arith, started_in_flight now p db d others u z w)))

advance-of-reap :
    (now : ℕ) (policy : DeployQueuePolicy) (p : ℕ) (db : Db) (s : List ℕ × Db)
    → reap now policy p db ≡ s
    → advance_deploy_queue now policy p db ≡ release_next now p s.0 s.1
unfolding advance_deploy_queue
advance-of-reap now policy p db s e = ap (λ (t : List ℕ × Db). release_next now p t.0 t.1) e

-- AdvanceDeployQueue is idempotent: called again at the same moment it fails nothing, dispatches
-- nothing, supersedes nothing and leaves the database as it is.
pub advance-idempotent :
    (now : ℕ) (policy : DeployQueuePolicy) (p : ℕ) (db : Db)
    → UniqueIds db.deployments
    → advance_deploy_queue now policy p (advance_deploy_queue now policy p db).1 ≡ (
      record { dispatch = none; superseded = []; reaped = [] },
      (advance_deploy_queue now policy p db).1,
    )
advance-idempotent now policy p db u =
    twice (advance_deploy_queue now policy p db).0 (advance_deploy_queue now policy p db).1
      (advance-Outcome now policy p db u)
  where
    settled : Db
    settled = (reap now policy p db).1

    twice :
        (r : DeployQueueAdvance) (db' : Db)
        → Outcome now p settled r db'
        → advance_deploy_queue now policy p db'
          ≡ (record { dispatch = none; superseded = []; reaped = [] }, db')
    twice r db' o =
        advance-of-reap now policy p db' ([], db')
          (reap-none now policy p db'
            (none_lost-advance now policy p settled r db' o (none_lost now policy p db u)))
        ∙ release_none now p [] db' (queue p db') refl
            (advance_settled now p settled r db' (UniqueIds-reap now policy p db u) o)
