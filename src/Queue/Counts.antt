-- ===== src/Queue/Counts.antt =====
-- How many deployments of a project are in flight, before and after each statement of the queue.
use muvee.Prelude.{
  refl, ℕ, ◌+◌, ◌≤◌, ◌≡◌, ap, Bool, List, [], ◌∷◌, arith, ◌==◌, count, update, count-update-le,
  count-update-add, count-update-eq, has,
}
use muvee.Db.{Db, Deployment}
use muvee.Db.Rows.{in_flight_of, has_id}
use muvee.Queue.{
  DeployQueuePolicy, lost_of, fail_deployment, presumed_lost, reap, start, supersede, promote,
  pick_next, release_next, advance_deploy_queue, queue,
}

-- Ids are primary keys.
abbrev pub UniqueIds : List Deployment → Type 0
UniqueIds ds = (n : ℕ) → count (has_id n) ds ≤ 1

abbrev pub in_flight_count : ℕ → Db → ℕ
in_flight_count p db = count (in_flight_of p) db.deployments

-- An update keeps the ids if it keeps that of each row.
pub UniqueIds-update :
    (q : Deployment → Bool) (f : Deployment → Deployment) (ds : List Deployment)
    → ((d : Deployment) → (f d).id ≡ d.id)
    → UniqueIds ds
    → UniqueIds (update q f ds)
UniqueIds-update q f ds keep u n =
    omega (arith, u n, count-update-eq (has_id n) q f ds (λ d h. ap (λ (m : ℕ). m == n) (keep d)))

pub UniqueIds-reap :
    (now : ℕ) (policy : DeployQueuePolicy) (p : ℕ) (db : Db)
    → UniqueIds db.deployments
    → UniqueIds (reap now policy p db).1.deployments
unfolding reap
UniqueIds-reap now policy p db u =
    UniqueIds-update (lost_of now policy p db) (fail_deployment now presumed_lost) db.deployments
      (λ d. refl) u

pub UniqueIds-promote :
    (now newest : ℕ) (rest : List ℕ) (db : Db)
    → UniqueIds db.deployments
    → UniqueIds (promote now newest rest db).deployments
unfolding promote
UniqueIds-promote now newest rest db u =
    UniqueIds-update (λ d. has d.id rest) (supersede now newest)
      (update (has_id newest) (start now) db.deployments) (λ d. refl)
      (UniqueIds-update (has_id newest) (start now) db.deployments (λ d. refl) u)

pub in_flight-reap :
    (now : ℕ) (policy : DeployQueuePolicy) (p q : ℕ) (db : Db)
    → in_flight_count q (reap now policy p db).1 ≤ in_flight_count q db
unfolding reap
in_flight-reap now policy p q db =
    count-update-le (in_flight_of q) (lost_of now policy p db) (fail_deployment now presumed_lost)
      db.deployments (λ d h. ground arith)

pub in_flight-promote :
    (now newest p : ℕ) (rest : List ℕ) (db : Db)
    → UniqueIds db.deployments
    → in_flight_count p (promote now newest rest db) ≤ in_flight_count p db + 1
unfolding promote
in_flight-promote now newest p rest db u = omega (
  arith,
  u newest,
  count-update-add (in_flight_of p) (has_id newest) (start now) db.deployments,
  count-update-le (in_flight_of p) (λ d. has d.id rest) (supersede now newest)
      (update (has_id newest) (start now) db.deployments) (λ d h. ground arith),
)

-- Step 3 is reached only when nothing of the project is in flight.
pick_next-count :
    (now p : ℕ) (reaped waiting : List ℕ) (db : Db)
    → UniqueIds db.deployments
    → in_flight_count p (pick_next now reaped waiting db).1 ≤ in_flight_count p db + 1
unfolding pick_next
pick_next-count now p reaped [] db u = omega arith
pick_next-count now p reaped (n ∷ rest) db u = in_flight-promote now n p rest db u

release_next-count :
    (now p : ℕ) (reaped : List ℕ) (db : Db)
    → UniqueIds db.deployments
    → in_flight_count p db ≤ 1
    → in_flight_count p (release_next now p reaped db).1 ≤ 1
unfolding release_next
release_next-count now p reaped db u h =
    ground (arith, pick_next-count now p reaped (queue p db) db u)

-- Advancing a project's queue keeps at most one of its deployments in flight: where at most one
-- was in flight before, at most one is afterwards.
pub advance-at_most_one :
    (now : ℕ) (policy : DeployQueuePolicy) (p : ℕ) (db : Db)
    → UniqueIds db.deployments
    → in_flight_count p db ≤ 1
    → in_flight_count p (advance_deploy_queue now policy p db).1 ≤ 1
unfolding advance_deploy_queue
advance-at_most_one now policy p db u h =
    release_next-count now p (reap now policy p db).0 (reap now policy p db).1
      (UniqueIds-reap now policy p db u) (omega (arith, h, in_flight-reap now policy p p db))
