-- ===== src/Queue/Contract.antt =====
-- The contract of AdvanceDeployQueue, stated without the functions that model its statements.
use mathlib.Core.List.{Perm}
use muvee.Prelude.{
  ℕ, ◌≤◌, ◌<◌, ◌≡◌, ◌⊎◌, refl, inl, inr, true, none, some, List, [], ◌∷◌, ◌++◌, map, arith,
  Bool-cases, ltb, ◌==◌, if◌then◌else◌, select, All,
}
use muvee.Prelude.Keys.{All-weaken}
use muvee.Db.{Db, Deployment, DeploymentStatus, superseded_by}
use muvee.Db.Rows.{queued_of}
use muvee.Queue.{
  DeployQueuePolicy, DeployQueueAdvance, ids, newer, reap, queue, pick_next, release_next, start,
  supersede, advance_deploy_queue,
}
use muvee.Queue.Counts.{UniqueIds, in_flight_count}
use muvee.Queue.Advance.{settle}
use muvee.Queue.Order.{IsNewestFirst, newest_first-sorts}
use muvee.Queue.Lost.{Reaped}
use muvee.Queue.Reaped.{reap-Reaped}
use muvee.Queue.Outcome.{Outcome, waiting, advance-Outcome}

-- Created later, or at the same time with an id that is not smaller.
abbrev pub IsNewer : Deployment → Deployment → Type 0
IsNewer x y = (y.created_at < x.created_at) ⊎ ((y.created_at ≡ x.created_at) × (y.id ≤ x.id))

abbrev pub IsInOrder : List Deployment → Type 0
IsInOrder [] = Unit
IsInOrder (x ∷ xs) = All (IsNewer x) xs × IsInOrder xs

-- The rows are the queued deployments of the project, the newest first.
abbrev pub IsQueue : ℕ → Db → List Deployment → Type 0
IsQueue p db rows = IsInOrder rows × Perm rows (select (queued_of p) db.deployments)

-- The deployment that is released.
abbrev pub released : ℕ → Deployment → Deployment
released now d = record d { status = DeploymentStatus.pending; updated_at = now }

-- What becomes of a row when `newest` is released.
abbrev pub settled : ℕ → ℕ → ℕ → Deployment → Deployment
settled now p newest d =
    if queued_of p d
    then if d.id == newest then released now d else record d {
      status = DeploymentStatus.superseded;
      logs = d.logs ++ superseded_by newest ∷ [];
      updated_at = now;
    }
    else d

-- How a call ends that has found `rows` waiting after its first step has left `db`.
pub data Ending (now p : ℕ) (db : Db) (r : DeployQueueAdvance) (db' : Db)
    : List Deployment → Type 0 where
  held :
      (rows : List Deployment)
      → 0 < in_flight_count p db
      → db' ≡ db
      → r.dispatch ≡ none
      → r.superseded ≡ []
      → Ending now p db r db' rows
  idle :
      in_flight_count p db ≡ 0
      → db' ≡ db
      → r.dispatch ≡ none
      → r.superseded ≡ []
      → Ending now p db r db' []
  started :
      (d : Deployment) (others : List Deployment)
      → in_flight_count p db ≡ 0
      → r.dispatch ≡ some (released now d)
      → r.superseded ≡ ids others
      → db' ≡ record db { deployments = map (settled now p d.id) db.deployments }
      → Ending now p db r db' (d ∷ others)

-- A call in two stages: the first fails what is lost and leaves `between`, the second releases the
-- newest of the rows that wait, if nothing is in flight.
pub record Contract (now : ℕ) (policy : DeployQueuePolicy) (p : ℕ) (db : Db)
    (r : DeployQueueAdvance) (db' : Db) : Type 0 where
  pub between : Db
  pub reaped : Reaped now policy p db r.reaped between
  pub rows : List Deployment
  pub queue : IsQueue p between rows
  pub ending : Ending now p between r db' rows

IsNewestFirst-IsInOrder : (xs : List Deployment) → IsNewestFirst xs → IsInOrder xs
IsNewestFirst-IsInOrder [] h = tt
IsNewestFirst-IsInOrder (x ∷ xs) h = (
  All-weaken (λ y. newer x y ≡ true) (IsNewer x) xs (λ y e. unfold newer in ground arith) h.0,
  IsNewestFirst-IsInOrder xs h.1,
)

pub waiting-IsQueue : (p : ℕ) (db : Db) → IsQueue p db (waiting p db)
waiting-IsQueue p db =
    let (order, same) = newest_first-sorts (select (queued_of p) db.deployments) in
    (IsNewestFirst-IsInOrder _ order, same)

Outcome-Ending :
    (now p : ℕ) (db : Db) (r : DeployQueueAdvance) (db' : Db)
    → Outcome now p db r db'
    → Ending now p db r db' (waiting p db)
unfolding settle start supersede
Outcome-Ending now p db r db' (Outcome.held b e n s) = Ending.held _ b e n s
Outcome-Ending now p db r db' (Outcome.idle z w e n s) = rw w (Ending.idle z e n s)
Outcome-Ending now p db r db' (Outcome.started d others z w out s e) =
    rw w (Ending.started d others z out s e)

pick_next-reaped :
    (now : ℕ) (reaped waiting : List ℕ) (db : Db)
    → (pick_next now reaped waiting db).0.reaped ≡ reaped
unfolding pick_next
pick_next-reaped now reaped [] db = refl
pick_next-reaped now reaped (newest ∷ rest) db = refl

-- The first stage's ids are those that the call returns.
reaped-advance :
    (now : ℕ) (policy : DeployQueuePolicy) (p : ℕ) (db : Db)
    → (advance_deploy_queue now policy p db).0.reaped ≡ (reap now policy p db).0
unfolding advance_deploy_queue release_next
reaped-advance now policy p db =
    let (lost, db') = reap now policy p db in
    elim (Bool-cases (ltb 0 (in_flight_count p db'))) [
      | inl e ↦ rw e refl
      | inr e ↦ rw e (pick_next-reaped now lost (queue p db') db')
    ]

-- AdvanceDeployQueue does what its comment says on every path, for a table with unique ids. First,
-- exactly the deployments of the project that are lost fail, with their open builds and deploys,
-- and their ids are returned; nothing else changes. Then, if one is in flight, or none waits, the
-- database stays as it then is and nothing is dispatched or superseded. Otherwise the newest one
-- that waits becomes pending and is returned, all others that wait become superseded and their ids
-- are returned, and no other row changes.
pub advance-Contract :
    (now : ℕ) (policy : DeployQueuePolicy) (p : ℕ) (db : Db)
    → UniqueIds db.deployments
    → Contract now policy p db
        (advance_deploy_queue now policy p db).0
        (advance_deploy_queue now policy p db).1
advance-Contract now policy p db u = record {
  between = (reap now policy p db).1;
  reaped = rw (reaped-advance now policy p db) (reap-Reaped now policy p db);
  rows = waiting p (reap now policy p db).1;
  queue = waiting-IsQueue p (reap now policy p db).1;
  ending = Outcome-Ending now p _ _ _ (advance-Outcome now policy p db u);
}
