-- ===== src/Queue/Progress.antt =====
-- A deployment that hangs cannot hold its project's queue for longer than the hard timeout.
use mathlib.Core.Path.{subst}
use muvee.Prelude.{
  ℕ, ◌+◌, ◌<◌, ◌≡◌, refl, sym, ap, ◌∙◌, inl, inr, Bool, true, some, List, [], ◌∷◌, arith, lt→ltb,
  count, select, update, All, Bool-cases, count-update-eq,
}
use muvee.Db.{Db, Deployment}
use muvee.Db.Rows.{in_flight_of, queued_of}
use muvee.Queue.{
  DeployQueuePolicy, DeployQueueAdvance, ids, is_lost, lost_of, fail_deployment, presumed_lost,
  reap, insert_newer, newest_first, start, advance_deploy_queue,
}
use muvee.Queue.Counts.{UniqueIds, in_flight_count, UniqueIds-reap}
use muvee.Queue.Outcome.{Outcome, held, idle, started, waiting, advance-Outcome}
use muvee.Queue.Contract.{IsQueue, released, waiting-IsQueue}
use muvee.Queue.Stable.{started_in_flight, settled_queued}

-- Nothing of the project in flight has been updated for the hard timeout.
abbrev pub IsStale : ℕ → DeployQueuePolicy → ℕ → Deployment → Type 0
IsStale now policy p d = in_flight_of p d ≡ true → d.updated_at + policy.hard_timeout < now

stale_fail :
    (now : ℕ) (policy : DeployQueuePolicy) (p : ℕ) (db : Db) (ds : List Deployment)
    → All (IsStale now policy p) ds
    → count
        (in_flight_of p)
        (update (lost_of now policy p db) (fail_deployment now presumed_lost) ds)
      ≡ 0
unfolding lost_of is_lost fail_deployment
stale_fail now policy p db [] h = refl
stale_fail now policy p db (d ∷ ds) h = elim (Bool-cases (in_flight_of p d)) [
  | inl e ↦ ground (arith, stale_fail now policy p db ds h.1, lt→ltb _ _ (h.0 e), e)
  | inr e ↦ ground (arith, stale_fail now policy p db ds h.1, e)
]

reap-queued :
    (now : ℕ) (policy : DeployQueuePolicy) (p : ℕ) (db : Db)
    → count (queued_of p) (reap now policy p db).1.deployments ≡ count (queued_of p) db.deployments
unfolding reap
reap-queued now policy p db =
    count-update-eq (queued_of p) (lost_of now policy p db) (fail_deployment now presumed_lost)
      db.deployments (λ d h. unfold lost_of fail_deployment in ground arith)

count-insert_newer :
    (q : Deployment → Bool) (d : Deployment) (xs : List Deployment)
    → count q (insert_newer d xs) ≡ count q (d ∷ xs)
unfolding insert_newer
count-insert_newer q d [] = refl
count-insert_newer q d (x ∷ xs) = ground (arith, count-insert_newer q d xs)

count-newest_first :
    (q : Deployment → Bool) (xs : List Deployment) → count q (newest_first xs) ≡ count q xs
unfolding newest_first
count-newest_first q [] = refl
count-newest_first q (x ∷ xs) =
    ground (arith, count-insert_newer q x (newest_first xs), count-newest_first q xs)

count-select_self :
    (q : Deployment → Bool) (xs : List Deployment) → count q (select q xs) ≡ count q xs
count-select_self q [] = refl
count-select_self q (x ∷ xs) = ground (arith, count-select_self q xs)

waiting-count :
    (p : ℕ) (db : Db) → count (queued_of p) (waiting p db) ≡ count (queued_of p) db.deployments
waiting-count p db =
    count-newest_first (queued_of p) (select (queued_of p) db.deployments)
    ∙ count-select_self (queued_of p) db.deployments

reap-select :
    (now : ℕ) (policy : DeployQueuePolicy) (p : ℕ) (db : Db) (ds : List Deployment)
    → select (queued_of p) (update (lost_of now policy p db) (fail_deployment now presumed_lost) ds)
      ≡ select (queued_of p) ds
unfolding lost_of fail_deployment
reap-select now policy p db [] = refl
reap-select now policy p db (d ∷ ds) = ground (arith, reap-select now policy p db ds)

-- The first step leaves the queue as it is.
reap-waiting :
    (now : ℕ) (policy : DeployQueuePolicy) (p : ℕ) (db : Db)
    → waiting p (reap now policy p db).1 ≡ waiting p db
unfolding reap
reap-waiting now policy p db = ap newest_first (reap-select now policy p db db.deployments)

-- What a call that dispatches returns and leaves behind: the newest deployment that waited is
-- dispatched, the others that waited are superseded.
pub record Dispatched (now p : ℕ) (db : Db) (r : DeployQueueAdvance) (db' : Db) : Type 0 where
  pub newest : Deployment
  pub others : List Deployment
  pub queue : IsQueue p db (newest ∷ others)
  pub returned : r.dispatch ≡ some (released now newest)
  pub superseded : r.superseded ≡ ids others
  pub one_in_flight : in_flight_count p db' ≡ 1
  pub none_queued : count (queued_of p) db'.deployments ≡ 0

Outcome-Dispatched :
    (now p : ℕ) (before db : Db) (r : DeployQueueAdvance) (db' : Db)
    → UniqueIds db.deployments
    → waiting p db ≡ waiting p before
    → Outcome now p db r db'
    → in_flight_count p db ≡ 0
    → 0 < count (queued_of p) db.deployments
    → Dispatched now p before r db'
unfolding start
Outcome-Dispatched now p before db r db' u same (held b _ _ _) z q = absurd (omega arith)
Outcome-Dispatched now p before db r db' u same (idle _ w _ _ _) z q =
    absurd (omega (arith, q, waiting-count p db, ap (count (queued_of p)) w))
Outcome-Dispatched now p before db r db' u same (started d others _ w out s e) z q = record {
  newest = d;
  others = others;
  queue = subst (IsQueue p before) (sym same ∙ w) (waiting-IsQueue p before);
  returned = out;
  superseded = s;
  one_in_flight = rw e (started_in_flight now p db d others u z w);
  none_queued = rw e (settled_queued now p d.id db.deployments);
}

-- For a table with unique ids: if every deployment of the project that is in flight has gone
-- without an update for the hard timeout, and one is queued, then a call dispatches the newest of
-- those that were queued and supersedes the others; exactly one deployment of the project is in
-- flight afterwards, and none is queued.
pub advance-unblocks :
    (now : ℕ) (policy : DeployQueuePolicy) (p : ℕ) (db : Db)
    → UniqueIds db.deployments
    → All (IsStale now policy p) db.deployments
    → 0 < count (queued_of p) db.deployments
    → Dispatched now p db
        (advance_deploy_queue now policy p db).0
        (advance_deploy_queue now policy p db).1
advance-unblocks now policy p db u stale q =
    Outcome-Dispatched now p db (reap now policy p db).1 _ _ (UniqueIds-reap now policy p db u)
      (reap-waiting now policy p db) (advance-Outcome now policy p db u)
      (unfold reap in stale_fail now policy p db db.deployments stale)
      (omega (arith, q, reap-queued now policy p db))
