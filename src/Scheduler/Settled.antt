-- ===== src/Scheduler/Settled.antt =====
-- What moving a queue on keeps of every deployment's id, project and state.
use mathlib.Core.Path.{subst}
use muvee.Prelude.{
  ℕ, ◌≡◌, sym, inl, inr, String, Bool, Option, none, some, List, [], ◌∷◌, map, ◌==◌, update, All,
  Bool-cases,
}
use muvee.Db.{Db, Deployment, DeploymentStatus}
use muvee.Db.Rows.{has_id}
use muvee.Db.Deployments.{get_deployment, update_deployment_status, set_status, log_line}
use muvee.Queue.{
  DeployQueuePolicy, DeployQueueAdvance, reap, lost_of, fail_deployment, presumed_lost, start,
  supersede, advance_deploy_queue,
}
use muvee.Queue.Counts.{UniqueIds}
use muvee.Queue.Advance.{settle}
use muvee.Queue.Outcome.{Outcome, held, idle, started, advance-Outcome}
use muvee.Scheduler.{Error, Result, ok, err, message, Scheduler}
use muvee.Scheduler.Trigger.{
  dispatch_chain, settle_dispatch, advance_queue, advance_deploy_queue_for,
}
use muvee.Scheduler.Keeps.Dispatches.{dispatch_chain-Keeps}
use muvee.Scheduler.Serial.{run_of, same_runs, runs-IsKept}

-- A property of a deployment's id, project and state, that the queue's own changes of state keep.
abbrev pub Run : Type 0
Run = ℕ × ℕ × DeploymentStatus

pub record IsSettled (P : Run → Type 0) : Type 0 where
  pub to_failed :
      (n p : ℕ) (st : DeploymentStatus) → P (n, p, st) → P (n, p, DeploymentStatus.failed)
  pub to_pending :
      (n p : ℕ) → P (n, p, DeploymentStatus.queued) → P (n, p, DeploymentStatus.pending)
  pub to_superseded :
      (n p : ℕ) → P (n, p, DeploymentStatus.queued) → P (n, p, DeploymentStatus.superseded)

abbrev pub AllRuns : (Run → Type 0) → Db → Type 0
AllRuns P db = All (λ d. P (run_of d)) db.deployments

module _ (P : Run → Type 0) (K : IsSettled P) where
  update-AllRuns :
      (q : Deployment → Bool) (f : Deployment → Deployment) (ds : List Deployment)
      → ((d : Deployment) → P (run_of d) → P (run_of (f d)))
      → All (λ d. P (run_of d)) ds
      → All (λ d. P (run_of d)) (update q f ds)
  update-AllRuns q f [] h k = tt
  update-AllRuns q f (d ∷ ds) h k = elim (Bool-cases (q d)) [
    | inl e ↦ rw e (h d k.0, update-AllRuns q f ds h k.1)
    | inr e ↦ rw e (k.0, update-AllRuns q f ds h k.1)
  ]

  settle_run :
      (now p n : ℕ) (d : Deployment) (st : DeploymentStatus)
      → P (d.id, d.project_id, st)
      → P (run_of (settle now p n (record d { status = st })))
  unfolding settle start supersede
  settle_run now p n d DeploymentStatus.queued h = elim (Bool-cases (d.project_id == p)) [
    | inl e ↦ elim (Bool-cases (d.id == n)) [
      | inl i ↦ rw (e, i) (K.to_pending d.id d.project_id h)
      | inr i ↦ rw (e, i) (K.to_superseded d.id d.project_id h)
    ]
    | inr e ↦ rw e h
  ]
  settle_run now p n d _ h = elim (Bool-cases (d.project_id == p)) [
    | inl e ↦ rw e h
    | inr e ↦ rw e h
  ]

  settle-AllRuns :
      (now p n : ℕ) (ds : List Deployment)
      → All (λ d. P (run_of d)) ds
      → All (λ d. P (run_of d)) (map (settle now p n) ds)
  settle-AllRuns now p n [] h = tt
  settle-AllRuns now p n (d ∷ ds) h =
      (settle_run now p n d d.status h.0, settle-AllRuns now p n ds h.1)

  fail-AllRuns :
      (now n : ℕ) (msg : String) (db : Db)
      → AllRuns P db
      → AllRuns P (update_deployment_status now n DeploymentStatus.failed msg db)
  unfolding update_deployment_status
  fail-AllRuns now n msg db h =
      update-AllRuns (has_id n) (set_status now DeploymentStatus.failed (log_line msg))
        db.deployments (λ d k. K.to_failed d.id d.project_id d.status k) h

  reap-AllRuns :
      (now : ℕ) (policy : DeployQueuePolicy) (p : ℕ) (db : Db)
      → AllRuns P db
      → AllRuns P (reap now policy p db).1
  unfolding reap fail_deployment
  reap-AllRuns now policy p db h =
      update-AllRuns (lost_of now policy p db) (fail_deployment now presumed_lost) db.deployments
        (λ d k. K.to_failed d.id d.project_id d.status k) h

  Outcome-AllRuns :
      (now p : ℕ) (db : Db) (r : DeployQueueAdvance) (db' : Db)
      → Outcome now p db r db'
      → AllRuns P db
      → AllRuns P db'
  Outcome-AllRuns now p db r db' (held _ e _ _) h = rw e h
  Outcome-AllRuns now p db r db' (idle _ _ e _ _) h = rw e h
  Outcome-AllRuns now p db r db' (started d _ _ _ _ _ e) h =
      rw e (settle-AllRuns now p d.id db.deployments h)

  runs-AllRuns :
      (ds es : List Deployment)
      → map run_of es ≡ map run_of ds
      → All (λ d. P (run_of d)) ds
      → All (λ d. P (run_of d)) es
  runs-AllRuns ds es e h = from es (subst (All P) (sym e) (to ds h))
    where
      to : (ds : List Deployment) → All (λ d. P (run_of d)) ds → All P (map run_of ds)
      to [] h = tt
      to (d ∷ ds) h = (h.0, to ds h.1)

      from : (ds : List Deployment) → All P (map run_of ds) → All (λ d. P (run_of d)) ds
      from [] h = tt
      from (d ∷ ds) h = (h.0, from ds h.1)

  settle_dispatch-AllRuns :
      (now : ℕ) (dep : Deployment) (r : Result (Unit {0})) (db : Db)
      → AllRuns P db
      → AllRuns P (settle_dispatch now dep (r, db)).1
  unfolding settle_dispatch
  settle_dispatch-AllRuns now dep (ok _) db h = h
  settle_dispatch-AllRuns now dep (err e) db h = fail-AllRuns now dep.id (message e) db h

  dispatched-AllRuns :
      (s : Scheduler) (now : ℕ) (o : Option Deployment) (db : Db)
      → AllRuns P db
      → AllRuns P
          (let out : (ℕ × Option Error) × Db = elim o [
            | none ↦ ((0, none), db)
            | some dep ↦ settle_dispatch now dep (dispatch_chain s now dep db)
          ] in
            out).1
  dispatched-AllRuns s now none db h = h
  dispatched-AllRuns s now (some dep) db h =
      settle_dispatch-AllRuns now dep (dispatch_chain s now dep db).0
        (dispatch_chain s now dep db).1
        (runs-AllRuns db.deployments _
          (unfold same_runs in dispatch_chain-Keeps same_runs runs-IsKept s now dep db) h)

  pub advance_queue-AllRuns :
      (s : Scheduler) (now p : ℕ) (db : Db)
      → UniqueIds db.deployments
      → AllRuns P db
      → AllRuns P (advance_queue s now p db).1
  unfolding advance_queue
  advance_queue-AllRuns s now p db u h =
      dispatched-AllRuns s now (advance_deploy_queue now s.policy p db).0.dispatch
        (advance_deploy_queue now s.policy p db).1
        (Outcome-AllRuns now p (reap now s.policy p db).1 _ _ (advance-Outcome now s.policy p db u)
          (reap-AllRuns now s.policy p db h))

  advance_for-case :
      (s : Scheduler) (now : ℕ) (o : Option Deployment) (db : Db)
      → UniqueIds db.deployments
      → AllRuns P db
      → AllRuns P
          (elim o as (λ _. Db) [ none ↦ db | some d ↦ (advance_queue s now d.project_id db).1 ])
  advance_for-case s now none db u h = h
  advance_for-case s now (some d) db u h = advance_queue-AllRuns s now d.project_id db u h

  pub advance_for-AllRuns :
      (s : Scheduler) (now dep : ℕ) (db : Db)
      → UniqueIds db.deployments
      → AllRuns P db
      → AllRuns P (advance_deploy_queue_for s now dep db)
  unfolding advance_deploy_queue_for
  advance_for-AllRuns s now dep db u h = advance_for-case s now (get_deployment dep db) db u h
