-- ===== src/Queue/Outcome.antt =====
-- The whole of AdvanceDeployQueue: what it returns and what it leaves, on each of its paths.
use mathlib.Core.Option
use muvee.Prelude.Keys.{first-key, first-map, All-select, select-All}
use muvee.Prelude.{
  ℕ, ◌<◌, ◌≡◌, refl, ap, ◌∙◌, inl, inr, true, none, some, List, [], ◌∷◌, map, arith, ltb, select,
  first, All, Bool-cases, ltb→lt,
}
use muvee.Db.{Db, Deployment}
use muvee.Db.Rows.{queued_of, has_id}
use muvee.Db.Deployments.{get_deployment, with_deployments}
use muvee.Queue.{
  DeployQueuePolicy, DeployQueueAdvance, reap, ids, newer, insert_newer, newest_first, queue, start,
  promote, pick_next, release_next, advance_deploy_queue,
}
use muvee.Queue.Counts.{UniqueIds, in_flight_count, UniqueIds-reap}
use muvee.Queue.Advance.{settle, settle-id, settle-head, promote-rows}

-- The queued deployments of the project, the newest first.
abbrev pub waiting : ℕ → Db → List Deployment
waiting p db = newest_first (select (queued_of p) db.deployments)

All-insert_newer :
    (P : Deployment → Type 0) (d : Deployment) (xs : List Deployment)
    → P d
    → All P xs
    → All P (insert_newer d xs)
unfolding insert_newer
All-insert_newer P d [] h k = (h, tt)
All-insert_newer P d (x ∷ xs) h k = elim (Bool-cases (newer d x)) [
  | inl e ↦ rw (e, insert_newer) (h, k)
  | inr e ↦ rw (e, insert_newer) (k.0, All-insert_newer P d xs h k.1)
]

All-newest_first :
    (P : Deployment → Type 0) (xs : List Deployment) → All P xs → All P (newest_first xs)
unfolding newest_first
All-newest_first P [] h = tt
All-newest_first P (x ∷ xs) h =
    All-insert_newer P x (newest_first xs) h.0 (All-newest_first P xs h.1)

-- Every waiting row is queued, and is what its id finds in the table.
waiting-queued : (p : ℕ) (db : Db) → All (λ d. queued_of p d ≡ true) (waiting p db)
waiting-queued p db = All-newest_first _ _ (select-All (queued_of p) db.deployments)

waiting-found :
    (p : ℕ) (db : Db)
    → UniqueIds db.deployments
    → All (λ d. first (has_id d.id) db.deployments ≡ some d) (waiting p db)
waiting-found p db u = All-newest_first _ _ (
    All-select _ (queued_of p) db.deployments
      (first-key (λ (d : Deployment). d.id) db.deployments u))

first-settled :
    (now p : ℕ) (d : Deployment) (ds : List Deployment)
    → queued_of p d ≡ true
    → first (has_id d.id) ds ≡ some d
    → first (has_id d.id) (map (settle now p d.id) ds) ≡ some (start now d)
first-settled now p d ds q e =
    first-map (λ (x : Deployment). x.id) (settle now p d.id) d.id ds (settle-id now p d.id)
    ∙ ap (Option.map (settle now p d.id)) e
    ∙ ap some (settle-head now p d q)

-- The three ways in which a call ends, after its first step has left `db`.
pub data Outcome (now p : ℕ) (db : Db) (r : DeployQueueAdvance) (db' : Db) : Type 0 where
  -- Something is still in flight: nothing else happens.
  held :
      0 < in_flight_count p db
      → db' ≡ db
      → r.dispatch ≡ none
      → r.superseded ≡ []
      → Outcome now p db r db'
  -- Nothing is in flight and nothing waits.
  idle :
      in_flight_count p db ≡ 0
      → waiting p db ≡ []
      → db' ≡ db
      → r.dispatch ≡ none
      → r.superseded ≡ []
      → Outcome now p db r db'
  -- The newest waiting row is started, and every other waiting row is superseded.
  started :
      (d : Deployment) (others : List Deployment)
      → in_flight_count p db ≡ 0
      → waiting p db ≡ d ∷ others
      → r.dispatch ≡ some (start now d)
      → r.superseded ≡ ids others
      → db' ≡ with_deployments db (map (settle now p d.id) db.deployments)
      → Outcome now p db r db'

pick_next-Outcome :
    (now p : ℕ) (reaped : List ℕ) (db : Db) (w : List Deployment)
    → UniqueIds db.deployments
    → in_flight_count p db ≡ 0
    → waiting p db ≡ w
    → All (λ d. queued_of p d ≡ true) w
    → All (λ d. first (has_id d.id) db.deployments ≡ some d) w
    → Outcome now p db (pick_next now reaped (ids w) db).0 (pick_next now reaped (ids w) db).1
unfolding pick_next queue promote get_deployment
pick_next-Outcome now p reaped db [] u z e q f = idle z e refl refl refl
pick_next-Outcome now p reaped db (d ∷ others) u z e q f =
    let rows = promote-rows now p d.id (ids others) db u (ap ids e) in
    started d others z e
      (ap (first (has_id d.id)) rows ∙ first-settled now p d db.deployments q.0 f.0) refl
      (ap (with_deployments db) rows)

release_next-Outcome :
    (now p : ℕ) (reaped : List ℕ) (db : Db)
    → UniqueIds db.deployments
    → Outcome now p db (release_next now p reaped db).0 (release_next now p reaped db).1
unfolding release_next queue
release_next-Outcome now p reaped db u = elim (Bool-cases (ltb 0 (in_flight_count p db))) [
  | inl busy ↦ rw (busy, release_next) (held (ltb→lt _ _ busy) refl refl refl)
  | inr free ↦
      rw (free, release_next)
        (pick_next-Outcome now p reaped db (waiting p db) u (ground arith) refl
          (waiting-queued p db) (waiting-found p db u))
]

-- What follows the first step, on each path.
pub advance-Outcome :
    (now : ℕ) (policy : DeployQueuePolicy) (p : ℕ) (db : Db)
    → UniqueIds db.deployments
    → Outcome now p
        (reap now policy p db).1
        (advance_deploy_queue now policy p db).0
        (advance_deploy_queue now policy p db).1
unfolding advance_deploy_queue
advance-Outcome now policy p db u =
    release_next-Outcome now p (reap now policy p db).0 (reap now policy p db).1
      (UniqueIds-reap now policy p db u)
