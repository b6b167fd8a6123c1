-- ===== src/Agent/Failover.antt =====
-- The replacement of a deployment whose node is dead, and the deployments in flight.
use muvee.Prelude.{
  ℕ, ◌+◌, ◌≤◌, ◌≡◌, refl, sym, ap, ◌∙◌, Bool, true, false, none, some, List, [], ◌∷◌, ◌++◌, arith,
  ◌==◌, ◌&&◌, count, first, update, ==_refl, count-update-eq, str_append,
}
use muvee.Db.{Db, Deployment, DeploymentStatus, LogLine, Node, Project}
use muvee.Db.Rows.{in_flight, in_flight_of, has_id}
use muvee.Db.Deployments.{
  get_deployment, update_deployment_status, create_deployment, set_status, log_line,
}
use muvee.Queue.Counts.{UniqueIds, in_flight_count}
use muvee.Scheduler.{Result, ok, err, Scheduler}
use muvee.Scheduler.Dispatch.{dispatch_deploy}
use muvee.Scheduler.Keeps.Dispatches.{dispatch_deploy-Keeps}
use muvee.Scheduler.Serial.{runs, same_runs, runs-IsKept, count-runs}
use muvee.Scheduler.Serial.Triggers.{IsFresh}
use muvee.Agent.Serial.{count-untouched}
use muvee.Agent.Loops.{prepare, after_failover, replace}

-- A row that changes between states out of flight.
count-leave :
    (now p n : ℕ) (st : DeploymentStatus) (log : List LogLine) (d : Deployment)
    (ds : List Deployment)
    → in_flight st ≡ false
    → count (has_id n) ds ≤ 1
    → first (has_id n) ds ≡ some d
    → in_flight d.status ≡ false
    → count (in_flight_of p) (update (has_id n) (set_status now st log) ds)
      ≡ count (in_flight_of p) ds
count-leave now p n st log d [] i u e g = cc
count-leave now p n st log d (x ∷ xs) i u e g = ground (
  arith,
  count-leave now p n st log d xs i,
  count-untouched (in_flight_of p) (has_id n) (set_status now st log) xs,
)

-- The last row of a table, in flight before and after.
count-last :
    (now p : ℕ) (st : DeploymentStatus) (log : List LogLine) (d : Deployment) (ds : List Deployment)
    → in_flight st ≡ true
    → in_flight d.status ≡ true
    → (d.project_id == p) ≡ true
    → count (has_id d.id) ds ≡ 0
    → count (in_flight_of p) (update (has_id d.id) (set_status now st log) (ds ++ d ∷ []))
      ≡ count (in_flight_of p) ds + 1
count-last now p st log d [] i j k h = ground (arith, i, j, k, ==_refl d.id)
count-last now p st log d (x ∷ xs) i j k h = ground (arith, count-last now p st log d xs i j k)

prepare-count :
    (now : ℕ) (node : Node) (dep d : Deployment) (db : Db)
    → UniqueIds db.deployments
    → IsFresh db
    → get_deployment dep.id db ≡ some d
    → in_flight d.status ≡ false
    → in_flight_count dep.project_id (prepare now node dep db).1
      ≡ in_flight_count dep.project_id db + 1
unfolding prepare update_deployment_status create_deployment get_deployment
prepare-count now node dep d db u f e g =
    let log = log_line (str_append "evicted: node " (str_append node.hostname " offline")) in
    let stopped =
      update (has_id dep.id) (set_status now DeploymentStatus.stopped log) db.deployments in
    let new : Deployment = record {
      id = db.uuids 0;
      project_id = dep.project_id;
      image_tag = dep.image_tag;
      status = DeploymentStatus.pending;
      node_id = none;
      host_port = 0;
      logs = [];
      created_at = now;
      updated_at = now;
    } in
    count-last now dep.project_id DeploymentStatus.deploying [] new stopped refl refl
      (==_refl dep.project_id)
      (count-update-eq (has_id (db.uuids 0)) (has_id dep.id)
          (set_status now DeploymentStatus.stopped log) db.deployments (λ x h. refl)
        ∙ f)
    ∙ ap (λ (n : ℕ). n + 1)
        (count-leave now dep.project_id dep.id DeploymentStatus.stopped log d db.deployments refl
          (u dep.id) e g)

in_flight_count-runs :
    (p : ℕ) (a b : Db) → runs b ≡ runs a → in_flight_count p b ≡ in_flight_count p a
in_flight_count-runs p a b e =
    let q : ℕ × ℕ × DeploymentStatus → Bool = λ r. (r.1 == p) && in_flight r.2 in
    sym (count-runs q b.deployments) ∙ ap (count q) e ∙ count-runs q a.deployments

after_failover-ok :
    (s : Scheduler) (now p n : ℕ) (r : Result (Unit {0})) (db : Db)
    → r ≡ ok tt
    → after_failover s now p n (r, db) ≡ db
unfolding after_failover
after_failover-ok s now p n (ok _) db h = refl
after_failover-ok s now p n (err e) db h = cc

-- A deployment of a dead node that is replaced, and whose replacement can be dispatched: its
-- project has one deployment more in flight than before, however many it had. Nothing waits in the
-- project's queue.
pub replace-adds :
    (s : Scheduler) (now : ℕ) (node : Node) (dep d : Deployment) (p : Project) (db : Db)
    → UniqueIds db.deployments
    → IsFresh db
    → get_deployment dep.id db ≡ some d
    → in_flight d.status ≡ false
    → (let (new, moving) = prepare now node dep db in
        (dispatch_deploy s now new p new.image_tag moving).0 ≡ ok tt)
    → in_flight_count dep.project_id (replace s now node dep p db)
      ≡ in_flight_count dep.project_id db + 1
unfolding replace
replace-adds s now node dep d p db u f e g k =
    let new = (prepare now node dep db).0 in
    let moving = (prepare now node dep db).1 in
    let out = dispatch_deploy s now new p new.image_tag moving in
    ap (in_flight_count dep.project_id) (after_failover-ok s now p.id new.id out.0 out.1 k)
    ∙ in_flight_count-runs dep.project_id moving out.1 (
        unfold same_runs in
        dispatch_deploy-Keeps same_runs runs-IsKept s now new p new.image_tag moving)
    ∙ prepare-count now node dep d db u f e g
