-- ===== src/Queue/Reap.antt =====
-- Step 1 of AdvanceDeployQueue: which deployments fail.
use muvee.Prelude.Keys.{any-key, any-select, has-keys, All-weaken}
use muvee.Prelude.{
  ℕ, ◌≡◌, refl, ap, ◌∙◌, inl, inr, String, Bool, false, List, [], ◌∷◌, arith, ◌&&◌, if◌then◌else◌,
  any, select, update, has, All, Bool-cases,
}
use muvee.Db.{Db, Deployment, Task, Node}
use muvee.Db.Rows.{in_flight_of, has_id}
use muvee.Queue.{
  DeployQueuePolicy, keeps_alive, is_lost, lost_of, fail_deployment, presumed_lost, open_task_of,
  fail_task, ids, reap,
}
use muvee.Queue.Counts.{UniqueIds}

-- The failing of other deployments' tasks takes no deployment's last live task away.
any-keeps_alive :
    (now grace : ℕ) (nodes : List Node) (lost : List ℕ) (why : String) (d : Deployment)
    (ts : List Task)
    → has d.id lost ≡ false
    → any (keeps_alive now grace nodes d) (update (open_task_of lost) (fail_task why) ts)
      ≡ any (keeps_alive now grace nodes d) ts
unfolding keeps_alive open_task_of fail_task
any-keeps_alive now grace nodes lost why d [] h = refl
any-keeps_alive now grace nodes lost why d (t ∷ ts) h =
    ground (arith, any-keeps_alive now grace nodes lost why d ts h)

-- A row fails exactly if it is lost, and then its id is among those returned.
has-lost :
    (now : ℕ) (policy : DeployQueuePolicy) (p : ℕ) (db : Db)
    → UniqueIds db.deployments
    → All (λ d. has d.id (reap now policy p db).0 ≡ lost_of now policy p db d) db.deployments
unfolding reap
has-lost now policy p db u =
    All-weaken
      (λ d.
        any (λ x. lost_of now policy p db x && has_id d.id x) db.deployments
        ≡ lost_of now policy p db d)
      (λ d.
        has d.id (ids (select (lost_of now policy p db) db.deployments))
        ≡ lost_of now policy p db d)
      db.deployments
      (λ d h.
        has-keys (λ (x : Deployment). x.id) d.id (select (lost_of now policy p db) db.deployments)
        ∙ any-select (lost_of now policy p db) (has_id d.id) db.deployments
        ∙ h)
      (any-key (λ (x : Deployment). x.id) (lost_of now policy p db) db.deployments u)

All-update :
    (P : Deployment → Type 0) (q : Deployment → Bool) (f : Deployment → Deployment)
    (xs : List Deployment)
    → All (λ x. P (if q x then f x else x)) xs
    → All P (update q f xs)
All-update P q f [] h = tt
All-update P q f (x ∷ xs) h = (h.0, All-update P q f xs h.1)

is_lost-reap :
    (now : ℕ) (policy : DeployQueuePolicy) (nodes : List Node) (lost : List ℕ) (why : String)
    (d : Deployment) (ts : List Task)
    → has d.id lost ≡ false
    → is_lost now policy nodes (update (open_task_of lost) (fail_task why) ts) d
      ≡ is_lost now policy nodes ts d
unfolding is_lost
is_lost-reap now policy nodes lost why d ts h =
    rw (any-keeps_alive now policy.grace nodes lost why d ts h)

-- One row after the step: the failed one is out of flight, and any other is as alive as it was.
lost_row :
    (now : ℕ) (policy : DeployQueuePolicy) (p : ℕ) (db : Db) (d : Deployment)
    → has d.id (reap now policy p db).0 ≡ lost_of now policy p db d
    → lost_of now policy p
        (reap now policy p db).1
        (if lost_of now policy p db d then fail_deployment now presumed_lost d else d)
      ≡ false
unfolding reap
lost_row now policy p db d h = elim (Bool-cases (lost_of now policy p db d)) [
  | inl e ↦ rw e (unfold lost_of fail_deployment in ground arith)
  | inr e ↦ rw e (
      unfold lost_of in
      ap (λ (b : Bool). in_flight_of p d && b)
        (is_lost-reap now policy db.nodes (reap now policy p db).0 "deployment presumed lost" d
          db.tasks (h ∙ e))
      ∙ e)
]

-- After the step no deployment of the project is lost.
pub none_lost :
    (now : ℕ) (policy : DeployQueuePolicy) (p : ℕ) (db : Db)
    → UniqueIds db.deployments
    → All
        (λ d. lost_of now policy p (reap now policy p db).1 d ≡ false)
        (reap now policy p db).1.deployments
unfolding reap
none_lost now policy p db u =
    All-update (λ d. lost_of now policy p (reap now policy p db).1 d ≡ false)
      (lost_of now policy p db) (fail_deployment now presumed_lost) db.deployments
      (All-weaken (λ d. has d.id (reap now policy p db).0 ≡ lost_of now policy p db d)
        (λ d.
          lost_of now policy p (reap now policy p db).1
            (if lost_of now policy p db d then fail_deployment now presumed_lost d else d)
          ≡ false)
        db.deployments (lost_row now policy p db) (has-lost now policy p db u))
