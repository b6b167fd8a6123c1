-- ===== src/Queue/Reaped.antt =====
-- Step 1 of AdvanceDeployQueue fails what is lost and nothing else.
use muvee.Prelude.{
  Some, ℕ, ◌+◌, ◌<◌, ◌≡◌, ◌↔◌, ◌⊎◌, refl, ap, inl, inr, Bool, true, false, ◌&&◌, ◌||◌, not, Option,
  none, some, List, [], ◌∷◌, arith, any, select, update, has, ltb, Bool-cases, ==_iff, ltb→lt,
  lt→ltb,
}
use muvee.Db.{Db, Deployment, DeploymentStatus, Task, TaskStatus, TaskType, Node}
use muvee.Db.Rows.{in_flight, is_rollout, is_open, is_build, is_completed_task, is_building, at}
use muvee.Queue.{
  DeployQueuePolicy, node_alive, keeps_alive, is_lost, lost_of, fail_deployment, presumed_lost,
  open_task_of, fail_task, ids, reap,
}
use muvee.Queue.Lost.{IsSeen, IsWorking, IsLost, LostFail, IsOpenOf, TasksFail, Reaped}

any-Some :
    {A : Type 0} (q : A → Bool) (P : A → Type 0) (xs : List A)
    → ((x : A) → (q x ≡ true) ↔ P x)
    → (any q xs ≡ true) ↔ Some P xs
any-Some q P [] h = ((λ e. cc e), λ e. absurd e)
any-Some q P (x ∷ xs) h = (
  λ e. elim (Bool-cases (q x)) [
    | inl a ↦ inl ((h x).0 a)
    | inr a ↦ inr ((any-Some q P xs h).0 (ground arith))
  ],
  λ e. elim e [
    | inl a ↦ let b : q x ≡ true = (h x).1 a in ground arith
    | inr a ↦ let b : any q xs ≡ true = (any-Some q P xs h).1 a in ground arith
  ],
)

is_rollout_iff :
    (k : TaskType) → (is_rollout k ≡ true) ↔ ((k ≡ TaskType.build) ⊎ (k ≡ TaskType.deploy))
is_rollout_iff TaskType.build = ((λ e. inl refl), λ e. refl)
is_rollout_iff TaskType.deploy = ((λ e. inr refl), λ e. refl)
is_rollout_iff k = ((λ e. cc e), λ e. elim e [ inl a ↦ cc a | inr a ↦ cc a ])

is_open_iff :
    (k : TaskStatus) → (is_open k ≡ true) ↔ ((k ≡ TaskStatus.pending) ⊎ (k ≡ TaskStatus.running))
is_open_iff TaskStatus.pending = ((λ e. inl refl), λ e. refl)
is_open_iff TaskStatus.running = ((λ e. inr refl), λ e. refl)
is_open_iff k = ((λ e. cc e), λ e. elim e [ inl a ↦ cc a | inr a ↦ cc a ])

is_build_iff : (k : TaskType) → (is_build k ≡ true) ↔ (k ≡ TaskType.build)
is_build_iff TaskType.build = ((λ e. refl), λ e. refl)
is_build_iff k = ((λ e. cc e), λ e. cc e)

is_completed_iff : (k : TaskStatus) → (is_completed_task k ≡ true) ↔ (k ≡ TaskStatus.completed)
is_completed_iff TaskStatus.completed = ((λ e. refl), λ e. refl)
is_completed_iff k = ((λ e. cc e), λ e. cc e)

is_building_iff : (k : DeploymentStatus) → (is_building k ≡ true) ↔ (k ≡ DeploymentStatus.building)
is_building_iff DeploymentStatus.building = ((λ e. refl), λ e. refl)
is_building_iff k = ((λ e. cc e), λ e. cc e)

in_flight_iff :
    (k : DeploymentStatus)
    → (in_flight k ≡ true) ↔ (
        (k ≡ DeploymentStatus.pending)
        ⊎ (k ≡ DeploymentStatus.building)
        ⊎ (k ≡ DeploymentStatus.deploying))
in_flight_iff DeploymentStatus.pending = ((λ e. inl refl), λ e. refl)
in_flight_iff DeploymentStatus.building = ((λ e. inr (inl refl)), λ e. refl)
in_flight_iff DeploymentStatus.deploying = ((λ e. inr (inr refl)), λ e. refl)
in_flight_iff k =
    ((λ e. cc e), λ e. elim e [ inl a ↦ cc a | inr b ↦ elim b [ inl a ↦ cc a | inr a ↦ cc a ] ])

at_iff : (o : Option ℕ) (n : ℕ) → (at o n ≡ true) ↔ (o ≡ some n)
at_iff none n = ((λ e. cc e), λ e. cc e)
at_iff (some m) n = ((λ e. ap some ((==_iff m n).0 e)), λ e. (==_iff m n).1 (cc e))

-- Tests that stand for properties, put together.
and_iff :
    {P Q : Type 0} (a b : Bool) → ((a ≡ true) ↔ P) → ((b ≡ true) ↔ Q) → (a && b ≡ true) ↔ (P × Q)
and_iff true b h k = ((λ e. (h.0 refl, k.0 e)), λ e. k.1 e.1)
and_iff false b h k = ((λ e. cc e), λ e. h.1 e.0)

all_iff :
    {P Q R : Type 0} (a b c : Bool)
    → ((a ≡ true) ↔ P)
    → ((b ≡ true) ↔ Q)
    → ((c ≡ true) ↔ R)
    → (a && b && c ≡ true) ↔ (P × Q × R)
all_iff true b c h k l = (
  (λ e. let (q, r) = (and_iff b c k l).0 e in (h.0 refl, q, r)),
  λ e. (and_iff b c k l).1 (e.1, e.2),
)
all_iff false b c h k l = ((λ e. cc e), λ e. h.1 e.0)

or_iff :
    {P Q : Type 0} (a b : Bool) → ((a ≡ true) ↔ P) → ((b ≡ true) ↔ Q) → (a || b ≡ true) ↔ (P ⊎ Q)
or_iff true b h k = ((λ e. inl (h.0 refl)), λ e. refl)
or_iff false b h k = ((λ e. inr (k.0 e)), λ e. elim e [ inl p ↦ cc (h.1 p) | inr q ↦ k.1 q ])

not_iff : {P : Type 0} (a : Bool) → ((a ≡ true) ↔ P) → (not a ≡ true) ↔ (¬ P)
not_iff true h = ((λ e. cc e), λ n. absurd (n (h.0 refl)))
not_iff false h = ((λ e p. cc (h.1 p)), λ n. refl)

ltb_iff : (a b : ℕ) → (ltb a b ≡ true) ↔ (a < b)
ltb_iff a b = (ltb→lt a b, lt→ltb a b)

node_alive_iff :
    (now grace : ℕ) (nodes : List Node) (o : Option ℕ)
    → (node_alive now grace nodes o ≡ true) ↔ Some (IsSeen now grace o) nodes
unfolding node_alive
node_alive_iff now grace nodes o =
    any-Some _ (IsSeen now grace o) nodes
      (λ v. and_iff (at o v.id) (ltb now (v.last_seen_at + grace)) (at_iff o v.id) (ltb_iff _ _))

keeps_alive_iff :
    (now grace : ℕ) (nodes : List Node) (d : Deployment) (t : Task)
    → (keeps_alive now grace nodes d t ≡ true) ↔ IsWorking now grace nodes d t
unfolding keeps_alive
keeps_alive_iff now grace nodes d t =
    let working =
      or_iff _ _ (and_iff _ _ (is_open_iff t.status) (node_alive_iff now grace nodes t.node_id)) (
        all_iff _ _ _ (is_build_iff t.kind) (is_completed_iff t.status)
          (is_building_iff d.status)) in
    all_iff _ _ _ (==_iff t.deployment_id d.id) (is_rollout_iff t.kind) working

lost_of_iff :
    (now : ℕ) (policy : DeployQueuePolicy) (p : ℕ) (db : Db) (d : Deployment)
    → (lost_of now policy p db d ≡ true) ↔ IsLost now policy p db.nodes db.tasks d
unfolding lost_of is_lost
lost_of_iff now policy p db d =
    and_iff _ _ (and_iff _ _ (==_iff d.project_id p) (in_flight_iff d.status)) (
      or_iff _ _ (ltb_iff _ _) (
        and_iff _ _ (ltb_iff _ _) (
          not_iff _ (
            any-Some _ (IsWorking now policy.grace db.nodes d) db.tasks
              (keeps_alive_iff now policy.grace db.nodes d)))))

has_iff : (n : ℕ) (ns : List ℕ) → (has n ns ≡ true) ↔ Some (λ m. n ≡ m) ns
has_iff n [] = ((λ e. cc e), λ e. absurd e)
has_iff n (m ∷ ns) = or_iff _ _ (==_iff n m) (has_iff n ns)

open_task_of_iff : (lost : List ℕ) (t : Task) → (open_task_of lost t ≡ true) ↔ IsOpenOf lost t
unfolding open_task_of
open_task_of_iff lost t =
    all_iff _ _ _ (has_iff t.deployment_id lost) (is_rollout_iff t.kind) (is_open_iff t.status)

refuses : {P : Type 0} (a : Bool) → ((a ≡ true) ↔ P) → a ≡ false → ¬ P
refuses a h e p = cc (h.1 p, e)

rows-LostFail :
    (now : ℕ) (policy : DeployQueuePolicy) (p : ℕ) (db : Db) (ds : List Deployment)
    → LostFail now p policy db.nodes db.tasks ds
        (ids (select (lost_of now policy p db) ds))
        (update (lost_of now policy p db) (fail_deployment now presumed_lost) ds)
unfolding fail_deployment
rows-LostFail now policy p db [] = LostFail.done
rows-LostFail now policy p db (d ∷ ds) = elim (Bool-cases (lost_of now policy p db d)) [
  | inl e ↦ rw e (
      LostFail.fails d ds _ _ ((lost_of_iff now policy p db d).0 e)
        (rows-LostFail now policy p db ds))
  | inr e ↦ rw e (
      LostFail.stays d ds _ _ (refuses _ (lost_of_iff now policy p db d) e)
        (rows-LostFail now policy p db ds))
]

tasks-TasksFail :
    (lost : List ℕ) (ts : List Task)
    → TasksFail lost ts (update (open_task_of lost) (fail_task "deployment presumed lost") ts)
unfolding fail_task
tasks-TasksFail lost [] = TasksFail.done
tasks-TasksFail lost (t ∷ ts) = elim (Bool-cases (open_task_of lost t)) [
  | inl e ↦ rw e (TasksFail.fails t ts _ ((open_task_of_iff lost t).0 e) (tasks-TasksFail lost ts))
  | inr e ↦
      rw e
        (TasksFail.stays t ts _ (refuses _ (open_task_of_iff lost t) e) (tasks-TasksFail lost ts))
]

pub reap-Reaped :
    (now : ℕ) (policy : DeployQueuePolicy) (p : ℕ) (db : Db)
    → Reaped now policy p db (reap now policy p db).0 (reap now policy p db).1
unfolding reap
reap-Reaped now policy p db = record {
  rows = rows-LostFail now policy p db db.deployments;
  tasks = tasks-TasksFail _ db.tasks;
  rest = refl;
}
