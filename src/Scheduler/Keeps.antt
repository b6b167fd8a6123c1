-- ===== src/Scheduler/Keeps.antt =====
-- What the functions of the scheduler leave alone: a relation between the database before and
-- after that every step of a computation keeps, the computation keeps. It is used for the
-- deployments' ids, projects and states, and for the tasks that agents are running.
pub mod Picks
pub mod Dispatches
use muvee.Prelude.{ℕ, String, Bool, true, false, Option, none, some, List, if◌then◌else◌}
use muvee.Db.{Db, TaskType, Value}
use muvee.Db.Deployments.{set_deployment_node}
use muvee.Db.Nodes.{remove_node_dataset}
use muvee.Db.Projects.{set_project_pinned_node}
use muvee.Db.Tasks.{create_task}
use muvee.Scheduler.{Result, ok, err, M, after, ◌>>=◌}

-- A reflexive and transitive relation between databases.
pub record Relation : Type 1 where
  pub rel : Db → Db → Type 0
  pub stay : (db : Db) → rel db db
  pub step : (a b c : Db) → rel a b → rel b c → rel a c

module _ (R : Relation) where
  abbrev pub Keeps : {A : Type 0} → M A → Type 0
  Keeps m = (db : Db) → R.rel db (m db).1

  after-keeps :
      {A B : Type 0} (f : A → M B) (r : Result A) (db db' : Db)
      → R.rel db db'
      → ((a : A) → Keeps (f a))
      → R.rel db (after r f db').1
  after-keeps f (ok a) db db' h k = R.step db db' _ h (k a db')
  after-keeps f (err e) db db' h k = h

  pub bind-Keeps :
      {A B : Type 0} (m : M A) (f : A → M B) → Keeps m → ((a : A) → Keeps (f a)) → Keeps (m >>= f)
  bind-Keeps m f h k db = after-keeps f (m db).0 db (m db).1 (h db) k

  pub if-Keeps :
      {A : Type 0} (b : Bool) (m n : M A) → Keeps m → Keeps n → Keeps (if b then m else n)
  if-Keeps true m n h k = h
  if-Keeps false m n h k = k

  pub option-keeps :
      {A B : Type 0} (o : Option A) (m : M B) (f : A → M B) (db : Db)
      → Keeps m
      → ((a : A) → Keeps (f a))
      → R.rel db (let out : Result B × Db = elim o [ none ↦ m db | some a ↦ f a db ] in out).1
  option-keeps none m f db h k = h db
  option-keeps (some a) m f db h k = k a db

  -- A relation that the choice of a node keeps: it pins projects and evicts datasets.
  pub record IsKeptByChoice : Type 0 where
    pub pin : (p node : ℕ) (db : Db) → R.rel db (set_project_pinned_node p node db)
    pub drop_dataset : (node ds : ℕ) (db : Db) → R.rel db (remove_node_dataset node ds db)

  -- A relation that all the scheduler's writes keep: they also create tasks, and give nodes to
  -- deployments.
  pub record IsKept : Type 0 where
    pub choice : IsKeptByChoice
    pub create :
        (now : ℕ) (kind : TaskType) (node : Option ℕ) (dep : ℕ) (payload : List (String × Value))
        (db : Db)
        → R.rel db (create_task now kind node dep payload db).1
    pub give : (now dep node : ℕ) (db : Db) → R.rel db (set_deployment_node now dep node db)
