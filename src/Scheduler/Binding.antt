-- ===== src/Scheduler/Binding.antt =====
-- A project that is bound to a node: its fixed node, or the node that its first deploy pinned.
use muvee.Prelude.{ℕ, ◌≡◌, refl, inl, inr, false, Option, none, some, Bool-cases}
use muvee.Db.{Db, Node, Project}
use muvee.Db.Nodes.{get_node}
use muvee.Scheduler.{
  Error, Result, ok, err, M, pure, after, ◌>>=◌, Scheduler, fixed_node_gone, fixed_node_offline,
  pinned_node_gone, pinned_node_offline,
}
use muvee.Scheduler.Pick.{
  is_offline, reachable, bound_node, resolve_fixed_deploy_node, pick_or_reuse_pinned_node,
}
use muvee.Scheduler.Dispatch.{fixed_or}

-- A result that is the node of this id, which has been seen in the last two minutes; or an error.
abbrev pub Bound : ℕ → ℕ → Db → Result Node → Type 0
Bound now id db (ok n) = (get_node id db ≡ some n) × (is_offline now n ≡ false)
Bound now id db (err e) = Unit

reachable-Bound :
    (gone offline : Error) (now id : ℕ) (db : Db) (o : Option Node)
    → get_node id db ≡ o
    → ((reachable gone offline now o db).1 ≡ db)
      × Bound now id db (reachable gone offline now o db).0
unfolding reachable
reachable-Bound gone offline now id db none e = (refl, tt)
reachable-Bound gone offline now id db (some n) e = elim (Bool-cases (is_offline now n)) [
  | inl h ↦ rw h (refl, tt)
  | inr h ↦ rw h (refl, (e, h))
]

bound_node-Bound :
    (gone offline : Error) (now id : ℕ) (db : Db)
    → ((bound_node gone offline now id db).1 ≡ db)
      × Bound now id db (bound_node gone offline now id db).0
unfolding bound_node
bound_node-Bound gone offline now id db =
    reachable-Bound gone offline now id db (get_node id db) refl

-- A project that has been pinned to a node is deployed there or not at all: the choice returns
-- that node, seen in the last two minutes, or fails, and it changes nothing in the database.
pub pinned-stays :
    (s : Scheduler) (now id : ℕ) (p : Project) (db : Db)
    → p.pinned_node_id ≡ some id
    → ((pick_or_reuse_pinned_node s now p db).1 ≡ db)
      × Bound now id db (pick_or_reuse_pinned_node s now p db).0
unfolding pick_or_reuse_pinned_node
pinned-stays s now id p db e =
    rw e (bound_node-Bound pinned_node_gone pinned_node_offline now id db)

-- What follows a computation that changes nothing and returns the node of this id, or fails.
after-Bound :
    (now id : ℕ) (db : Db) (m : M Node) (fallback : M Node)
    → ((m db).1 ≡ db) × Bound now id db (m db).0
    → let out =
        ((m >>= λ n. pure (some n)) >>= λ (f : Option Node). elim f [
          | none ↦ fallback
          | some n ↦ pure n
        ])
          db in
      (out.1 ≡ db) × Bound now id db out.0
after-Bound now id db m fallback h = go (m db).0 (m db).1 h
  where
    go :
        (r : Result Node) (db' : Db)
        → (db' ≡ db) × Bound now id db r
        → let out =
            after
              (after r (λ n. pure (some n)) db').0
              (λ (f : Option Node). elim f [ none ↦ fallback | some n ↦ pure n ])
              (after r (λ n. pure (some n)) db').1 in
          (out.1 ≡ db) × Bound now id db out.0
    go (ok n) db' h = h
    go (err e) db' h = h

-- A fixed node comes first, whatever the fallback is: the choice returns that node, seen in the
-- last two minutes, or fails, and it changes nothing in the database.
pub fixed-first :
    (now id : ℕ) (p : Project) (fallback : M Node) (db : Db)
    → p.fixed_node_id ≡ some id
    → ((fixed_or now p fallback db).1 ≡ db) × Bound now id db (fixed_or now p fallback db).0
unfolding fixed_or resolve_fixed_deploy_node
fixed-first now id p fallback db e = rw e (
    after-Bound now id db (bound_node fixed_node_gone fixed_node_offline now id) fallback
      (bound_node-Bound fixed_node_gone fixed_node_offline now id db))
