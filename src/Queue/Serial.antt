-- ===== src/Queue/Serial.antt =====
-- The invariant of the deployments: ids are unique, and of each project at most one is in flight.
use muvee.Prelude.{
  ℕ, ◌≤◌, ◌≡◌, refl, sym, inl, inr, String, Bool, true, false, List, [], ◌∷◌, map, arith, ◌==◌,
  ◌&&◌, select, count, update, has, Bool-cases, ==_iff, count-update-le,
}
use muvee.Db.{Db, Deployment, line}
use muvee.Db.Rows.{in_flight, in_flight_of, has_id}
use muvee.Db.Deployments.{with_deployments}
use muvee.Queue.{
  DeployQueuePolicy, DeployQueueAdvance, reap, start, supersede, advance_deploy_queue, orphan_of,
  fail_deployment, fail_orphaned_tasks_for_node,
}
use muvee.Queue.Counts.{
  UniqueIds, in_flight_count, UniqueIds-update, UniqueIds-reap, in_flight-reap,
}
use muvee.Queue.Advance.{settle, settle-id}
use muvee.Queue.Outcome.{Outcome, held, idle, started, advance-Outcome}
use muvee.Queue.Stable.{started_in_flight}

pub record IsSerial (db : Db) : Type 0 where
  pub unique : UniqueIds db.deployments
  pub one : (p : ℕ) → in_flight_count p db ≤ 1

-- Rows of another project are not touched.
settled_others :
    (now p q n : ℕ) (ds : List Deployment)
    → (p == q) ≡ false
    → count (in_flight_of q) (map (settle now p n) ds) ≡ count (in_flight_of q) ds
unfolding settle start supersede
settled_others now p q n [] h = refl
settled_others now p q n (d ∷ ds) h = ground (arith, settled_others now p q n ds h)

settled_ids :
    (now p n m : ℕ) (ds : List Deployment)
    → count (has_id m) (map (settle now p n) ds) ≡ count (has_id m) ds
settled_ids now p n m [] = refl
settled_ids now p n m (d ∷ ds) = ground (arith, settle-id now p n d, settled_ids now p n m ds)

reap-IsSerial :
    (now : ℕ) (policy : DeployQueuePolicy) (p : ℕ) (db : Db)
    → IsSerial db
    → IsSerial (reap now policy p db).1
reap-IsSerial now policy p db s = record {
  unique = UniqueIds-reap now policy p db s.unique;
  one = λ q. omega (arith, s.one q, in_flight-reap now policy p q db);
}

Outcome-IsSerial :
    (now p : ℕ) (db : Db) (r : DeployQueueAdvance) (db' : Db)
    → IsSerial db
    → Outcome now p db r db'
    → IsSerial db'
Outcome-IsSerial now p db r db' s (held _ e _ _) = rw e s
Outcome-IsSerial now p db r db' s (idle _ _ e _ _) = rw e s
Outcome-IsSerial now p db r db' s (started d others z w _ _ e) = rw e (record {
  unique = λ n. omega (arith, s.unique n, settled_ids now p d.id n db.deployments);
  one = λ q. elim (Bool-cases (p == q)) [
    | inl same ↦
        rw (sym ((==_iff p q).0 same))
          (omega (arith, started_in_flight now p db d others s.unique z w))
    | inr other ↦ omega (arith, s.one q, settled_others now p q d.id db.deployments other)
  ];
})

-- AdvanceDeployQueue keeps the invariant: ids stay unique, and of no project is more than one
-- deployment in flight.
pub advance-IsSerial :
    (now : ℕ) (policy : DeployQueuePolicy) (p : ℕ) (db : Db)
    → IsSerial db
    → IsSerial (advance_deploy_queue now policy p db).1
advance-IsSerial now policy p db s =
    Outcome-IsSerial now p (reap now policy p db).1 _ _ (reap-IsSerial now policy p db s)
      (advance-Outcome now policy p db s.unique)

-- An update that keeps the ids and takes rows out of flight, or leaves them.
pub update-IsSerial :
    (q : Deployment → Bool) (f : Deployment → Deployment) (db : Db)
    → ((d : Deployment) → (f d).id ≡ d.id)
    → ((p : ℕ) (d : Deployment) → in_flight_of p (f d) ≡ true → in_flight_of p d ≡ true)
    → IsSerial db
    → IsSerial (with_deployments db (update q f db.deployments))
update-IsSerial q f db i h s = record {
  unique = UniqueIds-update q f db.deployments i s.unique;
  one = λ p. omega (arith, s.one p, count-update-le (in_flight_of p) q f db.deployments (h p));
}

pub orphaned-IsSerial :
    (now node : ℕ) (reason : String) (db : Db)
    → IsSerial db
    → IsSerial (fail_orphaned_tasks_for_node now node reason db).1
unfolding fail_orphaned_tasks_for_node
orphaned-IsSerial now node reason db s =
    let deps = map (λ t. t.deployment_id) (select (orphan_of node) db.tasks) in
    let r =
      update-IsSerial (λ d. has d.id deps && in_flight d.status) (fail_deployment now (line reason))
        db (λ d. unfold fail_deployment in refl) (λ p d h. unfold fail_deployment in ground arith)
        s in
    record { unique = r.unique; one = r.one }
