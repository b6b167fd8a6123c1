-- ===== src/Watch/Once.antt =====
-- A commit or a digest that was deployed is not deployed again.
use mathlib.Core.Option
use muvee.Prelude.{
  ℕ, ◌≡◌, refl, sym, ap, ◌∙◌, true, false, Option, none, some, String, str_eq, if◌then◌else◌,
  Bool-cases, inl, inr, arith, ◌==◌,
}
use mathlib.Core.Path.{subst}
use muvee.Prelude.Keys.{first-update, first-holds}
use muvee.Datasets.Replay.{str_eq_self}
use muvee.Db.{Db, Deployment, Project}
use muvee.Db.Projects.{get_project, update_project, set_project_last_tracked_commit_sha}
use muvee.Scheduler.{Result, ok, err, rewrap, after, modify, Scheduler}
use muvee.Scheduler.Trigger.{trigger_deployment}
use muvee.Watch.{branch_of, deploy_commit, compare_head, check_and_trigger_external}

some_same : {A : Type 0} {a b : A} → some a ≡ some b → a ≡ b
some_same h = cc h

ok_db :
    {A : Type 0} (a b : A) (db db' : Db) → ◌≡◌ {A = Result A × Db} (ok a, db) (ok b, db') → db ≡ db'
ok_db a b db db' h = cc h

-- The row that is found after an update of it.
updated :
    (n : ℕ) (f : Project → Project) (db : Db) (o : Option Project) (p : Project)
    → ((q : Project) → (f q).id ≡ q.id)
    → get_project n db ≡ o
    → get_project n (update_project n f db) ≡ some p
    → (q : Project) × (p ≡ f q)
unfolding get_project
updated n f db none p k g h = cc (
  h,
  first-update (λ x. x.id == n) (λ x. x.id == n) f db.projects (λ x. ap (λ m. m == n) (k x))
      ∙ ap (Option.map (λ x. if x.id == n then f x else x)) g,
)
updated n f db (some q) p k g h =
    let found : (q.id == n) ≡ true = first-holds (λ x. x.id == n) db.projects q g in
    let row : get_project n (update_project n f db) ≡ some (f q) =
      first-update (λ x. x.id == n) (λ x. x.id == n) f db.projects (λ x. ap (λ m. m == n) (k x))
      ∙ ap (Option.map (λ x. if x.id == n then f x else x)) g
      ∙ rw found refl in
    (q, some_same (sym h ∙ row))

module _ (s : Scheduler) (remote : Project → String → Option String) where
  -- A project whose remote branch is at the commit that was deployed.
  settled :
      (now : ℕ) (p : Project) (sha : String) (db : Db)
      → remote p (branch_of p) ≡ some sha
      → str_eq sha "" ≡ false
      → str_eq sha p.last_tracked_commit_sha ≡ true
      → check_and_trigger_external s remote now p db ≡ (ok tt, db)
  unfolding check_and_trigger_external compare_head
  settled now p sha db r n e = elim (Bool-cases (str_eq p.git_url "")) [
    | inl u ↦ rw u refl
    | inr u ↦ rw (u, r, n, e) refl
  ]

  -- A run that records the row `f q` at its end.
  record_run :
      (f : Project → Project) (n : ℕ) (r : Result Deployment) (db1 db' : Db) (what : String)
      → after (rewrap what r) (λ _. modify (update_project n f)) db1 ≡ (ok tt, db')
      → db' ≡ update_project n f db1
  record_run f n (ok d) db1 db' what h = sym (ok_db tt tt (update_project n f db1) db' h)
  record_run f n (err e) db1 db' what h = cc h

  deploy_commit-records :
      (now : ℕ) (p p' : Project) (sha : String) (db db' : Db)
      → deploy_commit s remote now p sha db ≡ (ok tt, db')
      → get_project p.id db' ≡ some p'
      → p'.last_tracked_commit_sha ≡ sha
  unfolding deploy_commit set_project_last_tracked_commit_sha
  deploy_commit-records now p p' sha db db' h g =
      let f : Project → Project = λ q. record q { last_tracked_commit_sha = sha } in
      let (r, db1) = trigger_deployment s now p.id db in
      let same : db' ≡ update_project p.id f db1 = record_run f p.id r db1 db' "trigger: " h in
      let (q, e) =
        updated p.id f db1 (get_project p.id db1) p' (λ q. refl) refl
          (ap (get_project p.id) (sym same) ∙ g) in
      ap (λ x. x.last_tracked_commit_sha) e

  -- The commit of a check that went well is the one that the row then tells of, or it left the row.
  compare_head-settles :
      (now : ℕ) (p p' : Project) (o : Option String) (db db' : Db)
      → get_project p.id db ≡ some p
      → compare_head s remote now p o db ≡ (ok tt, db')
      → get_project p.id db' ≡ some p'
      → (sha : String) × (o ≡ some sha)
        × (str_eq sha "" ≡ false)
        × (str_eq sha p'.last_tracked_commit_sha ≡ true)
  unfolding compare_head
  compare_head-settles now p p' none db db' g h k = cc h
  compare_head-settles now p p' (some sha) db db' g h k = elim (Bool-cases (str_eq sha "")) [
    | inl e ↦ ground arith
    | inr e ↦ elim (Bool-cases (str_eq sha p.last_tracked_commit_sha)) [
      | inl t ↦ (
        sha,
        refl,
        e,
        subst (λ x. str_eq sha x.last_tracked_commit_sha ≡ true)
            (some_same
              (sym g ∙ ap (get_project p.id) (ok_db tt tt db db' (sym (rw (e, t) refl) ∙ h)) ∙ k))
            t,
      )
      | inr t ↦ (
        sha,
        refl,
        e,
        subst (λ x. str_eq sha x ≡ true)
            (sym (deploy_commit-records now p p' sha db db' (sym (rw (e, t) refl) ∙ h) k))
            (str_eq_self sha),
      )
    ]
  ]

  -- Where a check went well, a second check of the project, as it then stands, does nothing while
  -- the remote gives the same answer. The first check is of the row that the table has.
  pub check-once :
      (now later : ℕ) (p p' : Project) (db db' : Db)
      → get_project p.id db ≡ some p
      → check_and_trigger_external s remote now p db ≡ (ok tt, db')
      → get_project p.id db' ≡ some p'
      → remote p' (branch_of p') ≡ remote p (branch_of p)
      → check_and_trigger_external s remote later p' db' ≡ (ok tt, db')
  unfolding check_and_trigger_external
  check-once now later p p' db db' g h k r = elim (Bool-cases (str_eq p.git_url "")) [
    | inl u ↦
        let same : p ≡ p' =
          some_same
            (sym g ∙ ap (get_project p.id) (ok_db tt tt db db' (sym (rw u refl) ∙ h)) ∙ k) in
        rw (sym (ap (λ x. x.git_url) same), u) refl
    | inr u ↦
        let (sha, found, some_sha, same) =
          compare_head-settles now p p' (remote p (branch_of p)) db db' g (sym (rw u refl) ∙ h) k in
        settled later p' sha db' (r ∙ found) some_sha same
  ]
