-- ===== src/Scheduler/Dispatch.antt =====
-- The tasks that internal/scheduler/scheduler.go creates.
use muvee.Prelude.{
  ℕ, String, none, some, [], ◌∷◌, ◌++◌, map, ◌==◌, ◌&&◌, ◌||◌, ltb, not, select, if◌then◌else◌,
}
use muvee.Db.{
  Db, Node, Project, ProjectType, ProjectDataset, TaskType, Deployment, text, number, uuid,
}
use muvee.Db.Rows.{is_hosted}
use muvee.Db.Tasks.{create_task}
use muvee.Db.Deployments.{set_deployment_node}
use muvee.Scheduler.{
  cannot_build_domain_only, cannot_build_compose, cannot_build_image, cannot_deploy, no_git_url,
  no_expose, no_image_ref, no_container_port, M, pure, raise, gets, modify, run, ◌>>=◌, ◌>>◌,
  Scheduler,
}
use muvee.Scheduler.Pick.{
  pick_deploy_node, pick_builder_node, resolve_fixed_deploy_node, pick_or_reuse_pinned_node,
}
use muvee.Scheduler.Payload.{
  Payload, is_empty, when, is_dependency, build_payload, compose_payload, image_payload,
  container_payload,
}

-- DispatchCleanup, DispatchRestart, DispatchPause, DispatchUnpause, DispatchEnv and
-- DispatchDescribe: a task of the kind on the node, with the domain prefix. The new id is returned.
unfoldable pub dispatch_simple : ℕ → TaskType → ℕ → ℕ → String → Db → ℕ × Db
unfolding create_task
dispatch_simple now kind node dep prefix db =
    let (t, db') = create_task now kind (some node) dep (("domain_prefix", text prefix) ∷ []) db in
    (t.id, db')

abbrev pub dispatch_cleanup : ℕ → ℕ → ℕ → String → Db → ℕ × Db
dispatch_cleanup now = dispatch_simple now TaskType.cleanup

abbrev pub dispatch_restart : ℕ → ℕ → ℕ → String → Db → ℕ × Db
dispatch_restart now = dispatch_simple now TaskType.restart

abbrev pub dispatch_pause : ℕ → ℕ → ℕ → String → Db → ℕ × Db
dispatch_pause now = dispatch_simple now TaskType.pause

abbrev pub dispatch_unpause : ℕ → ℕ → ℕ → String → Db → ℕ × Db
dispatch_unpause now = dispatch_simple now TaskType.unpause

abbrev pub dispatch_env : ℕ → ℕ → ℕ → String → Db → ℕ × Db
dispatch_env now = dispatch_simple now TaskType.env

abbrev pub dispatch_describe : ℕ → ℕ → ℕ → String → Db → ℕ × Db
dispatch_describe now = dispatch_simple now TaskType.describe

-- `tail` is 0 where the source's is below 1.
unfoldable pub dispatch_runtime_logs : ℕ → ℕ → ℕ → String → ℕ → String → Db → ℕ × Db
dispatch_runtime_logs now node dep prefix tail since db =
    let (t, db') =
      create_task now TaskType.runtime_logs (some node) dep
        (("domain_prefix", text prefix) ∷ []
          ++ when (ltb 0 tail) (("tail", number tail) ∷ [])
          ++ when (not (is_empty since)) (("since", text since) ∷ []))
        db in
    (t.id, db')

-- A project that was never deployed has nothing to clean up, and uuid.Nil is returned.
unfoldable pub dispatch_compose_cleanup : ℕ → Project → ℕ → Db → ℕ × Db
dispatch_compose_cleanup now p dep db = elim p.pinned_node_id [
  | none ↦ (0, db)
  | some node ↦
      let (t, db') =
        create_task now TaskType.cleanup (some node) dep
          (("mode", text "compose")
            ∷ ("project_id", uuid p.id)
            ∷ ("domain_prefix", text p.domain_prefix)
            ∷ ("compose_file_path", text p.compose_file_path)
            ∷ [])
          db in
      (t.id, db')
]

unfoldable pub send_build : Scheduler → ℕ → Deployment → Project → M (Unit {0})
unfolding build_payload
send_build s now dep p = do
  node ← pick_builder_node now
  payload ← gets (build_payload s dep p)
  t ← run (create_task now TaskType.build (some node.id) dep.id payload)
  pure tt

unfoldable pub dispatch_build : Scheduler → ℕ → Deployment → Project → M (Unit {0})
unfolding send_build
dispatch_build s now dep p = elim p.project_type [
  | ProjectType.domain_only ↦ raise cannot_build_domain_only
  | ProjectType.compose ↦ raise cannot_build_compose
  | ProjectType.image ↦ raise cannot_build_image
  | _ ↦ send_build s now dep p
]

-- The tail of the three deploys: the deployment takes the node, and the task is created.
unfoldable pub send_deploy : ℕ → Deployment → Node → (Db → Payload) → M (Unit {0})
send_deploy now dep node payload_of = do
  modify (set_deployment_node now dep.id node.id)
  payload ← gets payload_of
  t ← run (create_task now TaskType.deploy (some node.id) dep.id payload)
  pure tt

-- A fixed node comes first; without one the fallback chooses.
unfoldable pub fixed_or : ℕ → Project → M Node → M Node
fixed_or now p fallback = do
  fixed ← resolve_fixed_deploy_node now p
  elim fixed [ none ↦ fallback | some n ↦ pure n ]

unfoldable pub dispatch_compose_deploy : Scheduler → ℕ → Deployment → Project → M (Unit {0})
unfolding fixed_or send_deploy
dispatch_compose_deploy s now dep p =
    if not (is_hosted p.git_source) && is_empty p.git_url
    then raise no_git_url
    else if is_empty p.expose_service || (p.expose_port == 0)
    then raise no_expose
    else do
      node ← fixed_or now p (pick_or_reuse_pinned_node s now p)
      send_deploy now dep node (compose_payload s dep p)

unfoldable pub dispatch_image_deploy : Scheduler → ℕ → Deployment → Project → M (Unit {0})
unfolding fixed_or send_deploy
dispatch_image_deploy s now dep p =
    if is_empty p.image_ref
    then raise no_image_ref
    else if p.container_port == 0
    then raise no_container_port
    else do
      node ← fixed_or now p (pick_or_reuse_pinned_node s now p)
      send_deploy now dep node (image_payload dep p)

unfoldable pub dispatch_container_deploy :
    Scheduler → ℕ → Deployment → Project → String → M (Unit {0})
unfolding fixed_or send_deploy
dispatch_container_deploy s now dep p tag = do
  wanted ← gets (λ db.
      map (λ (d : ProjectDataset). d.dataset_id)
        (select (λ d. is_dependency d.mount_mode) (db.project_datasets p.id)))
  node ← fixed_or now p (pick_deploy_node s now wanted)
  send_deploy now dep node (container_payload dep p tag)

-- DispatchDeploy
unfoldable pub dispatch_deploy : Scheduler → ℕ → Deployment → Project → String → M (Unit {0})
unfolding dispatch_compose_deploy dispatch_image_deploy dispatch_container_deploy
dispatch_deploy s now dep p tag = elim p.project_type [
  | ProjectType.domain_only ↦ raise cannot_deploy
  | ProjectType.compose ↦ dispatch_compose_deploy s now dep p
  | ProjectType.image ↦ dispatch_image_deploy s now dep p
  | _ ↦ dispatch_container_deploy s now dep p tag
]
