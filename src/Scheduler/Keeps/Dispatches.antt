-- ===== src/Scheduler/Keeps/Dispatches.antt =====
-- What the dispatch of a task leaves alone.
use muvee.Prelude.{map, select, ℕ, String, List, ◌==◌, ◌||◌, ◌&&◌, not, if◌then◌else◌}
use muvee.Db.{Db, Node, ProjectDataset, Deployment, Project, ProjectType}
use muvee.Db.Rows.{is_hosted}
use muvee.Db.Projects.{get_project}
use muvee.Scheduler.{project_not_found, project_paused, M, Scheduler, raise, ◌>>=◌}
use muvee.Scheduler.Pick.{pick_deploy_node, pick_or_reuse_pinned_node}
use muvee.Scheduler.Dispatch.{
  send_deploy, fixed_or, send_build, dispatch_build, dispatch_compose_deploy, dispatch_image_deploy,
  dispatch_container_deploy, dispatch_deploy,
}
use muvee.Scheduler.Payload.{
  Payload, compose_payload, image_payload, container_payload, is_dependency, is_empty,
}
use muvee.Scheduler.Trigger.{first_task, dispatch_chain}
use muvee.Scheduler.Keeps.{Relation, Keeps, IsKept, bind-Keeps, option-keeps, if-Keeps}
use muvee.Scheduler.Keeps.Picks.{
  pick_deploy_node-Keeps, fixed_or-Keeps, pick_builder_node-Keeps, pinned-Keeps,
}

module _ (R : Relation) (K : IsKept R) where
  send_deploy-Keeps :
      (now : ℕ) (dep : Deployment) (node : Node) (payload_of : Db → Payload)
      → Keeps R (send_deploy now dep node payload_of)
  unfolding send_deploy
  send_deploy-Keeps now dep node payload_of db =
      R.step db _ _ (K.give now dep.id node.id db) (K.create now _ _ _ _ _)

  -- The common part of the three deploys.
  place-Keeps :
      (now : ℕ) (dep : Deployment) (p : Project) (fallback : M Node) (payload_of : Db → Payload)
      → Keeps R fallback
      → Keeps R (fixed_or now p fallback >>= λ node. send_deploy now dep node payload_of)
  place-Keeps now dep p fallback payload_of h =
      bind-Keeps R (fixed_or now p fallback) (λ node. send_deploy now dep node payload_of)
        (fixed_or-Keeps R K.choice now p fallback h) (λ n. send_deploy-Keeps now dep n payload_of)

  send_build-Keeps :
      (s : Scheduler) (now : ℕ) (dep : Deployment) (p : Project) → Keeps R (send_build s now dep p)
  unfolding send_build
  send_build-Keeps s now dep p =
      bind-Keeps R _ _ (pick_builder_node-Keeps R K.choice now) (λ n db. K.create now _ _ _ _ db)

  build_of-Keeps :
      (s : Scheduler) (now : ℕ) (dep : Deployment) (p : Project) (k : ProjectType)
      → Keeps R (dispatch_build s now dep (record p { project_type = k }))
  unfolding dispatch_build
  build_of-Keeps s now dep p ProjectType.domain_only = R.stay
  build_of-Keeps s now dep p ProjectType.compose = R.stay
  build_of-Keeps s now dep p ProjectType.image = R.stay
  build_of-Keeps s now dep p ProjectType.deployment =
      send_build-Keeps s now dep (record p { project_type = ProjectType.deployment })
  build_of-Keeps s now dep p ProjectType.build =
      send_build-Keeps s now dep (record p { project_type = ProjectType.build })

  dispatch_build-Keeps :
      (s : Scheduler) (now : ℕ) (dep : Deployment) (p : Project)
      → Keeps R (dispatch_build s now dep p)
  dispatch_build-Keeps s now dep p = build_of-Keeps s now dep p p.project_type

  dispatch_compose_deploy-Keeps :
      (s : Scheduler) (now : ℕ) (dep : Deployment) (p : Project)
      → Keeps R (dispatch_compose_deploy s now dep p)
  unfolding dispatch_compose_deploy
  dispatch_compose_deploy-Keeps s now dep p =
      if-Keeps R (not (is_hosted p.git_source) && is_empty p.git_url) _ _ R.stay (
        if-Keeps R (is_empty p.expose_service || (p.expose_port == 0)) _ _ R.stay (
          place-Keeps now dep p (pick_or_reuse_pinned_node s now p) (compose_payload s dep p)
            (pinned-Keeps R K.choice s now p p.pinned_node_id)))

  dispatch_image_deploy-Keeps :
      (s : Scheduler) (now : ℕ) (dep : Deployment) (p : Project)
      → Keeps R (dispatch_image_deploy s now dep p)
  unfolding dispatch_image_deploy
  dispatch_image_deploy-Keeps s now dep p = if-Keeps R (is_empty p.image_ref) _ _ R.stay (
      if-Keeps R (p.container_port == 0) _ _ R.stay (
        place-Keeps now dep p (pick_or_reuse_pinned_node s now p) (image_payload dep p)
          (pinned-Keeps R K.choice s now p p.pinned_node_id)))

  dispatch_container_deploy-Keeps :
      (s : Scheduler) (now : ℕ) (dep : Deployment) (p : Project) (tag : String)
      → Keeps R (dispatch_container_deploy s now dep p tag)
  unfolding dispatch_container_deploy
  dispatch_container_deploy-Keeps s now dep p tag db =
      let wanted : List ℕ =
        map (λ (d : ProjectDataset). d.dataset_id)
          (select (λ d. is_dependency d.mount_mode) (db.project_datasets p.id)) in
      place-Keeps now dep p (pick_deploy_node s now wanted) (container_payload dep p tag)
        (pick_deploy_node-Keeps R K.choice s now wanted) db

  deploy_of-Keeps :
      (s : Scheduler) (now : ℕ) (dep : Deployment) (p : Project) (tag : String) (k : ProjectType)
      → Keeps R (dispatch_deploy s now dep (record p { project_type = k }) tag)
  unfolding dispatch_deploy
  deploy_of-Keeps s now dep p tag ProjectType.domain_only = R.stay
  deploy_of-Keeps s now dep p tag ProjectType.compose =
      dispatch_compose_deploy-Keeps s now dep (record p { project_type = ProjectType.compose })
  deploy_of-Keeps s now dep p tag ProjectType.image =
      dispatch_image_deploy-Keeps s now dep (record p { project_type = ProjectType.image })
  deploy_of-Keeps s now dep p tag ProjectType.deployment =
      dispatch_container_deploy-Keeps s now dep (record p { project_type = ProjectType.deployment })
        tag
  deploy_of-Keeps s now dep p tag ProjectType.build =
      dispatch_container_deploy-Keeps s now dep (record p { project_type = ProjectType.build }) tag

  pub dispatch_deploy-Keeps :
      (s : Scheduler) (now : ℕ) (dep : Deployment) (p : Project) (tag : String)
      → Keeps R (dispatch_deploy s now dep p tag)
  dispatch_deploy-Keeps s now dep p tag = deploy_of-Keeps s now dep p tag p.project_type

  first_task-Keeps :
      (s : Scheduler) (now : ℕ) (dep : Deployment) (p : Project) (k : ProjectType)
      → Keeps R (first_task s now dep (record p { project_type = k }))
  unfolding first_task
  first_task-Keeps s now dep p ProjectType.domain_only =
      dispatch_build-Keeps s now dep (record p { project_type = ProjectType.domain_only })
  first_task-Keeps s now dep p ProjectType.compose =
      dispatch_deploy-Keeps s now dep (record p { project_type = ProjectType.compose }) ""
  first_task-Keeps s now dep p ProjectType.image =
      dispatch_deploy-Keeps s now dep (record p { project_type = ProjectType.image }) ""
  first_task-Keeps s now dep p ProjectType.deployment =
      dispatch_build-Keeps s now dep (record p { project_type = ProjectType.deployment })
  first_task-Keeps s now dep p ProjectType.build =
      dispatch_build-Keeps s now dep (record p { project_type = ProjectType.build })

  pub dispatch_chain-Keeps :
      (s : Scheduler) (now : ℕ) (dep : Deployment) → Keeps R (dispatch_chain s now dep)
  unfolding dispatch_chain
  dispatch_chain-Keeps s now dep db =
      option-keeps R (get_project dep.project_id db) (raise project_not_found)
        (λ p. if p.paused then raise project_paused else first_task s now dep p) db R.stay
        (λ p. if-Keeps R p.paused _ _ R.stay (first_task-Keeps s now dep p p.project_type))
