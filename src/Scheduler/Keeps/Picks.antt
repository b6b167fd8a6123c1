-- ===== src/Scheduler/Keeps/Picks.antt =====
-- What the choice of a node leaves alone.
use muvee.Prelude.{
  ℕ, ◌+◌, ◌-◌, ◌&&◌, first, map, select, inl, inr, Option, none, some, List, [], ◌∷◌, ltb,
  Bool-cases,
}
use muvee.Db.{Db, Node, NodeRole, NodeDataset, Project}
use muvee.Db.Nodes.{
  get_node, list_nodes, same_role, get_lru_datasets_for_node, get_deploy_nodes, remove_node_dataset,
}
use muvee.Scheduler.{M}
use muvee.Scheduler.Dispatch.{fixed_or}
use muvee.Scheduler.{
  ok, raise, pure, no_active_builder_nodes, Error, NodeScore, Scheduler, fixed_node_gone,
  fixed_node_offline, pinned_node_gone, pinned_node_offline,
}
use muvee.Scheduler.Pick.{
  score_node, evict, make_room, take_best, score_active, pick_among, pick_deploy_node,
  pick_builder_node, reachable, bound_node, resolve_fixed_deploy_node, pick_or_reuse_pinned_node,
  is_offline, is_active,
}
use muvee.Scheduler.Keeps.{Relation, Keeps, IsKeptByChoice, bind-Keeps, option-keeps, if-Keeps}

module _ (R : Relation) (K : IsKeptByChoice R) where
  evict-keeps : (rs : List NodeDataset) (db : Db) → R.rel db (evict rs db)
  unfolding evict
  evict-keeps [] db = R.stay db
  evict-keeps (r ∷ rs) db =
      R.step db (remove_node_dataset r.node_id r.dataset_id db) _
        (K.drop_dataset r.node_id r.dataset_id db) (evict-keeps rs _)

  make_room-keeps : (best : NodeScore) (db : Db) → R.rel db (make_room best db)
  unfolding make_room
  make_room-keeps best db =
      elim (Bool-cases
        (ltb best.node.max_storage_bytes (best.missing_bytes + best.node.used_storage_bytes))) [
          | inl e ↦ rw e (
              evict-keeps
                (get_lru_datasets_for_node best.node.id
                  (best.missing_bytes + best.node.used_storage_bytes - best.node.max_storage_bytes)
                  db)
                db)
          | inr e ↦ rw e (R.stay db)
        ]

  take_best-Keeps : (xs : List NodeScore) → Keeps R (take_best xs)
  unfolding take_best
  take_best-Keeps [] = R.stay
  take_best-Keeps (x ∷ xs) = make_room-keeps x

  score_active-Keeps :
      (s : Scheduler) (wanted : List ℕ) (ns : List Node) → Keeps R (score_active s wanted ns)
  unfolding score_active
  score_active-Keeps s wanted [] db = R.stay db
  score_active-Keeps s wanted (n ∷ ns) db =
      take_best-Keeps (s.rank (map (score_node db wanted) (n ∷ ns))) db

  pick_among-Keeps :
      (s : Scheduler) (now : ℕ) (wanted : List ℕ) (ns : List Node)
      → Keeps R (pick_among s now wanted ns)
  unfolding pick_among
  pick_among-Keeps s now wanted [] db = R.stay db
  pick_among-Keeps s now wanted (n ∷ ns) db =
      score_active-Keeps s wanted (select (is_active now) (n ∷ ns)) db

  pub pick_deploy_node-Keeps :
      (s : Scheduler) (now : ℕ) (wanted : List ℕ) → Keeps R (pick_deploy_node s now wanted)
  unfolding pick_deploy_node
  pick_deploy_node-Keeps s now wanted db = pick_among-Keeps s now wanted (get_deploy_nodes db) db

  pub pick_builder_node-Keeps : (now : ℕ) → Keeps R (pick_builder_node now)
  unfolding pick_builder_node
  pick_builder_node-Keeps now db =
      option-keeps R
        (first (λ n. same_role n.role NodeRole.builder && is_active now n) (list_nodes db))
        (raise no_active_builder_nodes) pure db R.stay (λ n. R.stay)

  reachable-Keeps :
      (gone offline : Error) (now : ℕ) (o : Option Node) → Keeps R (reachable gone offline now o)
  unfolding reachable
  reachable-Keeps gone offline now none = R.stay
  reachable-Keeps gone offline now (some n) =
      if-Keeps R (is_offline now n) (raise offline) (pure n) R.stay R.stay

  bound_node-Keeps : (gone offline : Error) (now id : ℕ) → Keeps R (bound_node gone offline now id)
  unfolding bound_node
  bound_node-Keeps gone offline now id db = reachable-Keeps gone offline now (get_node id db) db

  pub resolve-Keeps :
      (now : ℕ) (p : Project) (f : Option ℕ)
      → Keeps R (resolve_fixed_deploy_node now (record p { fixed_node_id = f }))
  unfolding resolve_fixed_deploy_node
  resolve-Keeps now p none = R.stay
  resolve-Keeps now p (some id) =
      bind-Keeps R _ _ (bound_node-Keeps fixed_node_gone fixed_node_offline now id) (λ n. R.stay)

  pub pinned-Keeps :
      (s : Scheduler) (now : ℕ) (p : Project) (f : Option ℕ)
      → Keeps R (pick_or_reuse_pinned_node s now (record p { pinned_node_id = f }))
  unfolding pick_or_reuse_pinned_node
  pinned-Keeps s now p none =
      bind-Keeps R _ _ (pick_deploy_node-Keeps s now []) (λ n db. K.pin p.id n.id db)
  pinned-Keeps s now p (some id) = bound_node-Keeps pinned_node_gone pinned_node_offline now id

  pub fixed_or-Keeps :
      (now : ℕ) (p : Project) (fallback : M Node)
      → Keeps R fallback
      → Keeps R (fixed_or now p fallback)
  unfolding fixed_or
  fixed_or-Keeps now p fallback h =
      bind-Keeps R _ _ (resolve-Keeps now p p.fixed_node_id) (λ f. fixed f)
    where
      fixed :
          (f : Option Node)
          → Keeps R (let m : M Node = elim f [ none ↦ fallback | some n ↦ λ db. (ok n, db) ] in m)
      fixed none = h
      fixed (some n) = R.stay
