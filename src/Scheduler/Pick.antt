-- ===== src/Scheduler/Pick.antt =====
-- The choice of a node in internal/scheduler/scheduler.go.
use muvee.Prelude.{
  ℕ, ◌+◌, ◌-◌, ◌*◌, Bool, Option, none, some, List, [], ◌∷◌, map, ◌&&◌, ltb, has, select, first,
  if◌then◌else◌,
}
use muvee.Db.{Db, Node, NodeRole, NodeDataset, Project, minute}
use muvee.Db.Nodes.{
  same_role, get_node, get_deploy_nodes, list_nodes, get_node_datasets, get_lru_datasets_for_node,
  remove_node_dataset,
}
use muvee.Db.Projects.{set_project_pinned_node}
use muvee.Scheduler.{
  Error, no_deploy_nodes, no_active_deploy_nodes, no_scorable_nodes, no_active_builder_nodes,
  fixed_node_gone, fixed_node_offline, pinned_node_gone, pinned_node_offline, M, pure, raise, gets,
  modify, ◌>>=◌, ◌>>◌, NodeScore, Scheduler,
}

-- time.Since(n.LastSeenAt) < 2*time.Minute
abbrev pub is_active : ℕ → Node → Bool
is_active now n = ltb now (n.last_seen_at + 2 * minute)

-- time.Since(n.LastSeenAt) > 2*time.Minute
abbrev pub is_offline : ℕ → Node → Bool
is_offline now n = ltb (n.last_seen_at + 2 * minute) now

-- datasetSizes[id], which is 0 for a dataset that could not be loaded.
pub size_of : Db → ℕ → ℕ
size_of db id = elim (db.dataset_size id) [ none ↦ 0 | some n ↦ n ]

pub count_hits : List ℕ → List ℕ → ℕ
count_hits cached [] = 0
count_hits cached (id ∷ ids) =
    let rest = count_hits cached ids in if has id cached then rest + 1 else rest

pub count_missing : Db → List ℕ → List ℕ → ℕ
count_missing db cached [] = 0
count_missing db cached (id ∷ ids) =
    let rest = count_missing db cached ids in if has id cached then rest else rest + size_of db id

unfoldable pub score_node : Db → List ℕ → Node → NodeScore
unfolding count_hits count_missing size_of
score_node db wanted n =
    let cached = map (λ (r : NodeDataset). r.dataset_id) (get_node_datasets n.id db) in
    record {
      node = n;
      cache_hits = count_hits cached wanted;
      missing_bytes = count_missing db cached wanted;
    }

unfoldable pub evict : List NodeDataset → Db → Db
evict [] db = db
evict (r ∷ rs) db = evict rs (remove_node_dataset r.node_id r.dataset_id db)

-- missingBytes > MaxStorageBytes - UsedStorageBytes, and by how much: the difference of int64 may
-- be negative, so the subtrahend is moved over.
unfoldable pub make_room : NodeScore → Db → Db
unfolding evict
make_room best db =
    let wanted = best.missing_bytes + best.node.used_storage_bytes in
    if ltb best.node.max_storage_bytes wanted
    then evict (get_lru_datasets_for_node best.node.id (wanted - best.node.max_storage_bytes) db) db
    else db

unfoldable pub take_best : List NodeScore → M Node
unfolding make_room
take_best [] = raise no_scorable_nodes
take_best (best ∷ _) = do modify (make_room best); pure best.node

unfoldable pub score_active : Scheduler → List ℕ → List Node → M Node
unfolding score_node take_best
score_active s wanted [] = raise no_active_deploy_nodes
score_active s wanted (n ∷ ns) = do
  scores ← gets (λ db. map (score_node db wanted) (n ∷ ns))
  take_best (s.rank scores)

unfoldable pub pick_among : Scheduler → ℕ → List ℕ → List Node → M Node
unfolding score_active
pick_among s now wanted [] = raise no_deploy_nodes
pick_among s now wanted (n ∷ ns) = score_active s wanted (select (is_active now) (n ∷ ns))

unfoldable pub pick_deploy_node : Scheduler → ℕ → List ℕ → M Node
unfolding pick_among
pick_deploy_node s now wanted = do nodes ← gets get_deploy_nodes; pick_among s now wanted nodes

unfoldable pub pick_builder_node : ℕ → M Node
pick_builder_node now db =
    elim (first (λ n. same_role n.role NodeRole.builder && is_active now n) (list_nodes db)) [
      | none ↦ raise no_active_builder_nodes db
      | some n ↦ pure n db
    ]

-- The node that the database has for an id must be there and not be offline.
unfoldable pub reachable : Error → Error → ℕ → Option Node → M Node
reachable gone offline now none = raise gone
reachable gone offline now (some n) = if is_offline now n then raise offline else pure n

unfoldable pub bound_node : Error → Error → ℕ → ℕ → M Node
unfolding reachable
bound_node gone offline now id db = reachable gone offline now (get_node id db) db

unfoldable pub resolve_fixed_deploy_node : ℕ → Project → M (Option Node)
unfolding bound_node
resolve_fixed_deploy_node now p = elim p.fixed_node_id [
  | none ↦ pure none
  | some id ↦ do n ← bound_node fixed_node_gone fixed_node_offline now id; pure (some n)
]

unfoldable pub pick_or_reuse_pinned_node : Scheduler → ℕ → Project → M Node
unfolding bound_node
pick_or_reuse_pinned_node s now p = elim p.pinned_node_id [
  | none ↦ do n ← pick_deploy_node s now []; modify (set_project_pinned_node p.id n.id); pure n
  | some id ↦ bound_node pinned_node_gone pinned_node_offline now id
]
