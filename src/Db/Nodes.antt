-- ===== src/Db/Nodes.antt =====
-- The nodes and node_datasets tables of internal/store/store.go.
use muvee.Prelude.{
  ℕ, ◌+◌, String, Bool, true, false, Option, none, some, List, [], ◌∷◌, ◌++◌, ◌==◌, ◌&&◌, not, any,
  if◌then◌else◌, select, first, update, str_eq, ltb, leb,
}
use muvee.Db.{Db, Node, NodeRole, NodeDataset, fresh}

abbrev pub same_role : NodeRole → NodeRole → Bool
same_role NodeRole.builder NodeRole.builder = true
same_role NodeRole.deploy NodeRole.deploy = true
same_role _ _ = false

unfoldable pub get_node : ℕ → Db → Option Node
get_node n db = first (λ v. v.id == n) db.nodes

-- ORDER BY created_at: the order in which the rows were inserted.
unfoldable pub list_nodes : Db → List Node
list_nodes db = db.nodes

unfoldable pub get_deploy_nodes : Db → List Node
get_deploy_nodes db = select (λ v. same_role v.role NodeRole.deploy) db.nodes

-- UpsertNode of an agent's report: keyed by hostname and role.
unfoldable pub upsert_node : ℕ → String → NodeRole → String → ℕ → ℕ → Db → ℕ × Db
upsert_node now hostname role ip size used db =
    elim (first (λ v. str_eq v.hostname hostname && same_role v.role role) db.nodes) [
      | none ↦
          let (n, db') = fresh db in
          let v : Node = record {
            id = n;
            hostname = hostname;
            role = role;
            host_ip = ip;
            max_storage_bytes = size;
            used_storage_bytes = used;
            last_seen_at = now;
            created_at = now;
          } in
          (n, record db' { nodes = db'.nodes ++ v ∷ [] })
      | some old ↦ (
        old.id,
        record db {
          nodes =
              update (λ v. v.id == old.id)
                (λ v. record v { host_ip = ip; max_storage_bytes = size; last_seen_at = now })
                db.nodes;
        },
      )
    ]

-- `none` is the error "node not found".
unfoldable pub touch_node : ℕ → ℕ → Db → Option Db
touch_node now n db =
    if any (λ v. v.id == n) db.nodes
    then some (record db {
      nodes = update (λ v. v.id == n) (λ v. record v { last_seen_at = now }) db.nodes;
    })
    else none

unfoldable pub get_node_datasets : ℕ → Db → List NodeDataset
get_node_datasets n db = select (λ r. r.node_id == n) db.node_datasets

unfoldable pub remove_node_dataset : ℕ → ℕ → Db → Db
remove_node_dataset n ds db = record db {
  node_datasets = select (λ r. not (r.node_id == n && r.dataset_id == ds)) db.node_datasets;
}

-- The order of the eviction.
unfoldable pub older : NodeDataset → NodeDataset → Bool
older a b = leb a.last_used_at b.last_used_at

unfoldable pub insert_older : NodeDataset → List NodeDataset → List NodeDataset
insert_older r [] = r ∷ []
insert_older r (x ∷ xs) = if older r x then r ∷ x ∷ xs else x ∷ insert_older r xs

-- ORDER BY last_used_at ASC
unfoldable pub by_last_use : List NodeDataset → List NodeDataset
by_last_use [] = []
by_last_use (x ∷ xs) = insert_older x (by_last_use xs)

-- The loop `rows.Next() && freed < needed`.
unfoldable pub take_until_freed : ℕ → ℕ → List NodeDataset → List NodeDataset
take_until_freed needed freed [] = []
take_until_freed needed freed (r ∷ rs) =
    if ltb freed needed then r ∷ take_until_freed needed (freed + r.size_bytes) rs else []

unfoldable pub get_lru_datasets_for_node : ℕ → ℕ → Db → List NodeDataset
unfolding older insert_older by_last_use take_until_freed
get_lru_datasets_for_node n needed db =
    take_until_freed needed 0 (by_last_use (select (λ r. r.node_id == n) db.node_datasets))
