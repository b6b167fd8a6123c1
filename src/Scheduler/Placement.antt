-- ===== src/Scheduler/Placement.antt =====
-- On which node a deployment may land.

use muvee.Prelude.{
  ℕ, ◌≡◌, refl, sym, ◌∙◌, Bool, true, List, [], ◌∷◌, map, arith, ◌&&◌, select, count, not,
}
use muvee.Db.{Db, Node, NodeRole}
use muvee.Db.Nodes.{same_role, get_deploy_nodes}
use muvee.Scheduler.{Result, ok, err, NodeScore, Scheduler}
use muvee.Scheduler.Pick.{
  is_active, score_node, take_best, score_active, pick_among, pick_deploy_node,
}

-- sort.Slice keeps the elements: as many pass any test as before.
abbrev pub Permutes : Scheduler → Type 0
Permutes s = (p : NodeScore → Bool) (xs : List NodeScore) → count p (s.rank xs) ≡ count p xs

-- A deploy node that has been seen in the last two minutes.
abbrev pub is_candidate : ℕ → Node → Bool
is_candidate now n = same_role n.role NodeRole.deploy && is_active now n

abbrev unfit : ℕ → Node → Bool
unfit now n = not (is_candidate now n)

none-unfit :
    (now : ℕ) (ns : List Node)
    → count (unfit now) (select (is_active now) (select (λ n. same_role n.role NodeRole.deploy) ns))
      ≡ 0
none-unfit now [] = refl
none-unfit now (n ∷ ns) = ground (arith, none-unfit now ns)

count-scores :
    (q : Node → Bool) (db : Db) (wanted : List ℕ) (ns : List Node)
    → count (λ x. q x.node) (map (score_node db wanted) ns) ≡ count q ns
unfolding score_node
count-scores q db wanted [] = refl
count-scores q db wanted (n ∷ ns) = ground (arith, count-scores q db wanted ns)

-- The result of a computation, if there is one, is not `unfit`.
abbrev pub Fits : ℕ → Result Node → Type 0
Fits now (ok n) = is_candidate now n ≡ true
Fits now (err e) = Unit

take_best-Fits :
    (now : ℕ) (xs : List NodeScore) (db : Db)
    → count (λ x. unfit now x.node) xs ≡ 0
    → Fits now (take_best xs db).0
unfolding take_best
take_best-Fits now [] db h = tt
take_best-Fits now (x ∷ xs) db h = ground arith

score_active-Fits :
    (s : Scheduler) (now : ℕ) (wanted : List ℕ) (ns : List Node) (db : Db)
    → Permutes s
    → count (unfit now) ns ≡ 0
    → Fits now (score_active s wanted ns db).0
unfolding score_active
score_active-Fits s now wanted [] db k h = tt
score_active-Fits s now wanted (n ∷ ns) db k h =
    take_best-Fits now (s.rank (map (score_node db wanted) (n ∷ ns))) db (
      k (λ x. unfit now x.node) (map (score_node db wanted) (n ∷ ns))
      ∙ count-scores (unfit now) db wanted (n ∷ ns)
      ∙ h)

pick_among-Fits :
    (s : Scheduler) (now : ℕ) (wanted : List ℕ) (ns : List Node) (db : Db)
    → Permutes s
    → count (unfit now) (select (is_active now) ns) ≡ 0
    → Fits now (pick_among s now wanted ns db).0
unfolding pick_among
pick_among-Fits s now wanted [] db k h = tt
pick_among-Fits s now wanted (n ∷ ns) db k h =
    score_active-Fits s now wanted (select (is_active now) (n ∷ ns)) db k h

-- The node that PickDeployNode returns is a deploy node that has been seen in the last two minutes.
pub pick_deploy_node-Fits :
    (s : Scheduler) (now : ℕ) (wanted : List ℕ) (db : Db)
    → Permutes s
    → Fits now (pick_deploy_node s now wanted db).0
unfolding pick_deploy_node get_deploy_nodes
pick_deploy_node-Fits s now wanted db k =
    pick_among-Fits s now wanted (get_deploy_nodes db) db k (none-unfit now db.nodes)

abbrev pub Failed : Result Node → Type 0
Failed (ok n) = ⊥
Failed (err e) = Unit

take_best-Failed :
    (xs : List NodeScore) (db : Db) → Failed (take_best xs db).0 → count (λ x. true) xs ≡ 0
unfolding take_best
take_best-Failed [] db h = refl
take_best-Failed (x ∷ xs) db h = absurd h

score_active-Failed :
    (s : Scheduler) (wanted : List ℕ) (ns : List Node) (db : Db)
    → Permutes s
    → Failed (score_active s wanted ns db).0
    → count (λ n. true) ns ≡ 0
unfolding score_active
score_active-Failed s wanted [] db k h = refl
score_active-Failed s wanted (n ∷ ns) db k h =
    sym (count-scores (λ n. true) db wanted (n ∷ ns))
    ∙ sym (k (λ x. true) (map (score_node db wanted) (n ∷ ns)))
    ∙ take_best-Failed (s.rank (map (score_node db wanted) (n ∷ ns))) db h

pick_among-Failed :
    (s : Scheduler) (now : ℕ) (wanted : List ℕ) (ns : List Node) (db : Db)
    → Permutes s
    → Failed (pick_among s now wanted ns db).0
    → count (λ n. true) (select (is_active now) ns) ≡ 0
unfolding pick_among
pick_among-Failed s now wanted [] db k h = refl
pick_among-Failed s now wanted (n ∷ ns) db k h =
    score_active-Failed s wanted (select (is_active now) (n ∷ ns)) db k h

count-all :
    (now : ℕ) (ns : List Node)
    → count (λ n. true) (select (is_active now) (select (λ n. same_role n.role NodeRole.deploy) ns))
      ≡ count (is_candidate now) ns
count-all now [] = refl
count-all now (n ∷ ns) = ground (arith, count-all now ns)

-- PickDeployNode fails only where no deploy node has been seen in the last two minutes.
pub pick_deploy_node_complete :
    (s : Scheduler) (now : ℕ) (wanted : List ℕ) (db : Db)
    → Permutes s
    → Failed (pick_deploy_node s now wanted db).0
    → count (is_candidate now) db.nodes ≡ 0
unfolding pick_deploy_node get_deploy_nodes
pick_deploy_node_complete s now wanted db k h =
    sym (count-all now db.nodes) ∙ pick_among-Failed s now wanted (get_deploy_nodes db) db k h
