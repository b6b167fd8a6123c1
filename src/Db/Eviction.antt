-- ===== src/Db/Eviction.antt =====
-- GetLRUDatasetsForNode: which of a node's datasets are evicted.
use mathlib.Core.List.{Perm}
use mathlib.Core.List.Perm
use muvee.Prelude.{
  ℕ, zero, suc, ◌+◌, ◌≤◌, ◌<◌, ◌≡◌, refl, ap, ◌⊎◌, inl, inr, true, List, [], ◌∷◌, ◌++◌, arith, ◌==◌,
  ltb, leb, ltb→lt, select, take, length, All, Bool-cases,
}
use muvee.Db.{Db, NodeDataset}
use muvee.Db.Nodes.{older, insert_older, by_last_use, take_until_freed, get_lru_datasets_for_node}

pub total : List NodeDataset → ℕ
total [] = 0
total (r ∷ rs) = r.size_bytes + total rs

-- The rows `taken` from the front of `rows`: they free what is needed, or they are all of them;
-- and without the last of them they would not.
pub record IsEnough (needed : ℕ) (rows taken : List NodeDataset) : Type 0 where
  pub kept : List NodeDataset
  pub front : rows ≡ taken ++ kept
  pub enough : (needed ≤ total taken) ⊎ (kept ≡ [])
  pub no_more : (k : ℕ) → k < length taken → total (take k taken) < needed

short_of :
    (needed freed : ℕ) (r : NodeDataset) (ts : List NodeDataset)
    → freed < needed
    → ((k : ℕ) → k < length ts → freed + r.size_bytes + total (take k ts) < needed)
    → (k : ℕ) → k < length (r ∷ ts)
    → freed + total (take k (r ∷ ts)) < needed
unfolding total
short_of needed freed r ts h more zero i = omega arith
short_of needed freed r ts h more (suc k) i = omega (arith, more k (omega (arith, i)))

taken-IsEnough :
    (needed freed : ℕ) (rows : List NodeDataset)
    → (kept : List NodeDataset) × (rows ≡ take_until_freed needed freed rows ++ kept)
      × ((needed ≤ freed + total (take_until_freed needed freed rows)) ⊎ (kept ≡ []))
      × ((k : ℕ)
          → k < length (take_until_freed needed freed rows)
          → freed + total (take k (take_until_freed needed freed rows)) < needed)
unfolding take_until_freed total
taken-IsEnough needed freed [] = ([], refl, inr refl, λ k h. absurd (omega arith))
taken-IsEnough needed freed (r ∷ rs) =
    let (kept, front, enough, no_more) = taken-IsEnough needed (freed + r.size_bytes) rs in
    elim (Bool-cases (ltb freed needed)) [
      | inl e ↦
          rw (e, take_until_freed)
            (
              kept,
              ap (◌∷◌ r) front,
              elim enough [ inl h ↦ inl (omega (arith, h)) | inr h ↦ inr h ],
              short_of needed freed r (take_until_freed needed (freed + r.size_bytes) rs)
                  (ltb→lt freed needed e) no_more,
            )
      | inr e ↦
          rw (e, take_until_freed) (r ∷ rs, refl, inl (ground arith), λ k h. absurd (omega arith))
    ]

All-insert_older :
    (a r : NodeDataset) (rs : List NodeDataset)
    → leb a.last_used_at r.last_used_at ≡ true
    → All (λ x. leb a.last_used_at x.last_used_at ≡ true) rs
    → All (λ x. leb a.last_used_at x.last_used_at ≡ true) (insert_older r rs)
unfolding insert_older older
All-insert_older a r [] h k = (h, tt)
All-insert_older a r (x ∷ xs) h k = ground (arith, All-insert_older a r xs h k.1)

-- Each row was last used no later than those behind it.
abbrev pub IsByLastUse : List NodeDataset → Type 0
IsByLastUse [] = Unit
IsByLastUse (r ∷ rs) = All (λ x. leb r.last_used_at x.last_used_at ≡ true) rs × IsByLastUse rs

All-leb_trans :
    (a b : ℕ) (rs : List NodeDataset)
    → leb a b ≡ true
    → All (λ x. leb b x.last_used_at ≡ true) rs
    → All (λ x. leb a x.last_used_at ≡ true) rs
All-leb_trans a b [] h k = tt
All-leb_trans a b (r ∷ rs) h k = (ground (arith, k.0), All-leb_trans a b rs h k.1)

insert_older-IsByLastUse :
    (r : NodeDataset) (rs : List NodeDataset) → IsByLastUse rs → IsByLastUse (insert_older r rs)
unfolding insert_older older
insert_older-IsByLastUse r [] h = (tt, tt)
insert_older-IsByLastUse r (x ∷ xs) h = elim (Bool-cases (leb r.last_used_at x.last_used_at)) [
  | inl e ↦
      rw (e, insert_older, older) ((e, All-leb_trans r.last_used_at x.last_used_at xs e h.0), h)
  | inr e ↦
      rw (e, insert_older, older)
        (All-insert_older x r xs (ground arith) h.0, insert_older-IsByLastUse r xs h.1)
]

by_last_use-IsByLastUse : (rs : List NodeDataset) → IsByLastUse (by_last_use rs)
unfolding by_last_use
by_last_use-IsByLastUse [] = tt
by_last_use-IsByLastUse (r ∷ rs) =
    insert_older-IsByLastUse r (by_last_use rs) (by_last_use-IsByLastUse rs)

insert_older-perm : (r : NodeDataset) (rs : List NodeDataset) → Perm (insert_older r rs) (r ∷ rs)
unfolding insert_older older
insert_older-perm r [] = Perm.refl (r ∷ [])
insert_older-perm r (x ∷ xs) = elim (Bool-cases (leb r.last_used_at x.last_used_at)) [
  | inl e ↦ rw (e, insert_older, older) (Perm.refl _)
  | inr e ↦
      rw (e, insert_older, older)
        (Perm.trans (Perm.cons x (insert_older-perm r xs)) (Perm.swap r x xs))
]

by_last_use-perm : (rs : List NodeDataset) → Perm (by_last_use rs) rs
unfolding by_last_use
by_last_use-perm [] = Perm.refl []
by_last_use-perm (r ∷ rs) =
    Perm.trans (insert_older-perm r (by_last_use rs)) (Perm.cons r (by_last_use-perm rs))

-- The datasets that GetLRUDatasetsForNode returns are the front of the node's rows in the order of
-- their last use. They free what is needed, or are all that the node has, and without the last of
-- them they would free less than is needed.
pub lru-frees :
    (n needed : ℕ) (db : Db)
    → (rows : List NodeDataset) × Perm rows (select (λ r. r.node_id == n) db.node_datasets)
      × IsByLastUse rows
      × IsEnough needed rows (get_lru_datasets_for_node n needed db)
unfolding get_lru_datasets_for_node
lru-frees n needed db =
    let mine = select (λ (r : NodeDataset). r.node_id == n) db.node_datasets in
    let (kept, front, enough, no_more) = taken-IsEnough needed 0 (by_last_use mine) in
    (
      by_last_use mine,
      by_last_use-perm mine,
      by_last_use-IsByLastUse mine,
      record {
        kept = kept;
        front = front;
        enough = elim enough [ inl h ↦ inl (omega (arith, h)) | inr h ↦ inr h ];
        no_more = λ k h. omega (arith, no_more k h);
      },
    )
