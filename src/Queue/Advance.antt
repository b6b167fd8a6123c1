-- ===== src/Queue/Advance.antt =====
-- What one AdvanceDeployQueue does to every row of the table.
use muvee.Prelude.Keys.{any-select, any-key, any-count, count-and-le, count-select}
use muvee.Prelude.Keys.{has-keys, map-eq-of-All, All-weaken}
use muvee.Prelude.{
  ℕ, ◌≤◌, ◌<◌, ◌≡◌, refl, sym, ap, ◌∙◌, inl, inr, true, false, List, [], ◌∷◌, map, arith, ◌==◌,
  ◌&&◌, ◌||◌, if◌then◌else◌, count, any, select, update, has, Bool-cases, ==_iff, ==_refl,
}
use muvee.Db.{Db, Deployment}
use muvee.Db.Rows.{queued_of, has_id}
use muvee.Queue.{ids, insert_newer, newest_first, queue, start, supersede, promote}
use muvee.Queue.Counts.{UniqueIds}

-- Sorting keeps which ids occur, and how often.
has-insert_newer :
    (n : ℕ) (d : Deployment) (xs : List Deployment)
    → has n (ids (insert_newer d xs)) ≡ (n == d.id) || has n (ids xs)
unfolding insert_newer
has-insert_newer n d [] = refl
has-insert_newer n d (x ∷ xs) = ground (arith, has-insert_newer n d xs)

has-newest_first : (n : ℕ) (xs : List Deployment) → has n (ids (newest_first xs)) ≡ has n (ids xs)
unfolding newest_first
has-newest_first n [] = refl
has-newest_first n (x ∷ xs) =
    ground (arith, has-insert_newer n x (newest_first xs), has-newest_first n xs)

occurrences-insert_newer :
    (n : ℕ) (d : Deployment) (xs : List Deployment)
    → count (has_id n) (insert_newer d xs) ≡ count (has_id n) (d ∷ xs)
unfolding insert_newer
occurrences-insert_newer n d [] = refl
occurrences-insert_newer n d (x ∷ xs) = ground (arith, occurrences-insert_newer n d xs)

pub occurrences-newest_first :
    (n : ℕ) (xs : List Deployment) → count (has_id n) (newest_first xs) ≡ count (has_id n) xs
unfolding newest_first
occurrences-newest_first n [] = refl
occurrences-newest_first n (x ∷ xs) =
    ground (arith, occurrences-insert_newer n x (newest_first xs), occurrences-newest_first n xs)

-- An id waits in the queue exactly when it is that of a queued row of the project.
pub has-queue :
    (n p : ℕ) (db : Db) → has n (queue p db) ≡ any (λ d. queued_of p d && has_id n d) db.deployments
unfolding queue
has-queue n p db =
    has-newest_first n (select (queued_of p) db.deployments)
    ∙ has-keys (λ (d : Deployment). d.id) n (select (queued_of p) db.deployments)
    ∙ any-select (queued_of p) (has_id n) db.deployments

count-ids : (n : ℕ) (xs : List Deployment) → has n (ids xs) ≡ true → 0 < count (has_id n) xs
count-ids n xs h = any-count (has_id n) xs (sym (has-keys (λ (d : Deployment). d.id) n xs) ∙ h)

-- No id waits twice.
head_once :
    (n : ℕ) (d : Deployment) (xs : List Deployment)
    → d.id ≡ n
    → count (has_id n) (d ∷ xs) ≤ 1
    → has n (ids xs) ≡ false
head_once n d xs e h = ground (arith, count-ids n xs)

-- What the promotion of `newest` does to a row of the project.
unfoldable pub settle : ℕ → ℕ → ℕ → Deployment → Deployment
settle now p newest d =
    if queued_of p d then (if d.id == newest then start now d else supersede now newest d) else d

rest_of :
    (n : ℕ) (rest : List ℕ) (xs : List Deployment)
    → ids xs ≡ n ∷ rest
    → count (has_id n) xs ≤ 1
    → has n rest ≡ false
rest_of n rest [] e h = cc
rest_of n rest (d ∷ xs) e h =
    let i : d.id ≡ n = cc in let r : rest ≡ ids xs = cc in rw r (head_once n d xs i h)

queue-head_once :
    (n p : ℕ) (rest : List ℕ) (db : Db)
    → UniqueIds db.deployments
    → queue p db ≡ n ∷ rest
    → has n rest ≡ false
unfolding queue
queue-head_once n p rest db u e =
    rest_of n rest (newest_first (select (queued_of p) db.deployments)) e (
      omega (
        arith,
        u n,
        occurrences-newest_first n (select (queued_of p) db.deployments),
        count-select (queued_of p) (has_id n) db.deployments,
        count-and-le (queued_of p) (has_id n) db.deployments,
      ))

-- One row under both updates of `promote`.
promoted : ℕ → ℕ → List ℕ → Deployment → Deployment
promoted now n rest d =
    let s = if has_id n d then start now d else d in if has s.id rest then supersede now n s else s

-- One row under the two updates of `promote`, where its id waits exactly if it is queued.
promote_row :
    (now p n : ℕ) (rest : List ℕ) (d : Deployment)
    → has n rest ≡ false
    → (d.id == n) || has d.id rest ≡ queued_of p d
    → promoted now n rest d ≡ settle now p n d
unfolding settle promoted start supersede
promote_row now p n rest d h e = elim (Bool-cases (d.id == n)) [
  | inl i ↦ let k : has d.id rest ≡ false = rw ((==_iff d.id n).0 i) h in ground arith
  | inr i ↦ ground arith
]

update-promoted :
    (now n : ℕ) (rest : List ℕ) (xs : List Deployment)
    → update (λ d. has d.id rest) (supersede now n) (update (has_id n) (start now) xs)
      ≡ map (promoted now n rest) xs
unfolding promoted
update-promoted now n rest [] = refl
update-promoted now n rest (x ∷ xs) =
    ap (◌∷◌ (promoted now n rest x)) (update-promoted now n rest xs)

pub promote-rows :
    (now p n : ℕ) (rest : List ℕ) (db : Db)
    → UniqueIds db.deployments
    → queue p db ≡ n ∷ rest
    → (promote now n rest db).deployments ≡ map (settle now p n) db.deployments
unfolding promote
promote-rows now p n rest db u e =
    update-promoted now n rest db.deployments
    ∙ map-eq-of-All (promoted now n rest) (settle now p n) db.deployments (
        All-weaken (λ d. any (λ x. queued_of p x && has_id d.id x) db.deployments ≡ queued_of p d)
          (λ d. promoted now n rest d ≡ settle now p n d) db.deployments
          (λ d h.
            promote_row now p n rest d (queue-head_once n p rest db u e)
              (ap (has d.id) (sym e) ∙ has-queue d.id p db ∙ h))
          (any-key (λ (d : Deployment). d.id) (queued_of p) db.deployments u))

pub settle-id : (now p n : ℕ) (d : Deployment) → (settle now p n d).id ≡ d.id
unfolding settle start supersede
settle-id now p n d = ground arith

pub settle-head :
    (now p : ℕ) (d : Deployment) → queued_of p d ≡ true → settle now p d.id d ≡ start now d
unfolding settle start
settle-head now p d h = ground (arith, ==_refl d.id)
