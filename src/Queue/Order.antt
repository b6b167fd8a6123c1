-- ===== src/Queue/Order.antt =====
-- The order of the waiting deployments.
use mathlib.Core.List.{Perm}
use mathlib.Core.List.Perm
use muvee.Prelude.{◌≡◌, inl, inr, true, false, List, [], ◌∷◌, arith, All, Bool-cases}
use muvee.Db.{Deployment}
use muvee.Queue.{newer, insert_newer, newest_first}

newer-total : (a b : Deployment) → newer a b ≡ false → newer b a ≡ true
unfolding newer
newer-total a b h = ground arith

newer_trans : (a b c : Deployment) → newer a b ≡ true → newer b c ≡ true → newer a c ≡ true
unfolding newer
newer_trans a b c h k = ground arith

-- Each row is newer than, or of the same age and id as, all behind it.
abbrev pub IsNewestFirst : List Deployment → Type 0
IsNewestFirst [] = Unit
IsNewestFirst (x ∷ xs) = All (λ y. newer x y ≡ true) xs × IsNewestFirst xs

All-newer_trans :
    (a b : Deployment) (xs : List Deployment)
    → newer a b ≡ true
    → All (λ y. newer b y ≡ true) xs
    → All (λ y. newer a y ≡ true) xs
All-newer_trans a b [] h k = tt
All-newer_trans a b (x ∷ xs) h k = (newer_trans a b x h k.0, All-newer_trans a b xs h k.1)

All-insert_newer :
    (a d : Deployment) (xs : List Deployment)
    → newer a d ≡ true
    → All (λ y. newer a y ≡ true) xs
    → All (λ y. newer a y ≡ true) (insert_newer d xs)
unfolding insert_newer
All-insert_newer a d [] h k = (h, tt)
All-insert_newer a d (x ∷ xs) h k = ground (arith, All-insert_newer a d xs h k.1)

insert_newer-IsNewestFirst :
    (d : Deployment) (xs : List Deployment) → IsNewestFirst xs → IsNewestFirst (insert_newer d xs)
unfolding insert_newer
insert_newer-IsNewestFirst d [] h = (tt, tt)
insert_newer-IsNewestFirst d (x ∷ xs) h = elim (Bool-cases (newer d x)) [
  | inl e ↦ rw (e, insert_newer) ((e, All-newer_trans d x xs e h.0), h)
  | inr e ↦
      rw (e, insert_newer)
        (All-insert_newer x d xs (newer-total d x e) h.0, insert_newer-IsNewestFirst d xs h.1)
]

newest_first-IsNewestFirst : (xs : List Deployment) → IsNewestFirst (newest_first xs)
unfolding newest_first
newest_first-IsNewestFirst [] = tt
newest_first-IsNewestFirst (x ∷ xs) =
    insert_newer-IsNewestFirst x (newest_first xs) (newest_first-IsNewestFirst xs)

insert_newer-perm : (d : Deployment) (xs : List Deployment) → Perm (insert_newer d xs) (d ∷ xs)
unfolding insert_newer
insert_newer-perm d [] = Perm.refl (d ∷ [])
insert_newer-perm d (x ∷ xs) = elim (Bool-cases (newer d x)) [
  | inl e ↦ rw (e, insert_newer) (Perm.refl _)
  | inr e ↦
      rw (e, insert_newer) (Perm.trans (Perm.cons x (insert_newer-perm d xs)) (Perm.swap d x xs))
]

newest_first-perm : (xs : List Deployment) → Perm (newest_first xs) xs
unfolding newest_first
newest_first-perm [] = Perm.refl []
newest_first-perm (x ∷ xs) =
    Perm.trans (insert_newer-perm x (newest_first xs)) (Perm.cons x (newest_first-perm xs))

-- The waiting deployments come in the order of their age, the newest first and by id where two are
-- of one age, and they are the same rows.
pub newest_first-sorts :
    (xs : List Deployment) → IsNewestFirst (newest_first xs) × Perm (newest_first xs) xs
newest_first-sorts xs = (newest_first-IsNewestFirst xs, newest_first-perm xs)
