-- ===== src/Prelude/Keys.antt =====
-- Tables with a primary key: what a key says about the row that has it.
use Prim.Native.Nat.{ℕ, ◌≤◌, ◌<◌}
use mathlib.Core.Option
use mathlib.Core.Option.{none, some}
use mathlib.Core.Path.{◌≡◌, refl, ap}
use mathlib.Core.Logic.{inl, inr}
use mathlib.Core.Bool.{Bool, true, false, ◌&&◌}
use mathlib.Core.List.{List, [], ◌∷◌, map}
use native.Mathlib.Omega.{arith}
use muvee.Prelude.Tests.{◌==◌, if◌then◌else◌, Bool-cases, ==_refl}
use muvee.Prelude.Lists.{has, select, count, any, update, All, Some, first}

pub any-false_of_count {ℓ} :
    {A : Type ℓ} (p q : A → Bool) (xs : List A) → count q xs ≡ 0 → any (λ x. p x && q x) xs ≡ false
any-false_of_count p q [] h = refl
any-false_of_count p q (x ∷ xs) h = ground (arith, any-false_of_count p q xs)

pub any-select {ℓ} :
    {A : Type ℓ} (p q : A → Bool) (xs : List A) → any q (select p xs) ≡ any (λ x. p x && q x) xs
any-select p q [] = refl
any-select p q (x ∷ xs) = ground (arith, any-select p q xs)

pub count-select {ℓ} :
    {A : Type ℓ} (p q : A → Bool) (xs : List A) → count q (select p xs) ≡ count (λ x. p x && q x) xs
count-select p q [] = refl
count-select p q (x ∷ xs) = ground (arith, count-select p q xs)

pub count-and-le {ℓ} :
    {A : Type ℓ} (p q : A → Bool) (xs : List A) → count (λ x. p x && q x) xs ≤ count q xs
count-and-le p q [] = omega arith
count-and-le p q (x ∷ xs) = ground (arith, count-and-le p q xs)

pub any-count {ℓ} : {A : Type ℓ} (p : A → Bool) (xs : List A) → any p xs ≡ true → 0 < count p xs
any-count p [] h = ground arith
any-count p (x ∷ xs) h = ground (arith, any-count p xs)

pub count-any {ℓ} : {A : Type ℓ} (p : A → Bool) (xs : List A) → any p xs ≡ false → count p xs ≡ 0
count-any p [] h = refl
count-any p (x ∷ xs) h = ground (arith, count-any p xs)

pub All-weaken {ℓ κ} :
    {A : Type ℓ} (P Q : A → Type κ) (xs : List A) → ((x : A) → P x → Q x) → All P xs → All Q xs
All-weaken P Q [] f h = tt
All-weaken P Q (x ∷ xs) f h = (f x h.0, All-weaken P Q xs f h.1)

pub All-weaken₂ {ℓ κ μ ν} :
    {A : Type ℓ} (P : A → Type κ) (Q : A → Type μ) (R : A → Type ν) (xs : List A)
    → ((x : A) → P x → Q x → R x)
    → All P xs
    → All Q xs
    → All R xs
All-weaken₂ P Q R [] f h k = tt
All-weaken₂ P Q R (x ∷ xs) f h k = (f x h.0 k.0, All-weaken₂ P Q R xs f h.1 k.1)

-- Updates that agree on every row are one update.
pub map-eq-of-All {ℓ} :
    {A : Type ℓ} (f g : A → A) (xs : List A) → All (λ x. f x ≡ g x) xs → map f xs ≡ map g xs
map-eq-of-All f g [] h = refl
map-eq-of-All f g (x ∷ xs) h = cc (h.0, map-eq-of-All f g xs h.1)

pub update-map {ℓ} :
    {A : Type ℓ} (p : A → Bool) (f : A → A) (xs : List A)
    → update p f xs ≡ map (λ x. if p x then f x else x) xs
update-map p f [] = refl
update-map p f (x ∷ xs) = ap (◌∷◌ (if p x then f x else x)) (update-map p f xs)

-- An update of no row, and the selection of none.
pub update-none {ℓ} :
    {A : Type ℓ} (p : A → Bool) (f : A → A) (xs : List A)
    → All (λ x. p x ≡ false) xs
    → update p f xs ≡ xs
update-none p f [] h = refl
update-none p f (x ∷ xs) h = ground (arith, update-none p f xs h.1, h.0)

pub select-none {ℓ} :
    {A : Type ℓ} (p : A → Bool) (xs : List A) → All (λ x. p x ≡ false) xs → select p xs ≡ []
select-none p [] h = refl
select-none p (x ∷ xs) h = ground (arith, select-none p xs h.1, h.0)

module _ {ℓ} {A : Type ℓ} (key : A → ℕ) where
  -- No two rows have one key.
  abbrev pub Unique : List A → Type 0
  Unique xs = (n : ℕ) → count (λ x. key x == n) xs ≤ 1

  abbrev pub keys : List A → List ℕ
  keys = map key

  pub has-keys : (n : ℕ) (xs : List A) → has n (keys xs) ≡ any (λ x. key x == n) xs
  has-keys n [] = refl
  has-keys n (x ∷ xs) = ground (arith, has-keys n xs)

  key-present : (xs : List A) → All (λ x. 0 < count (λ y. key y == key x) xs) xs
  key-present [] = tt
  key-present (x ∷ xs) = (
    ground (arith, ==_refl (key x)),
    All-weaken (λ y. 0 < count (λ z. key z == key y) xs)
        (λ y. 0 < count (λ z. key z == key y) (x ∷ xs)) xs (λ y h. ground arith) (key-present xs),
  )

  Unique-tail : (x : A) (xs : List A) → Unique (x ∷ xs) → Unique xs
  Unique-tail x xs u n = ground (arith, u n)

  -- Under unique keys, some row with this row's key passes a test exactly when this row does.
  pub any-key :
      (q : A → Bool) (xs : List A)
      → Unique xs
      → All (λ x. any (λ y. q y && (key y == key x)) xs ≡ q x) xs
  any-key q [] u = tt
  any-key q (x ∷ xs) u = (head, tail (key-present xs) (any-key q xs (Unique-tail x xs u)))
    where
      head : any (λ y. q y && (key y == key x)) (x ∷ xs) ≡ q x
      head =
          ground (arith, ==_refl (key x), u (key x), any-false_of_count q (λ y. key y == key x) xs)

      step :
          (y : A)
          → 0 < count (λ z. key z == key y) xs
          → any (λ z. q z && (key z == key y)) xs ≡ q y
          → any (λ z. q z && (key z == key y)) (x ∷ xs) ≡ q y
      step y h e = ground (arith, u (key y))

      tail :
          All (λ y. 0 < count (λ z. key z == key y) xs) xs
          → All (λ y. any (λ z. q z && (key z == key y)) xs ≡ q y) xs
          → All (λ y. any (λ z. q z && (key z == key y)) (x ∷ xs) ≡ q y) xs
      tail =
          All-weaken₂ (λ y. 0 < count (λ z. key z == key y) xs)
            (λ y. any (λ z. q z && (key z == key y)) xs ≡ q y)
            (λ y. any (λ z. q z && (key z == key y)) (x ∷ xs) ≡ q y) xs step

pub All-select {ℓ κ} :
    {A : Type ℓ} (P : A → Type κ) (p : A → Bool) (xs : List A) → All P xs → All P (select p xs)
All-select P p [] h = tt
All-select P p (x ∷ xs) h = elim (Bool-cases (p x)) [
  | inl e ↦ rw e (h.0, All-select P p xs h.1)
  | inr e ↦ rw e (All-select P p xs h.1)
]

pub select-All {ℓ} : {A : Type ℓ} (p : A → Bool) (xs : List A) → All (λ x. p x ≡ true) (select p xs)
select-All p [] = tt
select-All p (x ∷ xs) = elim (Bool-cases (p x)) [
  | inl e ↦ rw e (e, select-All p xs)
  | inr e ↦ rw e (select-All p xs)
]

pub first-none {ℓ} : {A : Type ℓ} (p : A → Bool) (xs : List A) → count p xs ≡ 0 → first p xs ≡ none
first-none p [] h = refl
first-none p (x ∷ xs) h = ground (arith, first-none p xs)

module _ {ℓ} {A : Type ℓ} (key : A → ℕ) where
  -- Under unique keys a search by a row's key finds the row.
  pub first-key :
      (xs : List A) → Unique key xs → All (λ x. first (λ y. key y == key x) xs ≡ some x) xs
  first-key [] u = tt
  first-key (x ∷ xs) u = (
    ground (arith, ==_refl (key x)),
    All-weaken₂ (λ y. 0 < count (λ z. key z == key y) xs)
        (λ y. first (λ z. key z == key y) xs ≡ some y)
        (λ y. first (λ z. key z == key y) (x ∷ xs) ≡ some y) xs (λ y h e. ground (arith, u (key y)))
        (key-present key xs) (first-key xs (Unique-tail key x xs u)),
  )

  pub first-map :
      (f : A → A) (n : ℕ) (xs : List A)
      → ((x : A) → key (f x) ≡ key x)
      → first (λ x. key x == n) (map f xs) ≡ Option.map f (first (λ x. key x == n) xs)
  first-map f n [] h = refl
  first-map f n (x ∷ xs) h = ground (arith, h x, first-map f n xs h)

pub All-update :
    {A : Type 0} (P : A → Type 0) (p : A → Bool) (f : A → A) (xs : List A)
    → ((x : A) → p x ≡ true → P x → P (f x))
    → All P xs
    → All P (update p f xs)
All-update P p f [] k h = tt
All-update P p f (x ∷ xs) k h = elim (Bool-cases (p x)) [
  | inl e ↦ rw e (k x e h.0, All-update P p f xs k h.1)
  | inr e ↦ rw e (h.0, All-update P p f xs k h.1)
]

pub first-update {ℓ} :
    {A : Type ℓ} (q p : A → Bool) (f : A → A) (xs : List A)
    → ((x : A) → q (f x) ≡ q x)
    → first q (update p f xs) ≡ Option.map (λ x. if p x then f x else x) (first q xs)
first-update q p f [] h = refl
first-update q p f (x ∷ xs) h = ground (arith, h x, first-update q p f xs h)

pub first-holds {ℓ} :
    {A : Type ℓ} (p : A → Bool) (xs : List A) (a : A) → first p xs ≡ some a → p a ≡ true
first-holds p [] a h = cc h
first-holds p (x ∷ xs) a h = ground (arith, first-holds p xs a)

pub first-Some :
    {A : Type 0} (p : A → Bool) (xs : List A) (a : A) → first p xs ≡ some a → Some (λ x. x ≡ a) xs
first-Some p [] a h = cc h
first-Some p (x ∷ xs) a h = elim (Bool-cases (p x)) [
  | inl e ↦ inl (ground arith)
  | inr e ↦ inr (first-Some p xs a (ground arith))
]
