-- ===== src/Events/Window.antt =====
-- The newest elements of a list: what they are after more are added.
use muvee.Prelude.{
  ℕ, zero, suc, ◌+◌, ◌-◌, ◌≤◌, ◌≡◌, refl, sym, ap, ◌∙◌, inl, inr, List, [], ◌∷◌, ◌++◌, arith, ltb,
  length, length-append, drop, Bool-cases,
}
use muvee.Events.{newest}

module _ {A : Type 0} where
  drop-append : (k : ℕ) (xs ys : List A) → k ≤ length xs → drop k (xs ++ ys) ≡ drop k xs ++ ys
  drop-append zero xs ys h = refl
  drop-append (suc k) [] ys h = absurd (omega (arith, h))
  drop-append (suc k) (x ∷ xs) ys h = drop-append k xs ys (omega (arith, h))

  drop-nil : (k : ℕ) → drop {A = A} k [] ≡ []
  drop-nil zero = refl
  drop-nil (suc k) = refl

  drop_index : (j k : ℕ) (xs : List A) → j ≡ k → drop j xs ≡ drop k xs
  drop_index j k xs e = ap (λ (n : ℕ). drop n xs) e

  drop-drop : (j k : ℕ) (xs : List A) → drop j (drop k xs) ≡ drop (k + j) xs
  drop-drop j zero xs = drop_index j (0 + j) xs (omega arith)
  drop-drop j (suc k) [] = drop-nil j ∙ sym (drop-nil (suc k + j))
  drop-drop j (suc k) (x ∷ xs) =
      drop-drop j k xs ∙ drop_index (suc (k + j)) (suc k + j) (x ∷ xs) (omega arith)

  length-drop : (k : ℕ) (xs : List A) → k ≤ length xs → length (drop k xs) + k ≡ length xs
  length-drop zero xs h = omega arith
  length-drop (suc k) [] h = absurd (omega (arith, h))
  length-drop (suc k) (x ∷ xs) h = omega (arith, length-drop k xs (omega (arith, h)))

  pub newest-all : (n : ℕ) (xs : List A) → length xs ≤ n → newest n xs ≡ xs
  unfolding newest
  newest-all n xs h = ground arith

  pub newest-drop : (n : ℕ) (xs : List A) → newest n xs ≡ drop (length xs - n) xs
  unfolding newest
  newest-drop n xs = elim (Bool-cases (ltb n (length xs))) [
    | inl e ↦ rw e refl
    | inr e ↦ rw e (drop_index 0 (length xs - n) xs (ground (arith, e)))
  ]

  length-newest : (n : ℕ) (xs : List A) → length (newest n xs) + (length xs - n) ≡ length xs
  length-newest n xs =
      ap (λ (ys : List A). length ys + (length xs - n)) (newest-drop n xs)
      ∙ length-drop (length xs - n) xs (omega arith)

  pub newest-length : (n : ℕ) (xs : List A) → length (newest n xs) ≤ n
  newest-length n xs = omega (arith, length-newest n xs)

  -- Adding to what was kept and cutting again is cutting once.
  pub newest-append : (n : ℕ) (xs ys : List A) → newest n (newest n xs ++ ys) ≡ newest n (xs ++ ys)
  newest-append n xs ys =
      let k = length xs - n in
      newest-drop n (newest n xs ++ ys)
      ∙ ap (λ (zs : List A). drop (length (newest n xs ++ ys) - n) (zs ++ ys)) (newest-drop n xs)
      ∙ ap (drop (length (newest n xs ++ ys) - n)) (sym (drop-append k xs ys (omega arith)))
      ∙ drop-drop (length (newest n xs ++ ys) - n) k (xs ++ ys)
      ∙ drop_index (k + (length (newest n xs ++ ys) - n)) (length (xs ++ ys) - n) (xs ++ ys)
          (omega (arith, length-append (newest n xs) ys, length-append xs ys, length-newest n xs))
      ∙ sym (newest-drop n (xs ++ ys))

  -- What is added is kept where it is no more than the window.
  pub newest-keeps :
      (n : ℕ) (xs ys : List A)
      → length ys ≤ n
      → newest n (xs ++ ys) ≡ drop (length (xs ++ ys) - n) xs ++ ys
  newest-keeps n xs ys h =
      newest-drop n (xs ++ ys)
      ∙ drop-append (length (xs ++ ys) - n) xs ys (omega (arith, h, length-append xs ys))
