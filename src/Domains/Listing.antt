-- ===== src/Domains/Listing.antt =====
-- The list of base domains that Parse and ParseSubset make.
use muvee.Prelude.{
  ℕ, ◌≤◌, Bool, true, false, ◌&&◌, ◌||◌, not, Option, none, some, List, [], ◌∷◌, ◌++◌, map, any,
  count, count-append, ◌≡◌, inl, inr, refl, arith, Bool-cases, All, ap,
}
use muvee.Prelude.Keys.{count-any}
use muvee.Text.{Text, same_text}
use muvee.Text.Affixes.{eq_of_same_text, same_text_refl, same_text-cases}
use muvee.Text.Words.{member, split}
use muvee.Domains.{
  clean, add, add_all, parse, check_known, subset_of, parse_subset, Subset, all_known, unknown,
}

any-append : {A : Type 0} (p : A → Bool) (xs ys : List A) → any p (xs ++ ys) ≡ any p xs || any p ys
any-append p [] ys = refl
any-append p (x ∷ xs) ys = ground (arith, any-append p xs ys)

-- No two entries are equal.
abbrev pub IsDistinct : List Text → Type 0
IsDistinct ws = (t : Text) → count (same_text t) ws ≤ 1

IsDistinct-snoc :
    (ws : List Text) (w : Text) → member w ws ≡ false → IsDistinct ws → IsDistinct (ws ++ w ∷ [])
IsDistinct-snoc ws w h u t = elim (same_text-cases t w) [
  | inl e ↦ ground (
    arith,
    count-append (same_text t) ws (w ∷ []),
    ap (λ x. count (same_text x) ws) e,
    count-any (same_text w) ws h,
  )
  | inr e ↦ ground (arith, count-append (same_text t) ws (w ∷ []), u t)
]

module _ (to_lower : ℕ → ℕ) where
  -- A text that is not empty and is one of these, cleaned.
  abbrev pub from : List Text → Text → Bool
  from ds t = not (same_text t []) && any (λ d. same_text t (clean to_lower d)) ds

  add-IsDistinct : (out : List Text) (d : Text) → IsDistinct out → IsDistinct (add to_lower out d)
  unfolding add
  add-IsDistinct out d u =
      elim (Bool-cases (same_text (clean to_lower d) [] || member (clean to_lower d) out)) [
        | inl e ↦ rw e u
        | inr e ↦ rw e (IsDistinct-snoc out (clean to_lower d) (ground arith) u)
      ]

  add-member :
      (out : List Text) (d t : Text)
      → member t (add to_lower out d) ≡ member t out || from (d ∷ []) t
  unfolding add
  add-member out d t = elim (Bool-cases (same_text (clean to_lower d) [])) [
    | inl e ↦ rw e (ground (arith, ap (same_text t) (eq_of_same_text (clean to_lower d) [] e)))
    | inr e ↦ elim (Bool-cases (member (clean to_lower d) out)) [
      | inl m ↦
          rw (e, m)
            (elim (same_text-cases t (clean to_lower d)) [
              | inl q ↦ ground (arith, ap (λ x. member x out) q)
              | inr q ↦ ground arith
            ])
      | inr m ↦
          rw (e, m)
            (elim (same_text-cases t (clean to_lower d)) [
              | inl q ↦ ground (
                arith,
                any-append (same_text t) out (clean to_lower d ∷ []),
                ap (λ x. same_text x []) q,
              )
              | inr q ↦ ground (arith, any-append (same_text t) out (clean to_lower d ∷ []))
            ])
    ]
  ]

  add_all-IsDistinct : (out ds : List Text) → IsDistinct out → IsDistinct (add_all to_lower out ds)
  unfolding add_all
  add_all-IsDistinct out [] u = u
  add_all-IsDistinct out (d ∷ ds) u =
      add_all-IsDistinct (add to_lower out d) ds (add-IsDistinct out d u)

  add_all-member :
      (out ds : List Text) (t : Text)
      → member t (add_all to_lower out ds) ≡ member t out || from ds t
  unfolding add_all
  add_all-member out [] t = ground arith
  add_all-member out (d ∷ ds) t =
      ground (arith, add_all-member (add to_lower out d) ds t, add-member out d t)

  -- The entries of the list are different, and they are the cleaned texts that are not empty among
  -- the canonical base domain and the pieces between the commas.
  pub parse-IsDistinct :
      (base more : Text)
      → IsDistinct (parse to_lower base more)
        × ((t : Text) → member t (parse to_lower base more) ≡ from (base ∷ split b',' more) t)
  unfolding parse
  parse-IsDistinct base more =
      let ds : List Text = base ∷ split b',' more in
      (add_all-IsDistinct [] ds (λ t. omega arith), add_all-member [] ds)

  -- What ParseSubset answers for a list of entries and the known base domains.
  abbrev pub SubsetAnswer : List Text → List Text → Subset → Type 0
  SubsetAnswer bases ds (all_known es) = (es ≡ ds) × All (λ d. member d bases ≡ true) ds
  SubsetAnswer bases ds (unknown d) = (member d ds ≡ true) × (member d bases ≡ false)

  subset_of-known :
      (bases ds : List Text) (d : Text) (o : Option Text)
      → member d bases ≡ true
      → SubsetAnswer bases ds (subset_of to_lower ds o)
      → SubsetAnswer bases (d ∷ ds) (subset_of to_lower (d ∷ ds) o)
  unfolding subset_of
  subset_of-known bases ds d none m h = (refl, (m, h.1))
  subset_of-known bases ds d (some x) m h = (ground (arith, h.0), h.1)

  check_known-SubsetAnswer :
      (bases ds : List Text)
      → SubsetAnswer bases ds (subset_of to_lower ds (check_known to_lower bases ds))
  unfolding check_known subset_of
  check_known-SubsetAnswer bases [] = (refl, tt)
  check_known-SubsetAnswer bases (d ∷ ds) = elim (Bool-cases (member d bases)) [
    | inl e ↦ rw e (
        subset_of-known bases ds d (check_known to_lower bases ds) e
          (check_known-SubsetAnswer bases ds))
    | inr e ↦ rw e (ground (arith, same_text_refl d), e)
  ]

  -- ParseSubset gives back every entry, and then all of them are base domains, or it fails at an
  -- entry that is in the list and is no base domain.
  pub parse_subset-SubsetAnswer :
      (raw : Text) (bases : List Text)
      → SubsetAnswer
          (map (clean to_lower) bases)
          (parse to_lower [] raw)
          (parse_subset to_lower raw bases)
  unfolding parse_subset
  parse_subset-SubsetAnswer raw bases =
      check_known-SubsetAnswer (map (clean to_lower) bases) (parse to_lower [] raw)
