-- ===== src/Domains/Matching.antt =====
-- The base domain that Match picks, against what its comment asks for.
use muvee.Prelude.{
  ℕ, ◌≤◌, ◌<◌, Bool, true, false, ◌&&◌, not, Option, none, some, List, [], ◌∷◌, ltb, length, any,
  ◌≡◌, ◌⊎◌, inl, inr, refl, arith, Bool-cases, All, sym, ap, ◌∙◌,
}
use mathlib.Core.Path.{subst}
use muvee.Prelude.Keys.{All-weaken}
use muvee.Text.{Text, same_text}
use muvee.Text.Affixes.{eq_of_same_text, same_text_refl}
use muvee.Domains.{clean, belongs, better, best_base, found, match_base, normalize_host}

module _ (to_lower : ℕ → ℕ) where
  -- A base domain that the host lies under.
  abbrev fits : Text → Text → Bool
  fits host b = not (same_text b []) && belongs to_lower host b

  -- The base is configured, the host lies under it, and under no longer one.
  abbrev pub IsBest : Text → List Text → Text → Type 0
  IsBest host bases b =
      (any (λ c. same_text b (clean to_lower c)) bases ≡ true)
      × (fits host b ≡ true)
      × All (λ c. fits host (clean to_lower c) ≡ true → length (clean to_lower c) ≤ length b) bases

  better-cases :
      (host best b : Text)
      → ((better to_lower host best b ≡ b) × (fits host b ≡ true) × (length best < length b))
        ⊎ ((better to_lower host best b ≡ best) × (fits host b ≡ true → length b ≤ length best))
  unfolding better
  better-cases host best b = elim (Bool-cases (fits host b)) [
    | inl e ↦ elim (Bool-cases (ltb (length best) (length b))) [
      | inl l ↦ inl (rw (e, l) refl, e, ground arith)
      | inr l ↦ inr (rw (e, l) refl, λ _. ground arith)
    ]
    | inr e ↦ inr (rw e refl, λ k. ground arith)
  ]

  better-grows : (host best b : Text) → length best ≤ length (better to_lower host best b)
  better-grows host best b = elim (better-cases host best b) [
    | inl r ↦ rw r.0 (omega (arith, r.2))
    | inr r ↦ rw r.0 (omega arith)
  ]

  better-longest :
      (host best b : Text) → fits host b ≡ true → length b ≤ length (better to_lower host best b)
  better-longest host best b h = elim (better-cases host best b) [
    | inl r ↦ rw r.0 (omega arith)
    | inr r ↦ rw r.0 (r.1 h)
  ]

  best_base-grows :
      (host best : Text) (bs : List Text) → length best ≤ length (best_base to_lower host best bs)
  unfolding best_base
  best_base-grows host best [] = omega arith
  best_base-grows host best (b ∷ bs) =
      let c : Text = clean to_lower b in
      omega (arith, better-grows host best c, best_base-grows host (better to_lower host best c) bs)

  best_base-longest :
      (host best : Text) (bs : List Text)
      → All
          (λ c.
            fits host (clean to_lower c) ≡ true
            → length (clean to_lower c) ≤ length (best_base to_lower host best bs))
          bs
  unfolding best_base
  best_base-longest host best [] = tt
  best_base-longest host best (b ∷ bs) =
      let c : Text = clean to_lower b in
      let next : Text = better to_lower host best c in
      (
        λ h. omega (arith, better-longest host best c h, best_base-grows host next bs),
        best_base-longest host next bs,
      )

  -- The result is what the loop started with, or one of the bases.
  Source : Text → Text → List Text → Text → Type 0
  Source host best bs r =
      (r ≡ best) ⊎ ((any (λ c. same_text r (clean to_lower c)) bs ≡ true) × (fits host r ≡ true))

  Source-skip :
      (host best b r : Text) (bs : List Text)
      → Source host (better to_lower host best (clean to_lower b)) bs r
      → Source host best (b ∷ bs) r
  unfolding Source
  Source-skip host best b r bs (inr h) = inr (ground arith, h.1)
  Source-skip host best b r bs (inl h) = elim (better-cases host best (clean to_lower b)) [
    | inl k ↦ inr (
      rw (h, k.0, same_text_refl (clean to_lower b)) refl,
      subst (λ t. fits host t ≡ true) (sym (h ∙ k.0)) k.1,
    )
    | inr k ↦ inl (h ∙ k.0)
  ]

  best_base-Source :
      (host best : Text) (bs : List Text) → Source host best bs (best_base to_lower host best bs)
  unfolding best_base Source
  best_base-Source host best [] = inl refl
  best_base-Source host best (b ∷ bs) =
      Source-skip host best b
        (best_base to_lower host (better to_lower host best (clean to_lower b)) bs) bs
        (best_base-Source host (better to_lower host best (clean to_lower b)) bs)

  found-cases :
      (t : Text)
      → ((found to_lower t ≡ none) × (t ≡ []))
        ⊎ ((found to_lower t ≡ some t) × (same_text t [] ≡ false))
  unfolding found
  found-cases [] = inl (refl, refl)
  found-cases (c ∷ cs) = inr (refl, refl)

  abbrev pub Answer : Text → List Text → Option Text → Type 0
  Answer host bases (some b) = IsBest host bases b
  Answer host bases none = (host ≡ []) ⊎ All (λ c. fits host (clean to_lower c) ≡ false) bases

  unfit : (host c : Text) → (fits host c ≡ true → length c ≤ 0) → fits host c ≡ false
  unfit host [] h = refl
  unfit host (c ∷ cs) h = ground (arith, h)

  Source-base :
      (host r : Text) (bases : List Text)
      → same_text r [] ≡ false
      → Source host [] bases r
      → (any (λ c. same_text r (clean to_lower c)) bases ≡ true) × (fits host r ≡ true)
  unfolding Source
  Source-base host r bases n (inl e) = cc (n, ap (λ t. same_text t []) e)
  Source-base host r bases n (inr h) = h

  best_base-Answer :
      (host : Text) (bases : List Text)
      → Answer host bases (found to_lower (best_base to_lower host [] bases))
  best_base-Answer host bases =
      let r : Text = best_base to_lower host [] bases in
      elim (found-cases r) [
        | inl k ↦ rw k.0 (
            inr (
              All-weaken
                (λ c. fits host (clean to_lower c) ≡ true → length (clean to_lower c) ≤ length r)
                (λ c. fits host (clean to_lower c) ≡ false) bases
                (λ c h. unfit host (clean to_lower c) (λ f. omega (arith, h f, ap length k.1)))
                (best_base-longest host [] bases)))
        | inr k ↦
            let src = Source-base host r bases k.1 (best_base-Source host [] bases) in
            rw k.0 (src.0, src.1, best_base-longest host [] bases)
      ]

  -- What Match answers, with the host normalised: the longest base domain that the host equals or
  -- is a subdomain of, which is a configured one; or none, and then the host is empty or lies
  -- under no configured base domain.
  pub match_base-Answer :
      (host : Text) (bases : List Text)
      → Answer (normalize_host to_lower host) bases (match_base to_lower host bases)
  unfolding match_base
  match_base-Answer host bases =
      let h : Text = normalize_host to_lower host in
      elim (Bool-cases (same_text h [])) [
        | inl e ↦ rw e (inl (eq_of_same_text h [] e))
        | inr e ↦ rw e (best_base-Answer h bases)
      ]
