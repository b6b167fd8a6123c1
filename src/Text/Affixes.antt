-- ===== src/Text/Affixes.antt =====
-- Prefixes and suffixes of texts.
use muvee.Prelude.{
  sym, ◌∙◌, ==_iff, Option, ℕ, Bool, true, false, [], ◌∷◌, ◌++◌, ◌≡◌, refl, ap, not, ◌&&◌, none,
  some, length-append, arith, ==_refl, ◌==◌, length, Bool-cases, inl, inr, ◌⊎◌,
}
use muvee.Text.Words.{around, split_first, split_last, trim_suffix}
use muvee.Text.Trimming.{every-tail, every-head, not-false}
use muvee.Text.{every, Text, same_text, has_prefix, has_suffix}

pub same_text_refl : (s : Text) → same_text s s ≡ true
same_text_refl [] = refl
same_text_refl (c ∷ cs) = ground (arith, ==_refl c, same_text_refl cs)

pub eq_of_same_text : (s t : Text) → same_text s t ≡ true → s ≡ t
eq_of_same_text [] [] h = refl
eq_of_same_text [] (d ∷ ds) h = cc h
eq_of_same_text (c ∷ cs) [] h = cc h
eq_of_same_text (c ∷ cs) (d ∷ ds) h = ground (arith, eq_of_same_text cs ds)

pub has_prefix-append : (p s : Text) → has_prefix p (p ++ s) ≡ true
has_prefix-append [] s = refl
has_prefix-append (c ∷ cs) s = ground (arith, ==_refl c, has_prefix-append cs s)

pub same_text-cases : (s t : Text) → (s ≡ t) ⊎ (same_text s t ≡ false)
same_text-cases s t = elim (Bool-cases (same_text s t)) [
  | inl e ↦ inl (eq_of_same_text s t e)
  | inr e ↦ inr e
]

pub length-same_text : (s t : Text) → same_text s t ≡ true → length s ≡ length t
length-same_text s t h = ap length (eq_of_same_text s t h)

-- A longer text is another one.
longer : (p s : Text) (c : ℕ) → same_text p (c ∷ s ++ p) ≡ false
longer p s c = elim (Bool-cases (same_text p (c ∷ s ++ p))) [
  | inl e ↦ absurd (omega (arith, length-same_text p (c ∷ s ++ p) e, length-append s p))
  | inr e ↦ e
]

pub has_suffix-append : (p s : Text) → has_suffix p (s ++ p) ≡ true
has_suffix-append [] [] = refl
has_suffix-append (d ∷ ds) [] = rw (same_text_refl (d ∷ ds)) refl
has_suffix-append p (c ∷ cs) = rw (longer p cs c) (has_suffix-append p cs)

pub trim_suffix-append : (d : ℕ) (p s : Text) → trim_suffix (d ∷ p) (s ++ d ∷ p) ≡ s
trim_suffix-append d p [] = rw (same_text_refl (d ∷ p)) refl
trim_suffix-append d p (c ∷ cs) = rw (longer (d ∷ p) cs c) (ap (◌∷◌ c) (trim_suffix-append d p cs))

-- No code point is the separator.
abbrev pub lacks : ℕ → Text → Bool
lacks sep = every (λ c. not (c == sep))

pub split_last-lacks : (sep : ℕ) (s : Text) → lacks sep s ≡ true → split_last sep s ≡ none
split_last-lacks sep [] h = refl
split_last-lacks sep (c ∷ cs) h =
    rw (split_last-lacks sep cs (every-tail (λ c. not (c == sep)) c cs h)) (ground arith)

pub split_last-append :
    (sep : ℕ) (s t : Text) → lacks sep t ≡ true → split_last sep (s ++ sep ∷ t) ≡ some (s, sep ∷ t)
split_last-append sep [] t h = rw (split_last-lacks sep t h, ==_refl sep) refl
split_last-append sep (c ∷ cs) t h = rw (split_last-append sep cs t h) refl

pub every-append : (p : ℕ → Bool) (s t : Text) → every p (s ++ t) ≡ every p s && every p t
every-append p [] t = refl
every-append p (c ∷ cs) t = ground (arith, every-append p cs t)

pub split_first-append :
    (sep : ℕ) (s t : Text) → lacks sep s ≡ true → split_first sep (s ++ sep ∷ t) ≡ some (s, t)
split_first-append sep [] t h = rw (==_refl sep) refl
split_first-append sep (c ∷ cs) t h =
    rw
      (
        split_first-append sep cs t (every-tail (λ c. not (c == sep)) c cs h),
        not-false (c == sep) (every-head (λ c. not (c == sep)) c cs h),
      )
      refl

some_pair : {a b : Text × Text} → some a ≡ some b → a ≡ b
some_pair h = cc h

glue : ℕ → Text × Text → Text
glue sep r = r.0 ++ sep ∷ r.1

around-parts :
    (sep c : ℕ) (cs s t : Text) (o : Option (Text × Text))
    → ((a b : Text) → o ≡ some (a, b) → cs ≡ a ++ sep ∷ b)
    → (c == sep) ≡ false
    → around sep c cs o ≡ some (s, t)
    → c ∷ cs ≡ s ++ sep ∷ t
unfolding glue
around-parts sep c cs s t none k n h = ground (arith, n, h)
around-parts sep c cs s t (some (a, b)) k n h =
    let same : around sep c cs (some (a, b)) ≡ some (c ∷ a, b) = rw n refl in
    ap (◌∷◌ c) (k a b refl) ∙ ap (glue sep) (some_pair {a = (c ∷ a, b)} {b = (s, t)} (sym same ∙ h))

pub split_first-parts :
    (sep : ℕ) (u s t : Text) → split_first sep u ≡ some (s, t) → u ≡ s ++ sep ∷ t
unfolding glue
split_first-parts sep [] s t h = cc h
split_first-parts sep (c ∷ cs) s t h = elim (Bool-cases (c == sep)) [
  | inl e ↦
      let same : around sep c cs (split_first sep cs) ≡ some ([], cs) = rw e refl in
      ap (λ x. x ∷ cs) ((==_iff c sep).0 e)
      ∙ ap (glue sep) (some_pair {a = ([], cs)} {b = (s, t)} (sym same ∙ h))
  | inr e ↦ around-parts sep c cs s t (split_first sep cs) (λ a b. split_first-parts sep cs a b) e h
]
