-- ===== src/Sms/Spelling.antt =====
-- The spellings of a telephone number that normalize_phone takes for the same number.
use muvee.Prelude.{
  ℕ, true, false, ◌&&◌, Option, some, [], ◌∷◌, ◌++◌, ◌≡◌, ◌⊎◌, refl, arith, length, Bool-cases, inl,
  inr, ◌==◌, drop, ◌∙◌, ap, sym, ◌≤◌,
}
use mathlib.Core.Path.{subst}
use muvee.Text.{Text, every, is_digit, has_prefix}
use muvee.Text.Trimming.{every-head}
use muvee.Sms.{
  is_cn_mobile, cn_prefix, cn_number, international, domestic, stripped, normalize_stripped,
  normalize_phone, trim_prefix,
}
use muvee.Sms.Digits.{
  stripped-digits, cn_mobile-digits, cn_mobile-length, cn_number-some, international-cn,
  normalize-plus, international-digits, cn_number-cases,
}

-- A plus sign and between eight and fifteen digits.
abbrev pub IsE164 : Text → Type 0
IsE164 e =
    (d : Text) × (e ≡ b'+' ∷ d) × (every is_digit d ≡ true) × (8 ≤ length d) × (length d ≤ 15)

-- What a number that was accepted has: the form, and that it is accepted as it stands.
abbrev IsNormal : Text → Type 0
IsNormal e = IsE164 e × (normalize_phone e ≡ some e)

cn_number-IsNormal : (s e : Text) → cn_number s ≡ some e → IsNormal e
cn_number-IsNormal s e h =
    let (m, q) = cn_number-cases s e h in
    subst IsNormal (sym q) (
      (
        cn_prefix ++ s,
        refl,
        cn_mobile-digits s m,
        omega (arith, cn_mobile-length s m),
        omega (arith, cn_mobile-length s m),
      ),
      normalize-plus (cn_prefix ++ s) (cn_mobile-digits s m) ∙ international-cn s m,
    )

international-cases :
    (d e : Text)
    → international d ≡ some e
    → (cn_number (drop 2 d) ≡ some e) ⊎ ((e ≡ b'+' ∷ d) × (8 ≤ length d) × (length d ≤ 15))
unfolding international
international-cases d e h = elim (Bool-cases (has_prefix cn_prefix d)) [
  | inl p ↦ inl (ground arith)
  | inr p ↦ inr (ground arith)
]

international-IsNormal : (d e : Text) → international d ≡ some e → IsNormal e
international-IsNormal d e h = elim (international-cases d e h) [
  | inl c ↦ cn_number-IsNormal (drop 2 d) e c
  | inr r ↦ (
    (d, r.0, international-digits d e h, r.1, r.2),
    ap normalize_phone r.0 ∙ normalize-plus d (international-digits d e h) ∙ h,
  )
]

domestic-IsNormal : (s e : Text) → domestic s ≡ some e → IsNormal e
unfolding domestic
domestic-IsNormal s e h =
    let t : Text = trim_prefix (b'0' ∷ b'0' ∷ cn_prefix) s in
    elim (Bool-cases ((length t == 13) && has_prefix cn_prefix t)) [
      | inl p ↦ cn_number-IsNormal (drop 2 t) e (ground arith)
      | inr p ↦ cn_number-IsNormal t e (ground arith)
    ]

normalize_stripped-IsNormal : (s e : Text) → normalize_stripped s ≡ some e → IsNormal e
unfolding normalize_stripped
normalize_stripped-IsNormal [] e h = cc h
normalize_stripped-IsNormal (c ∷ cs) e h = elim (Bool-cases (c == b'+')) [
  | inl p ↦ international-IsNormal cs e (ground arith)
  | inr p ↦ domestic-IsNormal (c ∷ cs) e (ground arith)
]

-- A number that normalize_phone accepts comes out as a plus sign and eight to fifteen digits, and
-- normalize_phone gives the result back unchanged.
pub normalize_phone-normalize_phone :
    (raw e : Text) → normalize_phone raw ≡ some e → IsE164 e × (normalize_phone e ≡ some e)
unfolding normalize_phone
normalize_phone-normalize_phone raw e h = normalize_stripped-IsNormal (stripped raw) e h

domestic-cn :
    (n : Text)
    → is_cn_mobile n ≡ true
    → (domestic n ≡ cn_number n)
      × (domestic (cn_prefix ++ n) ≡ cn_number n)
      × (domestic (b'0' ∷ b'0' ∷ cn_prefix ++ n) ≡ cn_number n)
unfolding domestic is_cn_mobile
domestic-cn [] h = cc h
domestic-cn (a ∷ []) h = cc h
domestic-cn (a ∷ b ∷ cs) h = (ground arith, ground arith, ground arith)

digit-not_plus : (c : ℕ) → is_digit c ≡ true → (c == b'+') ≡ false
digit-not_plus c h = ground arith

normalize-digits :
    (c : ℕ) (cs : Text)
    → every is_digit (c ∷ cs) ≡ true
    → normalize_phone (c ∷ cs) ≡ domestic (c ∷ cs)
unfolding normalize_phone normalize_stripped
normalize-digits c cs h =
    rw (stripped-digits (c ∷ cs) h, digit-not_plus c (every-head is_digit c cs h)) refl

normalize-bare : (n : Text) → is_cn_mobile n ≡ true → normalize_phone n ≡ domestic n
unfolding is_cn_mobile
normalize-bare [] h = cc h
normalize-bare (c ∷ cs) h = normalize-digits c cs (cn_mobile-digits (c ∷ cs) h)

-- The bare number of a Chinese mobile, and the same behind 86, 0086 and +86, are accepted as one
-- number, the last of the four.
pub normalize_phone-cn :
    (n : Text)
    → is_cn_mobile n ≡ true
    → let e : Option Text = some (b'+' ∷ cn_prefix ++ n) in
      (normalize_phone n ≡ e)
      × (normalize_phone (cn_prefix ++ n) ≡ e)
      × (normalize_phone (b'0' ∷ b'0' ∷ cn_prefix ++ n) ≡ e)
      × (normalize_phone (b'+' ∷ cn_prefix ++ n) ≡ e)
normalize_phone-cn n h =
    let d : every is_digit n ≡ true = cn_mobile-digits n h in
    let (bare, short, long) = domestic-cn n h in
    let e : cn_number n ≡ some (b'+' ∷ cn_prefix ++ n) = cn_number-some n h in
    (
      normalize-bare n h ∙ bare ∙ e,
      normalize-digits b'8' (b'6' ∷ n) d ∙ short ∙ e,
      normalize-digits b'0' (b'0' ∷ cn_prefix ++ n) d ∙ long ∙ e,
      normalize-plus (cn_prefix ++ n) d ∙ international-cn n h,
    )
