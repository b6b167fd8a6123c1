-- ===== src/Sms/Digits.antt =====
-- Texts of digits: what is stripped of them, and what the branches of normalize_phone do with them.
use muvee.Prelude.{ℕ, true, false, not, some, [], ◌∷◌, ◌++◌, ◌≡◌, refl, arith, length, select, ap}
use muvee.Text.{Text, every, is_digit, is_space}
use muvee.Text.Trimming.{every-weaken, trim_space-solid}
use muvee.Sms.{
  is_cn_mobile, is_separator, is_digits, cn_prefix, cn_number, international, stripped,
  normalize_stripped, normalize_phone,
}

pub digit-solid : (c : ℕ) → is_digit c ≡ true → not (is_space c) ≡ true
digit-solid c h = ground arith

pub digit-kept : (c : ℕ) → is_digit c ≡ true → is_separator c ≡ false
unfolding is_separator
digit-kept c h = ground arith

pub digits-kept : (s : Text) → every is_digit s ≡ true → select (λ c. not (is_separator c)) s ≡ s
digits-kept [] h = refl
digits-kept (c ∷ cs) h = ground (arith, digit-kept c, digits-kept cs)

pub stripped-digits : (d : Text) → every is_digit d ≡ true → stripped d ≡ d
unfolding stripped
stripped-digits d h =
    rw (trim_space-solid d (every-weaken is_digit (λ c. not (is_space c)) d digit-solid h))
      (digits-kept d h)

pub stripped-plus : (d : Text) → every is_digit d ≡ true → stripped (b'+' ∷ d) ≡ b'+' ∷ d
unfolding stripped is_separator
stripped-plus d h =
    rw (trim_space-solid (b'+' ∷ d) (every-weaken is_digit (λ c. not (is_space c)) d digit-solid h))
      (ap (◌∷◌ b'+') (digits-kept d h))

pub cn_mobile-digits : (s : Text) → is_cn_mobile s ≡ true → every is_digit s ≡ true
unfolding is_cn_mobile
cn_mobile-digits [] h = refl
cn_mobile-digits (a ∷ []) h = cc h
cn_mobile-digits (a ∷ b ∷ cs) h = ground arith

pub cn_mobile-length : (s : Text) → is_cn_mobile s ≡ true → length s ≡ 11
unfolding is_cn_mobile
cn_mobile-length [] h = cc h
cn_mobile-length (a ∷ []) h = cc h
cn_mobile-length (a ∷ b ∷ cs) h = ground arith

pub cn_number-some : (s : Text) → is_cn_mobile s ≡ true → cn_number s ≡ some (b'+' ∷ cn_prefix ++ s)
unfolding cn_number
cn_number-some s h = rw h refl

pub international-cn :
    (s : Text)
    → is_cn_mobile s ≡ true
    → international (cn_prefix ++ s) ≡ some (b'+' ∷ cn_prefix ++ s)
unfolding international is_digits
international-cn s h = rw (cn_mobile-digits s h, cn_mobile-length s h) (cn_number-some s h)

pub normalize-plus :
    (d : Text) → every is_digit d ≡ true → normalize_phone (b'+' ∷ d) ≡ international d
unfolding normalize_phone normalize_stripped
normalize-plus d h = rw (stripped-plus d h) refl

pub international-digits : (d e : Text) → international d ≡ some e → every is_digit d ≡ true
unfolding international is_digits
international-digits [] e h = refl
international-digits (c ∷ cs) e h = ground arith

-- What is accepted is the number of a Chinese mobile, or the digits that were given.
pub cn_number-cases :
    (s e : Text) → cn_number s ≡ some e → (is_cn_mobile s ≡ true) × (e ≡ b'+' ∷ cn_prefix ++ s)
unfolding cn_number
cn_number-cases s e h = ground arith
