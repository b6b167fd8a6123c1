-- ===== src/Sms.antt =====
-- internal/sms/phone.go: telephone numbers brought into the form E.164. `none` is ErrInvalidPhone.
pub mod Digits
pub mod Spelling
use muvee.Prelude.{
  ℕ, Bool, true, false, ◌&&◌, ◌||◌, Option, none, some, List, [], ◌∷◌, ◌++◌, ◌==◌, leb, ltb,
  if◌then◌else◌, length, select, not, drop,
}
use muvee.Text.{Text, has_prefix, every, is_digit, trim_space}

-- The regular expression ^1[3-9]\d{9}$
unfoldable pub is_cn_mobile : Text → Bool
is_cn_mobile [] = false
is_cn_mobile (a ∷ []) = false
is_cn_mobile (a ∷ b ∷ cs) =
    (a == b'1') && (leb b'3' b && leb b b'9') && (length cs == 9) && every is_digit cs

unfoldable pub is_separator : ℕ → Bool
is_separator c = c == b' ' || c == b'-' || c == b'(' || c == b')'

unfoldable pub is_digits : Text → Bool
is_digits [] = false
is_digits (c ∷ cs) = every is_digit (c ∷ cs)

abbrev pub cn_prefix : Text
cn_prefix = b'8' ∷ b'6' ∷ []

-- strings.TrimPrefix s p, with the prefix first
abbrev pub trim_prefix : Text → Text → Text
trim_prefix p s = if has_prefix p s then drop (length p) s else s

-- "+86" and a Chinese mobile number
unfoldable pub cn_number : Text → Option Text
unfolding is_cn_mobile
cn_number s = if is_cn_mobile s then some (b'+' ∷ b'8' ∷ b'6' ∷ s) else none

-- The branch for a number that starts with "+", on what follows it.
unfoldable pub international : Text → Option Text
unfolding is_digits cn_number
international digits =
    if not (is_digits digits) || ltb (length digits) 8 || ltb 15 (length digits)
    then none
    else if has_prefix cn_prefix digits
    then cn_number (drop 2 digits)
    else some (b'+' ∷ digits)

-- The branch for bare digits, with an optional 0086 or 86 in front. The length is in code points; a
-- text with others than digits, where that differs from bytes, is refused with the 86 or without.
unfoldable pub domestic : Text → Option Text
unfolding cn_number
domestic s =
    let t : Text = trim_prefix (b'0' ∷ b'0' ∷ cn_prefix) s in
    if (length t == 13) && has_prefix cn_prefix t then cn_number (drop 2 t) else cn_number t

unfoldable pub stripped : Text → Text
unfolding is_separator
stripped raw = select (λ c. not (is_separator c)) (trim_space raw)

unfoldable pub normalize_stripped : Text → Option Text
unfolding international domestic
normalize_stripped [] = none
normalize_stripped (c ∷ cs) = if c == b'+' then international cs else domestic (c ∷ cs)

unfoldable pub normalize_phone : Text → Option Text
unfolding stripped normalize_stripped
normalize_phone raw = normalize_stripped (stripped raw)
