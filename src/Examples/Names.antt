-- ===== src/Examples/Names.antt =====
-- The theorems on telephone numbers and base domains, applied.
use muvee.Prelude.{ℕ, ◌≡◌, refl, Option, some, [], ◌∷◌, ◌+◌, leb, ◌&&◌, if◌then◌else◌}
use muvee.Text.{Text, codes}
use muvee.Sms.{normalize_phone, is_cn_mobile}
use muvee.Sms.Spelling.{IsE164, normalize_phone-normalize_phone, normalize_phone-cn}
use muvee.Domains.{match_base, normalize_host}
use muvee.Domains.Matching.{Answer, match_base-Answer}

normalize_phone-normalize_phone_example :
    IsE164 (codes "+4915112345678")
    × (normalize_phone (codes "+4915112345678") ≡ some (codes "+4915112345678"))
unfolding normalize_phone
normalize_phone-normalize_phone_example =
    normalize_phone-normalize_phone (codes " +49 (151) 1234-5678") (codes "+4915112345678") refl

normalize_phone-cn_example :
    let e : Option Text = some (codes "+8613800138000") in
    (normalize_phone (codes "13800138000") ≡ e)
    × (normalize_phone (codes "8613800138000") ≡ e)
    × (normalize_phone (codes "008613800138000") ≡ e)
    × (normalize_phone (codes "+8613800138000") ≡ e)
unfolding is_cn_mobile
normalize_phone-cn_example = normalize_phone-cn (codes "13800138000") refl

-- The letters of ASCII.
abbrev pub ascii_lower : ℕ → ℕ
ascii_lower c = if leb b'A' c && leb c b'Z' then c + 32 else c

match_base-Answer_example :
    Answer ascii_lower
      (normalize_host ascii_lower (codes "App.Example.org:8080"))
      (codes "example.org" ∷ codes "org" ∷ [])
      (match_base ascii_lower
        (codes "App.Example.org:8080")
        (codes "example.org" ∷ codes "org" ∷ []))
match_base-Answer_example =
    match_base-Answer ascii_lower (codes "App.Example.org:8080")
      (codes "example.org" ∷ codes "org" ∷ [])
