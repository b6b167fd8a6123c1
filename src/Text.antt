-- ===== src/Text.antt =====
-- The functions of Go's strings and unicode packages that the program calls, on texts as lists of
-- code points. The program's texts are UTF-8, so a prefix or a suffix of one is the same in bytes
-- and in code points.
pub mod Words
pub mod Affixes
pub mod Trimming
use Prim.Native.Char.{code}
use muvee.Prelude.{
  ℕ, Bool, true, false, ◌&&◌, ◌||◌, List, [], ◌∷◌, ◌++◌, ◌==◌, leb, if◌then◌else◌, String, length,
  not, select,
}

abbrev pub Text : Type 0
Text = List ℕ

abbrev pub codes : String → Text
codes String.[] = []
codes (String.◌∷◌ c s) = code c ∷ codes s

-- unicode.IsSpace
abbrev pub is_space : ℕ → Bool
is_space c =
    (leb 9 c && leb c 13)
    || c == 0x20
    || c == 0x85
    || c == 0xa0
    || c == 0x1680
    || (leb 0x2000 c && leb c 0x200a)
    || c == 0x2028
    || c == 0x2029
    || c == 0x202f
    || c == 0x205f
    || c == 0x3000

abbrev pub same_text : Text → Text → Bool
same_text [] [] = true
same_text [] (d ∷ ds) = false
same_text (c ∷ cs) [] = false
same_text (c ∷ cs) (d ∷ ds) = (c == d) && same_text cs ds

-- strings.HasPrefix s p, with the prefix first
abbrev pub has_prefix : Text → Text → Bool
has_prefix [] s = true
has_prefix (p ∷ ps) [] = false
has_prefix (p ∷ ps) (c ∷ cs) = (p == c) && has_prefix ps cs

-- strings.HasSuffix s p, with the suffix first
abbrev pub has_suffix : Text → Text → Bool
has_suffix p [] = same_text p []
has_suffix p (c ∷ cs) = same_text p (c ∷ cs) || has_suffix p cs

-- Every code point passes the test.
abbrev pub every : (ℕ → Bool) → Text → Bool
every p [] = true
every p (c ∷ cs) = p c && every p cs

abbrev pub is_digit : ℕ → Bool
is_digit c = leb b'0' c && leb c b'9'

abbrev pub trim_start : Text → Text
trim_start [] = []
trim_start (c ∷ cs) = if is_space c then trim_start cs else c ∷ cs

abbrev keep_end : ℕ → Text → Text
keep_end c [] = if is_space c then [] else c ∷ []
keep_end c (d ∷ ds) = c ∷ d ∷ ds

abbrev pub trim_end : Text → Text
trim_end [] = []
trim_end (c ∷ cs) = keep_end c (trim_end cs)

-- strings.TrimSpace
abbrev pub trim_space : Text → Text
trim_space s = trim_end (trim_start s)
