-- ===== src/Text/Words.antt =====
-- Taking texts apart at a code point.
use mathlib.Core.Option
use muvee.Prelude.{any, ℕ, Bool, Option, none, some, List, [], ◌∷◌, ◌==◌, if◌then◌else◌}
use muvee.Text.{Text, same_text}

abbrev onto_first : ℕ → List Text → List Text
onto_first c [] = (c ∷ []) ∷ []
onto_first c (w ∷ ws) = (c ∷ w) ∷ ws

-- strings.Split, at one code point
abbrev pub split : ℕ → Text → List Text
split sep [] = [] ∷ []
split sep (c ∷ cs) =
    let rest : List Text = split sep cs in if c == sep then [] ∷ rest else onto_first c rest

abbrev later : ℕ → ℕ → Text → Option (Text × Text) → Option (Text × Text)
later sep c cs (some (front, back)) = some (c ∷ front, back)
later sep c cs none = if c == sep then some ([], c ∷ cs) else none

-- What stands before the last occurrence of a code point (strings.LastIndexByte), and the rest
-- from there.
abbrev pub split_last : ℕ → Text → Option (Text × Text)
split_last sep [] = none
split_last sep (c ∷ cs) = later sep c cs (split_last sep cs)

-- Is the text in the list?
abbrev pub member : Text → List Text → Bool
member t ws = any (same_text t) ws

-- strings.TrimSuffix s p, with the suffix first
abbrev pub trim_suffix : Text → Text → Text
trim_suffix p [] = []
trim_suffix p (c ∷ cs) =
    let rest : Text = trim_suffix p cs in if same_text p (c ∷ cs) then [] else c ∷ rest

abbrev pub around : ℕ → ℕ → Text → Option (Text × Text) → Option (Text × Text)
around sep c cs rest =
    if c == sep then some ([], cs) else Option.map (λ (r : Text × Text). (c ∷ r.0, r.1)) rest

-- What stands before and after the first occurrence of a code point (strings.SplitN with 2).
abbrev pub split_first : ℕ → Text → Option (Text × Text)
split_first sep [] = none
split_first sep (c ∷ cs) = around sep c cs (split_first sep cs)
