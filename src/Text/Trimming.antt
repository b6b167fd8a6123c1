-- ===== src/Text/Trimming.antt =====
-- Trimming the space around a text.
use muvee.Prelude.{ℕ, Bool, true, not, [], ◌∷◌, ◌≡◌, refl, arith, false}
use muvee.Text.{Text, is_space, every, trim_start, trim_end, trim_space}

-- No code point is a space.
abbrev pub is_solid : Text → Bool
is_solid = every (λ c. not (is_space c))

pub every-tail : (p : ℕ → Bool) (c : ℕ) (s : Text) → every p (c ∷ s) ≡ true → every p s ≡ true
every-tail p c s h = ground arith

pub every-head : (p : ℕ → Bool) (c : ℕ) (s : Text) → every p (c ∷ s) ≡ true → p c ≡ true
every-head p c s h = ground arith

pub every-weaken :
    (p q : ℕ → Bool) (s : Text)
    → ((c : ℕ) → p c ≡ true → q c ≡ true)
    → every p s ≡ true
    → every q s ≡ true
every-weaken p q [] f h = refl
every-weaken p q (c ∷ cs) f h =
    rw (f c (every-head p c cs h)) (every-weaken p q cs f (every-tail p c cs h))

pub not-false : (b : Bool) → not b ≡ true → b ≡ false
not-false b h = ground arith

pub trim_end-solid : (s : Text) → is_solid s ≡ true → trim_end s ≡ s
trim_end-solid [] h = refl
trim_end-solid (c ∷ []) h =
    rw (not-false (is_space c) (every-head (λ c. not (is_space c)) c [] h)) refl
trim_end-solid (c ∷ d ∷ ds) h =
    rw (trim_end-solid (d ∷ ds) (every-tail (λ c. not (is_space c)) c (d ∷ ds) h)) refl

pub trim_start-solid : (s : Text) → is_solid s ≡ true → trim_start s ≡ s
trim_start-solid [] h = refl
trim_start-solid (c ∷ cs) h =
    rw (not-false (is_space c) (every-head (λ c. not (is_space c)) c cs h)) refl

pub trim_space-solid : (s : Text) → is_solid s ≡ true → trim_space s ≡ s
trim_space-solid s h = rw (trim_start-solid s h) (trim_end-solid s h)
