-- ===== src/Limiter.antt =====
-- internal/builder/limiter.go: the cap on concurrent builds. The channel `sem` is the number of
-- slots in it; a build that is in Acquire waits. Which of the waiting builds goes on is up to the
-- runtime, so a state only counts them, and the interleavings are the steps.
use muvee.Prelude.{
  ℕ, zero, suc, ◌+◌, ◌-◌, ◌≤◌, ◌<◌, ◌≡◌, ◌⊎◌, refl, inl, inr, String, Option, none, some, true,
  false, arith, ltb, if◌then◌else◌, str_eq, Bool-cases, lt→ltb, ltb→lt,
}

abbrev pub default_build_max_concurrent : ℕ
default_build_max_concurrent = 1

pub record BuildLimiter : Type 0 where
  pub capacity : ℕ
  pub held : ℕ
  pub waiting : ℕ

-- NewBuildLimiter; a negative cap is 0.
unfoldable pub new_build_limiter : ℕ → BuildLimiter
new_build_limiter n = record { capacity = if ltb n 1 then 1 else n; held = 0; waiting = 0 }

-- A build calls Acquire.
unfoldable pub arrive : BuildLimiter → BuildLimiter
arrive l = record l { waiting = l.waiting + 1 }

-- `l.sem <- struct{}{}` of a build that waits; `none` where it blocks.
unfoldable pub acquire : BuildLimiter → Option BuildLimiter
acquire l =
    if ltb 0 l.waiting
    then if ltb l.held l.capacity
      then some (record l { held = l.held + 1; waiting = l.waiting - 1 })
      else none
    else none

-- The context of a build that waits is done: no slot is taken.
unfoldable pub cancel : BuildLimiter → Option BuildLimiter
cancel l = if ltb 0 l.waiting then some (record l { waiting = l.waiting - 1 }) else none

-- Release; `none` where it blocks.
unfoldable pub release : BuildLimiter → Option BuildLimiter
release l = if ltb 0 l.held then some (record l { held = l.held - 1 }) else none

-- The cap from BUILDER_MAX_CONCURRENT. `trim` is strings.TrimSpace, and `atoi` is strconv.Atoi, with
-- `none` for its error; a number below 0 is 0.
unfoldable pub parse_build_max_concurrent :
    (trim : String → String) (atoi : String → Option ℕ) → String → ℕ
parse_build_max_concurrent trim atoi raw =
    if str_eq (trim raw) "" then default_build_max_concurrent else elim (atoi (trim raw)) [
      | none ↦ default_build_max_concurrent
      | some n ↦ if ltb n 1 then default_build_max_concurrent else n
    ]

-- DefaultBuildLimiter
unfoldable pub default_build_limiter :
    (trim : String → String) (atoi : String → Option ℕ) → String → BuildLimiter
unfolding new_build_limiter parse_build_max_concurrent
default_build_limiter trim atoi raw = new_build_limiter (parse_build_max_concurrent trim atoi raw)

-- What the builds do, in any order.
pub data Step : BuildLimiter → BuildLimiter → Type 0 where
  arrives : (l : BuildLimiter) → Step l (arrive l)
  acquires : (l k : BuildLimiter) → acquire l ≡ some k → Step l k
  cancels : (l k : BuildLimiter) → cancel l ≡ some k → Step l k
  releases : (l k : BuildLimiter) → release l ≡ some k → Step l k

pub data Reachable (first : BuildLimiter) : BuildLimiter → Type 0 where
  new : Reachable first first
  next : (l k : BuildLimiter) → Reachable first l → Step l k → Reachable first k

-- The cap that the variable asks for: its number if that is at least 1, and otherwise 1.
pub data Allows (trim : String → String) (atoi : String → Option ℕ) (raw : String)
    : ℕ → Type 0 where
  configured :
      (n : ℕ)
      → str_eq (trim raw) "" ≡ false
      → atoi (trim raw) ≡ some n
      → 0 < n
      → Allows trim atoi raw n
  blank : str_eq (trim raw) "" ≡ true → Allows trim atoi raw 1
  not_a_number : atoi (trim raw) ≡ none → Allows trim atoi raw 1
  not_positive : atoi (trim raw) ≡ some 0 → Allows trim atoi raw 1

-- A build can take a slot at once.
abbrev pub IsFree : BuildLimiter → Type 0
IsFree l = (k : BuildLimiter) × (acquire l ≡ some k)

-- At most `cap` builds hold a slot, and a build that waits can take one at once if fewer do, and
-- otherwise once one of the `cap` builds releases its own.
pub record IsCapped (cap : ℕ) (l : BuildLimiter) : Type 0 where
  pub within : l.held ≤ cap
  pub served :
      0 < l.waiting
      → ((l.held < cap) × IsFree l)
        ⊎ ((l.held ≡ cap) × (k : BuildLimiter) × (release l ≡ some k) × IsFree k)

parsed-Allows :
    (trim : String → String) (atoi : String → Option ℕ) (raw : String) (o : Option ℕ)
    → str_eq (trim raw) "" ≡ false
    → atoi (trim raw) ≡ o
    → Allows trim atoi raw (elim o [
      | none ↦ default_build_max_concurrent
      | some n ↦ if ltb n 1 then default_build_max_concurrent else n
    ])
parsed-Allows trim atoi raw none b e = not_a_number e
parsed-Allows trim atoi raw (some zero) b e = not_positive e
parsed-Allows trim atoi raw (some (suc n)) b e =
    rw (not-below n) (configured (suc n) b e (omega arith))
  where
    not-below : (n : ℕ) → ltb (suc n) 1 ≡ false
    not-below n = ground arith

parse-Allows :
    (trim : String → String) (atoi : String → Option ℕ) (raw : String)
    → Allows trim atoi raw (parse_build_max_concurrent trim atoi raw)
unfolding parse_build_max_concurrent
parse-Allows trim atoi raw = elim (Bool-cases (str_eq (trim raw) "")) [
  | inl e ↦ rw e (blank e)
  | inr e ↦ rw e (parsed-Allows trim atoi raw (atoi (trim raw)) e refl)
]

Allows-positive :
    (trim : String → String) (atoi : String → Option ℕ) (raw : String) (n : ℕ)
    → Allows trim atoi raw n
    → 0 < n
Allows-positive trim atoi raw _ (configured n _ _ h) = h
Allows-positive trim atoi raw _ (blank _) = omega arith
Allows-positive trim atoi raw _ (not_a_number _) = omega arith
Allows-positive trim atoi raw _ (not_positive _) = omega arith

-- The number of slots never changes, and no more are held.
abbrev IsBounded : ℕ → BuildLimiter → Type 0
IsBounded cap l = (l.capacity ≡ cap) × (l.held ≤ cap)

Step-IsBounded : (cap : ℕ) (l k : BuildLimiter) → Step l k → IsBounded cap l → IsBounded cap k
unfolding arrive acquire cancel release
Step-IsBounded cap l _ (arrives _) b = b
Step-IsBounded cap l k (acquires _ _ e) b =
    (ground (arith, b.0, b.1, e), ground (arith, b.0, b.1, e))
Step-IsBounded cap l k (cancels _ _ e) b =
    (ground (arith, b.0, b.1, e), ground (arith, b.0, b.1, e))
Step-IsBounded cap l k (releases _ _ e) b =
    (ground (arith, b.0, b.1, e), ground (arith, b.0, b.1, e))

Reachable-IsBounded :
    (cap : ℕ) (first l : BuildLimiter) → Reachable first l → IsBounded cap first → IsBounded cap l
Reachable-IsBounded cap first _ new b = b
Reachable-IsBounded cap first k (next l _ r s) b =
    Step-IsBounded cap l k s (Reachable-IsBounded cap first l r b)

free : (l : BuildLimiter) → 0 < l.waiting → l.held < l.capacity → IsFree l
unfolding acquire
free l w h =
    (record l { held = l.held + 1; waiting = l.waiting - 1 }, rw (lt→ltb _ _ w, lt→ltb _ _ h) refl)

IsBounded-IsCapped : (cap : ℕ) (l : BuildLimiter) → 0 < cap → IsBounded cap l → IsCapped cap l
unfolding release
IsBounded-IsCapped cap l some_slot b = record {
  within = b.1;
  served = λ w. elim (Bool-cases (ltb l.held cap)) [
    | inl e ↦
        let room : l.held < cap = ltb→lt _ _ e in inl (room, free l w (omega (arith, room, b.0)))
    | inr e ↦
        let full : l.held ≡ cap = ground (arith, e, b.1) in
        let k : BuildLimiter = record l { held = l.held - 1 } in
        inr (
          full,
          k,
          rw (lt→ltb 0 l.held (omega (arith, full, some_slot))) refl,
          free k w (omega (arith, full, some_slot, b.0)),
        )
  ];
}

-- Whatever the builds do, in any order, under the limiter that BUILDER_MAX_CONCURRENT sets up: with
-- the cap that the variable asks for, or 1 where it asks for none, never more builds than the cap
-- hold a slot; a build that waits can take a slot at once if fewer do, and otherwise as soon as one
-- of the builds releases its own.
pub Reachable-IsCapped :
    (trim : String → String) (atoi : String → Option ℕ) (raw : String) (l : BuildLimiter)
    → Reachable (default_build_limiter trim atoi raw) l
    → (cap : ℕ) × Allows trim atoi raw cap × IsCapped cap l
unfolding default_build_limiter new_build_limiter
Reachable-IsCapped trim atoi raw l r =
    let cap : ℕ = parse_build_max_concurrent trim atoi raw in
    let allowed : Allows trim atoi raw cap = parse-Allows trim atoi raw in
    let some_slot : 0 < cap = Allows-positive trim atoi raw cap allowed in
    (
      cap,
      allowed,
      IsBounded-IsCapped cap l some_slot
          (Reachable-IsBounded cap _ l r (ground (arith, some_slot), omega arith)),
    )
