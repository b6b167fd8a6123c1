-- ===== src/Examples/Builders.antt =====
-- The theorem on the cap on concurrent builds, applied.
use muvee.Prelude.{ℕ, String, Option, some}
use muvee.Limiter.{
  BuildLimiter, default_build_limiter, arrive, arrives, Reachable, new, next, Allows, IsCapped,
  Reachable-IsCapped,
}

abbrev two : String → Option ℕ
two s = some 2

abbrev untrimmed : String → String
untrimmed s = s

abbrev at_start : BuildLimiter
at_start = default_build_limiter untrimmed two "2"

one_waits-Reachable : Reachable at_start (arrive at_start)
one_waits-Reachable = next at_start (arrive at_start) new (arrives at_start)

Reachable-IsCapped_example :
    (cap : ℕ) × Allows untrimmed two "2" cap × IsCapped cap (arrive at_start)
Reachable-IsCapped_example =
    Reachable-IsCapped untrimmed two "2" (arrive at_start) one_waits-Reachable
