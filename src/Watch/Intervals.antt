-- ===== src/Watch/Intervals.antt =====
-- The intervals between two polls.
use muvee.Prelude.{
  ℕ, ◌*◌, ◌%◌, ◌^◌, ◌≤◌, ◌<◌, ◌||◌, Option, none, some, String, leb, ltb, arith, Bool-cases, inl,
  inr,
}
use muvee.Db.{second, minute}
use muvee.Watch.{interval_of, current_auto_deploy_interval}
use muvee.Watch.Images.{current_image_watch_interval}

interval_of-bounds :
    (least default : ℕ) (o : Option ℕ)
    → least ≤ default
    → default < 2 ^ 63
    → (least ≤ interval_of least default o) × (interval_of least default o < 2 ^ 63)
unfolding interval_of
interval_of-bounds least default none h k = (h, k)
interval_of-bounds least default (some secs) h k =
    let d : ℕ = secs * second % 2 ^ 64 in
    elim (Bool-cases (leb (2 ^ 63) d || ltb d least)) [
      | inl e ↦ rw e (h, k)
      | inr e ↦ rw e (ground arith, ground arith)
    ]

-- Whatever the settings are, also numbers whose product overflows: the polls of the branches are
-- ten seconds apart at least, those of the images a minute, and no interval is negative.
pub interval-bounds :
    (atoi : String → Option ℕ) (setting : String)
    → (10 * second ≤ current_auto_deploy_interval atoi setting)
      × (current_auto_deploy_interval atoi setting < 2 ^ 63)
      × (60 * second ≤ current_image_watch_interval atoi setting)
      × (current_image_watch_interval atoi setting < 2 ^ 63)
unfolding current_auto_deploy_interval current_image_watch_interval
interval-bounds atoi setting =
    let git =
      interval_of-bounds (10 * second) (60 * second) (atoi setting) (omega arith) (omega arith) in
    let image =
      interval_of-bounds (60 * second) (10 * minute) (atoi setting) (omega arith) (omega arith) in
    (git.0, git.1, image.0, image.1)
