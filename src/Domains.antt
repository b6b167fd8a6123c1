-- ===== src/Domains.antt =====
-- internal/domains/domains.go: the base domain that a request belongs to. `to_lower` is Go's
-- unicode.ToLower, the map of one code point, and `Urls` what is used of net/url.
pub mod Matching
pub mod Listing
use muvee.Prelude.{
  ℕ, Bool, true, false, ◌&&◌, ◌||◌, not, Option, none, some, List, [], ◌∷◌, ◌++◌, ◌==◌, ltb,
  if◌then◌else◌, length, map, any,
}
use muvee.Text.{Text, same_text, has_suffix, trim_space}
use muvee.Text.Words.{split, split_last, member, trim_suffix}

-- net/url: a parsed address, its host with the port, its port, and the address with another host.
pub record Urls : Type 1 where
  pub Url : Type 0
  pub parse : Text → Option Url
  pub host : Url → Text
  pub port : Url → Text
  pub with_host : Url → Text → Text

-- The error of ParseSubset names the entry that is not a base domain.
pub data Subset : Type 0 where
  all_known : List Text → Subset
  unknown : Text → Subset

abbrev before_port : Text → Option (Text × Text) → Text
before_port host none = host
before_port host (some (front, back)) = if any (λ c. c == b']') back then host else front

module _ (to_lower : ℕ → ℕ) where
  -- strings.ToLower(strings.TrimSpace(d))
  unfoldable pub clean : Text → Text
  clean d = map to_lower (trim_space d)

  unfoldable pub add : List Text → Text → List Text
  unfolding clean
  add out d = if same_text (clean d) [] || member (clean d) out then out else out ++ clean d ∷ []

  unfoldable pub add_all : List Text → List Text → List Text
  unfolding add
  add_all out [] = out
  add_all out (d ∷ ds) = add_all (add out d) ds

  unfoldable pub parse : Text → Text → List Text
  unfolding add_all
  parse base_domain base_domains = add_all [] (base_domain ∷ split b',' base_domains)

  -- The first entry that is not known.
  unfoldable pub check_known : List Text → List Text → Option Text
  check_known known [] = none
  check_known known (d ∷ ds) = if member d known then check_known known ds else some d

  unfoldable pub subset_of : List Text → Option Text → Subset
  subset_of ds none = all_known ds
  subset_of ds (some d) = unknown d

  unfoldable pub parse_subset : Text → List Text → Subset
  unfolding parse check_known subset_of clean
  parse_subset raw bases =
      let ds : List Text = parse [] raw in subset_of ds (check_known (map clean bases) ds)

  unfoldable pub normalize_host : Text → Text
  unfolding clean
  normalize_host host =
      let h : Text = trim_suffix (b'.' ∷ []) (clean host) in before_port h (split_last b':' h)

  -- The host is the base domain or a subdomain of it.
  unfoldable pub belongs : Text → Text → Bool
  belongs host b = same_text host b || has_suffix (b'.' ∷ b) host

  -- One round of the loop of Match.
  unfoldable pub better : Text → Text → Text → Text
  unfolding belongs
  better host best b =
      if not (same_text b []) && belongs host b && ltb (length best) (length b) then b else best

  -- Two bases that match are suffixes of the host, so the longer one in bytes is the longer one in
  -- code points.
  unfoldable pub best_base : Text → Text → List Text → Text
  unfolding better clean
  best_base host best [] = best
  best_base host best (b ∷ bs) = best_base host (better host best (clean b)) bs

  unfoldable pub found : Text → Option Text
  found [] = none
  found (c ∷ cs) = some (c ∷ cs)

  unfoldable pub match_base : Text → List Text → Option Text
  unfolding best_base found normalize_host
  match_base host bases =
      let h : Text = normalize_host host in
      if same_text h [] then none else found (best_base h [] bases)

  module _ (urls : Urls) where
    unfoldable pub with_port : Text → Text → Text
    with_port host [] = host
    with_port host (c ∷ cs) = host ++ b':' ∷ c ∷ cs

    -- The host under the current base is put under the target.
    unfoldable pub rebased : Text → Text → Text → Text → Text
    unfolding with_port
    rebased host cur target port = with_port (trim_suffix cur host ++ target) port

    unfoldable pub rebase_url : Text → List Text → Text → urls.Url → Text
    unfolding normalize_host match_base rebased
    rebase_url raw bases target u =
        let host : Text = normalize_host (urls.host u) in
        elim (match_base host bases) [
          | none ↦ raw
          | some cur ↦
              if same_text cur target
              then raw
              else urls.with_host u (rebased host cur target (urls.port u))
        ]

    unfoldable pub rebase_host : Text → List Text → Text → Text
    unfolding clean rebase_url
    rebase_host raw bases target_base =
        let target : Text = clean target_base in
        if same_text target [] then raw else elim (urls.parse raw) [
          | none ↦ raw
          | some u ↦ if same_text (urls.host u) [] then raw else rebase_url raw bases target u
        ]
