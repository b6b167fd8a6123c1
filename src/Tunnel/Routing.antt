-- ===== src/Tunnel/Routing.antt =====
-- The tunnel that a request goes to, by the host that it names.
use muvee.Prelude.{◌==◌, not, true, none, some, List, ◌∷◌, ◌++◌, ◌≡◌, refl, arith, if◌then◌else◌}
use muvee.Text.{Text}
use muvee.Text.Words.{member}
use muvee.Text.Affixes.{
  has_suffix-append, trim_suffix-append, lacks, split_last-lacks, split_last-append, every-append,
}
use muvee.Tunnel.Registry.{
  Registry, route, get, tunnel_prefix, Traffic, through, offline_page, tunnel_not_connected,
  handle_tunnel_traffic,
}

-- A domain prefix under the base domain, and that host with a port.
abbrev pub host_of : Text → Text → Text
host_of domain base = domain ++ b'.' ∷ base

tunnel_prefix-host :
    (domain base : Text)
    → lacks b':' domain ≡ true
    → lacks b':' base ≡ true
    → tunnel_prefix base (host_of domain base) ≡ some domain
unfolding tunnel_prefix
tunnel_prefix-host domain base h k =
    rw
      (
        split_last-lacks b':' (host_of domain base)
            (ground (arith, every-append (λ c. not (c == b':')) domain (b'.' ∷ base))),
        has_suffix-append (b'.' ∷ base) domain,
        trim_suffix-append b'.' base domain,
      )
      refl

tunnel_prefix-port :
    (domain base port : Text)
    → lacks b':' port ≡ true
    → tunnel_prefix base (host_of domain base ++ b':' ∷ port) ≡ some domain
unfolding tunnel_prefix
tunnel_prefix-port domain base port h =
    rw
      (
        split_last-append b':' (host_of domain base) port h,
        has_suffix-append (b'.' ∷ base) domain,
        trim_suffix-append b'.' base domain,
      )
      refl

-- A request for a domain prefix under the base domain, with a port or without, goes through the
-- tunnel that is registered there; where there is none it gets the placeholder if the prefix is a
-- domain-only project's, and an error if not. The prefix, the base domain and the port have no colon.
pub handle_tunnel_traffic-host :
    (reg : Registry) (domain_only : List Text) (domain base port : Text)
    → lacks b':' domain ≡ true
    → lacks b':' base ≡ true
    → lacks b':' port ≡ true
    → let answer : Traffic = elim (get domain reg) [
      | none ↦ if member domain domain_only then offline_page else tunnel_not_connected
      | some e ↦ through e.1
    ] in
      (handle_tunnel_traffic reg domain_only base (host_of domain base) ≡ answer)
      × (handle_tunnel_traffic reg domain_only base (host_of domain base ++ b':' ∷ port) ≡ answer)
unfolding handle_tunnel_traffic route
handle_tunnel_traffic-host reg domain_only domain base port h k l =
    (rw (tunnel_prefix-host domain base h k) refl, rw (tunnel_prefix-port domain base port l) refl)
