-- ===== src/Tunnel/Ownership.antt =====
-- Who holds a domain prefix in the registry of tunnels.
use muvee.Prelude.{
  Some, ℕ, ◌≤◌, Bool, true, false, ◌&&◌, not, Option, none, some, List, [], ◌∷◌, ◌==◌, String,
  str_eq, first, select, any, count, ◌≡◌, ◌⊎◌, inl, inr, refl, ap, ◌∙◌, sym, arith, All, Bool-cases,
  ==_iff,
}
use muvee.Prelude.Keys.{first-holds, first-Some, All-select, count-any, count-and-le, count-select}
use muvee.Db.{Db, User, Project, ProjectType}
use muvee.Text.{Text, codes}
use muvee.Text.Affixes.{same_text-cases}
use muvee.Tunnel.Registry.{
  guard_free, Tunnel, Registry, is_of, get, register, unregister, is_valid_tunnel_domain, Answer,
  refused, accepted, get_project_by_owner_and_name, resolve_type, resolve_project, resolve,
  is_admin, guard_connect, handle_tunnel_connect, tunnel_of, Step, registers, unregisters,
  Reachable, new, next,
}

accepted_injective : {d e : Text} {b c : String} → accepted d b ≡ accepted e c → (d ≡ e) × (b ≡ c)
accepted_injective h = (cc h, cc h)

-- The domain prefix is that of the named project of the user, which is domain-only, and the tunnel
-- is bound to it.
abbrev pub IsOfProject : User → String → Text → String → Project → Type 0
IsOfProject user project_name domain bound p =
    (p.owner_id ≡ user.id)
    × (str_eq p.name project_name ≡ true)
    × (p.project_type ≡ ProjectType.domain_only)
    × (domain ≡ codes p.domain_prefix)
    × (bound ≡ p.name)

-- What a domain prefix may come from: a row of the projects, or a valid prefix in a request that
-- names no project.
abbrev pub IsResolved : Db → User → String → String → Text → String → Type 0
IsResolved db user raw_domain project_name domain bound =
    ((p : Project) × Some (λ q. q ≡ p) db.projects × IsOfProject user project_name domain bound p)
    ⊎ ((str_eq project_name "" ≡ true)
        × (is_valid_tunnel_domain (codes raw_domain) ≡ true)
        × (domain ≡ codes raw_domain)
        × (bound ≡ ""))

resolve_type-cases :
    (k : ProjectType) (p : Project) (domain : Text) (bound : String)
    → resolve_type k p ≡ accepted domain bound
    → (k ≡ ProjectType.domain_only)
      × (accepted (codes p.domain_prefix) p.name ≡ accepted domain bound)
unfolding resolve_type
resolve_type-cases ProjectType.domain_only p domain bound h = (refl, h)
resolve_type-cases ProjectType.deployment p domain bound h = cc h
resolve_type-cases ProjectType.compose p domain bound h = cc h
resolve_type-cases ProjectType.image p domain bound h = cc h
resolve_type-cases ProjectType.build p domain bound h = cc h

resolve_project-IsResolved :
    (db : Db) (user : User) (raw_domain project_name : String) (o : Option Project) (domain : Text)
    (bound : String)
    → get_project_by_owner_and_name user.id project_name db ≡ o
    → resolve_project o ≡ accepted domain bound
    → IsResolved db user raw_domain project_name domain bound
unfolding resolve_project get_project_by_owner_and_name
resolve_project-IsResolved db user raw_domain project_name none domain bound g h = cc h
resolve_project-IsResolved db user raw_domain project_name (some p) domain bound g h =
    let (kind, same) = resolve_type-cases p.project_type p domain bound h in
    let owned : ((p.owner_id == user.id) && str_eq p.name project_name) ≡ true =
      first-holds (λ q. (q.owner_id == user.id) && str_eq q.name project_name) db.projects p g in
    inl (
      p,
      first-Some (λ q. (q.owner_id == user.id) && str_eq q.name project_name) db.projects p g,
      (
        (==_iff p.owner_id user.id).0 (ground arith),
        ground arith,
        kind,
        sym (accepted_injective same).0,
        sym (accepted_injective same).1,
      ),
    )

resolve-IsResolved :
    (db : Db) (user : User) (raw_domain project_name : String) (domain : Text) (bound : String)
    → resolve db user raw_domain project_name ≡ accepted domain bound
    → IsResolved db user raw_domain project_name domain bound
unfolding resolve
resolve-IsResolved db user raw_domain project_name domain bound h =
    elim (Bool-cases (not (str_eq raw_domain "") && not (str_eq project_name ""))) [
      | inl both ↦ ground arith
      | inr both ↦ elim (Bool-cases (str_eq project_name "")) [
        | inr named ↦
            resolve_project-IsResolved db user raw_domain project_name
              (get_project_by_owner_and_name user.id project_name db) domain bound refl
              (ground arith)
        | inl unnamed ↦ elim (Bool-cases (str_eq raw_domain "")) [
          | inl none_given ↦ ground arith
          | inr given ↦ elim (Bool-cases (is_valid_tunnel_domain (codes raw_domain))) [
            | inl valid ↦
                let same : accepted (codes raw_domain) "" ≡ accepted domain bound = ground arith in
                inr
                  (unnamed, valid, sym (accepted_injective same).0, sym (accepted_injective same).1)
            | inr bad ↦ ground arith
          ]
        ]
      ]
    ]

not-admin : (n e a : Bool) → (n && e && not a ≡ false) → (n && e ≡ true) → a ≡ true
not-admin n e a h k = ground arith

guard_free-accepts :
    (o : Option (Text × Tunnel)) (a : Answer) (domain : Text) (bound : String)
    → guard_free o a ≡ accepted domain bound
    → (o ≡ none) × (a ≡ accepted domain bound)
unfolding guard_free
guard_free-accepts none a domain bound h = (refl, h)
guard_free-accepts (some e) a domain bound h = cc h

guard_connect-accepts :
    (reg : Registry) (user : User) (noauth : Bool) (a : Answer) (domain : Text) (bound : String)
    → guard_connect reg user noauth a ≡ accepted domain bound
    → (a ≡ accepted domain bound)
      × (get domain reg ≡ none)
      × (noauth && str_eq bound "" ≡ true → is_admin user.role ≡ true)
unfolding guard_connect
guard_connect-accepts reg user noauth (refused r) domain bound h = cc h
guard_connect-accepts reg user noauth (accepted d b) domain bound h =
    elim (Bool-cases (noauth && str_eq b "" && not (is_admin user.role))) [
      | inl bad ↦ ground arith
      | inr good ↦
          let (free, same) =
            guard_free-accepts (get d reg) (accepted d b) domain bound (ground arith) in
          (
            same,
            ap (λ t. get t reg) (sym (accepted_injective same).0) ∙ free,
            λ n.
                not-admin noauth (str_eq b "") (is_admin user.role) good
                  (ap (λ t. noauth && str_eq t "") (accepted_injective same).1 ∙ n),
          )
    ]

-- A request that handleTunnelConnect accepts and that names a project gets the domain prefix of a
-- domain-only row of the projects that has that name and is its own user's; one that names none
-- gets the prefix it asks for, which has the form of a tunnel domain. No tunnel is there, and it
-- goes without sign-in only for a project or an administrator.
pub connect-IsResolved :
    (db : Db) (reg : Registry) (user : User) (raw_domain project_name : String) (noauth : Bool)
    (domain : Text) (bound : String)
    → handle_tunnel_connect db reg user raw_domain project_name noauth ≡ accepted domain bound
    → IsResolved db user raw_domain project_name domain bound
      × (get domain reg ≡ none)
      × ((noauth && str_eq bound "" ≡ true) → is_admin user.role ≡ true)
unfolding handle_tunnel_connect
connect-IsResolved db reg user raw_domain project_name noauth domain bound h =
    let a : Answer = resolve db user raw_domain project_name in
    let (same, free, allowed) = guard_connect-accepts reg user noauth a domain bound h in
    (resolve-IsResolved db user raw_domain project_name domain bound same, free, allowed)

-- A tunnel without sign-in belongs to a project or to an administrator.
abbrev pub IsLawful : Text × Tunnel → Type 0
IsLawful e =
    (e.1.auth_required ≡ false)
    → (str_eq e.1.project_name "" ≡ false) ⊎ (is_admin e.1.user.role ≡ true)

-- One tunnel at most under a domain prefix, and only lawful ones.
abbrev pub IsExclusive : Registry → Type 0
IsExclusive reg = ((domain : Text) → count (is_of domain) reg ≤ 1) × All IsLawful reg

tunnel_of-IsLawful :
    (handle : ℕ) (user : User) (noauth : Bool) (domain : Text) (bound : String)
    → ((noauth && str_eq bound "" ≡ true) → is_admin user.role ≡ true)
    → IsLawful (domain, tunnel_of handle user noauth bound)
unfolding tunnel_of
tunnel_of-IsLawful handle user noauth domain bound h n = elim (Bool-cases (str_eq bound "")) [
  | inl e ↦ inr (h (ground arith))
  | inr e ↦ inl e
]

register-count :
    (d domain : Text) (tc : Tunnel) (reg : Registry)
    → any (is_of domain) reg ≡ false
    → count (is_of d) reg ≤ 1
    → count (is_of d) ((domain, tc) ∷ reg) ≤ 1
register-count d domain tc reg e h = elim (same_text-cases d domain) [
  | inl q ↦ ground (arith, ap (λ t. count (is_of t) reg) q, count-any (is_of domain) reg e)
  | inr q ↦ rw q h
]

register-IsExclusive :
    (domain : Text) (tc : Tunnel) (reg : Registry)
    → IsLawful (domain, tc)
    → IsExclusive reg
    → IsExclusive (register domain tc reg).1
unfolding register
register-IsExclusive domain tc reg l h = elim (Bool-cases (any (is_of domain) reg)) [
  | inl e ↦ rw e h
  | inr e ↦ rw e (λ d. register-count d domain tc reg e (h.0 d), (l, h.1))
]

unregister-IsExclusive :
    (domain : Text) (tc : Tunnel) (reg : Registry)
    → IsExclusive reg
    → IsExclusive (unregister domain tc reg)
unfolding unregister
unregister-IsExclusive domain tc reg h = (
  λ d. omega (
    arith,
    h.0 d,
    count-select (λ e. not (is_of domain e && (e.1.handle == tc.handle))) (is_of d) reg,
    count-and-le (λ e. not (is_of domain e && (e.1.handle == tc.handle))) (is_of d) reg,
  ),
  All-select IsLawful (λ e. not (is_of domain e && (e.1.handle == tc.handle))) reg h.1,
)

Step-IsExclusive : (reg reg' : Registry) → Step reg reg' → IsExclusive reg → IsExclusive reg'
Step-IsExclusive _ _
      (registers db before reg user raw_domain project_name noauth handle domain bound e) h =
    register-IsExclusive domain (tunnel_of handle user noauth bound) reg
      (tunnel_of-IsLawful handle user noauth domain bound
        (connect-IsResolved db before user raw_domain project_name noauth domain bound e).2)
      h
Step-IsExclusive _ _ (unregisters reg domain tc) h = unregister-IsExclusive domain tc reg h

-- Whatever connections come and go, and however the checks of one interleave with the registration
-- of another, a domain prefix has at most one tunnel, and a tunnel without sign-in is bound to a
-- project or is an administrator's.
pub Reachable-IsExclusive : (reg : Registry) → Reachable reg → IsExclusive reg
Reachable-IsExclusive _ new = (λ d. omega arith, tt)
Reachable-IsExclusive _ (next reg reg' r s) =
    Step-IsExclusive reg reg' s (Reachable-IsExclusive reg r)

first-any :
    {A : Type 0} (p : A → Bool) (xs : List A) (a : A) → first p xs ≡ some a → any p xs ≡ true
first-any p [] a h = cc h
first-any p (x ∷ xs) a h = ground (arith, first-any p xs a)

-- The first row is still found where other rows that pass the test are dropped.
first-select :
    {A : Type 0} (p r : A → Bool) (xs : List A) (a : A)
    → first p xs ≡ some a
    → r a ≡ false
    → first p (select (λ x. not (p x && r x)) xs) ≡ some a
first-select p r [] a h n = cc h
first-select p r (x ∷ xs) a h n = elim (Bool-cases (p x)) [
  | inl e ↦ let same : x ≡ a = ground arith in rw (e, ap r same, n, e) (ap some same)
  | inr e ↦ rw (e, e) (first-select p r xs a (ground arith) n)
]

-- A tunnel that is registered keeps its domain prefix: a later registration fails and changes
-- nothing, and the end of another tunnel does not remove it.
pub register-taken :
    (reg : Registry) (domain : Text) (tc other : Tunnel)
    → get domain reg ≡ some (domain, tc)
    → (tc.handle == other.handle) ≡ false
    → (register domain other reg ≡ (false, reg))
      × (get domain (unregister domain other reg) ≡ some (domain, tc))
unfolding register unregister get
register-taken reg domain tc other h n = (
  rw (first-any (is_of domain) reg (domain, tc) h) refl,
  first-select (is_of domain) (λ e. e.1.handle == other.handle) reg (domain, tc) h n,
)
