-- ===== src/Access/Granted.antt =====
-- Who is granted access to a tenant.
use mathlib.Core.List.{Memᴰ}
use forjd.Prelude.{
  String, ◌≡◌, refl, sym, subst, ap, ◌∙◌, ◌↔◌, ◌⊎◌, inl, inr, Bool, true, false, not, ◌||◌, Option,
  none, some, List, [], ◌∷◌, arith, eq_iff, string_eq, nat_eq, if◌then◌else◌, Bool-cases,
  Option-cases, any, find, contains, is_empty, mem-of-any, any-of-mem, mem-of-find, mem-of-contains,
  contains-of-mem,
}
use forjd.Access.Principals.{
  PrincipalKind, user, service, erase_tombstone, AuthUser, Failure, http_exception, returned,
  raised, truthy, is_text,
}
use forjd.Access.Tenancy.{
  Member, is_membership, role_of, user_role_in_tenant, is_below, check_role, require_member,
  service_has_scope, lacks_scope, access_as, require_tenant_access,
}

-- The key of `tenant_members`: one row for a user of a tenant.
abbrev pub IsKeyed : List Member → Type 0
IsKeyed [] = Unit
IsKeyed (m ∷ rest) = (any (is_membership m.tenant_id m.user_id) rest ≡ false) × IsKeyed rest

-- Some required scope is held, or all of them by the wildcard.
abbrev pub HoldsScope : Option (List String) → List String → Type 0
HoldsScope none scopes = Unit
HoldsScope (some required) scopes =
    (required ≡ []) ⊎ (Memᴰ "*" scopes ⊎ ((s : String) × Memᴰ s required × Memᴰ s scopes))

abbrev pub PermitsRole : Option (List String) → String → Type 0
PermitsRole none role = Unit
PermitsRole (some roles) role = Memᴰ role roles

abbrev pub IsGrantedAs :
    PrincipalKind
    → List Member
    → AuthUser
    → String
    → Option (List String)
    → Option (List String)
    → String
    → Type 0
IsGrantedAs kind members principal tenant_id min_roles required_scopes role =
    ((kind ≡ service)
      × (principal.tenant_id ≡ some tenant_id)
      × (is_empty tenant_id ≡ false)
      × HoldsScope required_scopes principal.scopes
      × (role ≡ "service"))
    ⊎ ((kind ≡ user)
        × Memᴰ (record { tenant_id = tenant_id; user_id = principal.user_id; role = role }) members
        × PermitsRole min_roles role)

-- Access as `role`: of a service that is bound to the tenant, or of a member with a role that is enough.
abbrev pub IsGranted :
    List Member → AuthUser → String → Option (List String) → Option (List String) → String → Type 0
IsGranted members principal = IsGrantedAs principal.kind members principal

abbrev Holds : List String → List String → Type 0
Holds required scopes = Memᴰ "*" scopes ⊎ ((s : String) × Memᴰ s required × Memᴰ s scopes)

service_has_scope-Holds :
    (required scopes : List String)
    → service_has_scope scopes required ≡ true
    → Holds required scopes
unfolding service_has_scope
service_has_scope-Holds required scopes h = elim (Bool-cases (contains scopes "*")) [
  | inl e ↦ inl (mem-of-contains scopes "*" e)
  | inr e ↦
      let (s, asked, held) = mem-of-any (contains scopes) required (ground (arith, h, e)) in
      inr (s, asked, mem-of-contains scopes s held)
]

Holds-service_has_scope :
    (required scopes : List String)
    → Holds required scopes
    → service_has_scope scopes required ≡ true
unfolding service_has_scope
Holds-service_has_scope required scopes (inl star) = ground (arith, contains-of-mem scopes "*" star)
Holds-service_has_scope required scopes (inr (s, asked, held)) =
    let found : any (contains scopes) required ≡ true =
      any-of-mem (contains scopes) asked (contains-of-mem scopes s held) in
    ground arith

scope_lem :
    (required : Option (List String)) (scopes : List String)
    → (lacks_scope required scopes ≡ false) ↔ HoldsScope required scopes
scope_lem none scopes = (λ h. tt, λ h. refl)
scope_lem (some []) scopes = (λ h. inl refl, λ h. refl)
scope_lem (some (s ∷ required)) scopes = (
  λ h. inr (service_has_scope-Holds (s ∷ required) scopes (ground (arith, h))),
  λ g. elim g [
    | inl e ↦ cc
    | inr held ↦ ground (arith, Holds-service_has_scope (s ∷ required) scopes held)
  ],
)

role_lem :
    (min_roles : Option (List String)) (role : String)
    → (is_below min_roles role ≡ false) ↔ PermitsRole min_roles role
role_lem none role = (λ h. tt, λ h. refl)
role_lem (some roles) role = (
  λ h. mem-of-contains roles role (ground (arith, h)),
  λ m. ground (arith, contains-of-mem roles role m),
)

member : String → String → String → Member
member t u role = record { tenant_id = t; user_id = u; role = role }

is_membership_lem :
    (t u : String) (m : Member) → is_membership t u m ≡ true → (m.tenant_id ≡ t) × (m.user_id ≡ u)
is_membership_lem t u m h = ground (arith, eq_iff m.tenant_id t, eq_iff m.user_id u)

is_membership_refl : (t u role : String) → is_membership t u (member t u role) ≡ true
unfolding member
is_membership_refl t u role =
    ground (arith, (string_eq.equal_right t t).1 refl, (string_eq.equal_right u u).1 refl)

option_role : (a b : String) → some a ≡ some b → a ≡ b
option_role a b h = ground arith

module _ (tenant_id user_id : String) where
  found_member :
      (members : List Member) (role : String)
      → user_role_in_tenant tenant_id user_id members ≡ some role
      → Memᴰ (member tenant_id user_id role) members
  unfolding user_role_in_tenant member
  found_member members role h =
      elim (Option-cases (find (is_membership tenant_id user_id) members)) [
        | inl e ↦ let bad : none ≡ some role = sym (ap role_of e) ∙ h in cc
        | inr (b, e) ↦
            let (inside, passes) = mem-of-find (is_membership tenant_id user_id) members e in
            let (same_tenant, same_user) = is_membership_lem tenant_id user_id b passes in
            let same_role : some b.role ≡ some role = sym (ap role_of e) ∙ h in
            let same : b ≡ member tenant_id user_id role =
              λ i. member (same_tenant i) (same_user i) (option_role b.role role same_role i) in
            subst (λ m. Memᴰ m members) same inside
      ]

  member_found :
      {m : Member} {members : List Member}
      → IsKeyed members
      → Memᴰ m members
      → is_membership tenant_id user_id m ≡ true
      → find (is_membership tenant_id user_id) members ≡ some m
  member_found keyed (Memᴰ.head {x} e) h =
      rw (sym (ap (is_membership tenant_id user_id) e) ∙ h) (ap some (sym e))
  member_found {m} keyed (Memᴰ.tail {x} {xs = rest} inside) h =
      elim (Bool-cases (is_membership tenant_id user_id x)) [
        | inl e ↦
            let (same_tenant, same_user) = is_membership_lem tenant_id user_id x e in
            let mine : is_membership x.tenant_id x.user_id m ≡ true =
              subst (λ t. is_membership t x.user_id m ≡ true) (sym same_tenant)
                (subst (λ u. is_membership tenant_id u m ≡ true) (sym same_user) h) in
            ground (arith, any-of-mem (is_membership x.tenant_id x.user_id) inside mine)
        | inr e ↦ rw e (member_found keyed.1 inside h)
      ]

bound_lem :
    (t : String) (bound : Option String)
    → ((not (truthy bound) || not (is_text bound t)) ≡ false)
      ↔ ((bound ≡ some t) × (is_empty t ≡ false))
bound_lem t none = ground arith
bound_lem t (some s) = (
  λ h.
      let same : s ≡ t = ground (arith, eq_iff s t) in
      let full : is_empty s ≡ false = ground arith in
      (ap some same, subst (λ u. is_empty u ≡ false) same full),
  λ g.
      let same : s ≡ t = ground (arith, g.0) in
      ground (arith, eq_iff s t, ap is_empty {x = s} {y = t} same, g.1),
)

role_checks :
    (min_roles : Option (List String)) (role : String) (found : Option String)
    → (check_role min_roles found ≡ returned role)
      ↔ ((found ≡ some role) × (is_below min_roles role ≡ false))
role_checks min_roles role none = ground arith
role_checks min_roles role (some other) =
    ground (arith, ap (is_below min_roles) {x = other} {y = role})

checks_pass :
    (unbound lacking : Bool) (first second : Failure) (role : String)
    → ((if unbound then raised first else if lacking then raised second else returned "service")
        ≡ returned role)
      ↔ ((unbound ≡ false) × (lacking ≡ false) × (role ≡ "service"))
checks_pass true lacking first second role = ground arith
checks_pass false true first second role = ground arith
checks_pass false false first second role =
    (λ h. (refl, refl, ground arith), λ g. ap returned (sym g.2))

module _ (members : List Member) (principal : AuthUser) (tenant_id : String)
    (min_roles required_scopes : Option (List String)) (role : String)
    (keyed : IsKeyed members) where
  service_iff :
      (access_as service members principal tenant_id min_roles required_scopes ≡ returned role)
      ↔ IsGrantedAs service members principal tenant_id min_roles required_scopes role
  service_iff =
      let bound = bound_lem tenant_id principal.tenant_id in
      let scope = scope_lem required_scopes principal.scopes in
      let checks =
        checks_pass
          (not (truthy principal.tenant_id) || not (is_text principal.tenant_id tenant_id))
          (lacks_scope required_scopes principal.scopes)
          (http_exception 403 "service principal is bound to a different tenant")
          (http_exception 403 "insufficient service scope") role in
      (
        λ h. let (a, b, c) = checks.0 h in let (d, e) = bound.0 a in inl (refl, d, e, scope.0 b, c),
        λ g. elim g [
          | inl (_, d, e, f, c) ↦ checks.1 (bound.1 (d, e), scope.1 f, c)
          | inr h ↦ let other = h.0 in cc
        ],
      )

  user_iff :
      (access_as user members principal tenant_id min_roles required_scopes ≡ returned role)
      ↔ IsGrantedAs user members principal tenant_id min_roles required_scopes role
  unfolding require_member user_role_in_tenant member
  user_iff =
      let roles = role_lem min_roles role in
      let checks =
        role_checks min_roles role (user_role_in_tenant tenant_id principal.user_id members) in
      (
        λ h.
            let (found, enough) = checks.0 h in
            inr (refl, found_member tenant_id principal.user_id members role found, roles.0 enough),
        λ g. elim g [
          | inl h ↦ let other = h.0 in cc
          | inr (_, row, enough) ↦ checks.1 (
            ap role_of (
                member_found tenant_id principal.user_id keyed row
                  (is_membership_refl tenant_id principal.user_id role)),
            roles.1 enough,
          )
        ],
      )

  as_iff :
      (kind : PrincipalKind)
      → (access_as kind members principal tenant_id min_roles required_scopes ≡ returned role)
        ↔ IsGrantedAs kind members principal tenant_id min_roles required_scopes role
  as_iff service = service_iff
  as_iff user = user_iff
  as_iff erase_tombstone =
      (λ h. cc, λ g. elim g [ inl h ↦ let other = h.0 in cc | inr h ↦ let other = h.0 in cc ])

-- Access is granted as a role exactly to a service that is bound to the tenant and holds a required
-- scope, and to a user with a membership row of that role where the role is one of those asked for.
-- The table of members has one row for a user of a tenant.
pub require_tenant_access-IsGranted :
    (members : List Member) (principal : AuthUser) (tenant_id : String)
    (min_roles required_scopes : Option (List String)) (role : String)
    → IsKeyed members
    → (require_tenant_access members principal tenant_id min_roles required_scopes ≡ returned role)
      ↔ IsGranted members principal tenant_id min_roles required_scopes role
unfolding require_tenant_access
require_tenant_access-IsGranted members principal tenant_id min_roles required_scopes role keyed =
    as_iff members principal tenant_id min_roles required_scopes role keyed principal.kind
