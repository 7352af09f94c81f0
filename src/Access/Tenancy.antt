-- ===== src/Access/Tenancy.antt =====
-- Tenants and their members: backend/app/services/tenants.py, past the schema. An identifier is
-- its text.
use forjd.Prelude.{
  ℕ, String, Bool, true, false, not, ◌&&◌, ◌||◌, Option, none, some, List, [], ◌∷◌, ◌++◌, string_eq,
  nat_eq, ◌==◌, if◌then◌else◌, any, find, contains,
}
use forjd.Access.Principals.{
  PrincipalKind, user, service, erase_tombstone, AuthUser, http_exception, Result, returned, raised,
  truthy, is_text,
}

pub record Tenant : Type 0 where
  pub id : String
  pub slug : String
  pub name : String
  pub key_directory_id : Option String
  pub created_at : ℕ

-- A row of `tenant_members`, whose key is the tenant and the user.
pub record Member : Type 0 where
  pub tenant_id : String
  pub user_id : String
  pub role : String

abbrev pub is_membership : String → String → Member → Bool
is_membership tenant_id user_id m = m.tenant_id == tenant_id && m.user_id == user_id

abbrev pub role_of : Option Member → Option String
role_of none = none
role_of (some m) = some m.role

-- `user_role_in_tenant`
unfoldable pub user_role_in_tenant : String → String → List Member → Option String
user_role_in_tenant tenant_id user_id members =
    role_of (find (is_membership tenant_id user_id) members)

-- `min_roles is not None and role not in min_roles`
abbrev pub is_below : Option (List String) → String → Bool
is_below none role = false
is_below (some roles) role = not (contains roles role)

abbrev pub check_role : Option (List String) → Option String → Result String
check_role min_roles none = raised (http_exception 403 "not a tenant member")
check_role min_roles (some role) =
    if is_below min_roles role
    then raised (http_exception 403 "insufficient role")
    else returned role

-- `require_member`
unfoldable pub require_member : List Member → String → String → Option (List String) → Result String
unfolding user_role_in_tenant
require_member members tenant_id user_id min_roles =
    check_role min_roles (user_role_in_tenant tenant_id user_id members)

-- `_service_has_scope`
unfoldable pub service_has_scope : List String → List String → Bool
service_has_scope scopes required =
    if contains scopes "*" then true else any (contains scopes) required

-- `required_scopes and not _service_has_scope(…)`: no scope is required by `None` and by the empty set.
abbrev pub lacks_scope : Option (List String) → List String → Bool
lacks_scope none scopes = false
lacks_scope (some []) scopes = false
lacks_scope (some (s ∷ required)) scopes = not (service_has_scope scopes (s ∷ required))

abbrev pub access_as :
    PrincipalKind
    → List Member
    → AuthUser
    → String
    → Option (List String)
    → Option (List String)
    → Result String
access_as erase_tombstone members principal tenant_id min_roles required_scopes =
    raised (http_exception 403 "erased credential is valid only for its completed erase receipt")
access_as service members principal tenant_id min_roles required_scopes =
    if not (truthy principal.tenant_id) || not (is_text principal.tenant_id tenant_id)
    then raised (http_exception 403 "service principal is bound to a different tenant")
    else if lacks_scope required_scopes principal.scopes
    then raised (http_exception 403 "insufficient service scope")
    else returned "service"
access_as user members principal tenant_id min_roles required_scopes =
    require_member members tenant_id principal.user_id min_roles

-- `require_tenant_access`
unfoldable pub require_tenant_access :
    List Member → AuthUser → String → Option (List String) → Option (List String) → Result String
unfolding require_member service_has_scope
require_tenant_access members principal tenant_id min_roles required_scopes =
    access_as principal.kind members principal tenant_id min_roles required_scopes

-- `create_tenant`: both rows in one transaction. The identifier and the time are the database's.
unfoldable pub create_tenant :
    String
    → ℕ
    → String
    → String
    → String
    → Option String
    → List Tenant × List Member
    → (List Tenant × List Member) × Option Tenant
create_tenant id now slug name owner_user_id key_directory_id (tenants, members) =
    let t : Tenant = record {
      id = id;
      slug = slug;
      name = name;
      key_directory_id = key_directory_id;
      created_at = now;
    } in
    let owner : Member = record { tenant_id = id; user_id = owner_user_id; role = "owner" } in
    if any (λ other. other.id == id || other.slug == slug) tenants
      || any (is_membership id owner_user_id) members
    then ((tenants, members), none)
    else ((tenants ++ t ∷ [], members ++ owner ∷ []), some t)
