-- ===== src/Access/Management.antt =====
-- The management of service accounts by an owner or an admin of their tenant: `_normalize_scopes`,
-- `create_service_account` and `revoke_service_account` of backend/app/services/service_accounts.py.
use forjd.Prelude.{
  ℕ, String, Bool, true, false, not, ◌&&◌, ◌||◌, Option, none, some, List, [], ◌∷◌, ◌++◌, string_eq,
  nat_eq, ◌==◌, if◌then◌else◌, is_none, coalesce, any, find, contains, update, strip, first_chars,
}
use forjd.Access.Principals.{
  AuthUser, http_exception, value_error, Result, returned, raised, ◌>>=◌, require_user_principal,
  is_text,
}
use forjd.Access.Tokens.{mint_opaque_token}
use forjd.Access.Tenancy.{require_member}
use forjd.Access.Accounts.{ServiceAccount, Registry}

abbrev pub default_scopes : List String
default_scopes =
    "ingest:write" ∷ "ingest:read" ∷ "projections:read" ∷ "projections:run" ∷ "sessions:write"
    ∷ "sessions:read" ∷ "replay:read" ∷ "replay:write" ∷ "status:read" ∷ "status:write"
    ∷ "analytics:read" ∷ "ml:read" ∷ "exports:read" ∷ "exports:write" ∷ "vulnerabilities:read"
    ∷ "vulnerabilities:write" ∷ "integrations:write" ∷ "siem:read" ∷ "siem:write" ∷ "cases:read"
    ∷ "cases:write" ∷ "playbooks:read" ∷ "playbooks:write" ∷ "playbooks:execute"
    ∷ "threat-intel:read" ∷ "reports:read" ∷ "reports:write" ∷ []

abbrev pub allowed_scopes : List String
allowed_scopes =
    default_scopes
    ++ "analytics:write" ∷ "threat-intel:write" ∷ "ml:read" ∷ "ml:write" ∷ "tenants:erase"
      ∷ "status:tenant-resolve" ∷ "*" ∷ []

abbrev add_scope : List String → String → List String
add_scope out key = if contains out key then out else out ++ key ∷ []

abbrev clean_scopes : List String → List String → Result (List String)
clean_scopes out [] = returned out
clean_scopes out (s ∷ rest) =
    let more = clean_scopes (add_scope out (strip s)) rest in
    if not (contains allowed_scopes (strip s)) then raised (value_error "unknown scope") else more

abbrev asked_scopes : Option (List String) → Result (List String)
asked_scopes none = returned default_scopes
asked_scopes (some []) = returned default_scopes
asked_scopes (some (s ∷ rest)) = clean_scopes [] (s ∷ rest)

-- `_normalize_scopes`
unfoldable pub normalize_scopes : Option (List String) → Bool → Result (List String)
unfolding strip
normalize_scopes scopes include_tenant_erase = do
  out ← asked_scopes scopes
  returned (if include_tenant_erase then add_scope out "tenants:erase" else out)

-- What a caller asks `create_service_account` for.
pub record NewAccount : Type 0 where
  pub subprocessor : String
  pub scopes : Option (List String)
  pub include_tenant_erase : Bool
  pub auth_user_id : Option String
  pub mint_opaque_token : Bool

-- What the database and `secrets` draw for the new row.
pub record Draws : Type 0 where
  pub id : String
  pub prefix : String
  pub secret : String

abbrev pub same_text : Option String → Option String → Bool
same_text none other = false
same_text (some s) other = is_text other s

-- `UNIQUE`, which does not compare NULLs.
abbrev pub clashes : ServiceAccount → ServiceAccount → Bool
clashes a b = a.id == b.id || same_text a.prefix b.prefix || same_text a.auth_user_id b.auth_user_id

abbrev pub insert_account :
    ServiceAccount → Option String → Registry → Registry × Result (ServiceAccount × Option String)
insert_account a token registry =
    if any (clashes a) registry.accounts
    then (registry, raised (http_exception 409 "service account conflict (prefix or auth_user_id)"))
    else (
      record registry {
        accounts = registry.accounts ++ a ∷ [];
        audit = registry.audit ++ ("service_account.create", a.id) ∷ [];
      },
      returned (a, token),
    )

abbrev pub new_row : (String → String) → String → NewAccount → Draws → List String → ServiceAccount
new_row hash tenant_id asked draws scopes = record {
  id = draws.id;
  tenant_id = tenant_id;
  subprocessor = first_chars 64 (strip asked.subprocessor);
  prefix = if asked.mint_opaque_token then some draws.prefix else none;
  key_hash =
      if asked.mint_opaque_token
      then some (hash (mint_opaque_token draws.prefix draws.secret))
      else none;
  auth_user_id = asked.auth_user_id;
  scopes = scopes;
  is_active = true;
  revoked_at = none;
  last_used_at = none;
}

abbrev pub managing_roles : Option (List String)
managing_roles = some ("owner" ∷ "admin" ∷ [])

abbrev pub may_manage : Registry → AuthUser → String → Result String
may_manage registry principal tenant_id = do
  _ ← require_user_principal principal
  require_member registry.members tenant_id principal.user_id managing_roles

abbrev pub may_create : Registry → AuthUser → String → NewAccount → Result (List String)
may_create registry principal tenant_id asked = do
  _ ← may_manage registry principal tenant_id
  scopes ← normalize_scopes asked.scopes asked.include_tenant_erase
  if not asked.mint_opaque_token && is_none asked.auth_user_id
      then raised (value_error "auth_user_id required when mint_opaque_token is false")
      else returned scopes

abbrev pub create_allowed :
    (String → String)
    → String
    → NewAccount
    → Draws
    → Registry
    → Result (List String)
    → Registry × Result (ServiceAccount × Option String)
create_allowed hash tenant_id asked draws registry (raised failure) = (registry, raised failure)
create_allowed hash tenant_id asked draws registry (returned scopes) =
    insert_account (new_row hash tenant_id asked draws scopes)
      (if asked.mint_opaque_token then some (mint_opaque_token draws.prefix draws.secret) else none)
      registry

-- `create_service_account`: the row, with the token where one is minted.
unfoldable pub create_service_account :
    (String → String)
    → AuthUser
    → String
    → NewAccount
    → Draws
    → Registry
    → Registry × Result (ServiceAccount × Option String)
unfolding require_user_principal require_member normalize_scopes mint_opaque_token
create_service_account hash principal tenant_id asked draws registry =
    create_allowed hash tenant_id asked draws registry
      (may_create registry principal tenant_id asked)

abbrev pub names_account : String → String → ServiceAccount → Bool
names_account id tenant_id a = a.id == id && a.tenant_id == tenant_id

abbrev pub revoke : ℕ → ServiceAccount → ServiceAccount
revoke now a = record a {
  is_active = false;
  revoked_at = coalesce a.revoked_at now;
  key_hash = none;
}

abbrev pub revoke_answer :
    String
    → Registry
    → List ServiceAccount
    → Option ServiceAccount
    → Registry × Result ServiceAccount
revoke_answer id registry rows none =
    (registry, raised (http_exception 404 "service account not found"))
revoke_answer id registry rows (some a) = (
  record registry {
    accounts = rows;
    audit = registry.audit ++ ("service_account.revoke", id) ∷ [];
  },
  returned a,
)

abbrev pub revoke_allowed :
    ℕ → String → String → Registry → Result String → Registry × Result ServiceAccount
revoke_allowed now tenant_id id registry (raised failure) = (registry, raised failure)
revoke_allowed now tenant_id id registry (returned role) =
    let rows : List ServiceAccount =
      update (names_account id tenant_id) (revoke now) registry.accounts in
    revoke_answer id registry rows (find (names_account id tenant_id) rows)

-- `revoke_service_account`
unfoldable pub revoke_service_account :
    ℕ → AuthUser → String → String → Registry → Registry × Result ServiceAccount
unfolding require_user_principal require_member
revoke_service_account now principal tenant_id id registry =
    revoke_allowed now tenant_id id registry (may_manage registry principal tenant_id)
