-- ===== src/Access/Bearer.antt =====
-- The authentication of a caller: backend/app/core/auth.py. `hash` is SHA-256 of the token's bytes, and
-- `verified` is what the JWT library answers for the token, with the trusted claims.

use forjd.Prelude.{
  ℕ, String, Bool, not, ◌&&◌, Option, none, some, List, [], string_eq, nat_eq, ◌==◌, if◌then◌else◌,
  is_empty, join,
}
use forjd.Access.Principals.{
  user, service, erase_tombstone, AuthUser, is_service, Failure, http_exception, Result, returned,
  raised, truthy, is_text,
}
use forjd.Access.Tokens.{looks_like_service_token, service_token_prefix}
use forjd.Access.Accounts.{
  ServiceAccount, EraseReceipt, Registry, authenticate_opaque, authenticate_auth_user,
  authenticate_erased_opaque,
}

-- `app_metadata.forjd`, where it says that the principal is a service.
pub record ForjdBlock : Type 0 where
  pub tenant_id : Option String
  pub scopes : List String
  pub subprocessor : Option String

-- The claims of a verified token that the code reads.
pub record Claims : Type 0 where
  pub sub : Option String
  pub role : Option String
  pub forjd : Option ForjdBlock

-- The request, as far as `_erase_retry_tenant_id` reads it: whether the method is POST and the route the
-- erase route, and the path's tenant where it is a UUID.
pub record Request : Type 0 where
  pub is_post : Bool
  pub is_erase_route : Bool
  pub path_tenant : Option String

-- `_erase_retry_tenant_id`
unfoldable pub erase_retry_tenant_id : Request → Option String
erase_retry_tenant_id request =
    if not request.is_post
    then none
    else if not request.is_erase_route
    then none
    else request.path_tenant

abbrev text_or_none : Option String → Option String
text_or_none s = if truthy s then s else none

abbrev claim_principal : String → String → Option ForjdBlock → AuthUser
claim_principal sub role none = record {
  user_id = sub;
  role = role;
  kind = user;
  tenant_id = none;
  subprocessor = none;
  scopes = [];
  opaque_token_prefix = none;
  opaque_token_hash = none;
}
claim_principal sub role (some block) = record {
  user_id = sub;
  role = role;
  kind = service;
  tenant_id = text_or_none block.tenant_id;
  subprocessor = text_or_none block.subprocessor;
  scopes = block.scopes;
  opaque_token_prefix = none;
  opaque_token_hash = none;
}

-- `str(claims.get("role") or "authenticated")`
abbrev claimed_role : Option String → String
claimed_role none = "authenticated"
claimed_role (some role) = if is_empty role then "authenticated" else role

abbrev subject_principal : Claims → Option String → Result AuthUser
subject_principal claims none = raised (http_exception 401 "token missing sub")
subject_principal claims (some sub) =
    if is_empty sub
    then raised (http_exception 401 "token missing sub")
    else if claimed_role claims.role == "service_role"
    then raised
        (http_exception 401 "service_role JWT is not accepted; use a tenant-scoped service account")
    else returned (claim_principal sub (claimed_role claims.role) claims.forjd)

-- `_principal_from_claims`
unfoldable pub principal_from_claims : Claims → Result AuthUser
principal_from_claims claims = subject_principal claims claims.sub

-- `_auth_user_from_service_row`
unfoldable pub auth_user_from_service_row :
    ServiceAccount → Option String → Option String → AuthUser
auth_user_from_service_row a token_prefix token_hash = record {
  user_id = a.id;
  role = "service";
  kind = service;
  tenant_id = some a.tenant_id;
  subprocessor = if is_empty a.subprocessor then none else some a.subprocessor;
  scopes = a.scopes;
  opaque_token_prefix = token_prefix;
  opaque_token_hash = token_hash;
}

abbrev erased_text : Option String → String
erased_text none = "None"
erased_text (some s) = s

-- `_auth_user_from_erase_tombstone`
unfoldable pub auth_user_from_erase_tombstone : EraseReceipt → AuthUser
auth_user_from_erase_tombstone r = record {
  user_id = join "erased:" (erased_text r.erased_credential_prefix);
  role = "erase_tombstone";
  kind = erase_tombstone;
  tenant_id = some r.tenant_id;
  subprocessor = none;
  scopes = [];
  opaque_token_prefix = none;
  opaque_token_hash = none;
}

abbrev invalid_service_token : Failure
invalid_service_token = http_exception 401 "invalid service token"

abbrev pub when_retry : Option String → String → Option String
when_retry none s = none
when_retry (some t) s = some s

abbrev pub from_receipt : Option EraseReceipt → Result AuthUser
from_receipt none = raised invalid_service_token
from_receipt (some r) = returned (auth_user_from_erase_tombstone r)

abbrev pub tombstone_principal : String → String → Registry → Option String → Result AuthUser
tombstone_principal prefix presented registry none = raised invalid_service_token
tombstone_principal prefix presented registry (some tenant_id) =
    from_receipt (authenticate_erased_opaque tenant_id prefix presented registry)

abbrev pub opaque_principal :
    Option String → String → String → Registry × Option ServiceAccount → Registry × Result AuthUser
opaque_principal retry prefix presented (registry, none) =
    (registry, tombstone_principal prefix presented registry retry)
opaque_principal retry prefix presented (registry, some a) = (
  registry,
  returned (auth_user_from_service_row a (when_retry retry prefix) (when_retry retry presented)),
)

abbrev pub opaque_shaped :
    ℕ → Option String → String → Registry → Option String → Registry × Result AuthUser
opaque_shaped now retry presented registry none = (registry, raised invalid_service_token)
opaque_shaped now retry presented registry (some prefix) =
    opaque_principal retry prefix presented (authenticate_opaque now prefix presented registry)

-- `_authenticate_opaque_service`
unfoldable pub authenticate_opaque_service :
    (String → String) → ℕ → Request → String → Registry → Registry × Result AuthUser
unfolding erase_retry_tenant_id service_token_prefix
authenticate_opaque_service hash now request token registry =
    opaque_shaped now (erase_retry_tenant_id request) (hash token) registry
      (service_token_prefix token)

-- The tenant of the claim, if there is one, is that of the registered account.
abbrev is_other_tenant : Option String → String → Bool
is_other_tenant claimed tenant_id = truthy claimed && not (is_text claimed tenant_id)

abbrev pub bound_principal :
    AuthUser → Registry × Option ServiceAccount → Registry × Result AuthUser
bound_principal provisional (registry, none) =
    (registry, raised (http_exception 401 "service account not registered or revoked"))
bound_principal provisional (registry, some a) = (
  registry,
  if is_other_tenant provisional.tenant_id a.tenant_id
      then raised (http_exception 403 "service token tenant mismatch")
      else returned (auth_user_from_service_row a none none),
)

-- `_bind_jwt_service_principal`
unfoldable pub bind_jwt_service_principal : ℕ → AuthUser → Registry → Registry × Result AuthUser
unfolding authenticate_auth_user
bind_jwt_service_principal now provisional registry =
    bound_principal provisional (authenticate_auth_user now provisional.user_id registry)

abbrev pub jwt_principal : Option Claims → Result AuthUser
jwt_principal none = raised (http_exception 401 "invalid or expired token")
jwt_principal (some claims) = principal_from_claims claims

abbrev pub jwt_bound : ℕ → Registry → Result AuthUser → Registry × Result AuthUser
jwt_bound now registry (raised failure) = (registry, raised failure)
jwt_bound now registry (returned principal) =
    if is_service principal
    then bind_jwt_service_principal now principal registry
    else (registry, returned principal)

-- `_authenticate_bearer` with a connected database, up to the rate limit of the principal.
unfoldable pub authenticate_bearer :
    (String → String)
    → (String → Option Claims)
    → Bool
    → ℕ
    → Request
    → String
    → Registry
    → Registry × Result AuthUser
unfolding looks_like_service_token authenticate_opaque_service principal_from_claims
    bind_jwt_service_principal
authenticate_bearer hash verified configured now request token registry =
    if looks_like_service_token token
    then authenticate_opaque_service hash now request token registry
    else if not configured
    then (
      registry,
      raised (
          http_exception 503
            "Supabase Auth is not configured (set SUPABASE_URL or SUPABASE_JWT_SECRET)"),
    )
    else jwt_bound now registry (jwt_principal (verified token))
