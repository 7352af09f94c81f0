-- ===== src/Access/History.antt =====
-- The histories of the tables of service accounts, and what every step keeps of a revoked credential.
use forjd.Access.Management.{NewAccount, Draws, create_service_account, revoke_service_account}
use forjd.Prelude.{
  ℕ, String, ◌≡◌, refl, inl, inr, Bool, true, false, not, ◌&&◌, Option, none, some, if◌then◌else◌,
  Bool-cases, find,
}
use forjd.Access.Principals.{
  AuthUser, is_service, http_exception, Result, returned, raised, is_text,
}
use forjd.Access.Accounts.{
  ServiceAccount, Registry, touch_last_used, is_usable, holds_hash, accepts, opaque_row,
  authenticate_opaque, auth_user_row, authenticate_auth_user,
}
use forjd.Access.Tokens.{looks_like_service_token, service_token_prefix}
use forjd.Access.Bearer.{
  Claims, Request, erase_retry_tenant_id, opaque_principal, opaque_shaped,
  authenticate_opaque_service, bound_principal, bind_jwt_service_principal, jwt_principal,
  jwt_bound, authenticate_bearer,
}

-- A request that creates or revokes a service account, or that a caller authenticates with.
pub data Step (hash : String → String) (verified : String → Option Claims) (configured : Bool)
    (r u : Registry) : Type 0 where
  creates :
      (principal : AuthUser) (tenant_id : String) (asked : NewAccount) (draws : Draws)
      → u ≡ (create_service_account hash principal tenant_id asked draws r).0
      → Step hash verified configured r u
  revokes :
      (now : ℕ) (principal : AuthUser) (tenant_id id : String)
      → u ≡ (revoke_service_account now principal tenant_id id r).0
      → Step hash verified configured r u
  calls :
      (now : ℕ) (request : Request) (token : String)
      → u ≡ (authenticate_bearer hash verified configured now request token r).0
      → Step hash verified configured r u

pub data Reach (hash : String → String) (verified : String → Option Claims) (configured : Bool)
    (r : Registry) : Registry → Type 0 where
  here : Reach hash verified configured r r
  next :
      {u v : Registry}
      → Reach hash verified configured r u
      → Step hash verified configured u v
      → Reach hash verified configured r v

-- What a caller's request may do to the tables: nothing, or a touch of one account.
module _ (P : Registry → Type 0) (r : Registry) (same : P r)
    (touched : (now : ℕ) (id : String)
      → P (record r { accounts = touch_last_used now id r.accounts })) where
  keep-accepts : (now : ℕ) (a : ServiceAccount) (ok : Bool) → P (accepts ok now r a).0
  keep-accepts now a true = touched now a.id
  keep-accepts now a false = same

  keep-opaque_row :
      (presented : String) (now : ℕ) (o : Option ServiceAccount)
      → P (opaque_row presented now r o).0
  keep-opaque_row presented now none = same
  keep-opaque_row presented now (some a) =
      keep-accepts now a (is_usable a && holds_hash a.key_hash presented)

  keep-auth_user_row : (now : ℕ) (o : Option ServiceAccount) → P (auth_user_row now r o).0
  keep-auth_user_row now none = same
  keep-auth_user_row now (some a) = keep-accepts now a (is_usable a)

  keep-opaque_principal :
      (retry : Option String) (prefix presented : String)
      (answer : Registry × Option ServiceAccount)
      → P answer.0
      → P (opaque_principal retry prefix presented answer).0
  keep-opaque_principal retry prefix presented (registry, none) h = h
  keep-opaque_principal retry prefix presented (registry, some a) h = h

  keep-opaque_shaped :
      (now : ℕ) (retry : Option String) (presented : String) (prefix : Option String)
      → P (opaque_shaped now retry presented r prefix).0
  unfolding authenticate_opaque
  keep-opaque_shaped now retry presented none = same
  keep-opaque_shaped now retry presented (some prefix) =
      keep-opaque_principal retry prefix presented (authenticate_opaque now prefix presented r)
        (keep-opaque_row presented now (find (λ a. is_text a.prefix prefix) r.accounts))

  keep-bound_principal :
      (provisional : AuthUser) (answer : Registry × Option ServiceAccount)
      → P answer.0
      → P (bound_principal provisional answer).0
  keep-bound_principal provisional (registry, none) h = h
  keep-bound_principal provisional (registry, some a) h = h

  keep-jwt_bound : (now : ℕ) (principal : Result AuthUser) → P (jwt_bound now r principal).0
  unfolding bind_jwt_service_principal authenticate_auth_user
  keep-jwt_bound now (raised failure) = same
  keep-jwt_bound now (returned principal) = elim (Bool-cases (is_service principal)) [
    | inl e ↦ rw e (
        keep-bound_principal principal (authenticate_auth_user now principal.user_id r) (
          keep-auth_user_row now (find (λ a. is_text a.auth_user_id principal.user_id) r.accounts)))
    | inr e ↦ rw e same
  ]

  keep-if : (t : Bool) (a b : Registry × Result AuthUser) → P a.0 → P b.0 → P (if t then a else b).0
  keep-if true a b ha hb = ha
  keep-if false a b ha hb = hb

  abbrev unconfigured : Registry × Result AuthUser
  unconfigured = (
    r,
    raised (
        http_exception 503
          "Supabase Auth is not configured (set SUPABASE_URL or SUPABASE_JWT_SECRET)"),
  )

  pub keep-authenticate_bearer :
      (hash : String → String) (verified : String → Option Claims) (configured : Bool) (now : ℕ)
      (request : Request) (token : String)
      → P (authenticate_bearer hash verified configured now request token r).0
  unfolding authenticate_bearer authenticate_opaque_service
  keep-authenticate_bearer hash verified configured now request token =
      keep-if (looks_like_service_token token)
        (authenticate_opaque_service hash now request token r)
        (if not configured then unconfigured else jwt_bound now r (jwt_principal (verified token)))
        (keep-opaque_shaped now (erase_retry_tenant_id request) (hash token)
          (service_token_prefix token))
        (keep-if (not configured) unconfigured (jwt_bound now r (jwt_principal (verified token)))
          same (keep-jwt_bound now (jwt_principal (verified token))))

-- A token of the shape of a service token takes the opaque route.
module _ (hash : String → String) (verified : String → Option Claims) (configured : Bool) (now : ℕ)
    (request : Request) (r : Registry) where
  pub bearer_opaque :
      (token : String)
      → looks_like_service_token token ≡ true
      → authenticate_bearer hash verified configured now request token r
        ≡ authenticate_opaque_service hash now request token r
  unfolding authenticate_bearer
  bearer_opaque token shaped = rw shaped refl
