-- ===== src/Access/Refused.antt =====
-- The token of a revoked service account at any later request.
use forjd.Access.Revoked.{Closed-Reach, revoked_from}
use forjd.Access.History.{Reach, bearer_opaque}
use forjd.Access.Tenancy.{access_as, require_tenant_access}
use forjd.Access.Tokens.{looks_like_service_token, service_token_prefix}
use forjd.Prelude.{
  ℕ, String, ◌≡◌, refl, sym, ap, ◌∙◌, inl, inr, Bool, true, false, ◌&&◌, Option, none, some, List,
  arith, eq_iff, string_eq, Bool-cases, find,
}
use forjd.Access.Principals.{
  PrincipalKind, erase_tombstone, AuthUser, http_exception, Result, returned, raised, is_text,
}
use forjd.Access.Accounts.{
  ServiceAccount, EraseReceipt, Registry, is_usable, holds_hash, accepts, opaque_row,
  authenticate_opaque, authenticate_erased_opaque,
}
use forjd.Access.Management.{same_text, clashes, may_manage, revoke_service_account}
use forjd.Access.Bearer.{
  Claims, Request, erase_retry_tenant_id, auth_user_from_erase_tombstone, from_receipt,
  opaque_principal, opaque_shaped, authenticate_opaque_service, authenticate_bearer,
}
use forjd.Access.Closed.{holds, Closed, IsHeldOnce, closed_is_unusable}

-- The prefix is kept by every statement, and is unique.
abbrev pub prefix_of : ServiceAccount → Option String
prefix_of a = a.prefix

same_prefix :
    (o p : Option String) (k : String)
    → is_text o k ≡ true
    → is_text p k ≡ true
    → same_text o p ≡ true
same_prefix none p k h g = h
same_prefix (some s) none k h g = g
same_prefix (some s) (some t) k h g =
    ground (arith, eq_iff s k, eq_iff t k, string_eq.equal_right t s)

clash_of_prefix :
    (a b : ServiceAccount) (k : String)
    → holds prefix_of k a ≡ true
    → holds prefix_of k b ≡ true
    → clashes a b ≡ true
clash_of_prefix a b k h g = ground (arith, same_prefix a.prefix b.prefix k h g)

refused_row :
    (now : ℕ) (prefix presented : String) (registry : Registry) (found : Option ServiceAccount)
    → Closed prefix_of prefix registry
    → find (holds prefix_of prefix) registry.accounts ≡ found
    → (opaque_row presented now registry found).1 ≡ none
refused_row now prefix presented registry none closed e = refl
refused_row now prefix presented registry (some a) closed e =
    let unusable = closed_is_unusable prefix_of prefix registry.accounts closed e in
    let refuse : (is_usable a && holds_hash a.key_hash presented) ≡ false = ground arith in
    ap (λ b. (accepts b now registry a).1) refuse

abbrev kind_of : Result AuthUser → PrincipalKind
kind_of (returned caller) = caller.kind
kind_of (raised failure) = erase_tombstone

tombstone_kind :
    (found : Option EraseReceipt) (caller : AuthUser)
    → from_receipt found ≡ returned caller
    → caller.kind ≡ erase_tombstone
unfolding auth_user_from_erase_tombstone
tombstone_kind none caller h = cc
tombstone_kind (some r) caller h = sym (ap kind_of h)

tombstone_only :
    (retry : Option String) (prefix presented : String) (answer : Registry × Option ServiceAccount)
    (caller : AuthUser)
    → answer.1 ≡ none
    → (opaque_principal retry prefix presented answer).1 ≡ returned caller
    → caller.kind ≡ erase_tombstone
tombstone_only none prefix presented (registry, none) caller e h = cc
tombstone_only (some tenant_id) prefix presented (registry, none) caller e h =
    tombstone_kind (authenticate_erased_opaque tenant_id prefix presented registry) caller h
tombstone_only retry prefix presented (registry, some a) caller e h = cc

-- A token with a known prefix is an opaque one.
prefixed_is_shaped :
    (token prefix : String)
    → service_token_prefix token ≡ some prefix
    → looks_like_service_token token ≡ true
unfolding service_token_prefix
prefixed_is_shaped token prefix h = elim (Bool-cases (looks_like_service_token token)) [
  | inl e ↦ e
  | inr e ↦ let bad = rw e at h in cc
]

module _ (hash : String → String) (verified : String → Option Claims) (configured : Bool) (now : ℕ)
    (request : Request) (token prefix : String) (registry : Registry) (caller : AuthUser)
    (prefixed : service_token_prefix token ≡ some prefix)
    (closed : Closed prefix_of prefix registry) where
  no_row : (authenticate_opaque now prefix (hash token) registry).1 ≡ none
  unfolding authenticate_opaque
  no_row =
      refused_row now prefix (hash token) registry (find (holds prefix_of prefix) registry.accounts)
        closed refl

  opaque_is_tombstone :
      (authenticate_opaque_service hash now request token registry).1 ≡ returned caller
      → caller.kind ≡ erase_tombstone
  unfolding authenticate_opaque_service
  opaque_is_tombstone h =
      tombstone_only (erase_retry_tenant_id request) prefix (hash token)
        (authenticate_opaque now prefix (hash token) registry) caller no_row
        (sym (
            ap (λ p. (opaque_shaped now (erase_retry_tenant_id request) (hash token) registry p).1)
              prefixed)
          ∙ h)

  bearer_is_tombstone :
      (authenticate_bearer hash verified configured now request token registry).1 ≡ returned caller
      → caller.kind ≡ erase_tombstone
  bearer_is_tombstone h = opaque_is_tombstone (
      sym (
        ap (λ answer. answer.1)
          (bearer_opaque hash verified configured now request registry token
            (prefixed_is_shaped token prefix prefixed)))
      ∙ h)

-- Once a service account is revoked, no later history of creations, revocations and
-- authentications lets its token in: whatever caller the token still authenticates as, the caller is
-- refused access to every tenant. Before the revocation no two accounts hold the prefix.
pub revoked_is_refused :
    (hash : String → String) (verified : String → Option Claims) (configured : Bool) (now : ℕ)
    (principal : AuthUser) (tenant_id id : String) (registry after later : Registry)
    (account : ServiceAccount) (prefix : String)
    → IsHeldOnce prefix_of prefix registry.accounts
    → revoke_service_account now principal tenant_id id registry ≡ (after, returned account)
    → account.prefix ≡ some prefix
    → Reach hash verified configured after later
    → (time : ℕ) (request : Request) (token : String) (caller : AuthUser)
    → service_token_prefix token ≡ some prefix
    → (authenticate_bearer hash verified configured time request token later).1 ≡ returned caller
    → (tenant : String) (min_roles required_scopes : Option (List String))
    → require_tenant_access later.members caller tenant min_roles required_scopes
      ≡ raised
          (http_exception 403 "erased credential is valid only for its completed erase receipt")
unfolding revoke_service_account require_tenant_access
revoked_is_refused hash verified configured now principal tenant_id id registry after later account
      prefix once revoked own past time request token caller prefixed answered tenant min_roles
      required_scopes =
    let unique = λ (a b : ServiceAccount). λ (h : holds prefix_of prefix a ≡ true).
      λ (g : holds prefix_of prefix b ≡ true). clash_of_prefix a b prefix h g in
    let mine : holds prefix_of prefix account ≡ true =
      ap (λ o. is_text o prefix) own ∙ (string_eq.equal_right prefix prefix).1 refl in
    let closed =
      revoked_from prefix_of prefix (λ now a. refl) (λ now a. refl) unique now tenant_id id registry
        after account (may_manage registry principal tenant_id) once revoked mine in
    let still =
      Closed-Reach prefix_of prefix (λ now a. refl) (λ now a. refl) unique hash verified configured
        closed past in
    let kind =
      bearer_is_tombstone hash verified configured time request token prefix later caller prefixed
        still answered in
    ap (λ k. access_as k later.members caller tenant min_roles required_scopes) kind
