-- ===== src/Access/Minted.antt =====
-- A minted token and the principal that it authenticates.

use forjd.Access.History.{bearer_opaque}
use forjd.Prelude.{
  ℕ, String, ◌≡◌, refl, sym, ap, ◌∙◌, Bool, true, false, ◌&&◌, Option, none, some, List, [], ◌∷◌,
  ◌++◌, arith, string_eq, if◌then◌else◌, any, find, is_empty, join, has_code, size, split_once,
  split_once-join,
}
use forjd.Access.Principals.{AuthUser, returned, is_text}
use forjd.Access.Tokens.{looks_like_service_token, service_token_prefix, mint_opaque_token}
use forjd.Access.Accounts.{
  ServiceAccount, Registry, is_usable, holds_hash, accepts, opaque_row, authenticate_opaque,
}
use forjd.Access.Management.{
  normalize_scopes, NewAccount, Draws, same_text, clashes, may_create, create_service_account,
}
use forjd.Access.Bearer.{
  Claims, Request, erase_retry_tenant_id, auth_user_from_service_row, when_retry, opaque_principal,
  opaque_shaped, authenticate_opaque_service, authenticate_bearer,
}
use forjd.Access.Created.{create_allowed-IsCreated, scopes_from}

prefix-mint :
    (prefix secret : String)
    → size prefix ≡ 8
    → has_code b'_' prefix ≡ false
    → is_empty secret ≡ false
    → (looks_like_service_token (mint_opaque_token prefix secret) ≡ true)
      × (service_token_prefix (mint_opaque_token prefix secret) ≡ some prefix)
unfolding looks_like_service_token service_token_prefix mint_opaque_token
prefix-mint prefix secret eight plain full =
    let parts : split_once b'_' (join prefix (join "_" secret)) ≡ some (prefix, secret) =
      split_once-join b'_' prefix secret "_" refl plain in
    rw (parts, eight, full) (refl, refl)

find-append {ℓ} :
    {A : Type ℓ} (p : A → Bool) (a : A) (l : List A)
    → any p l ≡ false
    → p a ≡ true
    → find p (l ++ a ∷ []) ≡ some a
find-append p a [] h passes = rw passes refl
find-append p a (x ∷ rest) h passes =
    let skip : p x ≡ false = ground arith in
    let more : any p rest ≡ false = ground arith in rw skip (find-append p a rest more passes)

-- No row that does not clash with an account holds its prefix.
prefix_is_free :
    (a : ServiceAccount) (prefix : String) (l : List ServiceAccount)
    → a.prefix ≡ some prefix
    → any (clashes a) l ≡ false
    → any (λ b. is_text b.prefix prefix) l ≡ false
prefix_is_free a prefix [] own h = refl
prefix_is_free a prefix (x ∷ rest) own h =
    let clash : (same_text a.prefix x.prefix) ≡ is_text x.prefix prefix =
      ap (λ p. same_text p x.prefix) own in
    ground (arith, prefix_is_free a prefix rest own)

module _ (hash : String → String) (now : ℕ) (account : ServiceAccount) (prefix presented : String)
    (registry : Registry) where
  -- An account that holds the prefix and the hash, and is the only one with the prefix, authenticates.
  authenticates :
      (before : List ServiceAccount)
      → registry.accounts ≡ before ++ account ∷ []
      → any (clashes account) before ≡ false
      → account.prefix ≡ some prefix
      → account.key_hash ≡ some presented
      → is_empty presented ≡ false
      → is_usable account ≡ true
      → (authenticate_opaque now prefix presented registry).1 ≡ some account
  unfolding authenticate_opaque
  authenticates before rows fresh own_prefix own_hash full usable =
      let own : is_text account.prefix prefix ≡ true =
        ap (λ p. is_text p prefix) own_prefix ∙ (string_eq.equal_right prefix prefix).1 refl in
      let found : find (λ a. is_text a.prefix prefix) registry.accounts ≡ some account =
        ap (find (λ a. is_text a.prefix prefix)) rows
        ∙ find-append (λ a. is_text a.prefix prefix) account before
            (prefix_is_free account prefix before own_prefix fresh) own in
      let held : holds_hash account.key_hash presented ≡ true = ground (
        arith,
        ap (λ k. holds_hash k presented) own_hash,
        string_eq.equal_right presented presented,
      ) in
      let accept : (is_usable account && holds_hash account.key_hash presented) ≡ true =
        ground arith in
      ap (λ o. (opaque_row presented now registry o).1) found
      ∙ ap (λ b. (accepts b now registry account).1) accept

some_same {ℓ} : {A : Type ℓ} (a b : A) → some a ≡ some b → a ≡ b
some_same a b h = cc

minted_only :
    (mint : Bool) (token minted : String)
    → some token ≡ (if mint then some minted else none)
    → (mint ≡ true) × (token ≡ minted)
minted_only true token minted h = (refl, ground arith)
minted_only false token minted h = cc

module _ (retry : Option String) (prefix presented : String) (account : ServiceAccount) where
  principal_found :
      (answer : Registry × Option ServiceAccount)
      → answer.1 ≡ some account
      → (opaque_principal retry prefix presented answer).1
        ≡ returned (
            auth_user_from_service_row account
              (when_retry retry prefix)
              (when_retry retry presented))
  principal_found (registry, none) h = cc
  principal_found (registry, some other) h =
      let same : other ≡ account = some_same other account h in
      ap
        (λ a.
          returned
            (auth_user_from_service_row a (when_retry retry prefix) (when_retry retry presented)))
        same

module _ (hash : String → String) (verified : String → Option Claims) (configured : Bool) (now : ℕ)
    (request : Request) (registry : Registry) where
  opaque_found :
      (token prefix : String) (account : ServiceAccount)
      → service_token_prefix token ≡ some prefix
      → (authenticate_opaque now prefix (hash token) registry).1 ≡ some account
      → (authenticate_opaque_service hash now request token registry).1
        ≡ returned (
            auth_user_from_service_row account
              (when_retry (erase_retry_tenant_id request) prefix)
              (when_retry (erase_retry_tenant_id request) (hash token)))
  unfolding authenticate_opaque_service
  opaque_found token prefix account prefixed found =
      ap (λ p. (opaque_shaped now (erase_retry_tenant_id request) (hash token) registry p).1)
        prefixed
      ∙ principal_found (erase_retry_tenant_id request) prefix (hash token) account
          (authenticate_opaque now prefix (hash token) registry) found

-- A token that a successful creation of a service account returns authenticates, on the tables as they
-- then are and at any request, as exactly that account, which belongs to the tenant asked for and
-- has the scopes that the request's normalize to. The drawn prefix has 8 characters without an
-- underscore, the drawn secret is not empty, and no digest is empty.
pub minted_round_trip :
    (hash : String → String) (verified : String → Option Claims) (configured : Bool) (now : ℕ)
    (request : Request) (principal : AuthUser) (tenant_id : String) (asked : NewAccount)
    (draws : Draws) (registry after : Registry) (account : ServiceAccount) (token : String)
    → ((s : String) → is_empty (hash s) ≡ false)
    → size draws.prefix ≡ 8
    → has_code b'_' draws.prefix ≡ false
    → is_empty draws.secret ≡ false
    → create_service_account hash principal tenant_id asked draws registry
      ≡ (after, returned (account, some token))
    → ((authenticate_bearer hash verified configured now request token after).1
        ≡ returned (
            auth_user_from_service_row account
              (when_retry (erase_retry_tenant_id request) draws.prefix)
              (when_retry (erase_retry_tenant_id request) (hash token))))
      × (account.tenant_id ≡ tenant_id)
      × (normalize_scopes asked.scopes asked.include_tenant_erase ≡ returned account.scopes)
unfolding create_service_account
minted_round_trip hash verified configured now request principal tenant_id asked draws registry
      after account token digest eight plain full h =
    let (scopes, allowed, (is_row, rows, fresh, given)) =
      create_allowed-IsCreated hash principal tenant_id asked draws registry after account
        (some token) (may_create registry principal tenant_id asked) h in
    let (minted, same_token) =
      minted_only asked.mint_opaque_token token (mint_opaque_token draws.prefix draws.secret)
        given in
    let (shaped, prefixed) = prefix-mint draws.prefix draws.secret eight plain full in
    let normal =
      scopes_from hash principal tenant_id asked draws registry after account (some token) scopes
        allowed in
    let own_prefix : account.prefix ≡ some draws.prefix =
      ap (λ a. a.prefix) is_row ∙ ap (λ b. if b then some draws.prefix else none) minted in
    let own_hash : account.key_hash ≡ some (hash token) =
      ap (λ a. a.key_hash) is_row
      ∙ ap (λ b. if b then some (hash (mint_opaque_token draws.prefix draws.secret)) else none)
          minted
      ∙ ap (λ t. some (hash t)) (sym same_token) in
    let found =
      authenticates hash now account draws.prefix (hash token) after registry.accounts rows fresh
        own_prefix own_hash (digest token) (ap is_usable is_row) in
    (
      ap (λ answer. answer.1)
            (bearer_opaque hash verified configured now request after token
              (ap looks_like_service_token same_token ∙ shaped))
          ∙ opaque_found hash verified configured now request after token draws.prefix account
              (ap service_token_prefix same_token ∙ prefixed) found,
      ap (λ a. a.tenant_id) is_row,
      normal ∙ ap returned (sym (ap (λ a. a.scopes) is_row)),
    )
