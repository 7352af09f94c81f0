-- ===== src/Access/Created.antt =====
-- What the creation of a service account has done when it succeeds.

use forjd.Access.Management.{
  normalize_scopes, NewAccount, Draws, clashes, insert_account, new_row, may_manage, may_create,
  create_allowed,
}
use forjd.Prelude.{
  String, ◌≡◌, refl, sym, subst, ap, inl, inr, Bool, true, false, not, ◌&&◌, Option, none, some,
  List, [], ◌∷◌, ◌++◌, if◌then◌else◌, Bool-cases, is_none, any,
}
use forjd.Access.Principals.{AuthUser, Failure, value_error, Result, returned, raised, ◌>>=◌}
use forjd.Access.Tokens.{mint_opaque_token}
use forjd.Access.Accounts.{ServiceAccount, Registry}

-- What a successful creation has done.
abbrev pub IsCreated :
    (String → String)
    → String
    → NewAccount
    → Draws
    → Registry
    → Registry
    → ServiceAccount
    → Option String
    → List String
    → Type 0
IsCreated hash tenant_id asked draws registry after account token scopes =
    (account ≡ new_row hash tenant_id asked draws scopes)
    × (after.accounts ≡ registry.accounts ++ account ∷ [])
    × (any (clashes account) registry.accounts ≡ false)
    × (token ≡ (
        if asked.mint_opaque_token
        then some (mint_opaque_token draws.prefix draws.secret)
        else none))

abbrev pair_or :
    ServiceAccount × Option String
    → Result (ServiceAccount × Option String)
    → ServiceAccount × Option String
pair_or a (returned b) = b
pair_or a (raised failure) = a

insert_account_lem :
    (a : ServiceAccount) (token : Option String) (registry after : Registry)
    (account : ServiceAccount) (given : Option String)
    → insert_account a token registry ≡ (after, returned (account, given))
    → (account ≡ a)
      × (after.accounts ≡ registry.accounts ++ account ∷ [])
      × (any (clashes account) registry.accounts ≡ false)
      × (given ≡ token)
insert_account_lem a token registry after account given h =
    elim (Bool-cases (any (clashes a) registry.accounts)) [
      | inl e ↦ let h' = rw e at h in let bad = ap (λ p. p.1) h' in cc
      | inr e ↦
          let h' = rw e at h in
          let same : a ≡ account = ap (λ p. (pair_or (a, token) p.1).0) h' in
          let rows : registry.accounts ++ a ∷ [] ≡ after.accounts = ap (λ p. p.0.accounts) h' in
          (
            sym same,
            subst (λ x. after.accounts ≡ registry.accounts ++ x ∷ []) same (sym rows),
            subst (λ x. any (clashes x) registry.accounts ≡ false) same e,
            sym (ap (λ p. (pair_or (a, token) p.1).1) h'),
          )
    ]

checked_scopes :
    (scopes : List String) (failure : Failure) (managed : Result String)
    (normal : Result (List String)) (unusable : Bool)
    → (managed >>= λ _. normal >>= λ found. if unusable then raised failure else returned found)
      ≡ returned scopes
    → normal ≡ returned scopes
checked_scopes scopes failure (raised other) normal unusable h = cc
checked_scopes scopes failure (returned role) (raised other) unusable h = cc
checked_scopes scopes failure (returned role) (returned found) true h = cc
checked_scopes scopes failure (returned role) (returned found) false h = h

module _ (hash : String → String) (principal : AuthUser) (tenant_id : String) (asked : NewAccount)
    (draws : Draws) (registry after : Registry) (account : ServiceAccount)
    (token : Option String) where
  pub create_allowed-IsCreated :
      (allowed : Result (List String))
      → create_allowed hash tenant_id asked draws registry allowed
        ≡ (after, returned (account, token))
      → (scopes : List String) × (allowed ≡ returned scopes)
        × IsCreated hash tenant_id asked draws registry after account token scopes
  create_allowed-IsCreated (raised failure) h = let bad = ap (λ p. p.1) h in cc
  create_allowed-IsCreated (returned scopes) h = (
    scopes,
    refl,
    insert_account_lem (new_row hash tenant_id asked draws scopes)
        (if asked.mint_opaque_token
          then some (mint_opaque_token draws.prefix draws.secret)
          else none)
        registry after account token h,
  )

  -- The scopes of an account are those that the request's normalize to.
  pub scopes_from :
      (scopes : List String)
      → may_create registry principal tenant_id asked ≡ returned scopes
      → normalize_scopes asked.scopes asked.include_tenant_erase ≡ returned scopes
  scopes_from scopes h =
      checked_scopes scopes (value_error "auth_user_id required when mint_opaque_token is false")
        (may_manage registry principal tenant_id)
        (normalize_scopes asked.scopes asked.include_tenant_erase)
        (not asked.mint_opaque_token && is_none asked.auth_user_id) h
