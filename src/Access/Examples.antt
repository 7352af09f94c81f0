-- ===== src/Access/Examples.antt =====
-- Runs of the authentication and of the access to a tenant.
use forjd.Access.Refused.{prefix_of, revoked_is_refused}
use forjd.Access.Closed.{IsHeldOnce}
use forjd.Access.History.{Step, calls, here, next}
use mathlib.Core.List.{Memᴰ}
use forjd.Prelude.{String, ◌≡◌, refl, sym, ◌∙◌, ◌↔◌, true, false, Option, none, some, [], ◌∷◌}
use forjd.Access.Principals.{user, AuthUser, http_exception, returned, raised}
use forjd.Access.Tokens.{service_token_prefix, mint_opaque_token}
use forjd.Access.Tenancy.{Member, require_tenant_access}
use forjd.Access.Accounts.{
  ServiceAccount, EraseReceipt, Registry, authenticate_opaque, authenticate_erased_opaque,
}
use forjd.Access.Management.{
  normalize_scopes, NewAccount, Draws, new_row, create_service_account, revoke_service_account,
}
use forjd.Access.Bearer.{
  Claims, Request, erase_retry_tenant_id, auth_user_from_service_row,
  auth_user_from_erase_tombstone, authenticate_bearer,
}
use forjd.Access.Granted.{IsGranted, require_tenant_access-IsGranted}
use forjd.Access.Minted.{minted_round_trip}

abbrev hex : String
hex = "0123456789abcdef0123456789abcdef0123456789abcdef0123456789abcdef"

abbrev digest : String → String
digest s = hex

abbrev no_claims : String → Option Claims
no_claims token = none

abbrev owner : AuthUser
owner = record {
  user_id = "u1";
  role = "authenticated";
  kind = user;
  tenant_id = none;
  subprocessor = none;
  scopes = [];
  opaque_token_prefix = none;
  opaque_token_hash = none;
}

abbrev owner_row : Member
owner_row = record { tenant_id = "t1"; user_id = "u1"; role = "owner" }

abbrev fresh : Registry
fresh = record { members = owner_row ∷ []; accounts = []; receipts = []; audit = [] }

abbrev asked : NewAccount
asked = record {
  subprocessor = "deml";
  scopes = some (" ingest:write " ∷ "ingest:read" ∷ "ingest:write" ∷ []);
  include_tenant_erase = false;
  auth_user_id = none;
  mint_opaque_token = true;
}

abbrev draws : Draws
draws = record { id = "a1"; prefix = "0a1b2c3d"; secret = "x_y" }

abbrev token : String
token = "fjsvc_0a1b2c3d_x_y"

abbrev account : ServiceAccount
account = new_row digest "t1" asked draws ("ingest:write" ∷ "ingest:read" ∷ [])

abbrev created : Registry
created = record fresh { accounts = account ∷ []; audit = ("service_account.create", "a1") ∷ [] }

abbrev get : Request
get = record { is_post = false; is_erase_route = false; path_tenant = none }

creation :
    create_service_account digest owner "t1" asked draws fresh
    ≡ (created, returned (account, some token))
unfolding create_service_account mint_opaque_token
creation = refl

minted_round_trip_example :
    ((authenticate_bearer digest no_claims false 7 get token created).1
      ≡ returned (auth_user_from_service_row account none none))
    × (account.tenant_id ≡ "t1")
    × (normalize_scopes asked.scopes asked.include_tenant_erase ≡ returned account.scopes)
unfolding mint_opaque_token erase_retry_tenant_id
minted_round_trip_example =
    minted_round_trip digest no_claims false 7 get owner "t1" asked draws fresh created account
      token (λ s. refl) refl refl refl creation

require_tenant_access-IsGranted_example :
    (require_tenant_access (owner_row ∷ []) owner "t1" (some ("owner" ∷ "admin" ∷ [])) none
      ≡ returned "owner")
    ↔ IsGranted (owner_row ∷ []) owner "t1" (some ("owner" ∷ "admin" ∷ [])) none "owner"
require_tenant_access-IsGranted_example =
    require_tenant_access-IsGranted (owner_row ∷ []) owner "t1" (some ("owner" ∷ "admin" ∷ [])) none
      "owner" (refl, tt)

-- An erase receipt that completed with the same credential: the token proves it, and nothing else.
abbrev receipt : EraseReceipt
receipt = record {
  tenant_id = "t1";
  completed_at = some 5;
  is_completed = true;
  erased_credential_prefix = some "0a1b2c3d";
  erased_credential_hash = some hex;
}

abbrev before : Registry
before = record created { receipts = receipt ∷ [] }

abbrev revoked_account : ServiceAccount
revoked_account = record account { is_active = false; revoked_at = some 9; key_hash = none }

abbrev after : Registry
after = record before {
  accounts = revoked_account ∷ [];
  audit = ("service_account.create", "a1") ∷ ("service_account.revoke", "a1") ∷ [];
}

revocation : revoke_service_account 9 owner "t1" "a1" before ≡ (after, returned revoked_account)
unfolding revoke_service_account mint_opaque_token
revocation = refl

abbrev erase : Request
erase = record { is_post = true; is_erase_route = true; path_tenant = some "t1" }

abbrev tombstone : AuthUser
tombstone = auth_user_from_erase_tombstone receipt

later : Step digest no_claims false after after
unfolding authenticate_bearer mint_opaque_token authenticate_opaque
later = calls 10 get token refl

answered : (authenticate_bearer digest no_claims false 11 erase token after).1 ≡ returned tombstone
unfolding authenticate_bearer mint_opaque_token authenticate_opaque authenticate_erased_opaque
answered = refl

prefixed : service_token_prefix token ≡ some "0a1b2c3d"
unfolding service_token_prefix
prefixed = refl

only : (x : ServiceAccount) → Memᴰ x (account ∷ []) → x ≡ account
only x (Memᴰ.head e) = e
only x (Memᴰ.tail m) = elim m [ ]

held_once : IsHeldOnce prefix_of "0a1b2c3d" before.accounts
held_once x y m n h g = only x m ∙ sym (only y n)

revoked_is_refused_example :
    require_tenant_access after.members tombstone "t1" none (some ("ingest:write" ∷ []))
    ≡ raised (http_exception 403 "erased credential is valid only for its completed erase receipt")
revoked_is_refused_example =
    revoked_is_refused digest no_claims false 9 owner "t1" "a1" before after after revoked_account
      "0a1b2c3d" held_once revocation refl (next here later) 11 erase token tombstone prefixed
      answered "t1" none (some ("ingest:write" ∷ []))
