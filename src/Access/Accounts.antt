-- ===== src/Access/Accounts.antt =====
-- Service accounts: backend/app/services/service_accounts.py. The columns that no statement reads
-- (name, creator, creation and update times) are left out, and an audit event is its action with the
-- resource.
use forjd.Prelude.{
  ℕ, ◌+◌, String, Bool, true, false, not, ◌&&◌, Option, none, some, List, ltb, string_eq, nat_eq,
  ◌==◌, if◌then◌else◌, is_none, find, update, size,
}
use forjd.Access.Principals.{truthy, is_text}
use forjd.Access.Tenancy.{Member}

-- A row of `service_accounts`.
pub record ServiceAccount : Type 0 where
  pub id : String
  pub tenant_id : String
  pub subprocessor : String
  pub prefix : Option String
  pub key_hash : Option String
  pub auth_user_id : Option String
  pub scopes : List String
  pub is_active : Bool
  pub revoked_at : Option ℕ
  pub last_used_at : Option ℕ

-- A row of `tenant_erase_receipts` with status completed, as far as the authentication reads it.
pub record EraseReceipt : Type 0 where
  pub tenant_id : String
  pub completed_at : Option ℕ
  pub is_completed : Bool
  pub erased_credential_prefix : Option String
  pub erased_credential_hash : Option String

-- The tables that the functions below read and write.
pub record Registry : Type 0 where
  pub members : List Member
  pub accounts : List ServiceAccount
  pub receipts : List EraseReceipt
  pub audit : List (String × String)

-- `_touch_last_used`: at most once in five minutes.
unfoldable pub touch_last_used : ℕ → String → List ServiceAccount → List ServiceAccount
touch_last_used now account_id =
    update
      (λ a. a.id == account_id && elim a.last_used_at [ none ↦ true | some t ↦ ltb (t + 300) now ])
      (λ a. record a { last_used_at = some now })

abbrev pub is_usable : ServiceAccount → Bool
is_usable a = a.is_active && is_none a.revoked_at

-- The hash of the presented token against a stored one, which may be missing or empty.
abbrev pub holds_hash : Option String → String → Bool
holds_hash expected presented = truthy expected && is_text expected presented

abbrev pub accepts : Bool → ℕ → Registry → ServiceAccount → Registry × Option ServiceAccount
accepts false now registry a = (registry, none)
accepts true now registry a =
    (record registry { accounts = touch_last_used now a.id registry.accounts }, some a)

abbrev pub opaque_row :
    String → ℕ → Registry → Option ServiceAccount → Registry × Option ServiceAccount
opaque_row presented now registry none = (registry, none)
opaque_row presented now registry (some a) =
    accepts (is_usable a && holds_hash a.key_hash presented) now registry a

-- `authenticate_opaque`, with the hash of the token.
unfoldable pub authenticate_opaque :
    ℕ → String → String → Registry → Registry × Option ServiceAccount
unfolding touch_last_used
authenticate_opaque now prefix presented registry =
    opaque_row presented now registry (find (λ a. is_text a.prefix prefix) registry.accounts)

abbrev pub auth_user_row : ℕ → Registry → Option ServiceAccount → Registry × Option ServiceAccount
auth_user_row now registry none = (registry, none)
auth_user_row now registry (some a) = accepts (is_usable a) now registry a

-- `authenticate_auth_user`
unfoldable pub authenticate_auth_user : ℕ → String → Registry → Registry × Option ServiceAccount
unfolding touch_last_used
authenticate_auth_user now auth_user_id registry =
    auth_user_row now registry (find (λ a. is_text a.auth_user_id auth_user_id) registry.accounts)

abbrev erased_row : String → Option EraseReceipt → Option EraseReceipt
erased_row presented none = none
erased_row presented (some r) =
    if elim r.erased_credential_hash [ none ↦ false | some h ↦ size h == 64 ]
      && is_text r.erased_credential_hash presented
    then some r
    else none

-- `authenticate_erased_opaque`
unfoldable pub authenticate_erased_opaque :
    String → String → String → Registry → Option EraseReceipt
authenticate_erased_opaque tenant_id prefix presented registry = erased_row presented (
    find
      (λ r.
        r.tenant_id == tenant_id
        && r.is_completed
        && not (is_none r.completed_at)
        && is_text r.erased_credential_prefix prefix)
      registry.receipts)
