-- ===== src/Access/Principals.antt =====
-- Verified callers of backend/app/core/auth.py, and the exceptions that its functions and those of the
-- services raise. The claims that a principal carries along are left out.
use forjd.Prelude.{
  ℕ, String, Bool, true, false, not, Option, none, some, List, string_eq, nat_eq, ◌==◌,
  if◌then◌else◌, is_empty,
}

pub data PrincipalKind : Type 0 where
  user service erase_tombstone : PrincipalKind

pub record AuthUser : Type 0 where
  pub user_id : String
  pub role : String
  pub kind : PrincipalKind
  pub tenant_id : Option String
  pub subprocessor : Option String
  pub scopes : List String
  pub opaque_token_prefix : Option String
  pub opaque_token_hash : Option String

-- `principal.is_service`
abbrev pub is_service : AuthUser → Bool
is_service principal = elim principal.kind [ service ↦ true | _ ↦ false ]

abbrev pub is_user : AuthUser → Bool
is_user principal = elim principal.kind [ user ↦ true | _ ↦ false ]

-- `HTTPException(status_code, detail)` and `ValueError(detail)`.
pub data Failure : Type 0 where
  http_exception : ℕ → String → Failure
  value_error : String → Failure

pub data Result {ℓ} (A : Type ℓ) : Type ℓ where
  returned : A → Result A
  raised : Failure → Result A

infixl 5 ◌>>=◌ ◌>>◌
abbrev pub ◌>>=◌ {ℓ κ} : {A : Type ℓ} {B : Type κ} → Result A → (A → Result B) → Result B
returned a >>= f = f a
raised failure >>= f = raised failure

abbrev pub ◌>>◌ {ℓ κ} : {A : Type ℓ} {B : Type κ} → Result A → Result B → Result B
m >> k = m >>= λ _. k

-- `require_user_principal`
unfoldable pub require_user_principal : AuthUser → Result AuthUser
require_user_principal principal =
    if not (is_user principal)
    then raised (
        http_exception 403
          "enterprise user JWT required (service tokens cannot perform this action)")
    else returned principal

-- `text or None`: an empty text is falsy.
abbrev pub truthy : Option String → Bool
truthy none = false
truthy (some s) = not (is_empty s)

abbrev pub is_text : Option String → String → Bool
is_text none t = false
is_text (some s) t = s == t
