-- ===== src/Access/Tokens.antt =====
-- Opaque service tokens, `fjsvc_<8-character prefix>_<secret>`: backend/app/core/auth.py and
-- `_mint_opaque_token` of backend/app/services/service_accounts.py.
use forjd.Prelude.{
  ℕ, String, Bool, false, not, ◌&&◌, Option, none, some, string_eq, nat_eq, ◌==◌, if◌then◌else◌,
  is_empty, join, size, after_prefix, split_once,
}

abbrev service_token_start : String
service_token_start = "fjsvc_"

abbrev service_prefix_len : ℕ
service_prefix_len = 8

abbrev shaped : Option (String × String) → Bool
shaped none = false
shaped (some (prefix, secret)) = size prefix == service_prefix_len && not (is_empty secret)

abbrev parts_of : Option String → Option (String × String)
parts_of none = none
parts_of (some rest) = split_once b'_' rest

-- `looks_like_service_token`
unfoldable pub looks_like_service_token : String → Bool
looks_like_service_token token = shaped (parts_of (after_prefix service_token_start token))

abbrev prefix_part : Option (String × String) → Option String
prefix_part none = none
prefix_part (some (prefix, secret)) = some prefix

-- `service_token_prefix`
unfoldable pub service_token_prefix : String → Option String
unfolding looks_like_service_token
service_token_prefix token =
    if not (looks_like_service_token token)
    then none
    else prefix_part (parts_of (after_prefix service_token_start token))

-- What `secrets` draws, and the token made of it.
unfoldable pub mint_opaque_token : String → String → String
mint_opaque_token prefix secret = join service_token_start (join prefix (join "_" secret))
