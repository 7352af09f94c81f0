-- ===== src/Prelude/Texts.antt =====
-- Texts by their characters: what Python's `strip`, `split` and slices do to them.
use Prim.Native.Char.{Char, code}
use Prim.Native.String.{String}
use mathlib.Core.Path.{◌≡◌, refl}
use native.Mathlib.Omega.{arith}
use Prim.Native.Nat.{ℕ, zero, suc}
use mathlib.Core.Bool.{Bool, true, false, ◌&&◌, ◌||◌}
use mathlib.Core.Option.{Option, none, some}
use forjd.Prelude.Tests.{nat_eq, ◌==◌, leb, if◌then◌else◌}

abbrev pub is_empty : String → Bool
is_empty String.[] = true
is_empty (String.◌∷◌ c s) = false

-- `s + t`
abbrev pub join : String → String → String
join String.[] t = t
join (String.◌∷◌ c s) t = String.◌∷◌ c (join s t)

-- `c in text`, by the character's code.
abbrev pub has_code : ℕ → String → Bool
has_code c String.[] = false
has_code c (String.◌∷◌ d s) = code d == c || has_code c s

-- `len(text)`
abbrev pub size : String → ℕ
size String.[] = 0
size (String.◌∷◌ c s) = suc (size s)

abbrev is_code_space : ℕ → Bool
is_code_space c =
    (leb 9 c && leb c 13)
    || (leb 28 c && leb c 32)
    || c == 133
    || c == 160
    || c == 5760
    || (leb 8192 c && leb c 8202)
    || c == 8232
    || c == 8233
    || c == 8239
    || c == 8287
    || c == 12288

-- `str.isspace` of one character.
unfoldable pub is_space : Char → Bool
is_space c = is_code_space (code c)

unfoldable pub lstrip : String → String
unfolding is_space
lstrip String.[] = String.[]
lstrip (String.◌∷◌ c s) = let rest = lstrip s in if is_space c then rest else String.◌∷◌ c s

unfoldable pub rstrip : String → String
unfolding is_space
rstrip String.[] = String.[]
rstrip (String.◌∷◌ c s) =
    let rest = rstrip s in if is_space c && is_empty rest then String.[] else String.◌∷◌ c rest

-- `text.strip()`
unfoldable pub strip : String → String
unfolding lstrip rstrip
strip s = rstrip (lstrip s)

-- `text.startswith(prefix)`, with what follows the prefix.
abbrev pub after_prefix : String → String → Option String
after_prefix String.[] s = some s
after_prefix (String.◌∷◌ c p) String.[] = none
after_prefix (String.◌∷◌ c p) (String.◌∷◌ d s) =
    let rest = after_prefix p s in if code c == code d then rest else none

abbrev pub put_first : Char → Option (String × String) → Option (String × String)
put_first c none = none
put_first c (some (a, b)) = some (String.◌∷◌ c a, b)

-- `text.split(separator, 1)` by the separator's code where it occurs, and `none` where it does not.
abbrev pub split_once : ℕ → String → Option (String × String)
split_once separator String.[] = none
split_once separator (String.◌∷◌ c s) =
    let rest = split_once separator s in
    if code c == separator then some (String.[], s) else put_first c rest

-- What is joined by a separator that does not occur before it is split there.
pub split_once-join :
    (separator : ℕ) (prefix rest : String) (c : Char)
    → (code c == separator) ≡ true
    → has_code separator prefix ≡ false
    → split_once separator (join prefix (String.◌∷◌ c rest)) ≡ some (prefix, rest)
split_once-join separator String.[] rest c same h = rw same refl
split_once-join separator (String.◌∷◌ d prefix) rest c same h =
    let before : (code d == separator) ≡ false = ground arith in
    let more : has_code separator prefix ≡ false = ground arith in
    rw (before, split_once-join separator prefix rest c same more) refl

-- `text[:n]`
unfoldable pub first_chars : ℕ → String → String
first_chars zero s = String.[]
first_chars (suc n) String.[] = String.[]
first_chars (suc n) (String.◌∷◌ c s) = String.◌∷◌ c (first_chars n s)
