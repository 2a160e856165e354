-- ===== src/Base/Text.antt =====
-- The functions of Go's package `strings` that the program calls, character by character.
use Prim.Native.Nat.{ℕ, suc, ◌+◌}
use Prim.Native.Char.{code}
use Prim.Native.String.{String}
use mathlib.Core.Bool.{Bool, true, false, ◌&&◌, ◌||◌}
use mathlib.Core.Option.{Option, none, some}
use text.Mathlib.Text.{◌==◌ as str_eq}
use ccx.Base.Tests.{leb, nat_eq, if◌then◌else◌}

-- `unicode.IsSpace`
abbrev pub is_space : ℕ → Bool
is_space c =
    leb 9 c && leb c 13
    || nat_eq c 32
    || nat_eq c 133
    || nat_eq c 160
    || nat_eq c 5760
    || leb 8192 c && leb c 8202
    || nat_eq c 8232
    || nat_eq c 8233
    || nat_eq c 8239
    || nat_eq c 8287
    || nat_eq c 12288

abbrev pub is_empty : String → Bool
is_empty String.[] = true
is_empty (String.◌∷◌ c s) = false

-- `strings.TrimLeftFunc`
unfoldable pub trim_left : (ℕ → Bool) → String → String
trim_left p String.[] = String.[]
trim_left p (String.◌∷◌ c s) =
    let rest = trim_left p s in if p (code c) then rest else String.◌∷◌ c s

-- `strings.TrimRightFunc`
unfoldable pub trim_right : (ℕ → Bool) → String → String
trim_right p String.[] = String.[]
trim_right p (String.◌∷◌ c s) =
    let rest = trim_right p s in
    if is_empty rest && p (code c) then String.[] else String.◌∷◌ c rest

unfoldable pub trim_space : String → String
unfolding trim_left trim_right
trim_space s = trim_right is_space (trim_left is_space s)

-- What follows the prefix, where `s` starts with it.
unfoldable pub after_prefix : String → String → Option String
after_prefix s String.[] = some s
after_prefix String.[] (String.◌∷◌ d t) = none
after_prefix (String.◌∷◌ c s) (String.◌∷◌ d t) =
    let rest = after_prefix s t in if nat_eq (code c) (code d) then rest else none

abbrev pub is_some {ℓ} : {A : Type ℓ} → Option A → Bool
is_some none = false
is_some (some a) = true

-- `strings.HasPrefix`
unfoldable pub has_prefix : String → String → Bool
unfolding after_prefix
has_prefix s t = is_some (after_prefix s t)

-- `strings.TrimPrefix`
unfoldable pub trim_prefix : String → String → String
unfolding after_prefix
trim_prefix s t = elim (after_prefix s t) [ none ↦ s | some rest ↦ rest ]

-- What precedes the suffix, where `s` ends with it.
unfoldable pub before_suffix : String → String → Option String
before_suffix String.[] t = if is_empty t then some String.[] else none
before_suffix (String.◌∷◌ c s) t =
    let rest = before_suffix s t in
    if str_eq (String.◌∷◌ c s) t
    then some String.[]
    else elim rest [ none ↦ none | some front ↦ some (String.◌∷◌ c front) ]

-- `strings.HasSuffix`
unfoldable pub has_suffix : String → String → Bool
unfolding before_suffix
has_suffix s t = is_some (before_suffix s t)

-- `strings.TrimSuffix`
unfoldable pub trim_suffix : String → String → String
unfolding before_suffix
trim_suffix s t = elim (before_suffix s t) [ none ↦ s | some front ↦ front ]

-- `strings.Contains`
unfoldable pub contains : String → String → Bool
unfolding has_prefix
contains String.[] t = is_empty t
contains (String.◌∷◌ c s) t = let rest = contains s t in has_prefix (String.◌∷◌ c s) t || rest

-- `strings.Count` of one character.
unfoldable pub count_char : ℕ → String → ℕ
count_char d String.[] = 0
count_char d (String.◌∷◌ c s) =
    let rest = count_char d s in if nat_eq (code c) d then suc rest else rest

-- `strings.ToLower(s) == t` for a text `t` of the letters a to z. Of the other characters only U+0130 and
-- U+212A have one of these letters as their lower case.
abbrev pub lower_code : ℕ → ℕ
lower_code c =
    if leb 65 c && leb c 90
    then c + 32
    else if nat_eq c 304
    then 105
    else if nat_eq c 8490
    then 107
    else c

unfoldable pub is_lower_eq : String → String → Bool
is_lower_eq String.[] t = is_empty t
is_lower_eq (String.◌∷◌ c s) String.[] = false
is_lower_eq (String.◌∷◌ c s) (String.◌∷◌ d t) =
    nat_eq (lower_code (code c)) (code d) && is_lower_eq s t

-- `strings.EqualFold(s, t)` for a text `t` of the letters a to z without k and s.
abbrev pub fold_code : ℕ → ℕ
fold_code c = if leb 65 c && leb c 90 then c + 32 else c

unfoldable pub is_fold_eq : String → String → Bool
is_fold_eq String.[] t = is_empty t
is_fold_eq (String.◌∷◌ c s) String.[] = false
is_fold_eq (String.◌∷◌ c s) (String.◌∷◌ d t) =
    nat_eq (fold_code (code c)) (code d) && is_fold_eq s t
