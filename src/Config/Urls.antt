-- ===== src/Config/Urls.antt =====
-- Base URLs: backend-go/internal/utils/url_utils.go, and the helpers of backend-go/internal/config/config_utils.go
-- that use it.
use Prim.Native.Char.{code}
use Prim.Native.String.{◌++◌ as append}
use ccx.Base.{
  ℕ, Bool, true, false, not, ◌&&◌, ◌||◌, List, [], ◌∷◌, String, leb, nat_eq, str_eq, if◌then◌else◌,
  any,
}
use ccx.Base.Text.{trim_space, trim_right, has_suffix, trim_suffix, is_fold_eq, is_empty}
use ccx.Config.Types.{UpstreamConfig}

unfoldable pub default_version_prefix_for_service : String → String
unfolding is_fold_eq
default_version_prefix_for_service service_type =
    if is_fold_eq service_type "gemini" then "/v1beta" else "/v1"

-- `normalizeBaseURL`: the URL, and whether it ended with `#`.
unfoldable pub normalize_base_url : String → String × Bool
unfolding trim_space has_suffix trim_suffix trim_right
normalize_base_url raw =
    let trimmed = trim_space raw in
    if is_empty trimmed
    then ("", false)
    else (trim_right (nat_eq b'/') (trim_suffix trimmed "#"), has_suffix trimmed "#")

unfoldable pub canonical_of : String → String × Bool → String
unfolding has_suffix trim_suffix default_version_prefix_for_service
canonical_of service_type (normalized, has_hash) =
    let version_prefix = default_version_prefix_for_service service_type in
    if is_empty normalized
    then ""
    else if has_hash
    then append normalized "#"
    else if has_suffix normalized version_prefix
    then trim_suffix normalized version_prefix
    else normalized

unfoldable pub canonical_base_url : String → String → String
unfolding normalize_base_url canonical_of
canonical_base_url raw service_type = canonical_of service_type (normalize_base_url raw)

abbrev pub is_digit : ℕ → Bool
is_digit c = leb b'0' c && leb c b'9'

abbrev pub is_lower : ℕ → Bool
is_lower c = leb b'a' c && leb c b'z'

-- `[a-z]*$`
unfoldable pub is_letters : String → Bool
is_letters String.[] = true
is_letters (String.◌∷◌ c s) = is_lower (code c) && is_letters s

-- `\d*[a-z]*$`
unfoldable pub is_digits_letters : String → Bool
unfolding is_letters
is_digits_letters String.[] = true
is_digits_letters (String.◌∷◌ c s) =
    let rest = is_digits_letters s in is_digit (code c) && rest || is_letters (String.◌∷◌ c s)

-- `\d+[a-z]*$`
unfoldable pub is_version : String → Bool
unfolding is_digits_letters
is_version String.[] = false
is_version (String.◌∷◌ c s) = is_digit (code c) && is_digits_letters s

-- `v\d+[a-z]*$`
unfoldable pub is_v_version : String → Bool
unfolding is_version
is_v_version String.[] = false
is_v_version (String.◌∷◌ c s) = nat_eq (code c) b'v' && is_version s

-- `reBaseURLVersionSuffix`: `/v\d+[a-z]*$`, at any place of the text.
unfoldable pub has_version_suffix : String → Bool
unfolding is_v_version
has_version_suffix String.[] = false
has_version_suffix (String.◌∷◌ c s) =
    let rest = has_version_suffix s in nat_eq (code c) b'/' && is_v_version s || rest

abbrev pub identity_of : String → String × Bool → String
unfolding default_version_prefix_for_service has_version_suffix
identity_of service_type (normalized, has_hash) =
    if is_empty normalized
    then ""
    else if has_hash
    then append normalized "#"
    else if has_version_suffix normalized
    then normalized
    else append normalized (default_version_prefix_for_service service_type)

unfoldable pub metrics_identity_base_url : String → String → String
unfolding normalize_base_url
metrics_identity_base_url raw service_type = identity_of service_type (normalize_base_url raw)

-- The closure `add`: the variants so far are `variants`.
unfoldable pub add_variant : List String → String → List String
add_variant [] value = if is_empty value then [] else value ∷ []
add_variant (v ∷ vs) value =
    let rest = add_variant vs value in if str_eq v value then v ∷ vs else v ∷ rest

unfoldable pub add_variants : List String → List String → List String
unfolding add_variant
add_variants variants [] = variants
add_variants variants (value ∷ values) = add_variants (add_variant variants value) values

unfoldable pub equivalent_base_url_variants : String → String → List String
unfolding normalize_base_url has_version_suffix has_suffix add_variants canonical_base_url
    metrics_identity_base_url default_version_prefix_for_service
equivalent_base_url_variants raw service_type =
    let normalized = (normalize_base_url raw).0 in
    let canonical = canonical_base_url raw service_type in
    let identity = metrics_identity_base_url raw service_type in
    if is_empty normalized
    then []
    else if (normalize_base_url raw).1
    then add_variants [] (append normalized "#" ∷ append normalized "/#" ∷ [])
    else if has_version_suffix normalized
        && not (has_suffix normalized (default_version_prefix_for_service service_type))
    then add_variants [] (normalized ∷ append normalized "/" ∷ [])
    else add_variants [] (canonical ∷ append canonical "/" ∷ identity ∷ append identity "/" ∷ [])

-- The loops of `deduplicateStrings` and `deduplicateBaseURLs`: `seen` are the items taken.
unfoldable pub keep_new : List String → List String → List String
keep_new [] seen = []
keep_new (x ∷ xs) seen =
    let rest = keep_new xs seen in
    let rest' = keep_new xs (x ∷ seen) in if any (str_eq x) seen then rest else x ∷ rest'

unfoldable pub deduplicate_strings : List String → List String
unfolding keep_new
deduplicate_strings items = keep_new items []

unfoldable pub canonical_urls : String → List String → List String
unfolding canonical_base_url
canonical_urls service_type [] = []
canonical_urls service_type (raw ∷ urls) =
    let rest = canonical_urls service_type urls in
    let canonical = canonical_base_url raw service_type in
    if is_empty canonical then rest else canonical ∷ rest

unfoldable pub deduplicate_base_urls : List String → String → List String
unfolding keep_new canonical_urls
deduplicate_base_urls urls service_type = keep_new (canonical_urls service_type urls) []

unfoldable pub normalize_upstream_service_type : String → String → String
unfolding trim_space
normalize_upstream_service_type service_type default =
    if is_empty (trim_space service_type) then default else trim_space service_type

unfoldable pub get_effective_base_url : UpstreamConfig → String
unfolding canonical_base_url
get_effective_base_url u =
    if not (is_empty u.base_url)
    then canonical_base_url u.base_url u.service_type
    else elim u.base_urls [ [] ↦ "" | url ∷ urls ↦ canonical_base_url url u.service_type ]

unfoldable pub get_all_base_urls : UpstreamConfig → List String
unfolding canonical_base_url deduplicate_base_urls
get_all_base_urls u = elim u.base_urls [
  | url ∷ urls ↦ deduplicate_base_urls (url ∷ urls) u.service_type
  | [] ↦
      if is_empty u.base_url || is_empty (canonical_base_url u.base_url u.service_type)
      then []
      else canonical_base_url u.base_url u.service_type ∷ []
]
