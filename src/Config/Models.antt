-- ===== src/Config/Models.antt =====
-- Models: the mapping, the reasoning effort and the model rules of backend-go/internal/config/config_utils.go.
-- The order in which Go walks a map is that of the association list; `sort.Slice` is a stable sort here.
use Prim.Native.String.{len}
use ccx.Base.{
  ℕ, string_eq, Bool, true, false, not, ◌&&◌, ◌||◌, Option, none, some, List, [], ◌∷◌, String, ltb,
  nat_eq, str_eq, if◌then◌else◌, any,
}
use ccx.Base.Dict.{Dict, lookup}
use ccx.Base.Sort.{sort_stable}
use ccx.Base.Text.{
  trim_space, trim_left, trim_right, has_prefix, has_suffix, trim_prefix, trim_suffix, contains,
  count_char, is_empty,
}
use ccx.Config.Types.{UpstreamConfig}

-- `len(mappings[i].source) > len(mappings[j].source)`
abbrev pub is_longer : String × String → String × String → Bool
is_longer a b = ltb (len b.0) (len a.0)

-- The loop over the sorted mapping: the first entry whose source the model contains.
unfoldable pub first_contained : String → List (String × String) → Option (String × String)
first_contained model [] = none
first_contained model (entry ∷ entries) =
    let rest = first_contained model entries in if contains model entry.0 then some entry else rest

-- What `RedirectModel` and `ResolveReasoningEffort` find for the model.
unfoldable pub find_mapping : String → Dict String String → Option String
unfolding first_contained sort_stable
find_mapping model mapping = elim (lookup model mapping) [
  | some target ↦ some target
  | none ↦ elim (first_contained model (sort_stable is_longer mapping)) [
    | none ↦ none
    | some entry ↦ some entry.1
  ]
]

unfoldable pub redirect_model : String → UpstreamConfig → String
unfolding find_mapping
redirect_model model u = elim (find_mapping model u.model_mapping) [ none ↦ model | some m ↦ m ]

unfoldable pub resolve_reasoning_effort : String → Option UpstreamConfig → String
unfolding find_mapping
resolve_reasoning_effort model none = ""
resolve_reasoning_effort model (some u) = elim (find_mapping model u.reasoning_mapping) [
  | none ↦ ""
  | some effort ↦ effort
]

abbrev pub star : String → ℕ
star pattern = count_char b'*' pattern

unfoldable pub trim_stars : String → String
unfolding trim_left trim_right
trim_stars pattern = trim_right (nat_eq b'*') (trim_left (nat_eq b'*') pattern)

-- `isValidSupportedModelPattern` after its test of the exclamation marks.
abbrev pub is_valid_normalized : String → Bool
unfolding has_prefix has_suffix trim_stars count_char
is_valid_normalized normalized =
    if is_empty normalized || has_prefix normalized "!"
    then false
    else if nat_eq (star normalized) 0 || str_eq normalized "*"
    then true
    else if nat_eq (star normalized) 1
    then has_prefix normalized "*" || has_suffix normalized "*"
    else nat_eq (star normalized) 2
      && has_prefix normalized "*"
      && has_suffix normalized "*"
      && not (is_empty (trim_stars normalized))

unfoldable pub is_valid_supported_model_pattern : String → Bool
unfolding is_valid_normalized trim_space trim_prefix has_prefix count_char
is_valid_supported_model_pattern pattern =
    let trimmed = trim_space pattern in
    if is_empty trimmed || ltb 1 (count_char b'!' trimmed)
    then false
    else is_valid_normalized
        (if has_prefix trimmed "!" then trim_space (trim_prefix trimmed "!") else trimmed)

-- `matchSupportedModelPattern` of a valid pattern without its exclamation mark.
abbrev pub matches : String → String → Bool
unfolding has_prefix has_suffix contains trim_stars trim_prefix trim_suffix count_char
matches pattern model =
    if str_eq pattern "*"
    then true
    else if nat_eq (star pattern) 0
    then str_eq pattern model
    else if has_prefix pattern "*" && has_suffix pattern "*"
    then contains model (trim_stars pattern)
    else if has_prefix pattern "*"
    then has_suffix model (trim_prefix pattern "*")
    else has_suffix pattern "*" && has_prefix model (trim_suffix pattern "*")

unfoldable pub match_supported_model_pattern : String → String → Bool
unfolding is_valid_supported_model_pattern matches has_prefix trim_space trim_prefix
match_supported_model_pattern pattern model =
    if not (is_valid_supported_model_pattern pattern)
    then false
    else matches (if has_prefix pattern "!" then trim_space (trim_prefix pattern "!") else pattern)
        model

-- `splitSupportedModelRules`: the patterns that include and those that exclude.
abbrev pub add_rule : String → List String × List String → List String × List String
unfolding is_valid_supported_model_pattern has_prefix trim_space trim_prefix
add_rule rule (includes, excludes) =
    let pattern = trim_space (trim_prefix rule "!") in
    if is_empty rule
    then (includes, excludes)
    else if has_prefix rule "!"
    then (if not (has_prefix pattern "!") && is_valid_supported_model_pattern pattern
        then (includes, pattern ∷ excludes)
        else (includes, excludes))
    else if is_valid_supported_model_pattern rule
    then (rule ∷ includes, excludes)
    else (includes, excludes)

unfoldable pub split_supported_model_rules : List String → List String × List String
unfolding add_rule trim_space
split_supported_model_rules [] = ([], [])
split_supported_model_rules (raw ∷ rules) =
    add_rule (trim_space raw) (split_supported_model_rules rules)

-- The reason of a refusal is not modelled.
unfoldable pub supports_model : UpstreamConfig → String → Bool
unfolding split_supported_model_rules match_supported_model_pattern
supports_model u model = elim u.supported_models [
  | [] ↦ true
  | rule ∷ rules ↦
      let split = split_supported_model_rules (rule ∷ rules) in
      if any (λ pattern. match_supported_model_pattern pattern model) split.1
      then false
      else elim split.0 [
        | [] ↦ true
        | first ∷ others ↦
            any (λ pattern. match_supported_model_pattern pattern model) (first ∷ others)
      ]
]
