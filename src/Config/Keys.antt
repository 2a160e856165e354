-- ===== src/Config/Keys.antt =====
-- What the operations on the API keys do to one channel: backend-go/internal/config/config.go and
-- backend-go/internal/config/config_messages.go, which the files of the other kinds repeat.
use ccx.Base.{
  ℕ, zero, suc, ◌+◌, ◌-◌, Bool, true, false, not, ◌&&◌, ◌||◌, Option, none, some, List, [], ◌∷◌,
  ◌++◌, String, nat_eq, str_eq, if◌then◌else◌, any, filter, length, remove_at,
}
use ccx.Base.Text.{is_lower_eq, trim_space}
use ccx.Config.Types.{UpstreamConfig, DisabledKeyInfo}
use ccx.Config.Urls.{deduplicate_strings}
pub mod Lists
pub mod Moves
pub mod Tidy
pub mod RoundTrip

-- The index of the first element that is the key.
unfoldable pub index_of : String → List String → Option ℕ
index_of key [] = none
index_of key (k ∷ ks) =
    let rest = index_of key ks in
    if str_eq k key then some 0 else elim rest [ none ↦ none | some i ↦ some (suc i) ]

-- `slices.Contains`
abbrev pub has : List String → String → Bool
has keys key = any (str_eq key) keys

-- `slices.DeleteFunc` of the key, and the loops that copy the other keys.
abbrev pub without : String → List String → List String
without key keys = filter (λ k. not (str_eq k key)) keys

-- `append(keys[:i], keys[i+1:]...)` at the index of the key, where it is there.
unfoldable pub remove_first : String → List String → Option (List String)
unfolding index_of
remove_first key keys = elim (index_of key keys) [ none ↦ none | some i ↦ some (remove_at keys i) ]

-- The key is put behind the others, unless it is there.
abbrev pub add_missing : List String → String → List String
add_missing keys key = if has keys key then keys else keys ++ (key ∷ [])

unfoldable pub is_auto_recoverable_disabled_reason : String → Bool
unfolding is_lower_eq trim_space
is_auto_recoverable_disabled_reason raw =
    let reason = trim_space raw in
    is_lower_eq reason "insufficient_balance"
    || is_lower_eq reason "insufficient_quota"
    || is_lower_eq reason "billing_error"
    || is_lower_eq reason "quota"

-- `BlacklistKey`, where the key is active.
unfoldable pub blacklist_in : DisabledKeyInfo → UpstreamConfig → Option UpstreamConfig
unfolding remove_first
blacklist_in info u = elim (remove_first info.key u.api_keys) [
  | none ↦ none
  | some keys ↦ some (record u {
    api_keys = keys;
    disabled_api_keys = u.disabled_api_keys ++ (info ∷ []);
    historical_api_keys = add_missing u.historical_api_keys info.key;
  })
]

-- The list without the first record of the key, where there is one.
unfoldable pub remove_disabled : String → List DisabledKeyInfo → Option (List DisabledKeyInfo)
remove_disabled key [] = none
remove_disabled key (info ∷ infos) =
    let rest = remove_disabled key infos in
    if str_eq info.key key
    then some infos
    else elim rest [ none ↦ none | some others ↦ some (info ∷ others) ]

-- A key of the disabled ones is active again and no longer historical.
abbrev pub activate_key : String → UpstreamConfig → UpstreamConfig
activate_key key u = record u {
  api_keys = add_missing u.api_keys key;
  historical_api_keys = without key u.historical_api_keys;
}

-- `RestoreKey`, where the key is disabled.
unfoldable pub restore_in : String → UpstreamConfig → Option UpstreamConfig
unfolding remove_disabled
restore_in key u = elim (remove_disabled key u.disabled_api_keys) [
  | none ↦ none
  | some infos ↦ some (activate_key key (record u { disabled_api_keys = infos }))
]

-- The loop of `RestoreAllKeys`.
unfoldable pub activate_keys : List DisabledKeyInfo → UpstreamConfig → UpstreamConfig
activate_keys [] u = u
activate_keys (info ∷ infos) u = activate_keys infos (activate_key info.key u)

unfoldable pub restore_all_in : UpstreamConfig → UpstreamConfig
unfolding activate_keys
restore_all_in u = record (activate_keys u.disabled_api_keys u) { disabled_api_keys = [] }

-- `RestoreDisabledKeys`: the disabled keys that are restored, and the channel.
abbrev pub is_restored : List String → DisabledKeyInfo → Bool
is_restored keys info = has (filter (λ k. not (str_eq k "")) keys) info.key

unfoldable pub restore_some_in : List String → UpstreamConfig → UpstreamConfig
unfolding activate_keys
restore_some_in keys u = record (activate_keys (filter (is_restored keys) u.disabled_api_keys) u) {
  disabled_api_keys = filter (λ info. not (is_restored keys info)) u.disabled_api_keys;
}

-- `AddAPIKey`, where the key is not active.
unfoldable pub add_key_in : String → UpstreamConfig → Option UpstreamConfig
add_key_in key u =
    if has u.api_keys key
    then none
    else some (record u {
      api_keys = u.api_keys ++ (key ∷ []);
      disabled_api_keys = filter (λ info. not (str_eq info.key key)) u.disabled_api_keys;
      historical_api_keys = without key u.historical_api_keys;
    })

-- `RemoveAPIKey`, where the key is active.
unfoldable pub remove_key_in : String → UpstreamConfig → Option UpstreamConfig
unfolding remove_first
remove_key_in key u = elim (remove_first key u.api_keys) [
  | none ↦ none
  | some keys ↦
      some
        (record u { api_keys = keys; historical_api_keys = add_missing u.historical_api_keys key })
]

-- `MoveAPIKeyToTop`, where the key is active and not the first.
unfoldable pub move_to_top_in : String → UpstreamConfig → Option UpstreamConfig
unfolding index_of
move_to_top_in key u = elim (index_of key u.api_keys) [
  | none ↦ none
  | some i ↦
      if nat_eq i 0 then none else some (record u { api_keys = key ∷ remove_at u.api_keys i })
]

-- `MoveAPIKeyToBottom`, where the key is active and not the last.
unfoldable pub move_to_bottom_in : String → UpstreamConfig → Option UpstreamConfig
unfolding index_of
move_to_bottom_in key u = elim (index_of key u.api_keys) [
  | none ↦ none
  | some i ↦
      if nat_eq (i + 1) (length u.api_keys)
      then none
      else some (record u { api_keys = remove_at u.api_keys i ++ (key ∷ []) })
]

-- `applySingleKeyReplacementTransition`: the channel, and whether the metrics are to be reset.
unfoldable pub apply_single_key_replacement_transition :
    List String → UpstreamConfig → UpstreamConfig × Bool
apply_single_key_replacement_transition (new ∷ []) u = elim u.api_keys [
  | [] ↦ (u, false)
  | old ∷ others ↦
      if nat_eq (length others) 0 && not (str_eq old new)
      then (record u { status = if str_eq u.status "suspended" then "active" else u.status }, true)
      else (u, false)
]
apply_single_key_replacement_transition [] u = (u, false)
apply_single_key_replacement_transition (new ∷ newer ∷ news) u = (u, false)

-- The keys of `keys` that are not new go to the history.
unfoldable pub retire : List String → List String → List String → List String
retire news [] historical = historical
retire news (key ∷ keys) historical =
    retire news keys (if has news key then historical else add_missing historical key)

-- The part of `UpdateUpstream` for `updates.APIKeys`.
unfoldable pub replace_keys_in : List String → UpstreamConfig → UpstreamConfig × Bool
unfolding retire apply_single_key_replacement_transition deduplicate_strings
replace_keys_in news u =
    let changed = apply_single_key_replacement_transition news u in
    (
      record changed.0 {
        api_keys = deduplicate_strings news;
        historical_api_keys =
            filter (λ k. not (has news k)) (retire news u.api_keys u.historical_api_keys);
      },
      changed.1,
    )
