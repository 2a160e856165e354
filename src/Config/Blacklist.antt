-- ===== src/Config/Blacklist.antt =====
-- The blacklist of keys and the switches of the whole configuration: backend-go/internal/config/config.go.
use ccx.Base.{
  ℕ, ◌+◌, Bool, Option, none, some, List, [], ◌∷◌, String, if◌then◌else◌, filter, length, map,
}
use ccx.Base.Results.{Result, fail}
use ccx.Config.Types.{UpstreamConfig, DisabledKeyInfo}
use ccx.Config.Keys.{
  is_auto_recoverable_disabled_reason, blacklist_in, restore_in, restore_all_in, restore_some_in,
  is_restored,
}
use ccx.Config.Manager.{
  ConfigManager, ConfigError, invalid_index, no_such_key, Host, Change, refuse, leave, store,
  saving, change_channel, get_upstream_slice_locked,
}

-- One hour, in nanoseconds.
abbrev pub recovery_delay : ℕ
recovery_delay = 3600000000000

unfoldable pub disabled_info : Host → String → String → String → DisabledKeyInfo
unfolding is_auto_recoverable_disabled_reason
disabled_info host key reason message = record {
  key = key;
  reason = reason;
  message = message;
  disabled_at = host.format_time host.now;
  recover_at =
      if is_auto_recoverable_disabled_reason reason
      then host.format_time (host.now + recovery_delay)
      else "";
}

-- The operations whose channels are those of a named API type.
unfoldable pub change_named :
    {A : Type 0}
    → Host
    → String
    → ℕ
    → (UpstreamConfig → Change A)
    → ConfigManager
    → ConfigManager × Result ConfigError A
unfolding get_upstream_slice_locked change_channel
change_named host name i f m = elim (get_upstream_slice_locked name) [
  | none ↦ (m, fail invalid_index)
  | some kind ↦ change_channel host kind i f m
]

-- The channel is stored and the keys are forgotten; `otherwise` is what happens without one.
abbrev pub store_forgetting : List String → Change Unit → Option UpstreamConfig → Change Unit
store_forgetting keys otherwise none = otherwise
store_forgetting keys otherwise (some u) = store u keys tt

unfoldable pub blacklist_key :
    Host
    → String
    → ℕ
    → String
    → String
    → String
    → ConfigManager
    → ConfigManager × Result ConfigError Unit
unfolding change_named blacklist_in disabled_info
blacklist_key host name i key reason message =
    change_named host name i
      (λ u. store_forgetting [] (leave tt) (blacklist_in (disabled_info host key reason message) u))

unfoldable pub restore_key :
    Host → String → ℕ → String → ConfigManager → ConfigManager × Result ConfigError Unit
unfolding change_named restore_in
restore_key host name i key =
    change_named host name i
      (λ u. store_forgetting (key ∷ []) (refuse no_such_key) (restore_in key u))

abbrev pub keys_of : List DisabledKeyInfo → List String
keys_of infos = map (λ (info : DisabledKeyInfo). info.key) infos

-- `answer` keys are restored, those of the list; without one nothing is stored.
abbrev pub store_restored : {A : Type 0} → UpstreamConfig → A → List String → A → Change A
store_restored u none_restored [] answer = leave none_restored
store_restored u none_restored (key ∷ keys) answer = store u (key ∷ keys) answer

-- How many keys are restored.
unfoldable pub restore_all_keys :
    Host → String → ℕ → ConfigManager → ConfigManager × Result ConfigError ℕ
unfolding change_named restore_all_in
restore_all_keys host name i = change_named host name i (λ u.
    store_restored (restore_all_in u) 0 (keys_of u.disabled_api_keys) (length u.disabled_api_keys))

-- The keys that are restored.
unfoldable pub restore_disabled_keys :
    Host
    → String
    → ℕ
    → List String
    → ConfigManager
    → ConfigManager × Result ConfigError (List String)
unfolding change_named restore_some_in
restore_disabled_keys host name i keys = change_named host name i (λ u.
    let restored = keys_of (filter (is_restored keys) u.disabled_api_keys) in
    store_restored (restore_some_in keys u) [] restored restored)

unfoldable pub set_fuzzy_mode_enabled :
    Host → Bool → ConfigManager → ConfigManager × Result ConfigError Unit
unfolding saving
set_fuzzy_mode_enabled host enabled m =
    saving host tt (record m { config = record m.config { fuzzy_mode_enabled = enabled } })

unfoldable pub set_strip_billing_header :
    Host → Bool → ConfigManager → ConfigManager × Result ConfigError Unit
unfolding saving
set_strip_billing_header host enabled m =
    saving host tt (record m { config = record m.config { strip_billing_header = enabled } })
