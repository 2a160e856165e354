-- ===== src/Tests/Settings.antt =====
-- Runs of the configuration: backend-go/internal/config and backend-go/internal/utils/url_utils.go.
use ccx.Base.{
  string_eq, ◌≡◌, refl, Bool, true, false, ◌&&◌, Option, none, some, List, [], ◌∷◌, ◌++◌, String,
  if◌then◌else◌, get_elem?, All, count,
}
use ccx.Base.Dict.{lookup, insert, delete}
use ccx.Base.Text.{contains}
use ccx.Base.Results.{ok}
use ccx.Config.Types.{messages, gemini, chat, UpstreamConfig, DisabledKeyInfo, Config, channels_of}
use ccx.Config.Urls.{canonical_base_url, canonical_of, equivalent_base_url_variants}
use ccx.Config.Models.{redirect_model, supports_model}
use ccx.Config.Redirect.{IsBestMatch, exact_or, target_or, redirect_longest}
use ccx.Config.Keys.{has, blacklist_in, restore_in}
use ccx.Config.Keys.Lists.{drop_key, map_option}
use ccx.Config.Keys.Moves.{KeyOp, blacklist, restore, remove_key, replace_keys, key_ops, or_same}
use ccx.Config.Keys.Tidy.{IsTidy, is_counted, key_ops-IsTidy, key_ops_forget_no_key}
use ccx.Config.Keys.RoundTrip.{restore-blacklist}
use ccx.Config.Manager.{ConfigManager, Host, api_type}
use ccx.Config.Failures.{get_next_api_key, is_key_failed, mark_key_as_failed, is_available}
use ccx.Config.Failures.Choice.{IsGoodChoice, get_next_api_key-IsGoodChoice}
use ccx.Config.Channels.{
  remove_upstream, reorder_upstreams, set_channel_promotion, get_promoted_channel,
}
use ccx.Config.Channels.Order.{
  position, prioritized, found_at, reorder_upstreams-get, get_promoted-set_promotion,
}
use ccx.Config.Channels.Removal.{
  cools_after, is_key_failed-remove_upstream, deprioritize_keeps_gemini,
}
use ccx.Config.Channels.Messages.{deprioritize_api_key}
use ccx.Config.Ops.{set_fuzzy, perform, set_status}
use ccx.Config.Ops.Synced.{IsHonest}
use ccx.Config.Ops.Runs
use ccx.Config.Ops.Runs.{IsKnown, all_saved, run, run-IsKnown}
use ccx.Config.Ops.Report.{perform-IsHonest}
use ccx.Config.Load.{
  RawConfig, default_config, new_config_manager, load_config, migrate_upstreams, lacks_keys,
}
use ccx.Config.Load.Checked.{load_config-fits, migrate_upstreams-one_active, is_active}
use ccx.Tests.Channels.{channel}

-- The channel is canonical already, and yet it is shortened once more.
canonical_twice :
    canonical_base_url (canonical_base_url "https://a/v1/v1/" "openai") "openai" ≡ "https://a"
unfolding canonical_base_url canonical_of
canonical_twice = refl

variants :
    equivalent_base_url_variants "https://a/v1/" "openai"
    ≡ "https://a" ∷ "https://a/" ∷ "https://a/v1" ∷ "https://a/v1/" ∷ []
unfolding equivalent_base_url_variants
variants = refl

abbrev two_keys : UpstreamConfig
two_keys = record (channel "a" 1 ("k1" ∷ "k2" ∷ [])) {
  model_mapping = ("opus", "big") ∷ ("claude-opus", "bigger") ∷ [];
  supported_models = "claude-*" ∷ "!*-old" ∷ [];
}

redirected : redirect_model "claude-opus-4" two_keys ≡ "bigger"
unfolding redirect_model lookup contains
redirected = refl

supported :
    (supports_model two_keys "claude-x" ≡ true)
    × (supports_model two_keys "claude-x-old" ≡ false)
    × (supports_model two_keys "gpt" ≡ false)
unfolding supports_model
supported = (refl, refl, refl)

redirect_longest_example :
    (found : Option (String × String)) × IsBestMatch "claude-opus-4" two_keys.model_mapping found
    × (redirect_model "claude-opus-4" two_keys
        ≡ exact_or
            (lookup "claude-opus-4" two_keys.model_mapping)
            (target_or "claude-opus-4" found))
redirect_longest_example = redirect_longest "claude-opus-4" two_keys

abbrev info : DisabledKeyInfo
info = record { key = "k1"; reason = "quota"; message = ""; disabled_at = "t"; recover_at = "" }

abbrev two_keys-IsTidy : IsTidy two_keys
two_keys-IsTidy = ((refl, (refl, tt)), λ k. no_historical (has two_keys.api_keys k))
  where
    no_historical : (b : Bool) → (b && false) ≡ false
    no_historical true = refl
    no_historical false = refl

abbrev key_calls : List KeyOp
key_calls = blacklist info ∷ remove_key "k2" ∷ restore "k1" ∷ replace_keys ("k3" ∷ "k3" ∷ []) ∷ []

key_ops-IsTidy_example : IsTidy (key_ops key_calls two_keys)
key_ops-IsTidy_example = key_ops-IsTidy key_calls two_keys two_keys-IsTidy

key_ops_forget_no_key_example :
    is_counted
      (key_ops key_calls two_keys).api_keys
      (key_ops key_calls two_keys).historical_api_keys
      "k2"
    ≡ true
key_ops_forget_no_key_example = key_ops_forget_no_key "k2" key_calls two_keys refl

restore-blacklist_example :
    restore_in "k1" (or_same two_keys (blacklist_in info two_keys))
    ≡ some (record two_keys { api_keys = drop_key "k1" two_keys.api_keys ++ ("k1" ∷ []) })
restore-blacklist_example = restore-blacklist info two_keys two_keys-IsTidy refl refl

-- Two channels of each of two kinds.
abbrev settings : Config
settings = record default_config {
  upstream = two_keys ∷ channel "b" 2 ("k4" ∷ []) ∷ [];
  chat_upstream = channel "c" 1 ("k5" ∷ []) ∷ channel "d" 2 ("k6" ∷ []) ∷ [];
  gemini_upstream = channel "g" 1 ("k1" ∷ "k7" ∷ []) ∷ [];
}

abbrev host : Host
host = record {
  marshal = λ cfg. if cfg.fuzzy_mode_enabled then "fuzzy" else "exact";
  is_written = true;
  now = 1000;
  format_time = λ t. "t";
}

abbrev manager : ConfigManager
manager =
    mark_key_as_failed "k5" "Chat" 900
      (mark_key_as_failed "k1" "Messages" 950 (new_config_manager settings))

get_next_api_key-IsGoodChoice_example :
    IsGoodChoice two_keys.api_keys []
      (is_available [] "Messages" 1000 manager)
      (get_next_api_key two_keys [] "Messages" 1000 manager)
get_next_api_key-IsGoodChoice_example =
    get_next_api_key-IsGoodChoice two_keys "k1" "k2" [] [] "Messages" 1000 manager refl

cooling_key_is_skipped : get_next_api_key two_keys [] "Messages" 1000 manager ≡ ok "k2"
unfolding get_next_api_key mark_key_as_failed new_config_manager default_config lookup insert
    is_available
cooling_key_is_skipped = refl

abbrev marshal : Config → String
marshal cfg = if cfg.fuzzy_mode_enabled then "fuzzy" else "exact"

-- The second write fails.
abbrev saves : List Runs.Call
saves =
    record { op = set_fuzzy false; host = host }
    ∷ record { op = set_status messages 0 "Suspended"; host = record host { is_written = false } }
    ∷ []

run-IsKnown_example :
    let m = record (new_config_manager settings) { file = some "fuzzy" } in
    IsKnown marshal (all_saved marshal saves m) (run marshal saves m)
unfolding new_config_manager default_config
run-IsKnown_example =
    run-IsKnown marshal saves (record (new_config_manager settings) { file = some "fuzzy" })
      (tt, (tt, tt)) refl

perform-IsHonest_example :
    IsHonest host manager (perform host (set_status messages 0 "Suspended") manager)
perform-IsHonest_example = perform-IsHonest host (set_status messages 0 "Suspended") manager tt

reorder_upstreams-get_example :
    get_elem?
      (channels_of
        (reorder_upstreams host messages (1 ∷ 0 ∷ []) (new_config_manager settings)).0.config
        messages)
      1
    ≡ map_option
        (prioritized 1 (position 1 (1 ∷ 0 ∷ [])))
        (get_elem? (channels_of (new_config_manager settings).config messages) 1)
unfolding reorder_upstreams new_config_manager default_config
reorder_upstreams-get_example =
    reorder_upstreams-get host messages (1 ∷ 0 ∷ []) (new_config_manager settings) 1 refl

get_promoted-set_promotion_example :
    get_promoted_channel 1005 messages
      (set_channel_promotion host messages 1 10 (new_config_manager settings)).0
    ≡ found_at 1005 1010 1 (get_elem? (channels_of (new_config_manager settings).config messages) 1)
unfolding set_channel_promotion new_config_manager default_config
get_promoted-set_promotion_example =
    get_promoted-set_promotion host messages 1 10 1005 (new_config_manager settings) refl refl

is_key_failed-remove_upstream_example :
    is_key_failed "k5" (api_type chat) 1000 (remove_upstream host chat 0 manager).0
    ≡ cools_after chat ("k5" ∷ []) "k5" (is_key_failed "k5" (api_type chat) 1000 manager)
unfolding channels_of new_config_manager default_config mark_key_as_failed
is_key_failed-remove_upstream_example =
    is_key_failed-remove_upstream host chat 0 (channel "c" 1 ("k5" ∷ [])) "k5" 1000 manager refl

still_cooling : is_key_failed "k5" "Chat" 1000 (remove_upstream host chat 0 manager).0 ≡ true
unfolding is_key_failed remove_upstream mark_key_as_failed new_config_manager default_config lookup
    delete insert
still_cooling = refl

deprioritize_keeps_gemini_example :
    channels_of (deprioritize_api_key host "k1" manager).0.config gemini
    ≡ channels_of manager.config gemini
deprioritize_keeps_gemini_example = deprioritize_keeps_gemini host "k1" manager

abbrev raw : RawConfig
raw = record {
  has_fuzzy_mode_enabled = true;
  has_strip_billing_header = false;
  raw_channels = λ kind. none;
}

load_config-fits_example :
    All
      (λ u. lacks_keys u ≡ false)
      (channels_of
        (load_config host raw settings (new_config_manager default_config)).0.config
        messages)
unfolding load_config default_config
load_config-fits_example =
    load_config-fits host raw settings (new_config_manager default_config) messages refl

migrate_upstreams-one_active_example : count is_active (migrate_upstreams 7 settings.upstream).0 ≡ 1
unfolding migrate_upstreams default_config
migrate_upstreams-one_active_example = migrate_upstreams-one_active 7 settings.upstream refl
