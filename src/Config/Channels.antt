-- ===== src/Config/Channels.antt =====
-- The operations on the channels of one kind. The files config_messages.go, config_responses.go, config_gemini.go,
-- config_chat.go and config_images.go of backend-go/internal/config repeat them for their kind; the lines mapped
-- are those of config_messages.go, and each child module has the methods of one file.
-- A duration is a natural number: 0 stands for every duration that is not positive.
use ccx.Base.{
  ℕ, zero, suc, ◌+◌, Bool, true, false, not, ◌&&◌, ◌||◌, Option, none, some, List, [], ◌∷◌, ◌++◌,
  String, leb, nat_eq, str_eq, if◌then◌else◌, any, length, get_elem?, modify, remove_at, map,
}
use ccx.Base.Results.{Result, fail, ok}
use ccx.Base.Text.{is_lower_eq}
use ccx.Config.Types.{
  ChannelKind, messages, responses, gemini, chat, images, UpstreamConfig, Config, channels_of,
  effective_status, is_channel_in_promotion,
}
use ccx.Config.Urls.{canonical_base_url, deduplicate_base_urls, deduplicate_strings}
use ccx.Config.Keys.{add_key_in, remove_key_in, move_to_top_in, move_to_bottom_in}
use ccx.Config.Manager.{
  ConfigManager, ConfigError, invalid_index, duplicate_index, empty_order, name_exists,
  invalid_status, key_exists, no_such_key, no_channel, Host, Change, refuse, leave, store, api_type,
  saving, has_config_changed, forget_keys, put_channels, put_channel, change_channel,
}
use ccx.Config.Update.{UpstreamUpdate, normalize_service_type, update_channel}
pub mod Messages
pub mod Responses
pub mod Gemini
pub mod Chat
pub mod Images
pub mod Order
pub mod Removal

-- The first channel that is active, from the index `i` on.
unfoldable pub first_active : ℕ → List UpstreamConfig → Option (UpstreamConfig × ℕ)
first_active i [] = none
first_active i (u ∷ us) =
    let rest = first_active (suc i) us in
    if str_eq (effective_status u) "active" then some (u, i) else rest

unfoldable pub get_current_upstream_with_index :
    ChannelKind → ConfigManager → Result ConfigError (UpstreamConfig × ℕ)
unfolding first_active channels_of
get_current_upstream_with_index kind m = elim (channels_of m.config kind) [
  | [] ↦ fail no_channel
  | u ∷ us ↦ elim (first_active 0 (u ∷ us)) [ none ↦ ok (u, 0) | some found ↦ ok found ]
]

unfoldable pub get_current_upstream :
    ChannelKind → ConfigManager → Result ConfigError UpstreamConfig
unfolding get_current_upstream_with_index
get_current_upstream kind m = elim (get_current_upstream_with_index kind m) [
  | fail e ↦ fail e
  | ok (u, i) ↦ ok u
]

-- The new channel as it is stored.
abbrev pub prepared : String → UpstreamConfig → UpstreamConfig
unfolding deduplicate_strings canonical_base_url deduplicate_base_urls
prepared service_type u = record u {
  status = if str_eq u.status "" then "active" else u.status;
  service_type = service_type;
  api_keys = deduplicate_strings u.api_keys;
  base_url = canonical_base_url u.base_url service_type;
  base_urls = deduplicate_base_urls u.base_urls service_type;
}

unfoldable pub add_upstream :
    Host → ChannelKind → UpstreamConfig → ConfigManager → ConfigManager × Result ConfigError Unit
unfolding channels_of normalize_service_type prepared saving put_channels
add_upstream host kind u m =
    let us = channels_of m.config kind in
    if any (λ (existing : UpstreamConfig). str_eq existing.name u.name) us
    then (m, fail name_exists)
    else elim (normalize_service_type kind u.service_type) [
      | fail e ↦ (m, fail e)
      | ok service_type ↦
          saving host tt (put_channels kind (us ++ (prepared service_type u ∷ [])) m)
    ]

unfoldable pub store_updated :
    Host
    → ChannelKind
    → ℕ
    → ConfigManager
    → UpstreamConfig × Result ConfigError Bool
    → ConfigManager × Result ConfigError Bool
unfolding put_channel saving has_config_changed
store_updated host kind i m (u, fail e) = (put_channel kind i u m, fail e)
store_updated host kind i m (u, ok reset) =
    let stored = put_channel kind i u m in
    if has_config_changed host m.config stored.config
    then saving host reset stored
    else (stored, ok reset)

-- Whether the metrics of the channel are to be reset.
unfoldable pub update_upstream :
    Host
    → ChannelKind
    → ℕ
    → UpstreamUpdate
    → ConfigManager
    → ConfigManager × Result ConfigError Bool
unfolding channels_of update_channel store_updated
update_upstream host kind i updates m = elim (get_elem? (channels_of m.config kind) i) [
  | none ↦ (m, fail invalid_index)
  | some u ↦ store_updated host kind i m (update_channel kind updates u)
]

-- The name under which the failed keys of a removed channel are deleted.
unfoldable pub removal_name : ChannelKind → String
unfolding api_type
removal_name chat = "chat"
removal_name messages = api_type messages
removal_name responses = api_type responses
removal_name gemini = api_type gemini
removal_name images = api_type images

unfoldable pub remove_upstream :
    Host → ChannelKind → ℕ → ConfigManager → ConfigManager × Result ConfigError UpstreamConfig
unfolding channels_of saving forget_keys put_channels removal_name
remove_upstream host kind i m = elim (get_elem? (channels_of m.config kind) i) [
  | none ↦ (m, fail invalid_index)
  | some removed ↦ saving host removed (
      forget_keys (removal_name kind) removed.api_keys
        (put_channels kind (remove_at (channels_of m.config kind) i) m))
]

-- The channel that an operation on its keys gives is stored; `otherwise` is what it does without one.
abbrev pub store_or : Change Unit → Option UpstreamConfig → Change Unit
store_or otherwise none = otherwise
store_or otherwise (some u) = store u [] tt

unfoldable pub add_api_key :
    Host → ChannelKind → ℕ → String → ConfigManager → ConfigManager × Result ConfigError Unit
unfolding change_channel add_key_in
add_api_key host kind i key =
    change_channel host kind i (λ u. store_or (refuse key_exists) (add_key_in key u))

unfoldable pub remove_api_key :
    Host → ChannelKind → ℕ → String → ConfigManager → ConfigManager × Result ConfigError Unit
unfolding change_channel remove_key_in
remove_api_key host kind i key =
    change_channel host kind i (λ u. store_or (refuse no_such_key) (remove_key_in key u))

unfoldable pub move_api_key_to_top :
    Host → ChannelKind → ℕ → String → ConfigManager → ConfigManager × Result ConfigError Unit
unfolding change_channel move_to_top_in
move_api_key_to_top host kind i key =
    change_channel host kind i (λ u. store_or (leave tt) (move_to_top_in key u))

unfoldable pub move_api_key_to_bottom :
    Host → ChannelKind → ℕ → String → ConfigManager → ConfigManager × Result ConfigError Unit
unfolding change_channel move_to_bottom_in
move_api_key_to_bottom host kind i key =
    change_channel host kind i (λ u. store_or (leave tt) (move_to_bottom_in key u))

-- The check of the order: `count` channels, `seen` the indexes so far.
unfoldable pub check_order : ℕ → List ℕ → List ℕ → Option ConfigError
check_order count [] seen = none
check_order count (i ∷ order) seen =
    let rest = check_order count order (i ∷ seen) in
    if leb count i
    then some invalid_index
    else if any (nat_eq i) seen
    then some duplicate_index
    else rest

-- The channels of the order get the priorities from `priority` on.
unfoldable pub set_priorities : ℕ → List ℕ → List UpstreamConfig → List UpstreamConfig
set_priorities priority [] us = us
set_priorities priority (i ∷ order) us =
    set_priorities (suc priority) order (modify (λ u. record u { priority = priority }) us i)

unfoldable pub reorder_upstreams :
    Host → ChannelKind → List ℕ → ConfigManager → ConfigManager × Result ConfigError Unit
unfolding channels_of check_order set_priorities saving put_channels
reorder_upstreams host kind order m = elim order [
  | [] ↦ (m, fail empty_order)
  | first ∷ others ↦ elim (check_order (length (channels_of m.config kind)) (first ∷ others) []) [
    | some e ↦ (m, fail e)
    | none ↦
        saving host tt
          (put_channels kind (set_priorities 1 (first ∷ others) (channels_of m.config kind)) m)
  ]
]

-- The status that `strings.ToLower` and the test of it accept.
unfoldable pub parse_status : String → Option String
unfolding is_lower_eq
parse_status raw =
    if is_lower_eq raw "active"
    then some "active"
    else if is_lower_eq raw "suspended"
    then some "suspended"
    else if is_lower_eq raw "disabled"
    then some "disabled"
    else none

abbrev pub status_change : Option String → UpstreamConfig → Change Unit
status_change none u = refuse invalid_status
status_change (some status) u =
    store
      (record u {
        status = status;
        promotion_until = if str_eq status "suspended" then none else u.promotion_until;
      })
      [] tt

unfoldable pub set_channel_status :
    Host → ChannelKind → ℕ → String → ConfigManager → ConfigManager × Result ConfigError Unit
unfolding change_channel parse_status
set_channel_status host kind i raw =
    change_channel host kind i (λ u. status_change (parse_status raw) u)

abbrev pub promoted_until : Option ℕ → UpstreamConfig → UpstreamConfig
promoted_until t u = record u { promotion_until = t }

-- The channel at the index is promoted, and no other one.
unfoldable pub promote_only : ℕ → ℕ → List UpstreamConfig → List UpstreamConfig
promote_only t i [] = []
promote_only t zero (u ∷ us) = promoted_until (some t) u ∷ map (promoted_until none) us
promote_only t (suc i) (u ∷ us) = promoted_until none u ∷ promote_only t i us

unfoldable pub set_channel_promotion :
    Host → ChannelKind → ℕ → ℕ → ConfigManager → ConfigManager × Result ConfigError Unit
unfolding channels_of promote_only saving put_channels
set_channel_promotion host kind i duration m =
    let us = channels_of m.config kind in
    if leb (length us) i
    then (m, fail invalid_index)
    else if nat_eq duration 0
    then saving host tt (put_channels kind (modify (promoted_until none) us i) m)
    else saving host tt (put_channels kind (promote_only (host.now + duration) i us) m)

-- The first channel that is promoted and active, from the index `i` on.
unfoldable pub first_promoted : ℕ → ℕ → List UpstreamConfig → Option ℕ
unfolding is_channel_in_promotion
first_promoted now i [] = none
first_promoted now i (u ∷ us) =
    let rest = first_promoted now (suc i) us in
    if is_channel_in_promotion now u && str_eq (effective_status u) "active" then some i else rest

unfoldable pub get_promoted_channel : ℕ → ChannelKind → ConfigManager → Option ℕ
unfolding channels_of first_promoted
get_promoted_channel now kind m = first_promoted now 0 (channels_of m.config kind)
