-- ===== src/Config/Types.antt =====
-- The data of the configuration: backend-go/internal/config/config.go, and the state of a channel as
-- backend-go/internal/config/config_utils.go reads it. A slice or a map that is nil is the empty one. An instant is a number,
-- a priority a natural number, which is what the source asks of it.
use ccx.Base.{
  ℕ, Bool, true, false, Option, none, some, List, String, ltb, nat_eq, str_eq, if◌then◌else◌,
  length,
}
use ccx.Base.Dict.{Dict}

pub data ChannelKind : Type 0 where
  messages : ChannelKind
  responses : ChannelKind
  gemini : ChannelKind
  chat : ChannelKind
  images : ChannelKind

pub record DisabledKeyInfo : Type 0 where
  pub key : String
  pub reason : String
  pub message : String
  pub disabled_at : String
  pub recover_at : String

-- The fields of `UpstreamConfig` that the configuration stores for others; `none` is the nil pointer.
pub record Options : Type 0 where
  pub description : String
  pub website : String
  pub insecure_skip_verify : Bool
  pub reasoning_param_style : String
  pub text_verbosity : String
  pub fast_mode : Bool
  pub normalize_nonstandard_chat_roles : Bool
  pub codex_native_tool_passthrough : Bool
  pub codex_tool_compat : Option Bool
  pub strip_codex_client_tools : Bool
  pub low_quality : Bool
  pub auto_blacklist_balance : Option Bool
  pub normalize_metadata_user_id : Option Bool
  pub inject_dummy_thought_signature : Bool
  pub strip_thought_signature : Bool
  pub passback_reasoning_content : Bool
  pub custom_headers : Dict String String
  pub proxy_url : String

pub record UpstreamConfig : Type 0 where
  pub base_url : String
  pub base_urls : List String
  pub api_keys : List String
  pub historical_api_keys : List String
  pub disabled_api_keys : List DisabledKeyInfo
  pub service_type : String
  pub name : String
  pub model_mapping : Dict String String
  pub reasoning_mapping : Dict String String
  pub priority : ℕ
  pub status : String
  pub promotion_until : Option ℕ
  pub supported_models : List String
  pub route_prefix : String
  pub options : Options

pub record Config : Type 0 where
  pub upstream : List UpstreamConfig
  pub current_upstream : ℕ
  pub responses_upstream : List UpstreamConfig
  pub current_responses_upstream : ℕ
  pub gemini_upstream : List UpstreamConfig
  pub chat_upstream : List UpstreamConfig
  pub images_upstream : List UpstreamConfig
  pub fuzzy_mode_enabled : Bool
  pub strip_billing_header : Bool

-- The service type of a channel that has none.
abbrev pub default_service_type : ChannelKind → String
default_service_type gemini = "gemini"
default_service_type responses = "responses"
default_service_type chat = "openai"
default_service_type images = "openai"
default_service_type messages = "claude"

unfoldable pub channels_of : Config → ChannelKind → List UpstreamConfig
channels_of cfg responses = cfg.responses_upstream
channels_of cfg gemini = cfg.gemini_upstream
channels_of cfg chat = cfg.chat_upstream
channels_of cfg images = cfg.images_upstream
channels_of cfg messages = cfg.upstream

abbrev pub enabled_unless : Bool → Option Bool → Bool
enabled_unless default none = default
enabled_unless default (some b) = b

unfoldable pub is_auto_blacklist_balance_enabled : UpstreamConfig → Bool
is_auto_blacklist_balance_enabled u = enabled_unless true u.options.auto_blacklist_balance

unfoldable pub is_normalize_metadata_user_id_enabled : UpstreamConfig → Bool
is_normalize_metadata_user_id_enabled u = enabled_unless true u.options.normalize_metadata_user_id

unfoldable pub is_codex_tool_compat_enabled : UpstreamConfig → Bool
is_codex_tool_compat_enabled u =
    enabled_unless u.options.strip_codex_client_tools u.options.codex_tool_compat

-- `GetChannelStatus`
abbrev pub effective_status : UpstreamConfig → String
effective_status u = if str_eq u.status "" then "active" else u.status

-- `GetChannelPriority`
abbrev pub effective_priority : ℕ → UpstreamConfig → ℕ
effective_priority i u = if nat_eq u.priority 0 then i else u.priority

-- `IsChannelInPromotion`
unfoldable pub is_channel_in_promotion : ℕ → UpstreamConfig → Bool
is_channel_in_promotion now u = elim u.promotion_until [ none ↦ false | some t ↦ ltb now t ]

unfoldable pub get_channel_runtime_state : Option UpstreamConfig → String
get_channel_runtime_state none = "unknown"
get_channel_runtime_state (some u) =
    if ltb 0 (length u.disabled_api_keys)
    then "disabled_keys_present"
    else if nat_eq (length u.api_keys) 0
    then "no_active_keys"
    else "ready"

unfoldable pub get_channel_effective_state : Option UpstreamConfig → String
get_channel_effective_state none = "unknown"
get_channel_effective_state (some u) =
    if str_eq (effective_status u) "active"
    then (if nat_eq (length u.api_keys) 0 then "degraded" else "active")
    else effective_status u
