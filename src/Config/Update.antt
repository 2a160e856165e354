-- ===== src/Config/Update.antt =====
-- The partial update of a channel: `UpstreamUpdate` of backend-go/internal/config/config.go, and what the
-- `Update…Upstream` methods do with it. `none` is the nil pointer, slice or map.
use ccx.Base.{ℕ, Bool, false, Option, none, some, List, [], String, str_eq, if◌then◌else◌}
use ccx.Base.Dict.{Dict}
use ccx.Base.Results.{Result, fail, ok}
use ccx.Config.Types.{
  ChannelKind, messages, responses, gemini, chat, images, UpstreamConfig, Options,
  default_service_type,
}
use ccx.Config.Urls.{normalize_upstream_service_type, canonical_base_url, deduplicate_base_urls}
use ccx.Config.Keys.{replace_keys_in}
use ccx.Config.Manager.{ConfigError, unsupported_service_type}

pub record UpstreamUpdate : Type 0 where
  pub name : Option String
  pub service_type : Option String
  pub base_url : Option String
  pub base_urls : Option (List String)
  pub api_keys : Option (List String)
  pub description : Option String
  pub website : Option String
  pub insecure_skip_verify : Option Bool
  pub model_mapping : Option (Dict String String)
  pub reasoning_mapping : Option (Dict String String)
  pub reasoning_param_style : Option String
  pub text_verbosity : Option String
  pub fast_mode : Option Bool
  pub normalize_nonstandard_chat_roles : Option Bool
  pub codex_native_tool_passthrough : Option Bool
  pub codex_tool_compat : Option Bool
  pub strip_codex_client_tools : Option Bool
  pub priority : Option ℕ
  pub status : Option String
  pub promotion_until : Option ℕ
  pub low_quality : Option Bool
  pub auto_blacklist_balance : Option Bool
  pub normalize_metadata_user_id : Option Bool
  pub inject_dummy_thought_signature : Option Bool
  pub strip_thought_signature : Option Bool
  pub passback_reasoning_content : Option Bool
  pub custom_headers : Option (Dict String String)
  pub proxy_url : Option String
  pub supported_models : Option (List String)
  pub route_prefix : Option String

-- `if updates.X != nil { upstream.X = *updates.X }`
abbrev pub or_keep {ℓ} : {A : Type ℓ} → Option A → A → A
or_keep none old = old
or_keep (some new) old = new

-- The same for a pointer, which is copied.
abbrev pub or_else {ℓ} : {A : Type ℓ} → Option A → Option A → Option A
or_else none old = old
or_else (some new) old = some new

-- `normalizeUpstreamServiceType`, and `normalizeImagesServiceType` for the image channels.
unfoldable pub normalize_service_type : ChannelKind → String → Result ConfigError String
unfolding normalize_upstream_service_type
normalize_service_type kind raw =
    let normalized = normalize_upstream_service_type raw (default_service_type kind) in
    elim kind [
      | images ↦ if str_eq normalized "openai" then ok normalized else fail unsupported_service_type
      | messages ↦ ok normalized
      | responses ↦ ok normalized
      | gemini ↦ ok normalized
      | chat ↦ ok normalized
    ]

-- The options that only the channels of one kind update.
unfoldable pub update_own_options : ChannelKind → UpstreamUpdate → Options → Options
update_own_options chat p o = record o {
  reasoning_param_style = or_keep p.reasoning_param_style o.reasoning_param_style;
}
update_own_options gemini p o = record o {
  inject_dummy_thought_signature =
      or_keep p.inject_dummy_thought_signature o.inject_dummy_thought_signature;
  strip_thought_signature = or_keep p.strip_thought_signature o.strip_thought_signature;
}
update_own_options messages p o = record o {
  inject_dummy_thought_signature =
      or_keep p.inject_dummy_thought_signature o.inject_dummy_thought_signature;
  passback_reasoning_content = or_keep p.passback_reasoning_content o.passback_reasoning_content;
}
update_own_options responses p o = record o {
  codex_tool_compat = or_else p.strip_codex_client_tools o.codex_tool_compat;
  strip_codex_client_tools = or_keep p.strip_codex_client_tools o.strip_codex_client_tools;
}
update_own_options images p o = o

unfoldable pub update_options : UpstreamUpdate → Options → Options
update_options p o = record o {
  description = or_keep p.description o.description;
  website = or_keep p.website o.website;
  insecure_skip_verify = or_keep p.insecure_skip_verify o.insecure_skip_verify;
  text_verbosity = or_keep p.text_verbosity o.text_verbosity;
  fast_mode = or_keep p.fast_mode o.fast_mode;
  normalize_nonstandard_chat_roles =
      or_keep p.normalize_nonstandard_chat_roles o.normalize_nonstandard_chat_roles;
  codex_native_tool_passthrough =
      or_keep p.codex_native_tool_passthrough o.codex_native_tool_passthrough;
  codex_tool_compat = or_else p.codex_tool_compat o.codex_tool_compat;
  low_quality = or_keep p.low_quality o.low_quality;
  auto_blacklist_balance = or_else p.auto_blacklist_balance o.auto_blacklist_balance;
  normalize_metadata_user_id = or_else p.normalize_metadata_user_id o.normalize_metadata_user_id;
  custom_headers = or_keep p.custom_headers o.custom_headers;
  proxy_url = or_keep p.proxy_url o.proxy_url;
}

-- A new base URL without new base URLs takes the old ones away.
unfoldable pub update_urls : String → UpstreamUpdate → UpstreamConfig → UpstreamConfig
unfolding canonical_base_url deduplicate_base_urls
update_urls service_type p u = record u {
  base_url = elim p.base_url [ none ↦ u.base_url | some url ↦ canonical_base_url url service_type ];
  base_urls = elim p.base_urls [
    | some urls ↦ deduplicate_base_urls urls service_type
    | none ↦ elim p.base_url [ none ↦ u.base_urls | some url ↦ [] ]
  ];
}

-- The new keys, and whether the metrics are to be reset.
unfoldable pub update_keys : UpstreamUpdate → UpstreamConfig → UpstreamConfig × Bool
unfolding replace_keys_in
update_keys p u = elim p.api_keys [ none ↦ (u, false) | some keys ↦ replace_keys_in keys u ]

-- The fields that follow the keys.
unfoldable pub update_rest : ChannelKind → UpstreamUpdate → UpstreamConfig → UpstreamConfig
unfolding update_own_options update_options
update_rest kind p u = record u {
  model_mapping = or_keep p.model_mapping u.model_mapping;
  reasoning_mapping = or_keep p.reasoning_mapping u.reasoning_mapping;
  priority = or_keep p.priority u.priority;
  status = or_keep p.status u.status;
  promotion_until = or_else p.promotion_until u.promotion_until;
  supported_models = or_keep p.supported_models u.supported_models;
  route_prefix = or_keep p.route_prefix u.route_prefix;
  options = update_options p (update_own_options kind p u.options);
}

-- The channel whose own service type is normalized, with the service type that it is to have.
unfoldable pub update_with :
    ChannelKind → UpstreamUpdate → String → UpstreamConfig → UpstreamConfig × Bool
unfolding update_urls update_keys update_rest
update_with kind p service_type u =
    let keyed = update_keys p (record (update_urls service_type p u) {
      name = or_keep p.name u.name;
      service_type = service_type;
    }) in
    (update_rest kind p keyed.0, keyed.1)

-- The channel as it is in memory afterwards, and the error or whether the metrics are to be reset. An image channel
-- can be refused after its own service type was normalized.
unfoldable pub update_channel :
    ChannelKind → UpstreamUpdate → UpstreamConfig → UpstreamConfig × Result ConfigError Bool
unfolding normalize_service_type update_with
update_channel kind p u = elim (normalize_service_type kind u.service_type) [
  | fail e ↦ (u, fail e)
  | ok own ↦ elim p.service_type [
    | none ↦
        let updated = update_with kind p own (record u { service_type = own }) in
        (updated.0, ok updated.1)
    | some raw ↦ elim (normalize_service_type kind raw) [
      | fail e ↦ (record u { service_type = own }, fail e)
      | ok new ↦
          let updated = update_with kind p new (record u { service_type = own }) in
          (updated.0, ok updated.1)
    ]
  ]
]
