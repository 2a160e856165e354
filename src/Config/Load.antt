-- ===== src/Config/Load.antt =====
-- The loading of the configuration: backend-go/internal/config/config_loader.go. What `json.Unmarshal` leaves in memory is an
-- argument, and so are the fields that the raw JSON has. An old index below 0 is one past the end.
use ccx.Base.{
  ℕ, zero, suc, ◌≡◌, Bool, true, false, not, ◌&&◌, ◌||◌, Option, none, some, List, [], ◌∷◌, String,
  ◌-◌, leb, nat_eq, str_eq, if◌then◌else◌, any, length, map,
}
use ccx.Base.Results.{Result, fail, ok}
use ccx.Config.Types.{
  ChannelKind, messages, responses, gemini, chat, images, UpstreamConfig, Options, Config,
  channels_of, effective_status, default_service_type,
}
use ccx.Config.Urls.{normalize_upstream_service_type}
use ccx.Config.Manager.{ConfigManager, ConfigError, Host, set_channels, save_config_locked}
use ccx.Config.Update.{normalize_service_type}
pub mod Checked

abbrev pub max_backups : ℕ
max_backups = 10

-- 5 minutes, in nanoseconds.
abbrev pub default_key_recovery_time : ℕ
default_key_recovery_time = 300000000000

abbrev pub default_max_failure_count : ℕ
default_max_failure_count = 3

unfoldable pub new_config_manager : Config → ConfigManager
new_config_manager cfg = record {
  config = cfg;
  failed_keys_cache = [];
  key_recovery_time = default_key_recovery_time;
  max_failure_count = default_max_failure_count;
  file = none;
}

unfoldable pub default_config : Config
default_config = record {
  upstream = [];
  current_upstream = 0;
  responses_upstream = [];
  current_responses_upstream = 0;
  gemini_upstream = [];
  chat_upstream = [];
  images_upstream = [];
  fuzzy_mode_enabled = true;
  strip_billing_header = true;
}

-- What the raw JSON of a channel says of the two old names of `codexToolCompat`; `none` where the field is missing, and
-- `some none` where it is no Boolean.
pub record RawChannel : Type 0 where
  pub codex_tools_compat : Option (Option Bool)
  pub strip_codex_client_tools : Option (Option Bool)

-- What the raw JSON says; the channels of a kind are `none` where the field is missing or no list of objects.
pub record RawConfig : Type 0 where
  pub has_fuzzy_mode_enabled : Bool
  pub has_strip_billing_header : Bool
  pub raw_channels : ChannelKind → Option (List RawChannel)

-- The configuration, and whether it needs to be saved.
unfoldable pub apply_config_defaults : RawConfig → Config → Config × Bool
apply_config_defaults raw cfg = (
  record cfg {
    fuzzy_mode_enabled = not raw.has_fuzzy_mode_enabled || cfg.fuzzy_mode_enabled;
    strip_billing_header = not raw.has_strip_billing_header || cfg.strip_billing_header;
  },
  not raw.has_fuzzy_mode_enabled || not raw.has_strip_billing_header,
)

abbrev pub with_codex_tool_compat : Bool → UpstreamConfig → UpstreamConfig × Bool
with_codex_tool_compat b u =
    (record u { options = record u.options { codex_tool_compat = some b } }, true)

unfoldable pub migrate_codex_tool_compat : RawChannel → UpstreamConfig → UpstreamConfig × Bool
migrate_codex_tool_compat raw u = elim u.options.codex_tool_compat [
  | some b ↦ (u, false)
  | none ↦ elim raw.codex_tools_compat [
    | some (some b) ↦ with_codex_tool_compat b u
    | some none ↦ (u, false)
    | none ↦ elim raw.strip_codex_client_tools [
      | some (some true) ↦ with_codex_tool_compat true u
      | some (some false) ↦ (u, false)
      | some none ↦ (u, false)
      | none ↦ (u, false)
    ]
  ]
]

unfoldable pub migrate_codex_channels :
    List RawChannel → List UpstreamConfig → List UpstreamConfig × Bool
unfolding migrate_codex_tool_compat
migrate_codex_channels raws [] = ([], false)
migrate_codex_channels [] (u ∷ us) = (u ∷ us, false)
migrate_codex_channels (raw ∷ raws) (u ∷ us) =
    let first = migrate_codex_tool_compat raw u in
    let rest = migrate_codex_channels raws us in (first.0 ∷ rest.0, first.1 || rest.1)

-- A pass over the channels of one kind, in the configuration.
abbrev pub over_kind :
    (ChannelKind → List UpstreamConfig → List UpstreamConfig × Bool)
    → ChannelKind
    → Config × Bool
    → Config × Bool
unfolding channels_of set_channels
over_kind f kind (cfg, changed) =
    let updated = f kind (channels_of cfg kind) in
    (set_channels kind updated.0 cfg, changed || updated.1)

-- A pass over the channels of the kinds, one kind after the other.
unfoldable pub over_kinds :
    (ChannelKind → List UpstreamConfig → List UpstreamConfig × Bool)
    → List ChannelKind
    → Config × Bool
    → Config × Bool
unfolding over_kind
over_kinds f [] c = c
over_kinds f (kind ∷ kinds) c = over_kinds f kinds (over_kind f kind c)

unfoldable pub apply_codex_tool_compat_migration : RawConfig → Config → Config × Bool
unfolding over_kinds migrate_codex_channels
apply_codex_tool_compat_migration raw cfg =
    over_kinds
      (λ kind us. elim (raw.raw_channels kind) [
        | none ↦ (us, false)
        | some raws ↦ migrate_codex_channels raws us
      ])
      (messages ∷ responses ∷ gemini ∷ chat ∷ images ∷ []) (cfg, false)

-- The service type that a channel gets; an image channel that has another than "openai" gets that.
unfoldable pub service_type_or_default : ChannelKind → String → String
unfolding normalize_service_type
service_type_or_default kind raw = elim (normalize_service_type kind raw) [
  | fail e ↦ "openai"
  | ok normalized ↦ normalized
]

abbrev pub fails : {A : Type 0} → Result ConfigError A → Bool
fails (fail e) = true
fails (ok a) = false

unfoldable pub default_service_types :
    ChannelKind → List UpstreamConfig → List UpstreamConfig × Bool
unfolding service_type_or_default normalize_service_type
default_service_types kind [] = ([], false)
default_service_types kind (u ∷ us) =
    let rest = default_service_types kind us in
    let own = service_type_or_default kind u.service_type in
    (
      record u { service_type = own } ∷ rest.0,
      fails (normalize_service_type kind u.service_type)
          || not (str_eq u.service_type own)
          || rest.1,
    )

unfoldable pub apply_service_type_defaults : Config → Config × Bool
unfolding over_kinds default_service_types
apply_service_type_defaults cfg =
    over_kinds default_service_types (messages ∷ responses ∷ gemini ∷ chat ∷ images ∷ [])
      (cfg, false)

-- The first loop of `migrateUpstreams`.
abbrev pub has_status : UpstreamConfig → Bool
has_status u = not (str_eq u.status "")

abbrev pub with_status : String → UpstreamConfig → UpstreamConfig
with_status status u = record u { status = status }

unfoldable pub activate_only : ℕ → List UpstreamConfig → List UpstreamConfig
activate_only i [] = []
activate_only zero (u ∷ us) = with_status "active" u ∷ map (with_status "disabled") us
activate_only (suc i) (u ∷ us) = with_status "disabled" u ∷ activate_only i us

unfoldable pub migrate_upstreams : ℕ → List UpstreamConfig → List UpstreamConfig × Bool
unfolding activate_only
migrate_upstreams current us =
    if nat_eq (length us) 0 || any has_status us
    then (us, false)
    else (activate_only (if leb (length us) current then 0 else current) us, true)

unfoldable pub migrate_old_format : Config → Config × Bool
unfolding migrate_upstreams
migrate_old_format cfg =
    let first = migrate_upstreams cfg.current_upstream cfg.upstream in
    let second = migrate_upstreams cfg.current_responses_upstream cfg.responses_upstream in
    (record cfg { upstream = first.0; responses_upstream = second.0 }, first.1 || second.1)

abbrev pub lacks_keys : UpstreamConfig → Bool
lacks_keys u = str_eq (effective_status u) "active" && nat_eq (length u.api_keys) 0

unfoldable pub suspend_without_keys : ChannelKind → List UpstreamConfig → List UpstreamConfig × Bool
suspend_without_keys kind [] = ([], false)
suspend_without_keys kind (u ∷ us) =
    let rest = suspend_without_keys kind us in
    if lacks_keys u then (with_status "suspended" u ∷ rest.0, true) else (u ∷ rest.0, rest.1)

unfoldable pub validate_channel_keys : Config → Config × Bool
unfolding over_kinds suspend_without_keys
validate_channel_keys cfg =
    over_kinds suspend_without_keys (messages ∷ responses ∷ chat ∷ gemini ∷ images ∷ [])
      (cfg, false)

-- The configuration in memory is `cfg`; it is saved where that is needed, and the error is that of the write.
abbrev pub save_if : Host → ConfigManager → Config × Bool → ConfigManager × Option ConfigError
unfolding save_config_locked
save_if host m (cfg, true) = save_config_locked host (record m { config = cfg })
save_if host m (cfg, false) = (record m { config = cfg }, none)

abbrev pub validated :
    Host → ConfigManager × Option ConfigError → ConfigManager × Option ConfigError
unfolding save_if validate_channel_keys
validated host (m, some e) = (m, some e)
validated host (m, none) = save_if host m (validate_channel_keys m.config)

-- `loadConfig` up to its second call of `saveConfigLocked`.
unfoldable pub load_migrated :
    Host → RawConfig → Config → ConfigManager → ConfigManager × Option ConfigError
unfolding save_if apply_config_defaults apply_service_type_defaults
    apply_codex_tool_compat_migration migrate_old_format
load_migrated host raw cfg m =
    let defaults = apply_config_defaults raw cfg in
    let typed = apply_service_type_defaults defaults.0 in
    let compat = apply_codex_tool_compat_migration raw typed.0 in
    let migrated = migrate_old_format compat.0 in
    save_if host m (migrated.0, defaults.1 || typed.1 || compat.1 || migrated.1)

-- `loadConfig` of a file that is there and that `json.Unmarshal` reads.
unfoldable pub load_config :
    Host → RawConfig → Config → ConfigManager → ConfigManager × Option ConfigError
unfolding validated load_migrated
load_config host raw cfg m = validated host (load_migrated host raw cfg m)

-- `createDefaultConfig`, for a file that is not there.
unfoldable pub create_default_config : Host → ConfigManager → ConfigManager × Option ConfigError
unfolding save_config_locked default_config
create_default_config host m = save_config_locked host (record m { config = default_config })

-- How many of the `count` backups `cleanupOldBackups` removes, the oldest first.
unfoldable pub backups_removed : ℕ → ℕ
backups_removed count = if leb count max_backups then 0 else count - max_backups
