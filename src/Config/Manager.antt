-- ===== src/Config/Manager.antt =====
-- The configuration manager: its state and how a change of a channel is stored, backend-go/internal/config/config.go and
-- `saveConfigLocked` of backend-go/internal/config/config_loader.go. An index is a natural number: a negative one is refused like one
-- past the end. The backups of the file and the log are not modelled.
use Prim.Native.String.{◌++◌ as append}
use ccx.Base.{
  ℕ, string_eq, Bool, not, Option, none, some, List, [], ◌∷◌, String, str_eq, if◌then◌else◌, modify,
  get_elem?,
}
use ccx.Base.Dict.{Dict, delete}
use ccx.Base.Results.{Result, fail, ok}
use ccx.Config.Types.{
  ChannelKind, messages, responses, gemini, chat, images, UpstreamConfig, Config, channels_of,
}

pub record FailedKey : Type 0 where
  pub timestamp : ℕ
  pub failure_count : ℕ

-- `file` is the content of the configuration file, `none` where a write failed.
pub record ConfigManager : Type 0 where
  pub config : Config
  pub failed_keys_cache : Dict String FailedKey
  pub key_recovery_time : ℕ
  pub max_failure_count : ℕ
  pub file : Option String

pub data ConfigError : Type 0 where
  invalid_index : ConfigError
  duplicate_index : ConfigError
  empty_order : ConfigError
  name_exists : ConfigError
  unsupported_service_type : ConfigError
  invalid_status : ConfigError
  key_exists : ConfigError
  no_such_key : ConfigError
  no_channel : ConfigError
  no_keys : ConfigError
  no_available_key : ConfigError
  not_saved : ConfigError

-- What an operation takes from outside: the JSON of a configuration, whether the file can be written, the instant,
-- and the text of an instant.
pub record Host : Type 0 where
  pub marshal : Config → String
  pub is_written : Bool
  pub now : ℕ
  pub format_time : ℕ → String

-- The name of a kind in the keys of the failed keys: `apiType`.
unfoldable pub api_type : ChannelKind → String
api_type messages = "Messages"
api_type responses = "Responses"
api_type gemini = "Gemini"
api_type chat = "Chat"
api_type images = "Images"

unfoldable pub set_channels : ChannelKind → List UpstreamConfig → Config → Config
set_channels messages us cfg = record cfg { upstream = us }
set_channels responses us cfg = record cfg { responses_upstream = us }
set_channels gemini us cfg = record cfg { gemini_upstream = us }
set_channels chat us cfg = record cfg { chat_upstream = us }
set_channels images us cfg = record cfg { images_upstream = us }

-- `getUpstreamSliceLocked`
unfoldable pub get_upstream_slice_locked : String → Option ChannelKind
get_upstream_slice_locked name =
    if str_eq name "Messages"
    then some messages
    else if str_eq name "Responses"
    then some responses
    else if str_eq name "Gemini"
    then some gemini
    else if str_eq name "Chat"
    then some chat
    else if str_eq name "Images"
    then some images
    else none

abbrev pub clear_deprecated : Config → Config
clear_deprecated cfg = record cfg { current_upstream = 0; current_responses_upstream = 0 }

unfoldable pub save_config_locked : Host → ConfigManager → ConfigManager × Option ConfigError
save_config_locked host m =
    let cfg = clear_deprecated m.config in
    (
      record m { config = cfg; file = if host.is_written then some (host.marshal cfg) else none },
      if host.is_written then none else some not_saved,
    )

-- `return a, cm.saveConfigLocked(cm.config)`, where the value does not count with an error.
unfoldable pub saving :
    {A : Type 0} → Host → A → ConfigManager → ConfigManager × Result ConfigError A
unfolding save_config_locked
saving host a m =
    let saved = save_config_locked host m in
    (saved.0, elim saved.1 [ none ↦ ok a | some e ↦ fail e ])

unfoldable pub has_config_changed : Host → Config → Config → Bool
has_config_changed host old new =
    not (str_eq (host.marshal (clear_deprecated old)) (host.marshal (clear_deprecated new)))

unfoldable pub failed_key_cache_key : String → String → String
failed_key_cache_key name key = append name (append ":" key)

unfoldable pub forget_keys : String → List String → ConfigManager → ConfigManager
unfolding failed_key_cache_key
forget_keys name [] m = m
forget_keys name (key ∷ keys) m =
    forget_keys name keys
      (record m { failed_keys_cache = delete (failed_key_cache_key name key) m.failed_keys_cache })

unfoldable pub put_channels : ChannelKind → List UpstreamConfig → ConfigManager → ConfigManager
unfolding set_channels
put_channels kind us m = record m { config = set_channels kind us m.config }

unfoldable pub put_channel : ChannelKind → ℕ → UpstreamConfig → ConfigManager → ConfigManager
unfolding channels_of put_channels
put_channel kind i u m = put_channels kind (modify (λ old. u) (channels_of m.config kind) i) m

-- What an operation does with the channel at its index: an error; a return without a change; or the channel changed,
-- the failed keys to forget, and the value returned once the configuration is saved.
pub data Change (A : Type 0) : Type 0 where
  refuse : ConfigError → Change A
  leave : A → Change A
  store : UpstreamConfig → List String → A → Change A

unfoldable pub apply_change :
    {A : Type 0}
    → Host
    → ChannelKind
    → ℕ
    → ConfigManager
    → Change A
    → ConfigManager × Result ConfigError A
unfolding put_channel forget_keys saving api_type
apply_change host kind i m (refuse e) = (m, fail e)
apply_change host kind i m (leave a) = (m, ok a)
apply_change host kind i m (store u keys a) =
    saving host a (forget_keys (api_type kind) keys (put_channel kind i u m))

-- The operations on one channel: the test of the index, the change, and the saving.
unfoldable pub change_channel :
    {A : Type 0}
    → Host
    → ChannelKind
    → ℕ
    → (UpstreamConfig → Change A)
    → ConfigManager
    → ConfigManager × Result ConfigError A
unfolding apply_change channels_of
change_channel host kind i f m = elim (get_elem? (channels_of m.config kind) i) [
  | none ↦ (m, fail invalid_index)
  | some u ↦ apply_change host kind i m (f u)
]
