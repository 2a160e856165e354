-- ===== src/Config/Ops.antt =====
-- Every operation that changes the configuration, one of backend-go/internal/config/config.go and of the files of the kinds of
-- channel.
use ccx.Base.{
  ℕ, Bool, true, false, Option, none, some, List, [], ◌∷◌, String, str_eq, if◌then◌else◌,
}
use ccx.Base.Results.{Result, fail, ok}
use ccx.Config.Types.{ChannelKind, UpstreamConfig}
use ccx.Config.Manager.{ConfigManager, ConfigError, Host}
use ccx.Config.Update.{UpstreamUpdate}
use ccx.Config.Channels.{
  add_upstream, update_upstream, remove_upstream, add_api_key, remove_api_key, move_api_key_to_top,
  move_api_key_to_bottom, reorder_upstreams, set_channel_status, set_channel_promotion,
}
use ccx.Config.Channels.Messages.{deprioritize_api_key}
use ccx.Config.Blacklist.{
  blacklist_key, restore_key, restore_all_keys, restore_disabled_keys, set_fuzzy_mode_enabled,
  set_strip_billing_header,
}
pub mod Synced
pub mod Honest
pub mod Report
pub mod Runs

pub data Op : Type 0 where
  add : ChannelKind → UpstreamConfig → Op
  update : ChannelKind → ℕ → UpstreamUpdate → Op
  remove : ChannelKind → ℕ → Op
  add_key : ChannelKind → ℕ → String → Op
  remove_key : ChannelKind → ℕ → String → Op
  key_to_top : ChannelKind → ℕ → String → Op
  key_to_bottom : ChannelKind → ℕ → String → Op
  reorder : ChannelKind → List ℕ → Op
  set_status : ChannelKind → ℕ → String → Op
  set_promotion : ChannelKind → ℕ → ℕ → Op
  deprioritize : String → Op
  blacklist : String → ℕ → String → String → String → Op
  restore : String → ℕ → String → Op
  restore_all : String → ℕ → Op
  restore_some : String → ℕ → List String → Op
  set_fuzzy : Bool → Op
  set_strip : Bool → Op

-- The manager afterwards, and whether the operation reports success.
abbrev pub reported :
    {A : Type 0} → ConfigManager × Result ConfigError A → ConfigManager × Option ConfigError
reported (m, fail e) = (m, some e)
reported (m, ok a) = (m, none)

unfoldable pub perform : Host → Op → ConfigManager → ConfigManager × Option ConfigError
perform host (add kind u) m = reported (add_upstream host kind u m)
perform host (update kind i p) m = reported (update_upstream host kind i p m)
perform host (remove kind i) m = reported (remove_upstream host kind i m)
perform host (add_key kind i key) m = reported (add_api_key host kind i key m)
perform host (remove_key kind i key) m = reported (remove_api_key host kind i key m)
perform host (key_to_top kind i key) m = reported (move_api_key_to_top host kind i key m)
perform host (key_to_bottom kind i key) m = reported (move_api_key_to_bottom host kind i key m)
perform host (reorder kind order) m = reported (reorder_upstreams host kind order m)
perform host (set_status kind i status) m = reported (set_channel_status host kind i status m)
perform host (set_promotion kind i d) m = reported (set_channel_promotion host kind i d m)
perform host (deprioritize key) m = reported (deprioritize_api_key host key m)
perform host (blacklist name i key reason message) m =
    reported (blacklist_key host name i key reason message m)
perform host (restore name i key) m = reported (restore_key host name i key m)
perform host (restore_all name i) m = reported (restore_all_keys host name i m)
perform host (restore_some name i keys) m = reported (restore_disabled_keys host name i keys m)
perform host (set_fuzzy b) m = reported (set_fuzzy_mode_enabled host b m)
perform host (set_strip b) m = reported (set_strip_billing_header host b m)
