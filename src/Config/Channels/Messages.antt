-- ===== src/Config/Channels/Messages.antt =====
-- The methods of the Messages channels: backend-go/internal/config/config_messages.go.
use ccx.Base.{ℕ, Option, none, some, Bool, List, [], ◌∷◌, String}
use ccx.Base.Results.{Result, ok}
use ccx.Config.Types.{ChannelKind, messages, responses, chat, images, UpstreamConfig, channels_of}
use ccx.Config.Keys.{move_to_bottom_in}
use ccx.Config.Manager.{ConfigManager, ConfigError, Host, saving, put_channels}
use ccx.Config.Update.{UpstreamUpdate}
use ccx.Config.Channels

unfoldable pub get_current_upstream : ConfigManager → Result ConfigError UpstreamConfig
unfolding Channels.get_current_upstream
get_current_upstream = Channels.get_current_upstream messages

unfoldable pub get_current_upstream_with_index :
    ConfigManager → Result ConfigError (UpstreamConfig × ℕ)
unfolding Channels.get_current_upstream_with_index
get_current_upstream_with_index = Channels.get_current_upstream_with_index messages

unfoldable pub add_upstream :
    Host → UpstreamConfig → ConfigManager → ConfigManager × Result ConfigError Unit
unfolding Channels.add_upstream
add_upstream host = Channels.add_upstream host messages

unfoldable pub update_upstream :
    Host → ℕ → UpstreamUpdate → ConfigManager → ConfigManager × Result ConfigError Bool
unfolding Channels.update_upstream
update_upstream host = Channels.update_upstream host messages

unfoldable pub remove_upstream :
    Host → ℕ → ConfigManager → ConfigManager × Result ConfigError UpstreamConfig
unfolding Channels.remove_upstream
remove_upstream host = Channels.remove_upstream host messages

unfoldable pub add_api_key :
    Host → ℕ → String → ConfigManager → ConfigManager × Result ConfigError Unit
unfolding Channels.add_api_key
add_api_key host = Channels.add_api_key host messages

unfoldable pub remove_api_key :
    Host → ℕ → String → ConfigManager → ConfigManager × Result ConfigError Unit
unfolding Channels.remove_api_key
remove_api_key host = Channels.remove_api_key host messages

unfoldable pub move_api_key_to_top :
    Host → ℕ → String → ConfigManager → ConfigManager × Result ConfigError Unit
unfolding Channels.move_api_key_to_top
move_api_key_to_top host = Channels.move_api_key_to_top host messages

unfoldable pub move_api_key_to_bottom :
    Host → ℕ → String → ConfigManager → ConfigManager × Result ConfigError Unit
unfolding Channels.move_api_key_to_bottom
move_api_key_to_bottom host = Channels.move_api_key_to_bottom host messages

unfoldable pub reorder_upstreams :
    Host → List ℕ → ConfigManager → ConfigManager × Result ConfigError Unit
unfolding Channels.reorder_upstreams
reorder_upstreams host = Channels.reorder_upstreams host messages

unfoldable pub set_channel_status :
    Host → ℕ → String → ConfigManager → ConfigManager × Result ConfigError Unit
unfolding Channels.set_channel_status
set_channel_status host = Channels.set_channel_status host messages

unfoldable pub set_channel_promotion :
    Host → ℕ → ℕ → ConfigManager → ConfigManager × Result ConfigError Unit
unfolding Channels.set_channel_promotion
set_channel_promotion host = Channels.set_channel_promotion host messages

unfoldable pub get_promoted_channel : ℕ → ConfigManager → Option ℕ
unfolding Channels.get_promoted_channel
get_promoted_channel now = Channels.get_promoted_channel now messages

-- The first channel where the key is active and not the last gets it as its last key.
unfoldable pub deprioritize_in : String → List UpstreamConfig → Option (List UpstreamConfig)
unfolding move_to_bottom_in
deprioritize_in key [] = none
deprioritize_in key (u ∷ us) =
    let rest = deprioritize_in key us in
    elim (move_to_bottom_in key u) [
      | some moved ↦ some (moved ∷ us)
      | none ↦ elim rest [ none ↦ none | some others ↦ some (u ∷ others) ]
    ]

-- The four loops of `DeprioritizeAPIKey`, one after the other.
unfoldable pub deprioritize_among :
    Host → String → List ChannelKind → ConfigManager → ConfigManager × Result ConfigError Unit
unfolding deprioritize_in saving put_channels channels_of
deprioritize_among host key [] m = (m, ok tt)
deprioritize_among host key (kind ∷ kinds) m =
    let rest = deprioritize_among host key kinds m in
    elim (deprioritize_in key (channels_of m.config kind)) [
      | some us ↦ saving host tt (put_channels kind us m)
      | none ↦ rest
    ]

unfoldable pub deprioritize_api_key :
    Host → String → ConfigManager → ConfigManager × Result ConfigError Unit
unfolding deprioritize_among
deprioritize_api_key host key =
    deprioritize_among host key (messages ∷ responses ∷ chat ∷ images ∷ [])
