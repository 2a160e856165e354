-- ===== src/Config/Channels/Chat.antt =====
-- The methods of the Chat channels: backend-go/internal/config/config_chat.go.
use ccx.Base.{ℕ, Option, Bool, List, String}
use ccx.Base.Results.{Result}
use ccx.Config.Types.{chat, UpstreamConfig}
use ccx.Config.Manager.{ConfigManager, ConfigError, Host}
use ccx.Config.Failures.{get_next_api_key}
use ccx.Config.Update.{UpstreamUpdate}
use ccx.Config.Channels

unfoldable pub get_current_chat_upstream : ConfigManager → Result ConfigError UpstreamConfig
unfolding Channels.get_current_upstream
get_current_chat_upstream = Channels.get_current_upstream chat

unfoldable pub get_current_chat_upstream_with_index :
    ConfigManager → Result ConfigError (UpstreamConfig × ℕ)
unfolding Channels.get_current_upstream_with_index
get_current_chat_upstream_with_index = Channels.get_current_upstream_with_index chat

unfoldable pub add_chat_upstream :
    Host → UpstreamConfig → ConfigManager → ConfigManager × Result ConfigError Unit
unfolding Channels.add_upstream
add_chat_upstream host = Channels.add_upstream host chat

unfoldable pub update_chat_upstream :
    Host → ℕ → UpstreamUpdate → ConfigManager → ConfigManager × Result ConfigError Bool
unfolding Channels.update_upstream
update_chat_upstream host = Channels.update_upstream host chat

unfoldable pub remove_chat_upstream :
    Host → ℕ → ConfigManager → ConfigManager × Result ConfigError UpstreamConfig
unfolding Channels.remove_upstream
remove_chat_upstream host = Channels.remove_upstream host chat

unfoldable pub add_chat_api_key :
    Host → ℕ → String → ConfigManager → ConfigManager × Result ConfigError Unit
unfolding Channels.add_api_key
add_chat_api_key host = Channels.add_api_key host chat

unfoldable pub remove_chat_api_key :
    Host → ℕ → String → ConfigManager → ConfigManager × Result ConfigError Unit
unfolding Channels.remove_api_key
remove_chat_api_key host = Channels.remove_api_key host chat

unfoldable pub get_next_chat_api_key :
    UpstreamConfig → List String → ℕ → ConfigManager → Result ConfigError String
unfolding get_next_api_key
get_next_chat_api_key u tried = get_next_api_key u tried "Chat"

unfoldable pub move_chat_api_key_to_top :
    Host → ℕ → String → ConfigManager → ConfigManager × Result ConfigError Unit
unfolding Channels.move_api_key_to_top
move_chat_api_key_to_top host = Channels.move_api_key_to_top host chat

unfoldable pub move_chat_api_key_to_bottom :
    Host → ℕ → String → ConfigManager → ConfigManager × Result ConfigError Unit
unfolding Channels.move_api_key_to_bottom
move_chat_api_key_to_bottom host = Channels.move_api_key_to_bottom host chat

unfoldable pub reorder_chat_upstreams :
    Host → List ℕ → ConfigManager → ConfigManager × Result ConfigError Unit
unfolding Channels.reorder_upstreams
reorder_chat_upstreams host = Channels.reorder_upstreams host chat

unfoldable pub set_chat_channel_status :
    Host → ℕ → String → ConfigManager → ConfigManager × Result ConfigError Unit
unfolding Channels.set_channel_status
set_chat_channel_status host = Channels.set_channel_status host chat

unfoldable pub set_chat_channel_promotion :
    Host → ℕ → ℕ → ConfigManager → ConfigManager × Result ConfigError Unit
unfolding Channels.set_channel_promotion
set_chat_channel_promotion host = Channels.set_channel_promotion host chat

unfoldable pub get_promoted_chat_channel : ℕ → ConfigManager → Option ℕ
unfolding Channels.get_promoted_channel
get_promoted_chat_channel now = Channels.get_promoted_channel now chat
