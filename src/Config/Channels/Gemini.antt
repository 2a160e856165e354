-- ===== src/Config/Channels/Gemini.antt =====
-- The methods of the Gemini channels: backend-go/internal/config/config_gemini.go.
use ccx.Base.{ℕ, Option, Bool, List, String}
use ccx.Base.Results.{Result}
use ccx.Config.Types.{gemini, UpstreamConfig}
use ccx.Config.Manager.{ConfigManager, ConfigError, Host}
use ccx.Config.Failures.{get_next_api_key}
use ccx.Config.Update.{UpstreamUpdate}
use ccx.Config.Channels

unfoldable pub get_current_gemini_upstream : ConfigManager → Result ConfigError UpstreamConfig
unfolding Channels.get_current_upstream
get_current_gemini_upstream = Channels.get_current_upstream gemini

unfoldable pub get_current_gemini_upstream_with_index :
    ConfigManager → Result ConfigError (UpstreamConfig × ℕ)
unfolding Channels.get_current_upstream_with_index
get_current_gemini_upstream_with_index = Channels.get_current_upstream_with_index gemini

unfoldable pub add_gemini_upstream :
    Host → UpstreamConfig → ConfigManager → ConfigManager × Result ConfigError Unit
unfolding Channels.add_upstream
add_gemini_upstream host = Channels.add_upstream host gemini

unfoldable pub update_gemini_upstream :
    Host → ℕ → UpstreamUpdate → ConfigManager → ConfigManager × Result ConfigError Bool
unfolding Channels.update_upstream
update_gemini_upstream host = Channels.update_upstream host gemini

unfoldable pub remove_gemini_upstream :
    Host → ℕ → ConfigManager → ConfigManager × Result ConfigError UpstreamConfig
unfolding Channels.remove_upstream
remove_gemini_upstream host = Channels.remove_upstream host gemini

unfoldable pub add_gemini_api_key :
    Host → ℕ → String → ConfigManager → ConfigManager × Result ConfigError Unit
unfolding Channels.add_api_key
add_gemini_api_key host = Channels.add_api_key host gemini

unfoldable pub remove_gemini_api_key :
    Host → ℕ → String → ConfigManager → ConfigManager × Result ConfigError Unit
unfolding Channels.remove_api_key
remove_gemini_api_key host = Channels.remove_api_key host gemini

unfoldable pub get_next_gemini_api_key :
    UpstreamConfig → List String → ℕ → ConfigManager → Result ConfigError String
unfolding get_next_api_key
get_next_gemini_api_key u tried = get_next_api_key u tried "Gemini"

unfoldable pub move_gemini_api_key_to_top :
    Host → ℕ → String → ConfigManager → ConfigManager × Result ConfigError Unit
unfolding Channels.move_api_key_to_top
move_gemini_api_key_to_top host = Channels.move_api_key_to_top host gemini

unfoldable pub move_gemini_api_key_to_bottom :
    Host → ℕ → String → ConfigManager → ConfigManager × Result ConfigError Unit
unfolding Channels.move_api_key_to_bottom
move_gemini_api_key_to_bottom host = Channels.move_api_key_to_bottom host gemini

unfoldable pub reorder_gemini_upstreams :
    Host → List ℕ → ConfigManager → ConfigManager × Result ConfigError Unit
unfolding Channels.reorder_upstreams
reorder_gemini_upstreams host = Channels.reorder_upstreams host gemini

unfoldable pub set_gemini_channel_status :
    Host → ℕ → String → ConfigManager → ConfigManager × Result ConfigError Unit
unfolding Channels.set_channel_status
set_gemini_channel_status host = Channels.set_channel_status host gemini

unfoldable pub set_gemini_channel_promotion :
    Host → ℕ → ℕ → ConfigManager → ConfigManager × Result ConfigError Unit
unfolding Channels.set_channel_promotion
set_gemini_channel_promotion host = Channels.set_channel_promotion host gemini

unfoldable pub get_promoted_gemini_channel : ℕ → ConfigManager → Option ℕ
unfolding Channels.get_promoted_channel
get_promoted_gemini_channel now = Channels.get_promoted_channel now gemini
