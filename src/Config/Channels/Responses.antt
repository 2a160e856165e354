-- ===== src/Config/Channels/Responses.antt =====
-- The methods of the Responses channels: backend-go/internal/config/config_responses.go.
use ccx.Base.{ℕ, Option, Bool, List, String}
use ccx.Base.Results.{Result}
use ccx.Config.Types.{responses, UpstreamConfig}
use ccx.Config.Manager.{ConfigManager, ConfigError, Host}
use ccx.Config.Failures.{get_next_api_key}
use ccx.Config.Update.{UpstreamUpdate}
use ccx.Config.Channels

unfoldable pub get_current_responses_upstream : ConfigManager → Result ConfigError UpstreamConfig
unfolding Channels.get_current_upstream
get_current_responses_upstream = Channels.get_current_upstream responses

unfoldable pub get_current_responses_upstream_with_index :
    ConfigManager → Result ConfigError (UpstreamConfig × ℕ)
unfolding Channels.get_current_upstream_with_index
get_current_responses_upstream_with_index = Channels.get_current_upstream_with_index responses

unfoldable pub add_responses_upstream :
    Host → UpstreamConfig → ConfigManager → ConfigManager × Result ConfigError Unit
unfolding Channels.add_upstream
add_responses_upstream host = Channels.add_upstream host responses

unfoldable pub update_responses_upstream :
    Host → ℕ → UpstreamUpdate → ConfigManager → ConfigManager × Result ConfigError Bool
unfolding Channels.update_upstream
update_responses_upstream host = Channels.update_upstream host responses

unfoldable pub remove_responses_upstream :
    Host → ℕ → ConfigManager → ConfigManager × Result ConfigError UpstreamConfig
unfolding Channels.remove_upstream
remove_responses_upstream host = Channels.remove_upstream host responses

unfoldable pub add_responses_api_key :
    Host → ℕ → String → ConfigManager → ConfigManager × Result ConfigError Unit
unfolding Channels.add_api_key
add_responses_api_key host = Channels.add_api_key host responses

unfoldable pub remove_responses_api_key :
    Host → ℕ → String → ConfigManager → ConfigManager × Result ConfigError Unit
unfolding Channels.remove_api_key
remove_responses_api_key host = Channels.remove_api_key host responses

unfoldable pub get_next_responses_api_key :
    UpstreamConfig → List String → ℕ → ConfigManager → Result ConfigError String
unfolding get_next_api_key
get_next_responses_api_key u tried = get_next_api_key u tried "Responses"

unfoldable pub move_responses_api_key_to_top :
    Host → ℕ → String → ConfigManager → ConfigManager × Result ConfigError Unit
unfolding Channels.move_api_key_to_top
move_responses_api_key_to_top host = Channels.move_api_key_to_top host responses

unfoldable pub move_responses_api_key_to_bottom :
    Host → ℕ → String → ConfigManager → ConfigManager × Result ConfigError Unit
unfolding Channels.move_api_key_to_bottom
move_responses_api_key_to_bottom host = Channels.move_api_key_to_bottom host responses

unfoldable pub reorder_responses_upstreams :
    Host → List ℕ → ConfigManager → ConfigManager × Result ConfigError Unit
unfolding Channels.reorder_upstreams
reorder_responses_upstreams host = Channels.reorder_upstreams host responses

unfoldable pub set_responses_channel_status :
    Host → ℕ → String → ConfigManager → ConfigManager × Result ConfigError Unit
unfolding Channels.set_channel_status
set_responses_channel_status host = Channels.set_channel_status host responses

unfoldable pub set_responses_channel_promotion :
    Host → ℕ → ℕ → ConfigManager → ConfigManager × Result ConfigError Unit
unfolding Channels.set_channel_promotion
set_responses_channel_promotion host = Channels.set_channel_promotion host responses

unfoldable pub get_promoted_responses_channel : ℕ → ConfigManager → Option ℕ
unfolding Channels.get_promoted_channel
get_promoted_responses_channel now = Channels.get_promoted_channel now responses
