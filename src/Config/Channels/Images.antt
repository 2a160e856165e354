-- ===== src/Config/Channels/Images.antt =====
-- The methods of the Images channels: backend-go/internal/config/config_images.go.
use ccx.Base.{ℕ, Option, Bool, List, String}
use ccx.Base.Results.{Result}
use ccx.Config.Types.{images, UpstreamConfig}
use ccx.Config.Manager.{ConfigManager, ConfigError, Host}
use ccx.Config.Failures.{get_next_api_key}
use ccx.Config.Update.{UpstreamUpdate}
use ccx.Config.Channels

unfoldable pub get_current_images_upstream : ConfigManager → Result ConfigError UpstreamConfig
unfolding Channels.get_current_upstream
get_current_images_upstream = Channels.get_current_upstream images

unfoldable pub get_current_images_upstream_with_index :
    ConfigManager → Result ConfigError (UpstreamConfig × ℕ)
unfolding Channels.get_current_upstream_with_index
get_current_images_upstream_with_index = Channels.get_current_upstream_with_index images

unfoldable pub add_images_upstream :
    Host → UpstreamConfig → ConfigManager → ConfigManager × Result ConfigError Unit
unfolding Channels.add_upstream
add_images_upstream host = Channels.add_upstream host images

unfoldable pub update_images_upstream :
    Host → ℕ → UpstreamUpdate → ConfigManager → ConfigManager × Result ConfigError Bool
unfolding Channels.update_upstream
update_images_upstream host = Channels.update_upstream host images

unfoldable pub remove_images_upstream :
    Host → ℕ → ConfigManager → ConfigManager × Result ConfigError UpstreamConfig
unfolding Channels.remove_upstream
remove_images_upstream host = Channels.remove_upstream host images

unfoldable pub add_images_api_key :
    Host → ℕ → String → ConfigManager → ConfigManager × Result ConfigError Unit
unfolding Channels.add_api_key
add_images_api_key host = Channels.add_api_key host images

unfoldable pub remove_images_api_key :
    Host → ℕ → String → ConfigManager → ConfigManager × Result ConfigError Unit
unfolding Channels.remove_api_key
remove_images_api_key host = Channels.remove_api_key host images

unfoldable pub get_next_images_api_key :
    UpstreamConfig → List String → ℕ → ConfigManager → Result ConfigError String
unfolding get_next_api_key
get_next_images_api_key u tried = get_next_api_key u tried "Images"

unfoldable pub move_images_api_key_to_top :
    Host → ℕ → String → ConfigManager → ConfigManager × Result ConfigError Unit
unfolding Channels.move_api_key_to_top
move_images_api_key_to_top host = Channels.move_api_key_to_top host images

unfoldable pub move_images_api_key_to_bottom :
    Host → ℕ → String → ConfigManager → ConfigManager × Result ConfigError Unit
unfolding Channels.move_api_key_to_bottom
move_images_api_key_to_bottom host = Channels.move_api_key_to_bottom host images

unfoldable pub reorder_images_upstreams :
    Host → List ℕ → ConfigManager → ConfigManager × Result ConfigError Unit
unfolding Channels.reorder_upstreams
reorder_images_upstreams host = Channels.reorder_upstreams host images

unfoldable pub set_images_channel_status :
    Host → ℕ → String → ConfigManager → ConfigManager × Result ConfigError Unit
unfolding Channels.set_channel_status
set_images_channel_status host = Channels.set_channel_status host images

unfoldable pub set_images_channel_promotion :
    Host → ℕ → ℕ → ConfigManager → ConfigManager × Result ConfigError Unit
unfolding Channels.set_channel_promotion
set_images_channel_promotion host = Channels.set_channel_promotion host images

unfoldable pub get_promoted_images_channel : ℕ → ConfigManager → Option ℕ
unfolding Channels.get_promoted_channel
get_promoted_images_channel now = Channels.get_promoted_channel now images
