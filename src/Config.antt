-- ===== src/Config.antt =====
-- The configuration of the channels: backend-go/internal/config. The children follow its files: Types, Keys and
-- Failures model config.go, Urls and Models what config_utils.go computes, Load config_loader.go, and Channels with
-- its children the five files of the kinds of channel.
pub mod Types
pub mod Urls
pub mod Models
pub mod Redirect
pub mod Keys
pub mod Manager
pub mod Failures
pub mod Update
pub mod Channels
pub mod Blacklist
pub mod Ops
pub mod Load
