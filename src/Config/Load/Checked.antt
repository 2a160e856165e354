-- ===== src/Config/Load/Checked.antt =====
-- What holds of a configuration that was loaded: backend-go/internal/config/config_loader.go.
use ccx.Base.{
  ℕ, zero, suc, ◌<◌, ◌≡◌, refl, ap, Bool, true, false, ◌||◌, Option, none, some, List, [], ◌∷◌,
  str_eq, leb, nat_eq, inl, inr, arith, if◌then◌else◌, any, length, map, count, All, Bool-cases,
}
use ccx.Config.Types.{
  ChannelKind, messages, responses, gemini, chat, images, UpstreamConfig, Config, channels_of,
}
use ccx.Config.Manager.{ConfigManager, ConfigError, Host}
use ccx.Config.Load.{
  RawConfig, lacks_keys, suspend_without_keys, validate_channel_keys, validated, save_if,
  load_migrated, load_config, has_status, with_status, activate_only, migrate_upstreams,
}

suspended_fits : (u : UpstreamConfig) → lacks_keys (with_status "suspended" u) ≡ false
suspended_fits u = ground arith

All-suspend_without_keys :
    (kind : ChannelKind) (us : List UpstreamConfig)
    → All (λ u. lacks_keys u ≡ false) (suspend_without_keys kind us).0
unfolding suspend_without_keys
All-suspend_without_keys kind [] = tt
All-suspend_without_keys kind (u ∷ us) = elim (Bool-cases (lacks_keys u)) [
  | inl e ↦ rw e (suspended_fits u, All-suspend_without_keys kind us)
  | inr e ↦ rw e (e, All-suspend_without_keys kind us)
]

channels_of-validate :
    (kind : ChannelKind) (cfg : Config)
    → channels_of (validate_channel_keys cfg).0 kind
      ≡ (suspend_without_keys kind (channels_of cfg kind)).0
unfolding channels_of validate_channel_keys
channels_of-validate messages cfg = refl
channels_of-validate responses cfg = refl
channels_of-validate gemini cfg = refl
channels_of-validate chat cfg = refl
channels_of-validate images cfg = refl

channels_of-save_if :
    (host : Host) (kind : ChannelKind) (m : ConfigManager) (cfg : Config) (changed : Bool)
    → channels_of (save_if host m (cfg, changed)).0.config kind ≡ channels_of cfg kind
unfolding channels_of save_if
channels_of-save_if host messages m cfg true = refl
channels_of-save_if host responses m cfg true = refl
channels_of-save_if host gemini m cfg true = refl
channels_of-save_if host chat m cfg true = refl
channels_of-save_if host images m cfg true = refl
channels_of-save_if host kind m cfg false = refl

validated-fits :
    (host : Host) (kind : ChannelKind) (saved : ConfigManager × Option ConfigError)
    → (validated host saved).1 ≡ none
    → All (λ u. lacks_keys u ≡ false) (channels_of (validated host saved).0.config kind)
unfolding validated
validated-fits host kind (m, some e) done = absurd (ground (arith, done))
validated-fits host kind (m, none) done =
    rw
      (
        channels_of-save_if host kind m (validate_channel_keys m.config).0
            (validate_channel_keys m.config).1,
        channels_of-validate kind m.config,
      )
      (All-suspend_without_keys kind (channels_of m.config kind))

-- After a configuration is loaded without an error, no channel of any kind is active without having an API key.
pub load_config-fits :
    (host : Host) (raw : RawConfig) (cfg : Config) (m : ConfigManager) (kind : ChannelKind)
    → (load_config host raw cfg m).1 ≡ none
    → All (λ u. lacks_keys u ≡ false) (channels_of (load_config host raw cfg m).0.config kind)
unfolding load_config
load_config-fits host raw cfg m kind done =
    validated-fits host kind (load_migrated host raw cfg m) done

abbrev pub is_active : UpstreamConfig → Bool
is_active u = str_eq u.status "active"

none_active : (us : List UpstreamConfig) → count is_active (map (with_status "disabled") us) ≡ 0
none_active [] = refl
none_active (u ∷ us) = none_active us

one_active :
    (i : ℕ) (us : List UpstreamConfig) → i < length us → count is_active (activate_only i us) ≡ 1
unfolding activate_only
one_active i [] h = absurd (omega arith)
one_active zero (u ∷ us) h = ap suc (none_active us)
one_active (suc i) (u ∷ us) h = one_active i us (omega arith)

-- The migration of an old configuration, where it changes the channels, leaves exactly one of them active, whatever the old
-- index was.
pub migrate_upstreams-one_active :
    (current : ℕ) (us : List UpstreamConfig)
    → (migrate_upstreams current us).1 ≡ true
    → count is_active (migrate_upstreams current us).0 ≡ 1
unfolding migrate_upstreams
migrate_upstreams-one_active current us changed =
    elim (Bool-cases (nat_eq (length us) 0 || any has_status us)) [
      | inl e ↦ absurd (ground (arith, rw (migrate_upstreams, e) at changed))
      | inr e ↦
          rw (migrate_upstreams, e)
            (one_active (if leb (length us) current then 0 else current) us (ground (arith, e)))
    ]
