-- ===== src/Config/Ops/Synced.antt =====
-- What the operations report and what they did: `saveConfigLocked` of backend-go/internal/config/config_loader.go and its callers
-- in backend-go/internal/config.
use ccx.Base.{
  ℕ, ◌≡◌, refl, Bool, true, false, Option, none, some, ◌⊎◌, inl, inr, if◌then◌else◌, get_elem?,
  Bool-cases, Option-cases,
}
use ccx.Base.Results.{fail, ok}
use ccx.Config.Types.{ChannelKind, UpstreamConfig, channels_of}
use ccx.Config.Manager.{
  ConfigManager, ConfigError, not_saved, invalid_index, duplicate_index, empty_order, name_exists,
  unsupported_service_type, invalid_status, key_exists, no_such_key, no_channel, no_keys,
  no_available_key, Host, Change, refuse, leave, store, saving, apply_change, change_channel,
  clear_deprecated, put_channel, forget_keys, api_type,
}
use ccx.Config.Ops.{reported}

-- The file holds the configuration in memory.
abbrev pub IsSynced : Host → ConfigManager → Type 0
IsSynced host m = m.file ≡ some (host.marshal (clear_deprecated m.config))

-- The file is as before the call, and so is the JSON of the configuration.
abbrev pub IsAsBefore : Host → ConfigManager → ConfigManager → Type 0
IsAsBefore host m m' =
    (m'.file ≡ m.file)
    × (host.marshal (clear_deprecated m'.config) ≡ host.marshal (clear_deprecated m.config))

abbrev pub is_write_error : ConfigError → Bool
is_write_error not_saved = true
is_write_error invalid_index = false
is_write_error duplicate_index = false
is_write_error empty_order = false
is_write_error name_exists = false
is_write_error unsupported_service_type = false
is_write_error invalid_status = false
is_write_error key_exists = false
is_write_error no_such_key = false
is_write_error no_channel = false
is_write_error no_keys = false
is_write_error no_available_key = false

-- What a report says of the manager before and after.
abbrev pub IsHonest : Host → ConfigManager → ConfigManager × Option ConfigError → Type 0
IsHonest host m (m', none) = IsSynced host m' ⊎ IsAsBefore host m m'
IsHonest host m (m', some e) = if is_write_error e then m'.file ≡ none else m' ≡ m

written :
    {A : Type 0} (host : Host) (a : A) (m : ConfigManager)
    → host.is_written ≡ true
    → saving host a m ≡ (
      record m {
        config = clear_deprecated m.config;
        file = some (host.marshal (clear_deprecated m.config));
      },
      ok a,
    )
unfolding saving
written host a m e = rw e refl

not_written :
    {A : Type 0} (host : Host) (a : A) (m : ConfigManager)
    → host.is_written ≡ false
    → saving host a m
      ≡ (record m { config = clear_deprecated m.config; file = none }, fail not_saved)
unfolding saving
not_written host a m e = rw e refl

pub saving-IsHonest :
    {A : Type 0} (host : Host) (a : A) (m m' : ConfigManager)
    → IsHonest host m (reported (saving host a m'))
saving-IsHonest host a m m' = elim (Bool-cases host.is_written) [
  | inl e ↦ rw (written host a m' e) (inl refl)
  | inr e ↦ rw (not_written host a m' e) refl
]

-- The errors of the changes are errors of the request.
abbrev pub IsRequestError : {A : Type 0} → Change A → Type 0
IsRequestError (refuse e) = is_write_error e ≡ false
IsRequestError (leave a) = Unit
IsRequestError (store u keys a) = Unit

abbrev pub unchanged-IsHonest : (host : Host) (m : ConfigManager) → IsHonest host m (m, none)
unchanged-IsHonest host m = inr (refl, refl)

apply_change-IsHonest :
    {A : Type 0} (host : Host) (kind : ChannelKind) (i : ℕ) (m : ConfigManager) (c : Change A)
    → IsRequestError c
    → IsHonest host m (reported (apply_change host kind i m c))
unfolding apply_change
apply_change-IsHonest host kind i m (refuse e) r = rw r refl
apply_change-IsHonest host kind i m (leave a) r = unchanged-IsHonest host m
apply_change-IsHonest host kind i m (store u keys a) r =
    saving-IsHonest host a m (forget_keys (api_type kind) keys (put_channel kind i u m))

out_of_range :
    {A : Type 0} (host : Host) (kind : ChannelKind) (i : ℕ) (f : UpstreamConfig → Change A)
    (m : ConfigManager)
    → get_elem? (channels_of m.config kind) i ≡ none
    → change_channel host kind i f m ≡ (m, fail invalid_index)
unfolding change_channel
out_of_range host kind i f m e = rw (change_channel, e) refl

in_range :
    {A : Type 0} (host : Host) (kind : ChannelKind) (i : ℕ) (f : UpstreamConfig → Change A)
    (m : ConfigManager) (u : UpstreamConfig)
    → get_elem? (channels_of m.config kind) i ≡ some u
    → change_channel host kind i f m ≡ apply_change host kind i m (f u)
unfolding change_channel
in_range host kind i f m u e = rw (change_channel, e) refl

pub change_channel-IsHonest :
    {A : Type 0} (host : Host) (kind : ChannelKind) (i : ℕ) (f : UpstreamConfig → Change A)
    (m : ConfigManager)
    → ((u : UpstreamConfig) → IsRequestError (f u))
    → IsHonest host m (reported (change_channel host kind i f m))
change_channel-IsHonest host kind i f m r =
    elim (Option-cases (get_elem? (channels_of m.config kind) i)) [
      | inl e ↦ rw (out_of_range host kind i f m e) refl
      | inr (u, e) ↦
          rw (in_range host kind i f m u e) (apply_change-IsHonest host kind i m (f u) (r u))
    ]
