-- ===== src/Config/Ops/Honest.antt =====
-- The report of every operation on the configuration: backend-go/internal/config.
use ccx.Base.{
  ℕ, ◌+◌, ◌≡◌, refl, Bool, false, none, some, List, [], ◌∷◌, ◌++◌, String, str_eq, eq_iff, leb,
  nat_eq, inl, inr, arith, any, length, get_elem?, modify, remove_at, Bool-cases, Option-cases,
}
use ccx.Base.Results.{Result, fail, ok, Result-cases}
use ccx.Config.Types.{
  ChannelKind, messages, responses, gemini, chat, images, UpstreamConfig, Config, channels_of,
}
use ccx.Config.Manager.{
  ConfigManager, ConfigError, Host, put_channel, put_channels, has_config_changed, forget_keys,
  clear_deprecated,
}
use ccx.Config.Update.{UpstreamUpdate, normalize_service_type, update_channel}
use ccx.Config.Channels.{
  add_upstream, update_upstream, remove_upstream, reorder_upstreams, set_channel_promotion,
  prepared, check_order, set_priorities, store_updated, promote_only, promoted_until, removal_name,
}
use ccx.Config.Channels.Messages.{deprioritize_among, deprioritize_in}
use ccx.Config.Ops.{reported}
use ccx.Config.Ops.Synced.{IsHonest, is_write_error, saving-IsHonest, unchanged-IsHonest}

normalize_service_type-error :
    (kind : ChannelKind) (raw : String) (e : ConfigError)
    → normalize_service_type kind raw ≡ fail e
    → is_write_error e ≡ false
unfolding normalize_service_type
normalize_service_type-error messages raw e h = ground (arith, h)
normalize_service_type-error responses raw e h = ground (arith, h)
normalize_service_type-error gemini raw e h = ground (arith, h)
normalize_service_type-error chat raw e h = ground (arith, h)
normalize_service_type-error images raw e h = ground (arith, h)

pub add_upstream-IsHonest :
    (host : Host) (kind : ChannelKind) (u : UpstreamConfig) (m : ConfigManager)
    → IsHonest host m (reported (add_upstream host kind u m))
unfolding add_upstream
add_upstream-IsHonest host kind u m =
    elim (Bool-cases
      (any (λ (x : UpstreamConfig). str_eq x.name u.name) (channels_of m.config kind))) [
        | inl e ↦ rw (add_upstream, e) refl
        | inr e ↦ elim (Result-cases (normalize_service_type kind u.service_type)) [
          | inl (x, f) ↦
              rw (add_upstream, e, f, normalize_service_type-error kind u.service_type x f) refl
          | inr (own, f) ↦
              rw (add_upstream, e, f)
                (saving-IsHonest host tt m
                  (put_channels kind (channels_of m.config kind ++ (prepared own u ∷ [])) m))
        ]
      ]

-- An image channel is refused after its own service type is normalized in memory, so its update is left out here.
abbrev pub IsNotImages : ChannelKind → Type 0
IsNotImages images = ⊥
IsNotImages messages = Unit
IsNotImages responses = Unit
IsNotImages gemini = Unit
IsNotImages chat = Unit

normalize_service_type-total :
    (kind : ChannelKind) (raw : String)
    → IsNotImages kind
    → (own : String) × (normalize_service_type kind raw ≡ ok own)
unfolding normalize_service_type
normalize_service_type-total messages raw h = (_, refl)
normalize_service_type-total responses raw h = (_, refl)
normalize_service_type-total gemini raw h = (_, refl)
normalize_service_type-total chat raw h = (_, refl)
normalize_service_type-total images raw h = elim h [ ]

kept_file :
    (kind : ChannelKind) (i : ℕ) (u : UpstreamConfig) (m : ConfigManager)
    → (put_channel kind i u m).file ≡ m.file
unfolding put_channel
kept_file kind i u m = refl

unchanged_json :
    (host : Host) (old new : Config)
    → has_config_changed host old new ≡ false
    → host.marshal (clear_deprecated new) ≡ host.marshal (clear_deprecated old)
unfolding has_config_changed
unchanged_json host old new h =
    ground
      (arith, h, eq_iff (host.marshal (clear_deprecated old)) (host.marshal (clear_deprecated new)))

abbrev IsOk : UpstreamConfig × Result ConfigError Bool → Type 0
IsOk (u, fail e) = ⊥
IsOk (u, ok reset) = Unit

update_channel-IsOk :
    (kind : ChannelKind) (p : UpstreamUpdate) (u : UpstreamConfig)
    → IsNotImages kind
    → IsOk (update_channel kind p u)
unfolding update_channel
update_channel-IsOk kind p u h =
    let own = normalize_service_type-total kind u.service_type h in
    elim (Option-cases p.service_type) [
      | inl e ↦ rw (update_channel, own.1, e) tt
      | inr (raw, e) ↦
          let new = normalize_service_type-total kind raw h in
          rw (update_channel, own.1, e, new.1) tt
    ]

store_updated-IsHonest :
    (host : Host) (kind : ChannelKind) (i : ℕ) (m : ConfigManager)
    (updated : UpstreamConfig × Result ConfigError Bool)
    → IsOk updated
    → IsHonest host m (reported (store_updated host kind i m updated))
unfolding store_updated
store_updated-IsHonest host kind i m (u, fail e) h = elim h [ ]
store_updated-IsHonest host kind i m (u, ok reset) h =
    let stored = put_channel kind i u m in
    elim (Bool-cases (has_config_changed host m.config stored.config)) [
      | inl e ↦ rw (store_updated, e) (saving-IsHonest host reset m stored)
      | inr e ↦
          rw (store_updated, e)
            (inr (kept_file kind i u m, unchanged_json host m.config stored.config e))
    ]

pub update_upstream-IsHonest :
    (host : Host) (kind : ChannelKind) (i : ℕ) (p : UpstreamUpdate) (m : ConfigManager)
    → IsNotImages kind
    → IsHonest host m (reported (update_upstream host kind i p m))
unfolding update_upstream
update_upstream-IsHonest host kind i p m h =
    elim (Option-cases (get_elem? (channels_of m.config kind) i)) [
      | inl e ↦ rw (update_upstream, e) refl
      | inr (u, e) ↦
          rw (update_upstream, e)
            (store_updated-IsHonest host kind i m (update_channel kind p u)
              (update_channel-IsOk kind p u h))
    ]

check_order-error :
    (count : ℕ) (order seen : List ℕ) (e : ConfigError)
    → check_order count order seen ≡ some e
    → is_write_error e ≡ false
unfolding check_order
check_order-error count [] seen e h = ground (arith, h)
check_order-error count (i ∷ order) seen e h =
    ground (arith, h, check_order-error count order (i ∷ seen) e)

pub reorder_upstreams-IsHonest :
    (host : Host) (kind : ChannelKind) (order : List ℕ) (m : ConfigManager)
    → IsHonest host m (reported (reorder_upstreams host kind order m))
unfolding reorder_upstreams
reorder_upstreams-IsHonest host kind [] m = refl
reorder_upstreams-IsHonest host kind (i ∷ order) m =
    let us = channels_of m.config kind in
    elim (Option-cases (check_order (length us) (i ∷ order) [])) [
      | inl e ↦
          rw (reorder_upstreams, e)
            (saving-IsHonest host tt m (put_channels kind (set_priorities 1 (i ∷ order) us) m))
      | inr (x, e) ↦
          rw (reorder_upstreams, e, check_order-error (length us) (i ∷ order) [] x e) refl
    ]

pub set_channel_promotion-IsHonest :
    (host : Host) (kind : ChannelKind) (i d : ℕ) (m : ConfigManager)
    → IsHonest host m (reported (set_channel_promotion host kind i d m))
unfolding set_channel_promotion
set_channel_promotion-IsHonest host kind i d m =
    let us = channels_of m.config kind in
    elim (Bool-cases (leb (length us) i)) [
      | inl e ↦ rw (set_channel_promotion, e) refl
      | inr e ↦ elim (Bool-cases (nat_eq d 0)) [
        | inl f ↦
            rw (set_channel_promotion, e, f)
              (saving-IsHonest host tt m (put_channels kind (modify (promoted_until none) us i) m))
        | inr f ↦
            rw (set_channel_promotion, e, f)
              (saving-IsHonest host tt m (put_channels kind (promote_only (host.now + d) i us) m))
      ]
    ]

pub remove_upstream-IsHonest :
    (host : Host) (kind : ChannelKind) (i : ℕ) (m : ConfigManager)
    → IsHonest host m (reported (remove_upstream host kind i m))
unfolding remove_upstream
remove_upstream-IsHonest host kind i m =
    let us = channels_of m.config kind in
    elim (Option-cases (get_elem? us i)) [
      | inl e ↦ rw (remove_upstream, e) refl
      | inr (u, e) ↦
          rw (remove_upstream, e)
            (saving-IsHonest host u m
              (forget_keys (removal_name kind) u.api_keys (put_channels kind (remove_at us i) m)))
    ]

pub deprioritize_among-IsHonest :
    (host : Host) (key : String) (kinds : List ChannelKind) (m : ConfigManager)
    → IsHonest host m (reported (deprioritize_among host key kinds m))
unfolding deprioritize_among
deprioritize_among-IsHonest host key [] m = unchanged-IsHonest host m
deprioritize_among-IsHonest host key (kind ∷ kinds) m =
    elim (Option-cases (deprioritize_in key (channels_of m.config kind))) [
      | inl e ↦ rw (deprioritize_among, e) (deprioritize_among-IsHonest host key kinds m)
      | inr (us, e) ↦
          rw (deprioritize_among, e) (saving-IsHonest host tt m (put_channels kind us m))
    ]
