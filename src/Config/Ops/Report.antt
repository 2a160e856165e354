-- ===== src/Config/Ops/Report.antt =====
-- The reports of all the operations on the configuration: backend-go/internal/config.
use ccx.Base.{
  ℕ, refl, Option, none, some, List, [], ◌∷◌, String, inl, inr, length, filter, Option-cases,
}
use ccx.Config.Types.{messages, responses, chat, images, UpstreamConfig}
use ccx.Config.Keys.{
  add_key_in, remove_key_in, move_to_top_in, move_to_bottom_in, blacklist_in, restore_in,
  restore_all_in, restore_some_in, is_restored,
}
use ccx.Config.Manager.{
  ConfigManager, key_exists, no_such_key, Host, Change, refuse, leave, get_upstream_slice_locked,
}
use ccx.Config.Channels.{
  add_api_key, remove_api_key, move_api_key_to_top, move_api_key_to_bottom, set_channel_status,
  status_change, parse_status, store_or,
}
use ccx.Config.Channels.Messages.{deprioritize_api_key}
use ccx.Config.Blacklist.{
  blacklist_key, restore_key, restore_all_keys, restore_disabled_keys, set_fuzzy_mode_enabled,
  set_strip_billing_header, change_named, disabled_info, keys_of, store_forgetting, store_restored,
}
use ccx.Config.Ops.{
  Op, add, update, remove, add_key, remove_key, key_to_top, key_to_bottom, reorder, set_status,
  set_promotion, deprioritize, blacklist, restore, restore_all, restore_some, set_fuzzy, set_strip,
  perform, reported,
}
use ccx.Config.Ops.Synced.{IsHonest, IsRequestError, saving-IsHonest, change_channel-IsHonest}
use ccx.Config.Ops.Honest.{
  add_upstream-IsHonest, reorder_upstreams-IsHonest, set_channel_promotion-IsHonest,
  remove_upstream-IsHonest, deprioritize_among-IsHonest, update_upstream-IsHonest, IsNotImages,
}

store_or-IsRequestError :
    (c : Change Unit) (o : Option UpstreamConfig) → IsRequestError c → IsRequestError (store_or c o)
store_or-IsRequestError c none r = r
store_or-IsRequestError c (some u) r = tt

status_change-IsRequestError :
    (status : Option String) (u : UpstreamConfig) → IsRequestError (status_change status u)
status_change-IsRequestError none u = refl
status_change-IsRequestError (some status) u = tt

store_forgetting-IsRequestError :
    (keys : List String) (c : Change Unit) (o : Option UpstreamConfig)
    → IsRequestError c
    → IsRequestError (store_forgetting keys c o)
store_forgetting-IsRequestError keys c none r = r
store_forgetting-IsRequestError keys c (some u) r = tt

store_restored-IsRequestError :
    {A : Type 0} (u : UpstreamConfig) (a : A) (keys : List String) (b : A)
    → IsRequestError (store_restored u a keys b)
store_restored-IsRequestError u a [] b = tt
store_restored-IsRequestError u a (key ∷ keys) b = tt

change_named-IsHonest :
    {A : Type 0} (host : Host) (name : String) (i : ℕ) (f : UpstreamConfig → Change A)
    (m : ConfigManager)
    → ((u : UpstreamConfig) → IsRequestError (f u))
    → IsHonest host m (reported (change_named host name i f m))
unfolding change_named
change_named-IsHonest host name i f m r = elim (Option-cases (get_upstream_slice_locked name)) [
  | inl e ↦ rw (change_named, e) refl
  | inr (kind, e) ↦ rw (change_named, e) (change_channel-IsHonest host kind i f m r)
]

-- The update of the image channels is left out.
abbrev pub IsCovered : Op → Type 0
IsCovered op = elim op [ update kind i p ↦ IsNotImages kind | _ ↦ Unit ]

-- For each operation on the configuration except the update of an image channel: if it reports success, the file holds
-- the configuration in memory, or the file and the JSON of the configuration are both as they were before the
-- call; if it reports that the file was not written, the content of the file is not known; and if it
-- reports any other error, nothing has changed.
pub perform-IsHonest :
    (host : Host) (op : Op) (m : ConfigManager) → IsCovered op → IsHonest host m (perform host op m)
unfolding perform
perform-IsHonest host (add kind u) m h = add_upstream-IsHonest host kind u m
perform-IsHonest host (update kind i p) m h = update_upstream-IsHonest host kind i p m h
perform-IsHonest host (remove kind i) m h = remove_upstream-IsHonest host kind i m
perform-IsHonest host (add_key kind i key) m h =
    unfold add_api_key in
    change_channel-IsHonest host kind i (λ u. store_or (refuse key_exists) (add_key_in key u)) m
      (λ u. store_or-IsRequestError (refuse key_exists) (add_key_in key u) refl)
perform-IsHonest host (remove_key kind i key) m h =
    unfold remove_api_key in
    change_channel-IsHonest host kind i (λ u. store_or (refuse no_such_key) (remove_key_in key u)) m
      (λ u. store_or-IsRequestError (refuse no_such_key) (remove_key_in key u) refl)
perform-IsHonest host (key_to_top kind i key) m h =
    unfold move_api_key_to_top in
    change_channel-IsHonest host kind i (λ u. store_or (leave tt) (move_to_top_in key u)) m
      (λ u. store_or-IsRequestError (leave tt) (move_to_top_in key u) tt)
perform-IsHonest host (key_to_bottom kind i key) m h =
    unfold move_api_key_to_bottom in
    change_channel-IsHonest host kind i (λ u. store_or (leave tt) (move_to_bottom_in key u)) m
      (λ u. store_or-IsRequestError (leave tt) (move_to_bottom_in key u) tt)
perform-IsHonest host (reorder kind order) m h = reorder_upstreams-IsHonest host kind order m
perform-IsHonest host (set_status kind i raw) m h =
    unfold set_channel_status in
    change_channel-IsHonest host kind i (λ u. status_change (parse_status raw) u) m
      (λ u. status_change-IsRequestError (parse_status raw) u)
perform-IsHonest host (set_promotion kind i d) m h = set_channel_promotion-IsHonest host kind i d m
perform-IsHonest host (deprioritize key) m h =
    unfold deprioritize_api_key in
    deprioritize_among-IsHonest host key (messages ∷ responses ∷ chat ∷ images ∷ []) m
perform-IsHonest host (blacklist name i key reason message) m h =
    unfold blacklist_key in
    change_named-IsHonest host name i
      (λ u. store_forgetting [] (leave tt) (blacklist_in (disabled_info host key reason message) u))
      m
      (λ u.
        store_forgetting-IsRequestError [] (leave tt)
          (blacklist_in (disabled_info host key reason message) u) tt)
perform-IsHonest host (restore name i key) m h =
    unfold restore_key in
    change_named-IsHonest host name i
      (λ u. store_forgetting (key ∷ []) (refuse no_such_key) (restore_in key u)) m
      (λ u. store_forgetting-IsRequestError (key ∷ []) (refuse no_such_key) (restore_in key u) refl)
perform-IsHonest host (restore_all name i) m h =
    unfold restore_all_keys in
    change_named-IsHonest host name i
      (λ u.
        store_restored (restore_all_in u) 0 (keys_of u.disabled_api_keys)
          (length u.disabled_api_keys))
      m
      (λ u.
        store_restored-IsRequestError (restore_all_in u) 0 (keys_of u.disabled_api_keys)
          (length u.disabled_api_keys))
perform-IsHonest host (restore_some name i keys) m h =
    unfold restore_disabled_keys in
    change_named-IsHonest host name i
      (λ u.
        let restored = keys_of (filter (is_restored keys) u.disabled_api_keys) in
        store_restored (restore_some_in keys u) [] restored restored)
      m
      (λ u.
        let restored = keys_of (filter (is_restored keys) u.disabled_api_keys) in
        store_restored-IsRequestError (restore_some_in keys u) [] restored restored)
perform-IsHonest host (set_fuzzy b) m h =
    unfold set_fuzzy_mode_enabled in
    saving-IsHonest host tt m (record m { config = record m.config { fuzzy_mode_enabled = b } })
perform-IsHonest host (set_strip b) m h =
    unfold set_strip_billing_header in
    saving-IsHonest host tt m (record m { config = record m.config { strip_billing_header = b } })
