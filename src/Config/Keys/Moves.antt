-- ===== src/Config/Keys/Moves.antt =====
-- How the operations on the keys of a channel change the active and the historical keys:
-- backend-go/internal/config/config.go and backend-go/internal/config/config_messages.go.
use ccx.Base.{
  ◌≡◌, true, not, Option, none, some, List, [], ◌∷◌, ◌++◌, String, nat_eq, filter, length, ◌+◌,
  Bool-cases, Option-cases, inl, inr,
}
use ccx.Config.Types.{UpstreamConfig, DisabledKeyInfo}
use ccx.Config.Urls.{deduplicate_strings}
use ccx.Config.Keys.{
  index_of, has, without, add_missing, activate_key, activate_keys, blacklist_in, restore_in,
  restore_all_in, restore_some_in, is_restored, add_key_in, remove_key_in, move_to_top_in,
  move_to_bottom_in, replace_keys_in, retire, remove_disabled,
}
use ccx.Config.Keys.Lists.{drop_key, index_of-drop_key}

-- The operations of the configuration manager that change the keys of a channel.
pub data KeyOp : Type 0 where
  blacklist : DisabledKeyInfo → KeyOp
  restore : String → KeyOp
  restore_all : KeyOp
  restore_some : List String → KeyOp
  add_key : String → KeyOp
  remove_key : String → KeyOp
  move_to_top : String → KeyOp
  move_to_bottom : String → KeyOp
  replace_keys : List String → KeyOp

abbrev pub or_same : UpstreamConfig → Option UpstreamConfig → UpstreamConfig
or_same u none = u
or_same u (some changed) = changed

unfoldable pub key_op : KeyOp → UpstreamConfig → UpstreamConfig
key_op (blacklist info) u = or_same u (blacklist_in info u)
key_op (restore key) u = or_same u (restore_in key u)
key_op restore_all u = restore_all_in u
key_op (restore_some keys) u = restore_some_in keys u
key_op (add_key key) u = or_same u (add_key_in key u)
key_op (remove_key key) u = or_same u (remove_key_in key u)
key_op (move_to_top key) u = or_same u (move_to_top_in key u)
key_op (move_to_bottom key) u = or_same u (move_to_bottom_in key u)
key_op (replace_keys keys) u = (replace_keys_in keys u).0

unfoldable pub key_ops : List KeyOp → UpstreamConfig → UpstreamConfig
key_ops [] u = u
key_ops (op ∷ ops) u = key_ops ops (key_op op u)

-- How an operation may change the active and the historical keys.
pub data Moves : List String → List String → List String → List String → Type 0 where
  same : {a h : List String} → Moves a h a h
  retired :
      {a h : List String} (key : String)
      → has a key ≡ true
      → Moves a h (drop_key key a) (add_missing h key)
  activated :
      {a h a' h' : List String} (key : String)
      → Moves a h a' h'
      → Moves a h (add_missing a' key) (without key h')
  to_bottom :
      {a h : List String} (key : String)
      → has a key ≡ true
      → Moves a h (drop_key key a ++ (key ∷ [])) h
  to_top :
      {a h : List String} (key : String) → has a key ≡ true → Moves a h (key ∷ drop_key key a) h
  replaced :
      {a h : List String} (news : List String)
      → Moves a h (deduplicate_strings news) (filter (λ k. not (has news k)) (retire news a h))

abbrev pub MovesFrom : UpstreamConfig → UpstreamConfig → Type 0
MovesFrom u v = Moves u.api_keys u.historical_api_keys v.api_keys v.historical_api_keys

activate_keys-Moves :
    (infos : List DisabledKeyInfo) (u v : UpstreamConfig)
    → MovesFrom u v
    → MovesFrom u (activate_keys infos v)
unfolding activate_keys
activate_keys-Moves [] u v earlier = earlier
activate_keys-Moves (info ∷ infos) u v earlier =
    activate_keys-Moves infos u (activate_key info.key v) (activated info.key earlier)

blacklist_in-Moves :
    (info : DisabledKeyInfo) (u : UpstreamConfig) → MovesFrom u (or_same u (blacklist_in info u))
unfolding blacklist_in
blacklist_in-Moves info u = elim (Option-cases (index_of info.key u.api_keys)) [
  | inl e ↦ rw (or_same, e) same
  | inr (i, e) ↦
      let found = index_of-drop_key info.key u.api_keys i e in
      rw (or_same, e, found.1) (retired info.key found.0)
]

remove_key_in-Moves :
    (key : String) (u : UpstreamConfig) → MovesFrom u (or_same u (remove_key_in key u))
unfolding remove_key_in
remove_key_in-Moves key u = elim (Option-cases (index_of key u.api_keys)) [
  | inl e ↦ rw (or_same, e) same
  | inr (i, e) ↦
      let found = index_of-drop_key key u.api_keys i e in
      rw (or_same, e, found.1) (retired key found.0)
]

restore_in-Moves : (key : String) (u : UpstreamConfig) → MovesFrom u (or_same u (restore_in key u))
unfolding restore_in
restore_in-Moves key u = elim (Option-cases (remove_disabled key u.disabled_api_keys)) [
  | inl e ↦ rw (or_same, e) same
  | inr (infos, e) ↦ rw (or_same, e) (activated key same)
]

add_key_in-Moves : (key : String) (u : UpstreamConfig) → MovesFrom u (or_same u (add_key_in key u))
unfolding add_key_in
add_key_in-Moves key u = elim (Bool-cases (has u.api_keys key)) [
  | inl e ↦ rw (or_same, e) same
  | inr e ↦
      let step : Moves u.api_keys u.historical_api_keys (add_missing u.api_keys key)
          (without key u.historical_api_keys) =
        activated key same in
      rw (or_same, e) (rw e at step)
]

move_to_top_in-Moves :
    (key : String) (u : UpstreamConfig) → MovesFrom u (or_same u (move_to_top_in key u))
unfolding move_to_top_in
move_to_top_in-Moves key u = elim (Option-cases (index_of key u.api_keys)) [
  | inl e ↦ rw (or_same, e) same
  | inr (i, e) ↦ elim (Bool-cases (nat_eq i 0)) [
    | inl first ↦ rw (or_same, e, first) same
    | inr later ↦
        let found = index_of-drop_key key u.api_keys i e in
        rw (or_same, e, later, found.1) (to_top key found.0)
  ]
]

move_to_bottom_in-Moves :
    (key : String) (u : UpstreamConfig) → MovesFrom u (or_same u (move_to_bottom_in key u))
unfolding move_to_bottom_in
move_to_bottom_in-Moves key u = elim (Option-cases (index_of key u.api_keys)) [
  | inl e ↦ rw (or_same, e) same
  | inr (i, e) ↦ elim (Bool-cases (nat_eq (i + 1) (length u.api_keys))) [
    | inl last ↦ rw (or_same, e, last) same
    | inr earlier ↦
        let found = index_of-drop_key key u.api_keys i e in
        rw (or_same, e, earlier, found.1) (to_bottom key found.0)
  ]
]

pub key_op-Moves : (op : KeyOp) (u : UpstreamConfig) → MovesFrom u (key_op op u)
unfolding key_op
key_op-Moves (blacklist info) u = blacklist_in-Moves info u
key_op-Moves (restore key) u = restore_in-Moves key u
key_op-Moves restore_all u =
    unfold restore_all_in in activate_keys-Moves u.disabled_api_keys u u same
key_op-Moves (restore_some keys) u =
    unfold restore_some_in in
    activate_keys-Moves (filter (is_restored keys) u.disabled_api_keys) u u same
key_op-Moves (add_key key) u = add_key_in-Moves key u
key_op-Moves (remove_key key) u = remove_key_in-Moves key u
key_op-Moves (move_to_top key) u = move_to_top_in-Moves key u
key_op-Moves (move_to_bottom key) u = move_to_bottom_in-Moves key u
key_op-Moves (replace_keys keys) u = unfold replace_keys_in in replaced keys
