-- ===== src/Config/Keys/RoundTrip.antt =====
-- Blacklisting a key and restoring it: backend-go/internal/config/config.go.
use ccx.Base.{
  ◌≡◌, refl, Bool, true, false, some, List, [], ◌∷◌, ◌++◌, String, str_eq, eq_iff, arith, any,
  Option-cases, inl, inr,
}
use ccx.Config.Types.{UpstreamConfig, DisabledKeyInfo}
use ccx.Config.Keys.{index_of, has, without, blacklist_in, restore_in, remove_disabled}
use ccx.Config.Keys.Lists.{drop_key, index_of-none, index_of-drop_key, has-drop_key}
use ccx.Config.Keys.Moves.{or_same}
use ccx.Config.Keys.Tidy.{IsTidy}

-- The key has a record among the disabled ones.
abbrev pub is_disabled : List DisabledKeyInfo → String → Bool
is_disabled infos key = any (λ info. str_eq info.key key) infos

remove_disabled-append :
    (info : DisabledKeyInfo) (infos : List DisabledKeyInfo)
    → is_disabled infos info.key ≡ false
    → remove_disabled info.key (infos ++ (info ∷ [])) ≡ some infos
unfolding remove_disabled
remove_disabled-append info [] h = ground (arith, eq_iff info.key info.key)
remove_disabled-append info (x ∷ xs) h = ground (arith, h, remove_disabled-append info xs)

without-absent : (key : String) (ks : List String) → has ks key ≡ false → without key ks ≡ ks
without-absent key [] h = refl
without-absent key (k ∷ ks) h = ground (arith, eq_iff k key, eq_iff key k, without-absent key ks)

without-appended :
    (key : String) (ks : List String) → has ks key ≡ false → without key (ks ++ (key ∷ [])) ≡ ks
without-appended key [] h = ground (arith, eq_iff key key)
without-appended key (k ∷ ks) h =
    ground (arith, eq_iff k key, eq_iff key k, without-appended key ks)

-- If the active keys are all different and none is historical, then restoring an active key that was blacklisted,
-- and had no earlier record, gives back the channel as it was, except that the key
-- is now the last of the active ones.
pub restore-blacklist :
    (info : DisabledKeyInfo) (u : UpstreamConfig)
    → IsTidy u
    → has u.api_keys info.key ≡ true
    → is_disabled u.disabled_api_keys info.key ≡ false
    → restore_in info.key (or_same u (blacklist_in info u))
      ≡ some (record u { api_keys = drop_key info.key u.api_keys ++ (info.key ∷ []) })
unfolding blacklist_in restore_in
restore-blacklist info u t active fresh = elim (Option-cases (index_of info.key u.api_keys)) [
  | inl e ↦ ground (arith, active, index_of-none info.key u.api_keys e)
  | inr (i, e) ↦
      let found = index_of-drop_key info.key u.api_keys i e in
      ground (
        arith,
        e,
        active,
        found.1,
        t.1 info.key,
        eq_iff info.key info.key,
        has-drop_key info.key u.api_keys info.key t.0,
        remove_disabled-append info u.disabled_api_keys fresh,
        without-absent info.key u.historical_api_keys,
        without-appended info.key u.historical_api_keys,
      )
]
