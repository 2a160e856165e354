-- ===== src/Config/Failures.antt =====
-- The cooling down of failed keys and the choice of a key: backend-go/internal/config/config.go.
-- One call reads the clock once. The error of `GetAdminAPIKey` is that of `GetNextAPIKey`.
use ccx.Base.{
  ℕ, string_eq, suc, ◌+◌, ◌*◌, Bool, true, false, not, ◌&&◌, ◌||◌, Option, none, some, List, [],
  ◌∷◌, String, ltb, str_eq, if◌then◌else◌, filter,
}
use ccx.Base.Dict.{Dict, lookup, insert, update_all}
use ccx.Base.Results.{Result, fail, ok}
use ccx.Config.Types.{UpstreamConfig, DisabledKeyInfo}
use ccx.Config.Keys.{has}
use ccx.Config.Manager.{
  ConfigManager, FailedKey, ConfigError, no_keys, no_available_key, failed_key_cache_key,
}
pub mod Choice

abbrev pub recovery_time_of : ConfigManager → FailedKey → ℕ
recovery_time_of m f =
    if ltb m.max_failure_count f.failure_count then m.key_recovery_time * 2 else m.key_recovery_time

unfoldable pub mark_key_as_failed : String → String → ℕ → ConfigManager → ConfigManager
unfolding failed_key_cache_key
mark_key_as_failed key name now m =
    let at = failed_key_cache_key name key in
    let count : ℕ = elim (lookup at m.failed_keys_cache) [
      | none ↦ 1
      | some f ↦ suc f.failure_count
    ] in
    record m {
      failed_keys_cache =
          insert at (record { timestamp = now; failure_count = count }) m.failed_keys_cache;
    }

-- `now.Sub(failure.Timestamp) < recoveryTime`
unfoldable pub is_key_failed : String → String → ℕ → ConfigManager → Bool
unfolding failed_key_cache_key
is_key_failed key name now m = elim (lookup (failed_key_cache_key name key) m.failed_keys_cache) [
  | none ↦ false
  | some f ↦ ltb now (f.timestamp + recovery_time_of m f)
]

abbrev pub unless_recovered : ℕ → ConfigManager → String → FailedKey → Option FailedKey
unless_recovered now m at f = if ltb (f.timestamp + recovery_time_of m f) now then none else some f

-- One tick of `cleanupExpiredFailures`.
unfoldable pub cleanup_expired_failures : ℕ → ConfigManager → ConfigManager
cleanup_expired_failures now m = record m {
  failed_keys_cache = update_all (unless_recovered now m) m.failed_keys_cache;
}

-- The loop over the keys for the one that failed first: `oldest` is its instant, `best` the key.
unfoldable pub oldest_failed :
    (String → Option FailedKey) → List String → List String → ℕ → String → String
oldest_failed failure tried [] oldest best = best
oldest_failed failure tried (key ∷ keys) oldest best =
    let rest = oldest_failed failure tried keys oldest best in
    let rest' = λ (f : FailedKey). oldest_failed failure tried keys f.timestamp key in
    if has tried key then rest else elim (failure key) [
      | none ↦ rest
      | some f ↦ if ltb f.timestamp oldest then rest' f else rest
    ]

unfoldable pub is_available : List String → String → ℕ → ConfigManager → String → Bool
unfolding is_key_failed
is_available tried name now m key = not (has tried key) && not (is_key_failed key name now m)

-- The first of the available keys, and without one the key that failed first.
abbrev pub pick : List String → String → Result ConfigError String
pick (key ∷ others) oldest = ok key
pick [] oldest = if str_eq oldest "" then fail no_available_key else ok oldest

-- The choice among two keys or more; `tried` are the keys that failed in this request.
unfoldable pub choose_key :
    List String → List String → String → ℕ → ConfigManager → Result ConfigError String
unfolding oldest_failed failed_key_cache_key is_available
choose_key keys tried name now m =
    let oldest =
      oldest_failed (λ key. lookup (failed_key_cache_key name key) m.failed_keys_cache) tried keys
        now "" in
    pick (filter (is_available tried name now m) keys) oldest

unfoldable pub get_next_api_key :
    UpstreamConfig → List String → String → ℕ → ConfigManager → Result ConfigError String
unfolding choose_key
get_next_api_key u tried name now m = elim u.api_keys [
  | [] ↦ fail no_keys
  | key ∷ keys ↦ elim keys [
    | [] ↦ ok key
    | second ∷ others ↦ choose_key (key ∷ second ∷ others) tried name now m
  ]
]

unfoldable pub first_untried : List String → List DisabledKeyInfo → Option String
first_untried tried [] = none
first_untried tried (info ∷ infos) =
    let rest = first_untried tried infos in if has tried info.key then rest else some info.key

-- The key, and whether it is borrowed of the disabled ones.
unfoldable pub get_admin_api_key :
    UpstreamConfig → List String → String → ℕ → ConfigManager → Result ConfigError (String × Bool)
unfolding get_next_api_key first_untried
get_admin_api_key u tried name now m = elim (get_next_api_key u tried name now m) [
  | ok key ↦ ok (key, false)
  | fail e ↦ elim (first_untried tried u.disabled_api_keys) [
    | some key ↦ ok (key, true)
    | none ↦ fail e
  ]
]
