-- ===== src/Metrics.antt =====
-- The metrics manager: the keys of all channels of one API type, and what a channel's keys say of the
-- channel. backend-go/internal/metrics/channel_metrics.go.
-- The names under which a key is looked up come from a hash of the base URL and the API key: the
-- hash and the functions on URLs are the parameter `names`.
use ccx.Base.{
  ℕ, string_eq, zero, suc, ◌+◌, ◌*◌, ◌≡◌, Bool, true, false, not, ◌&&◌, ◌||◌, Option, none, some,
  List, [], ◌∷◌, ◌++◌, String, ltb, leb, nat_eq, str_eq, if◌then◌else◌, length, any, map, max,
}
use ccx.Base.Dict.{Dict, lookup, insert, delete, update_all}
use ccx.Breaker.{
  Config, Key, KeyMetrics, CircuitState, state_closed, state_open, state_half_open, is_open,
  is_half_open, is_closed, advance_circuit_state_if_due, min_requests, reaches_threshold, failures,
}
pub mod Channel

-- `generateMetricsKey` of `MetricsIdentityBaseURL`, and of each of `EquivalentBaseURLVariants`, for a
-- base URL, an API key and a service type.
pub record Names : Type 0 where
  pub identity_key : String → String → String → String
  pub variant_keys : String → String → String → List String

-- A failure rate as a fraction.
pub record Rate : Type 0 where
  pub failed : ℕ
  pub total : ℕ

abbrev pub member : String → List String → Bool
member x xs = any (λ y. str_eq y x) xs

-- `add` on each name: empty names and names seen before are left out.
unfoldable pub add_names : List String → List String → List String
add_names seen [] = seen
add_names seen (x ∷ xs) =
    add_names (if str_eq x "" || member x seen then seen else seen ++ x ∷ []) xs

-- The circuit states and results that a pass over a channel's keys collects.
pub record Collected : Type 0 where
  pub has_open : Bool
  pub has_available : Bool
  pub results : List Bool

-- The names under which there are metrics.
unfoldable pub present_names : Dict String Key → List String → List String
present_names keys [] = []
present_names keys (x ∷ xs) =
    let rest = present_names keys xs in elim (lookup x keys) [ none ↦ rest | some k ↦ x ∷ rest ]

abbrev pub first_name : List String → Option String
first_name [] = none
first_name (x ∷ xs) = some x

-- No metrics, or metrics that are not open.
abbrev pub not_open : Option Key → Bool
not_open none = true
not_open (some k) = not (is_open k.metrics.circuit_state)

abbrev pub lookup_name : Dict String Key → Option String → Option Key
lookup_name keys none = none
lookup_name keys (some name) = lookup name keys

unfoldable pub rate_verdict : Collected → Rate
rate_verdict d =
    if nat_eq (length d.results) 0
    then (if d.has_open && not d.has_available
        then record { failed = 1; total = 1 }
        else record { failed = 0; total = 1 })
    else record { failed = failures d.results; total = length d.results }

abbrev pub is_empty : List String → Bool
is_empty [] = true
is_empty (x ∷ xs) = false

-- The names in the order of the loops of `channelCircuitStateMultiURLLocked`.
unfoldable pub url_key_pairs : List String → List String → List (String × String)
url_key_pairs [] api_keys = []
url_key_pairs (url ∷ urls) api_keys =
    map (λ key. (url, key)) api_keys ++ url_key_pairs urls api_keys

module _ (c : Config) (names : Names) (service_type : String) where
  open names use {identity_key, variant_keys}

  unfoldable pub metrics_lookup_keys : String → String → List String
  unfolding add_names
  metrics_lookup_keys url key =
      add_names [] (identity_key url key service_type ∷ variant_keys url key service_type)

  -- `getIdentityMetricsLocked`: the name of the first metrics found.
  unfoldable pub identity_name : Dict String Key → String → String → Option String
  unfolding metrics_lookup_keys present_names
  identity_name keys url key = first_name (present_names keys (metrics_lookup_keys url key))

  -- `getIdentityMetricsByMultiURLLocked`, as names.
  unfoldable pub names_of_key : Dict String Key → String → List String → List String → List String
  unfolding metrics_lookup_keys present_names add_names
  names_of_key keys key seen [] = seen
  names_of_key keys key seen (url ∷ urls) =
      names_of_key keys key (add_names seen (present_names keys (metrics_lookup_keys url key))) urls

  -- `getIdentityMetricsByMultiURLAndKeysLocked`, as names.
  unfoldable pub names_of_channel :
      Dict String Key → List String → List String → List String → List String
  unfolding names_of_key
  names_of_channel keys urls seen [] = seen
  names_of_channel keys urls seen (key ∷ rest) =
      names_of_channel keys urls (add_names seen (names_of_key keys key [] urls)) rest

  -- `hasAvailableIdentityCandidateLocked` for one URL and one API key. The identity name is the first
  -- of the names that are looked up.
  unfoldable pub is_candidate : Dict String Key → String → String → Bool
  unfolding identity_name
  is_candidate keys url key = not_open (lookup_name keys (identity_name keys url key))

  unfoldable pub has_available_candidate : Dict String Key → List String → List String → Bool
  unfolding is_candidate
  has_available_candidate keys urls [] = false
  has_available_candidate keys urls (key ∷ rest) =
      any (λ url. is_candidate keys url key) urls || has_available_candidate keys urls rest

  -- The loop of `IsChannelHealthyMultiURL` and `CalculateChannelFailureRateMultiURL`: each key is
  -- advanced, then read.
  unfoldable pub collect :
      ℕ → List String → Dict String Key → Collected → Dict String Key × Collected
  collect now [] keys acc = (keys, acc)
  collect now (name ∷ rest) keys acc = elim (lookup name keys) [
    | none ↦ collect now rest keys acc
    | some k ↦
        let a = advance_circuit_state_if_due c now k in
        collect now rest (insert name a keys) (
          if is_open a.metrics.circuit_state then record acc { has_open = true } else record acc {
            has_available = true;
            results = acc.results ++ a.metrics.breaker_results;
          })
  ]

  -- What the verdicts are computed from.
  unfoldable pub collect_channel :
      ℕ → List String → List String → Dict String Key → Dict String Key × Collected
  unfolding names_of_channel has_available_candidate collect
  collect_channel now urls api_keys keys =
      collect now (names_of_channel keys urls [] api_keys) keys (record {
        has_open = false;
        has_available = has_available_candidate keys urls api_keys;
        results = [];
      })

  unfoldable pub healthy_verdict : Collected → Bool
  healthy_verdict d =
      if nat_eq (length d.results) 0
      then not (d.has_open && not d.has_available)
      else if ltb (length d.results) (min_requests c)
      then true
      else not (reaches_threshold c d.results)

  unfoldable pub is_channel_healthy :
      ℕ → List String → List String → Dict String Key → Dict String Key × Bool
  unfolding collect_channel healthy_verdict
  is_channel_healthy now urls api_keys keys =
      if is_empty urls || is_empty api_keys
      then (keys, false)
      else (let (keys', d) = collect_channel now urls api_keys keys in (keys', healthy_verdict d))

  unfoldable pub channel_failure_rate :
      ℕ → List String → List String → Dict String Key → Dict String Key × Rate
  unfolding collect_channel rate_verdict
  channel_failure_rate now urls api_keys keys =
      if is_empty urls || is_empty api_keys
      then (keys, record { failed = 0; total = 1 })
      else (let (keys', d) = collect_channel now urls api_keys keys in (keys', rate_verdict d))

  unfoldable pub circuit_loop :
      ℕ → List (String × String) → Bool → Dict String Key → Dict String Key × CircuitState
  unfolding identity_name
  circuit_loop now [] half_open keys = (keys, if half_open then state_half_open else state_open)
  circuit_loop now ((url, key) ∷ rest) half_open keys = elim (identity_name keys url key) [
    | none ↦ (keys, state_closed)
    | some name ↦ elim (lookup name keys) [
      | none ↦ (keys, state_closed)
      | some k ↦
          let a = advance_circuit_state_if_due c now k in
          let keys' = insert name a keys in
          let later =
            circuit_loop now rest (half_open || is_half_open a.metrics.circuit_state) keys' in
          if is_closed a.metrics.circuit_state then (keys', state_closed) else later
    ]
  ]

  unfoldable pub channel_circuit_state :
      ℕ → List String → List String → Dict String Key → Dict String Key × CircuitState
  unfolding url_key_pairs circuit_loop
  channel_circuit_state now urls api_keys keys =
      circuit_loop now (url_key_pairs urls api_keys) false keys
