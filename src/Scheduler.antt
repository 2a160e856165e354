-- ===== src/Scheduler.antt =====
-- The channel scheduler: backend-go/internal/scheduler/channel_scheduler.go.
-- What the scheduler reads of the metrics of a channel is the parameter `reads`, which
-- Scheduler/MetricsReads fills from Metrics; whether a channel supports a model is the parameter `supports`.
-- One selection reads the metrics and the clock once. A priority is a natural number, which is what the
-- source asks of it. `sort.Slice` is a stable sort here (Go promises that up to 12 channels only).
use ccx.Base.{
  ℕ, string_eq, zero, suc, ◌+◌, ◌*◌, ◌≡◌, Bool, true, false, not, ◌&&◌, ◌||◌, Option, none, some,
  List, [], ◌∷◌, ◌++◌, String, ltb, leb, nat_eq, str_eq, if◌then◌else◌, length, get_elem?, filter,
  any,
}
use ccx.Base.Sort.{sort_stable}
use ccx.Config.Types.{
  ChannelKind, messages, responses, gemini, chat, images, UpstreamConfig, effective_status,
  effective_priority, is_channel_in_promotion, default_service_type,
}
use ccx.Breaker.{CircuitState, state_open, is_open}
use ccx.Metrics.{Rate}
use ccx.Affinity.{
  TraceAffinityManager, get_preferred_channel, set_preferred_channel, update_last_used,
}
pub mod Select
pub mod Recovery
pub mod MetricsReads
pub mod ChannelKeys
pub mod AffinityKeys
pub mod Chosen
pub mod Usable
pub mod Fallback
pub mod Priority

pub record ChannelInfo : Type 0 where
  pub index : ℕ
  pub name : String
  pub priority : ℕ
  pub status : String

pub data Reason : Type 0 where
  channel_pin : Reason
  promotion_priority : Reason
  trace_affinity : Reason
  priority_order : Reason
  fallback : Reason

pub record SelectionResult : Type 0 where
  pub upstream : UpstreamConfig
  pub channel_index : ℕ
  pub reason : Reason

-- The errors of `SelectChannel`, in the order of its return statements.
pub data SelectError : Type 0 where
  model_not_supported : SelectError
  no_active_channel : SelectError
  pinned_failed : SelectError
  pinned_misconfigured : SelectError
  pinned_not_found : SelectError
  no_such_prefix : SelectError
  no_default_route : SelectError
  all_unavailable : SelectError

pub data Selection : Type 0 where
  refused : SelectError → Selection
  selected : SelectionResult → Selection

-- `channelCircuitState`, `channelFailureRate` and `channelIsHealthy` of a channel that is there.
pub record Reads : Type 0 where
  pub circuit_state : UpstreamConfig → CircuitState
  pub failure_rate : UpstreamConfig → Rate
  pub is_healthy : UpstreamConfig → Bool

-- The string that a kind is: it prefixes the keys of the trace affinity.
unfoldable pub kind_string : ChannelKind → String
kind_string messages = "messages"
kind_string responses = "responses"
kind_string gemini = "gemini"
kind_string chat = "chat"
kind_string images = "images"

unfoldable pub normalized_metrics_service_type : ChannelKind → String → String
normalized_metrics_service_type kind configured =
    if not (str_eq configured "") then configured else default_service_type kind

abbrev pub is_failed : List ℕ → ℕ → Bool
is_failed failed i = any (nat_eq i) failed

abbrev pub info_of : ℕ → UpstreamConfig → ChannelInfo
info_of i u = record {
  index = i;
  name = u.name;
  priority = effective_priority i u;
  status = effective_status u;
}

abbrev pub has_keys : UpstreamConfig → Bool
has_keys u = ltb 0 (length u.api_keys)

abbrev pub less_priority : ChannelInfo → ChannelInfo → Bool
less_priority a b = ltb a.priority b.priority

-- `getUpstreamByIndex`, on the channels of the kind.
unfoldable pub get_upstream_by_index : ℕ → List UpstreamConfig → Option UpstreamConfig
get_upstream_by_index i us = get_elem? us i

-- The channels of `activeChannels` with the route prefix; the empty prefix is the default route.
unfoldable pub with_route_prefix :
    String → List UpstreamConfig → List ChannelInfo → List ChannelInfo
unfolding get_upstream_by_index
with_route_prefix prefix us active =
    filter
      (λ ch. elim (get_upstream_by_index ch.index us) [
        | none ↦ false
        | some u ↦ str_eq u.route_prefix prefix
      ])
      active

-- The channel of the name, the first of the order.
unfoldable pub select_pinned : String → List ℕ → List UpstreamConfig → List ChannelInfo → Selection
unfolding get_upstream_by_index
select_pinned name failed us [] = refused pinned_not_found
select_pinned name failed us (ch ∷ rest) =
    let later = select_pinned name failed us rest in
    if str_eq ch.name name
    then (if is_failed failed ch.index
        then refused pinned_failed
        else elim (get_upstream_by_index ch.index us) [
          | none ↦ refused pinned_misconfigured
          | some u ↦
              selected (record { upstream = u; channel_index = ch.index; reason = channel_pin })
        ])
    else later

-- The guards that the loops of `SelectChannel`, `findBestAvailableChannelPriority` and
-- `selectFallbackChannel` share: not failed, active, and with an API key.
unfoldable pub candidate : List ℕ → List UpstreamConfig → ChannelInfo → Option UpstreamConfig
unfolding get_upstream_by_index
candidate failed us ch =
    if is_failed failed ch.index || not (str_eq ch.status "active")
    then none
    else elim (get_upstream_by_index ch.index us) [
      | none ↦ none
      | some u ↦ if has_keys u then some u else none
    ]

unfoldable pub find_promoted_channel :
    ℕ → List UpstreamConfig → List ChannelInfo → Option ChannelInfo
unfolding get_upstream_by_index is_channel_in_promotion
find_promoted_channel now us [] = none
find_promoted_channel now us (ch ∷ rest) =
    let later = find_promoted_channel now us rest in
    if not (str_eq ch.status "active") then later else elim (get_upstream_by_index ch.index us) [
      | none ↦ later
      | some u ↦ if is_channel_in_promotion now u then some ch else later
    ]

-- The promoted channel, where it has not failed and has an API key.
unfoldable pub select_promoted :
    ℕ → List ℕ → List UpstreamConfig → List ChannelInfo → Option SelectionResult
unfolding find_promoted_channel get_upstream_by_index
select_promoted now failed us active = elim (find_promoted_channel now us active) [
  | none ↦ none
  | some ch ↦ if is_failed failed ch.index then none else elim (get_upstream_by_index ch.index us) [
    | none ↦ none
    | some u ↦
        if has_keys u
        then some (record { upstream = u; channel_index = ch.index; reason = promotion_priority })
        else none
  ]
]

module _ (supports : UpstreamConfig → String → Bool) where
  -- The loop of `getActiveChannels` from index `i` on.
  unfoldable pub active_from : String → ℕ → List UpstreamConfig → List ChannelInfo
  active_from model i [] = []
  active_from model i (u ∷ us) =
      let rest = active_from model (suc i) us in
      if str_eq (effective_status u) "disabled"
      then rest
      else if not (str_eq model "") && not (supports u model)
      then rest
      else info_of i u ∷ rest

  unfoldable pub get_active_channels : String → List UpstreamConfig → List ChannelInfo
  unfolding active_from sort_stable
  get_active_channels model us = sort_stable less_priority (active_from model 0 us)

  unfoldable pub get_active_channel_count : List UpstreamConfig → ℕ
  get_active_channel_count us = length (get_active_channels "" us)
