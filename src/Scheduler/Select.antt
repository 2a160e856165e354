-- ===== src/Scheduler/Select.antt =====
-- `SelectChannel` and its loops over the metrics: backend-go/internal/scheduler/channel_scheduler.go.
-- The affinity is looked up under the kind and the user, and its clock is the instant of the selection.
use ccx.Config.Types.{ChannelKind, UpstreamConfig}
use ccx.Base.{
  ℕ, string_eq, ◌*◌, Bool, true, false, not, ◌&&◌, ◌||◌, Option, none, some, List, [], ◌∷◌, String,
  ltb, nat_eq, str_eq, if◌then◌else◌,
}
use Prim.Native.String.{◌++◌ as append}
use ccx.Breaker.{is_open}
use ccx.Metrics.{Rate}
use ccx.Affinity.{
  TraceAffinityManager, get_preferred_channel, set_preferred_channel, update_last_used,
}
use ccx.Scheduler.{
  ChannelInfo, Reads, SelectionResult, Selection, refused, selected, model_not_supported,
  no_active_channel, no_such_prefix, no_default_route, all_unavailable, trace_affinity,
  priority_order, fallback, kind_string, is_failed, candidate, get_upstream_by_index, select_pinned,
  with_route_prefix, select_promoted, get_active_channels,
}

-- `a < b` on fractions.
abbrev pub rate_less : Rate → Rate → Bool
rate_less a b = ltb (a.failed * b.total) (b.failed * a.total)

-- The best channel so far of `selectFallbackChannel`, and its rate, which starts at 2.
pub record Best : Type 0 where
  pub choice : Option SelectionResult
  pub rate : Rate

abbrev pub no_choice : Best
no_choice = record { choice = none; rate = record { failed = 2; total = 1 } }

abbrev pub no_channel_error : String → Selection
no_channel_error prefix =
    if str_eq prefix "" then refused no_default_route else refused no_such_prefix

abbrev pub is_empty : List ChannelInfo → Bool
is_empty [] = true
is_empty (ch ∷ chs) = false

-- `bestPriority >= 0 && ch.Priority > bestPriority`, the -1 being `none`.
abbrev pub is_outranked : Option ℕ → ℕ → Bool
is_outranked none p = false
is_outranked (some best) p = ltb best p

abbrev pub min_priority : Option ℕ → ℕ → Option ℕ
min_priority none p = some p
min_priority (some best) p = if ltb p best then some p else some best

-- `string(kind) + ":" + userID`
abbrev pub composite_key : ChannelKind → String → String
composite_key kind user = append (kind_string kind) (append ":" user)

module _ (reads : Reads) where
  -- The channel may be used: its circuit is not open and it is healthy.
  abbrev pub is_available : UpstreamConfig → Bool
  is_available u = not (is_open (reads.circuit_state u) || not (reads.is_healthy u))

  -- The loop of `findBestAvailableChannelPriority`.
  unfoldable pub best_priority_from :
      List ℕ → List UpstreamConfig → Option ℕ → List ChannelInfo → Option ℕ
  unfolding candidate
  best_priority_from failed us best [] = best
  best_priority_from failed us best (ch ∷ rest) =
      best_priority_from failed us
        (elim (candidate failed us ch) [
          | none ↦ best
          | some u ↦ if is_available u then min_priority best ch.priority else best
        ])
        rest

  unfoldable pub find_best_available_channel_priority :
      List ℕ → List UpstreamConfig → List ChannelInfo → Option ℕ
  unfolding best_priority_from
  find_best_available_channel_priority failed us active = best_priority_from failed us none active

  -- The loop over the channels for the affinity `preferred`.
  unfoldable pub select_affinity_from :
      List ℕ → List UpstreamConfig → ℕ → Option ℕ → List ChannelInfo → Option SelectionResult
  unfolding get_upstream_by_index
  select_affinity_from failed us preferred best [] = none
  select_affinity_from failed us preferred best (ch ∷ rest) =
      let later = select_affinity_from failed us preferred best rest in
      if nat_eq ch.index preferred && not (is_failed failed preferred)
      then (if not (str_eq ch.status "active")
          then later
          else if is_outranked best ch.priority
          then later
          else elim (get_upstream_by_index preferred us) [
            | none ↦ later
            | some u ↦
                if reads.is_healthy u
                then some
                    (record { upstream = u; channel_index = preferred; reason = trace_affinity })
                else later
          ])
      else later

  unfoldable pub select_affinity :
      List ℕ → List UpstreamConfig → Option ℕ → List ChannelInfo → Option SelectionResult
  unfolding select_affinity_from find_best_available_channel_priority
  select_affinity failed us none active = none
  select_affinity failed us (some preferred) active =
      select_affinity_from failed us preferred
        (find_best_available_channel_priority failed us active) active

  -- The loop over the channels by priority.
  unfoldable pub select_by_priority :
      List ℕ → List UpstreamConfig → List ChannelInfo → Option SelectionResult
  unfolding candidate
  select_by_priority failed us [] = none
  select_by_priority failed us (ch ∷ rest) =
      let later = select_by_priority failed us rest in
      elim (candidate failed us ch) [
        | none ↦ later
        | some u ↦
            if is_available u
            then some (record { upstream = u; channel_index = ch.index; reason = priority_order })
            else later
      ]

  -- One round of the loop of `selectFallbackChannel`.
  unfoldable pub better : List ℕ → List UpstreamConfig → ChannelInfo → Best → Best
  unfolding candidate
  better failed us ch best = elim (candidate failed us ch) [
    | none ↦ best
    | some u ↦
        if is_open (reads.circuit_state u)
        then best
        else if rate_less (reads.failure_rate u) best.rate
        then record {
          choice = some (record { upstream = u; channel_index = ch.index; reason = fallback });
          rate = reads.failure_rate u;
        }
        else best
  ]

  unfoldable pub fallback_from : List ℕ → List UpstreamConfig → Best → List ChannelInfo → Best
  unfolding better
  fallback_from failed us best [] = best
  fallback_from failed us best (ch ∷ rest) = fallback_from failed us (better failed us ch best) rest

  unfoldable pub select_fallback_channel :
      List ℕ → List UpstreamConfig → List ChannelInfo → Selection
  unfolding fallback_from
  select_fallback_channel failed us active =
      elim (fallback_from failed us no_choice active).choice [
        | none ↦ refused all_unavailable
        | some s ↦ selected s
      ]

  -- The part of `SelectChannel` after the route prefix: promotion, affinity, priority, fallback.
  unfoldable pub select_automatic :
      ℕ → List ℕ → List UpstreamConfig → Option ℕ → List ChannelInfo → Selection
  unfolding select_promoted select_affinity select_by_priority select_fallback_channel
  select_automatic now failed us preferred active = elim (select_promoted now failed us active) [
    | some s ↦ selected s
    | none ↦ elim (select_affinity failed us preferred active) [
      | some s ↦ selected s
      | none ↦ elim (select_by_priority failed us active) [
        | some s ↦ selected s
        | none ↦ select_fallback_channel failed us active
      ]
    ]
  ]

  module _ (supports : UpstreamConfig → String → Bool) where
    unfoldable pub select_channel :
        ℕ → List ℕ → List UpstreamConfig → Option ℕ → String → String → String → Selection
    unfolding get_active_channels select_pinned with_route_prefix select_automatic
    select_channel now failed us preferred model prefix name =
        let active = get_active_channels supports model us in
        let routed = with_route_prefix prefix us active in
        if is_empty active
        then (if not (str_eq model "") && not (is_empty (get_active_channels supports "" us))
            then refused model_not_supported
            else refused no_active_channel)
        else if not (str_eq name "")
        then select_pinned name failed us active
        else if is_empty routed
        then no_channel_error prefix
        else select_automatic now failed us preferred routed

-- What `SelectChannel` reads of the affinity; then `SetTraceAffinity` and `UpdateTraceAffinity`.
unfoldable pub preferred_channel : String → ChannelKind → ℕ → TraceAffinityManager → Option ℕ
unfolding get_preferred_channel kind_string
preferred_channel user kind now m =
    if str_eq user "" then none else get_preferred_channel (composite_key kind user) now m

unfoldable pub set_trace_affinity :
    String → ℕ → ChannelKind → ℕ → TraceAffinityManager → TraceAffinityManager
unfolding set_preferred_channel kind_string
set_trace_affinity user ch kind now m =
    if str_eq user "" then m else set_preferred_channel (composite_key kind user) ch now m

unfoldable pub update_trace_affinity :
    String → ChannelKind → ℕ → TraceAffinityManager → TraceAffinityManager
unfolding update_last_used kind_string
update_trace_affinity user kind now m =
    if str_eq user "" then m else update_last_used (composite_key kind user) now m
