-- ===== src/Scheduler/Priority.antt =====
-- The order in which the scheduler takes channels: backend-go/internal/scheduler/channel_scheduler.go.
use ccx.Config.Types.{UpstreamConfig, effective_priority}
use ccx.Base.{
  ℕ, string_eq, suc, ◌+◌, ◌≤◌, ◌≡◌, ap, Bool, true, false, Option, none, some, List, [], ◌∷◌,
  String, leb, get_elem?, if◌then◌else◌, arith, All, All-filter, Option-cases, inl, inr,
}
use ccx.Base.Sort.{IsSorted, sort_stable-IsSorted, filter-IsSorted, All-sort_stable}
use ccx.Scheduler.{
  ChannelInfo, Reads, SelectionResult, Selection, selected, refused, candidate,
  get_upstream_by_index, less_priority, active_from, get_active_channels, with_route_prefix,
  select_promoted, select_pinned, priority_order, trace_affinity,
}
use ccx.Scheduler.Select.{
  Best, better, fallback_from, no_choice, select_by_priority, select_affinity_from, select_affinity,
  best_priority_from, is_available, is_outranked, find_best_available_channel_priority,
  select_automatic, select_channel, select_fallback_channel,
}

abbrev pub le_option : Option ℕ → ℕ → Bool
le_option none q = false
le_option (some b) q = leb b q

-- The priority of the entry is the one of the channel at its index.
abbrev pub IsEntry : List UpstreamConfig → ChannelInfo → Type 0
IsEntry us ch = elim (get_elem? us ch.index) [
  | none ↦ Unit
  | some u ↦ ch.priority ≡ effective_priority ch.index u
]

module _ (supports : UpstreamConfig → String → Bool) where
  active_from-IsEntry :
      (model : String) (i : ℕ) (us vs : List UpstreamConfig)
      → ((k j : ℕ) → k ≡ i + j → get_elem? us k ≡ get_elem? vs j)
      → All (IsEntry us) (active_from supports model i vs)
  unfolding active_from
  active_from-IsEntry model i us [] same = tt
  active_from-IsEntry model i us (v ∷ vs) same =
      let rest : All (IsEntry us) (active_from supports model (suc i) vs) =
        active_from-IsEntry model (suc i) us vs (λ k j e. same k (suc j) (omega arith)) in
      let here : get_elem? us i ≡ some v = same i 0 (omega arith) in ground (arith, rest, here)

  active_channels-IsEntry :
      (model : String) (us : List UpstreamConfig)
      → All (IsEntry us) (get_active_channels supports model us)
  unfolding get_active_channels
  active_channels-IsEntry model us =
      All-sort_stable less_priority (IsEntry us) (active_from supports model 0 us)
        (active_from-IsEntry model 0 us us (λ k j e. ap (get_elem? us) (ground (arith, e))))

  active_channels-IsSorted :
      (model : String) (us : List UpstreamConfig)
      → IsSorted less_priority (get_active_channels supports model us)
  unfolding get_active_channels
  active_channels-IsSorted model us =
      sort_stable-IsSorted less_priority (λ a b h. ground arith) (λ a b c h g. ground arith)
        (active_from supports model 0 us)

module _ (reads : Reads) where
  -- The priority of a channel that may be used: not failed, active, with a key, not open, and healthy.
  abbrev pub available_priority : List ℕ → List UpstreamConfig → ChannelInfo → Option ℕ
  available_priority failed us ch = elim (candidate failed us ch) [
    | none ↦ none
    | some u ↦ if is_available reads u then some ch.priority else none
  ]

  -- If the channel may be used, its priority is not below `p`.
  abbrev pub NotAhead : List ℕ → List UpstreamConfig → ℕ → ChannelInfo → Type 0
  NotAhead failed us p ch = elim (available_priority failed us ch) [ none ↦ Unit | some q ↦ p ≤ q ]

  abbrev pub NotAheadOf : List ℕ → List UpstreamConfig → Option ℕ → ChannelInfo → Type 0
  NotAheadOf failed us best ch = elim (available_priority failed us ch) [
    | none ↦ Unit
    | some q ↦ le_option best q ≡ true
  ]

  best_priority_from-le :
      (failed : List ℕ) (us : List UpstreamConfig) (q : ℕ) (chs : List ChannelInfo)
      (best : Option ℕ)
      → le_option best q ≡ true
      → le_option (best_priority_from reads failed us best chs) q ≡ true
  unfolding best_priority_from
  best_priority_from-le failed us q [] best h = h
  best_priority_from-le failed us q (ch ∷ rest) best h =
      best_priority_from-le failed us q rest _ (ground arith)

  best_priority_from-NotAheadOf :
      (failed : List ℕ) (us : List UpstreamConfig) (chs : List ChannelInfo) (best : Option ℕ)
      → All (NotAheadOf failed us (best_priority_from reads failed us best chs)) chs
  unfolding best_priority_from
  best_priority_from-NotAheadOf failed us [] best = tt
  best_priority_from-NotAheadOf failed us (ch ∷ rest) best = (
    elim (Option-cases (available_priority failed us ch)) [
      | inl e ↦ rw (NotAheadOf, e) tt
      | inr (q, e) ↦
          rw (NotAheadOf, e) (best_priority_from-le failed us q rest _ (ground (arith, e)))
    ],
    best_priority_from-NotAheadOf failed us rest _,
  )

  NotAheadOf-NotAhead :
      (failed : List ℕ) (us : List UpstreamConfig) (best : Option ℕ) (p : ℕ)
      (chs : List ChannelInfo)
      → is_outranked best p ≡ false
      → All (NotAheadOf failed us best) chs
      → All (NotAhead failed us p) chs
  NotAheadOf-NotAhead failed us best p [] o h = tt
  NotAheadOf-NotAhead failed us best p (ch ∷ rest) o h =
      (ground (arith, h.0, o), NotAheadOf-NotAhead failed us best p rest o h.1)

  All-NotAhead :
      (failed : List ℕ) (us : List UpstreamConfig) (ch : ChannelInfo) (chs : List ChannelInfo)
      → All (λ y. less_priority y ch ≡ false) chs
      → All (NotAhead failed us ch.priority) chs
  All-NotAhead failed us ch [] h = tt
  All-NotAhead failed us ch (y ∷ ys) h = (ground (arith, h.0), All-NotAhead failed us ch ys h.1)

  abbrev pub AtFront :
      List ℕ → List UpstreamConfig → List ChannelInfo → Option SelectionResult → Type 0
  AtFront failed us chs none = Unit
  AtFront failed us chs (some s) =
      All (NotAhead failed us (effective_priority s.channel_index s.upstream)) chs

  by_priority-AtFront :
      (failed : List ℕ) (us : List UpstreamConfig) (chs : List ChannelInfo)
      → IsSorted less_priority chs
      → All (IsEntry us) chs
      → AtFront failed us chs (select_by_priority reads failed us chs)
  unfolding select_by_priority candidate get_upstream_by_index
  by_priority-AtFront failed us [] s h = tt
  by_priority-AtFront failed us (ch ∷ rest) s h =
      ground
        (arith, by_priority-AtFront failed us rest s.1 h.1, All-NotAhead failed us ch rest s.0, h.0)

  abbrev AffinityRank : Option ℕ → Option SelectionResult → Type 0
  AffinityRank best none = Unit
  AffinityRank best (some s) =
      is_outranked best (effective_priority s.channel_index s.upstream) ≡ false

  affinity_from-AffinityRank :
      (failed : List ℕ) (us : List UpstreamConfig) (preferred : ℕ) (best : Option ℕ)
      (chs : List ChannelInfo)
      → All (IsEntry us) chs
      → AffinityRank best (select_affinity_from reads failed us preferred best chs)
  unfolding select_affinity_from get_upstream_by_index
  affinity_from-AffinityRank failed us preferred best [] h = tt
  affinity_from-AffinityRank failed us preferred best (ch ∷ rest) h =
      ground (arith, h.0, affinity_from-AffinityRank failed us preferred best rest h.1)

  affinity-AtFront :
      (failed : List ℕ) (us : List UpstreamConfig) (preferred : Option ℕ) (chs : List ChannelInfo)
      → All (IsEntry us) chs
      → AtFront failed us chs (select_affinity reads failed us preferred chs)
  unfolding select_affinity find_best_available_channel_priority
  affinity-AtFront failed us none chs h = tt
  affinity-AtFront failed us (some preferred) chs h =
      let best = best_priority_from reads failed us none chs in
      let r = affinity_from-AffinityRank failed us preferred best chs h in
      elim (Option-cases (select_affinity_from reads failed us preferred best chs)) [
        | inl e ↦ rw (AtFront, e) tt
        | inr (s, e) ↦
            rw (AtFront, e)
              (NotAheadOf-NotAhead failed us best (effective_priority s.channel_index s.upstream)
                chs (ground (arith, r, e)) (best_priority_from-NotAheadOf failed us chs none))
      ]

  -- The result was chosen by affinity or by priority.
  abbrev pub by_rank : SelectionResult → Bool
  by_rank s = elim s.reason [ trace_affinity ↦ true | priority_order ↦ true | _ ↦ false ]

  abbrev pub NotRanked : Option SelectionResult → Type 0
  NotRanked none = Unit
  NotRanked (some s) = by_rank s ≡ false

  promoted-NotRanked :
      (now : ℕ) (failed : List ℕ) (us : List UpstreamConfig) (chs : List ChannelInfo)
      → NotRanked (select_promoted now failed us chs)
  unfolding select_promoted
  promoted-NotRanked now failed us chs = ground arith

  fallback-NotRanked :
      (failed : List ℕ) (us : List UpstreamConfig) (chs : List ChannelInfo) (best : Best)
      → NotRanked best.choice
      → NotRanked (fallback_from reads failed us best chs).choice
  unfolding fallback_from better
  fallback-NotRanked failed us [] best h = h
  fallback-NotRanked failed us (ch ∷ rest) best h =
      fallback-NotRanked failed us rest _ (ground arith)

  abbrev pub SelectedAtFront : List ℕ → List UpstreamConfig → List ChannelInfo → Selection → Type 0
  SelectedAtFront failed us chs (refused e) = Unit
  SelectedAtFront failed us chs (selected s) = elim (by_rank s) [
    | true ↦ All (NotAhead failed us (effective_priority s.channel_index s.upstream)) chs
    | false ↦ Unit
  ]

  automatic-SelectedAtFront :
      (now : ℕ) (failed : List ℕ) (us : List UpstreamConfig) (preferred : Option ℕ)
      (chs : List ChannelInfo)
      → IsSorted less_priority chs
      → All (IsEntry us) chs
      → SelectedAtFront failed us chs (select_automatic reads now failed us preferred chs)
  unfolding select_automatic select_fallback_channel
  automatic-SelectedAtFront now failed us preferred chs s h = ground (
    arith,
    promoted-NotRanked now failed us chs,
    affinity-AtFront failed us preferred chs h,
    by_priority-AtFront failed us chs s h,
    fallback-NotRanked failed us chs no_choice tt,
  )

  pinned-SelectedAtFront :
      (name : String) (failed : List ℕ) (us : List UpstreamConfig) (chs routed : List ChannelInfo)
      → SelectedAtFront failed us routed (select_pinned name failed us chs)
  unfolding select_pinned
  pinned-SelectedAtFront name failed us [] routed = tt
  pinned-SelectedAtFront name failed us (ch ∷ rest) routed =
      ground (arith, pinned-SelectedAtFront name failed us rest routed)

  module _ (supports : UpstreamConfig → String → Bool) where
    routed-IsSorted :
        (prefix model : String) (us : List UpstreamConfig)
        → IsSorted less_priority
            (with_route_prefix prefix us (get_active_channels supports model us))
    unfolding with_route_prefix
    routed-IsSorted prefix model us =
        filter-IsSorted less_priority _ (get_active_channels supports model us)
          (active_channels-IsSorted supports model us)

    routed-IsEntry :
        (prefix model : String) (us : List UpstreamConfig)
        → All (IsEntry us) (with_route_prefix prefix us (get_active_channels supports model us))
    unfolding with_route_prefix
    routed-IsEntry prefix model us =
        All-filter (IsEntry us) _ (get_active_channels supports model us)
          (active_channels-IsEntry supports model us)

    channel-SelectedAtFront :
        (now : ℕ) (failed : List ℕ) (us : List UpstreamConfig) (preferred : Option ℕ)
        (model prefix name : String)
        → SelectedAtFront failed us
            (with_route_prefix prefix us (get_active_channels supports model us))
            (select_channel reads supports now failed us preferred model prefix name)
    unfolding select_channel
    channel-SelectedAtFront now failed us preferred model prefix name =
        let routed = with_route_prefix prefix us (get_active_channels supports model us) in
        ground (
          arith,
          pinned-SelectedAtFront name failed us (get_active_channels supports model us) routed,
          automatic-SelectedAtFront now failed us preferred routed (routed-IsSorted prefix model us)
              (routed-IsEntry prefix model us),
        )

    -- A channel that `SelectChannel` takes by trace affinity or by priority has the best priority: no
    -- channel of the route that may be used (not failed in this request, active, with an API key, its
    -- circuit not open, and healthy) has a lower priority number.
    pub select_channel-best_priority :
        (now : ℕ) (failed : List ℕ) (us : List UpstreamConfig) (preferred : Option ℕ)
        (model prefix name : String) (s : SelectionResult)
        → select_channel reads supports now failed us preferred model prefix name ≡ selected s
        → by_rank s ≡ true
        → All
            (NotAhead failed us (effective_priority s.channel_index s.upstream))
            (with_route_prefix prefix us (get_active_channels supports model us))
    select_channel-best_priority now failed us preferred model prefix name s e r =
        ground (arith, channel-SelectedAtFront now failed us preferred model prefix name)
