-- ===== src/Scheduler/Chosen.antt =====
-- Which channel `SelectChannel` may return: backend-go/internal/scheduler/channel_scheduler.go.
use ccx.Config.Types.{UpstreamConfig}
use ccx.Base.{
  ℕ, string_eq, ◌≡◌, Bool, false, Option, none, some, List, [], ◌∷◌, String, get_elem?, arith,
}
use ccx.Scheduler.{
  ChannelInfo, Reads, SelectionResult, Selection, selected, refused, is_failed, select_pinned,
  with_route_prefix, select_promoted, candidate, get_upstream_by_index, get_active_channels,
}
use ccx.Scheduler.Select.{
  Best, select_affinity_from, select_affinity, select_by_priority, better, fallback_from, no_choice,
  select_fallback_channel, select_automatic, select_channel, find_best_available_channel_priority,
}

-- The result names a channel of the configuration that has not failed.
abbrev pub IsFresh : List ℕ → List UpstreamConfig → SelectionResult → Type 0
IsFresh failed us s =
    (get_elem? us s.channel_index ≡ some s.upstream) × (is_failed failed s.channel_index ≡ false)

abbrev pub AllFresh : List ℕ → List UpstreamConfig → Option SelectionResult → Type 0
AllFresh failed us none = Unit
AllFresh failed us (some s) = IsFresh failed us s

abbrev pub Selects : List ℕ → List UpstreamConfig → Selection → Type 0
Selects failed us (refused e) = Unit
Selects failed us (selected s) = IsFresh failed us s

candidate-fresh :
    (failed : List ℕ) (us : List UpstreamConfig) (ch : ChannelInfo) (u : UpstreamConfig)
    → candidate failed us ch ≡ some u
    → (get_elem? us ch.index ≡ some u) × (is_failed failed ch.index ≡ false)
unfolding candidate get_upstream_by_index
candidate-fresh failed us ch u e = ground arith

pinned-Selects :
    (name : String) (failed : List ℕ) (us : List UpstreamConfig) (chs : List ChannelInfo)
    → Selects failed us (select_pinned name failed us chs)
unfolding select_pinned get_upstream_by_index
pinned-Selects name failed us [] = tt
pinned-Selects name failed us (ch ∷ rest) = ground (arith, pinned-Selects name failed us rest)

promoted-AllFresh :
    (now : ℕ) (failed : List ℕ) (us : List UpstreamConfig) (chs : List ChannelInfo)
    → AllFresh failed us (select_promoted now failed us chs)
unfolding select_promoted get_upstream_by_index
promoted-AllFresh now failed us chs = ground arith

module _ (reads : Reads) where
  affinity_from-AllFresh :
      (failed : List ℕ) (us : List UpstreamConfig) (preferred : ℕ) (best : Option ℕ)
      (chs : List ChannelInfo)
      → AllFresh failed us (select_affinity_from reads failed us preferred best chs)
  unfolding select_affinity_from get_upstream_by_index
  affinity_from-AllFresh failed us preferred best [] = tt
  affinity_from-AllFresh failed us preferred best (ch ∷ rest) =
      ground (arith, affinity_from-AllFresh failed us preferred best rest)

  affinity-AllFresh :
      (failed : List ℕ) (us : List UpstreamConfig) (preferred : Option ℕ) (chs : List ChannelInfo)
      → AllFresh failed us (select_affinity reads failed us preferred chs)
  unfolding select_affinity
  affinity-AllFresh failed us none chs = tt
  affinity-AllFresh failed us (some preferred) chs =
      affinity_from-AllFresh failed us preferred
        (find_best_available_channel_priority reads failed us chs) chs

  by_priority-AllFresh :
      (failed : List ℕ) (us : List UpstreamConfig) (chs : List ChannelInfo)
      → AllFresh failed us (select_by_priority reads failed us chs)
  unfolding select_by_priority candidate get_upstream_by_index
  by_priority-AllFresh failed us [] = tt
  by_priority-AllFresh failed us (ch ∷ rest) = ground (arith, by_priority-AllFresh failed us rest)

  better-AllFresh :
      (failed : List ℕ) (us : List UpstreamConfig) (ch : ChannelInfo) (best : Best)
      → AllFresh failed us best.choice
      → AllFresh failed us (better reads failed us ch best).choice
  unfolding better candidate get_upstream_by_index
  better-AllFresh failed us ch best h = ground arith

  fallback_from-AllFresh :
      (failed : List ℕ) (us : List UpstreamConfig) (best : Best) (chs : List ChannelInfo)
      → AllFresh failed us best.choice
      → AllFresh failed us (fallback_from reads failed us best chs).choice
  unfolding fallback_from
  fallback_from-AllFresh failed us best [] h = h
  fallback_from-AllFresh failed us best (ch ∷ rest) h =
      fallback_from-AllFresh failed us (better reads failed us ch best) rest
        (better-AllFresh failed us ch best h)

  automatic-Selects :
      (now : ℕ) (failed : List ℕ) (us : List UpstreamConfig) (preferred : Option ℕ)
      (chs : List ChannelInfo)
      → Selects failed us (select_automatic reads now failed us preferred chs)
  unfolding select_automatic select_fallback_channel
  automatic-Selects now failed us preferred chs = ground (
    arith,
    promoted-AllFresh now failed us chs,
    affinity-AllFresh failed us preferred chs,
    by_priority-AllFresh failed us chs,
    fallback_from-AllFresh failed us no_choice chs tt,
  )

  module _ (supports : UpstreamConfig → String → Bool) where
    channel-Selects :
        (now : ℕ) (failed : List ℕ) (us : List UpstreamConfig) (preferred : Option ℕ)
        (model prefix name : String)
        → Selects failed us
            (select_channel reads supports now failed us preferred model prefix name)
    unfolding select_channel
    channel-Selects now failed us preferred model prefix name = ground (
      arith,
      pinned-Selects name failed us (get_active_channels supports model us),
      automatic-Selects now failed us preferred
          (with_route_prefix prefix us (get_active_channels supports model us)),
    )

    -- A channel that `SelectChannel` returns, by whatever rule, has not failed in this request, and the
    -- upstream returned with it is the one that the configuration has at its index.
    pub select_channel-fresh :
        (now : ℕ) (failed : List ℕ) (us : List UpstreamConfig) (preferred : Option ℕ)
        (model prefix name : String) (s : SelectionResult)
        → select_channel reads supports now failed us preferred model prefix name ≡ selected s
        → (get_elem? us s.channel_index ≡ some s.upstream)
          × (is_failed failed s.channel_index ≡ false)
    select_channel-fresh now failed us preferred model prefix name s e =
        ground (arith, channel-Selects now failed us preferred model prefix name)
