-- ===== src/Scheduler/Usable.antt =====
-- Which channels the fallback of the scheduler chooses from: backend-go/internal/scheduler/channel_scheduler.go.
use ccx.Config.Types.{UpstreamConfig}
use ccx.Base.{
  ℕ, string_eq, ◌≡◌, false, some, List, [], ◌∷◌, arith, ◌⊎◌, Option-cases, Bool-cases, inl, inr,
}
use ccx.Breaker.{is_open}
use ccx.Scheduler.{ChannelInfo, Reads, SelectionResult, selected, candidate}
use ccx.Scheduler.Select.{
  rate_less, Best, better, fallback_from, no_choice, select_fallback_channel,
}

module _ (reads : Reads) where
  -- The channel can be fallen back to, and the selection is of it, with its index.
  abbrev pub IsUsable : List ℕ → List UpstreamConfig → SelectionResult → ChannelInfo → Type 0
  IsUsable failed us s ch =
      (candidate failed us ch ≡ some s.upstream)
      × (is_open (reads.circuit_state s.upstream) ≡ false)
      × (s.channel_index ≡ ch.index)

  -- The selection is of a channel of the list: one that can be fallen back to, with its index.
  abbrev pub IsOneOf : List ℕ → List UpstreamConfig → SelectionResult → List ChannelInfo → Type 0
  IsOneOf failed us s [] = ⊥
  IsOneOf failed us s (ch ∷ rest) = IsUsable failed us s ch ⊎ IsOneOf failed us s rest

  -- The choice is the earlier one, or the channel of the round.
  better-choice :
      (failed : List ℕ) (us : List UpstreamConfig) (ch : ChannelInfo) (best : Best)
      (s : SelectionResult)
      → (better reads failed us ch best).choice ≡ some s
      → (best.choice ≡ some s) ⊎ IsUsable failed us s ch
  unfolding better
  better-choice failed us ch best s h = elim (Option-cases (candidate failed us ch)) [
    | inl e ↦ inl (ground (arith, e, h))
    | inr (u, e) ↦ elim (Bool-cases (is_open (reads.circuit_state u))) [
      | inl o ↦ inl (ground (arith, e, o, h))
      | inr o ↦ elim (Bool-cases (rate_less (reads.failure_rate u) best.rate)) [
        | inl l ↦ inr (ground (arith, e, o, l, h))
        | inr l ↦ inl (ground (arith, e, o, l, h))
      ]
    ]
  ]

  pub fallback_from-IsOneOf :
      (failed : List ℕ) (us : List UpstreamConfig) (best : Best) (chs : List ChannelInfo)
      (s : SelectionResult)
      → (fallback_from reads failed us best chs).choice ≡ some s
      → (best.choice ≡ some s) ⊎ IsOneOf failed us s chs
  unfolding fallback_from
  fallback_from-IsOneOf failed us best [] s h = inl h
  fallback_from-IsOneOf failed us best (ch ∷ rest) s h =
      elim (fallback_from-IsOneOf failed us (better reads failed us ch best) rest s h) [
        | inl e ↦ elim (better-choice failed us ch best s e) [
          | inl old ↦ inl old
          | inr new ↦ inr (inl new)
        ]
        | inr later ↦ inr (inr later)
      ]

  pub fallback_choice :
      (failed : List ℕ) (us : List UpstreamConfig) (active : List ChannelInfo) (s : SelectionResult)
      → select_fallback_channel reads failed us active ≡ selected s
      → (fallback_from reads failed us no_choice active).choice ≡ some s
  unfolding select_fallback_channel
  fallback_choice failed us active s e =
      elim (Option-cases (fallback_from reads failed us no_choice active).choice) [
        | inl n ↦ absurd (ground (arith, e, n))
        | inr (t, n) ↦ ground (arith, e, n)
      ]
