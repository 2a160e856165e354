-- ===== src/Scheduler/Fallback.antt =====
-- The fallback of the scheduler: backend-go/internal/scheduler/channel_scheduler.go.
use ccx.Config.Types.{UpstreamConfig}
use ccx.Base.{
  ℕ, string_eq, ◌*◌, ◌≤◌, ◌<◌, ◌≡◌, refl, true, false, none, some, List, [], ◌∷◌, arith, All,
  Option-cases, Bool-cases, inl, inr,
}
use ccx.Breaker.{is_open}
use ccx.Metrics.{Rate}
use ccx.Scheduler.{
  ChannelInfo, Reads, SelectionResult, selected, refused, all_unavailable, candidate,
}
use ccx.Scheduler.Select.{Best, better, fallback_from, no_choice, select_fallback_channel}
use ccx.Scheduler.Usable.{IsOneOf, fallback_from-IsOneOf, fallback_choice}

mul_le_cancel : (a b c : ℕ) → 0 < c → a * c ≤ b * c → a ≤ b
mul_le_cancel a b c p h = grind arith

mul_le : (a b c : ℕ) → a ≤ b → a * c ≤ b * c
mul_le a b c h = grind arith

rate_trans : (a b c d e f : ℕ) → 0 < d → a * d ≤ c * b → c * f ≤ e * d → a * f ≤ e * b
rate_trans a b c d e f p g h =
    let gf = mul_le (a * d) (c * b) f g in
    let hb = mul_le (c * f) (e * d) b h in mul_le_cancel (a * f) (e * b) d p (omega arith)

-- The first rate is at most the second.
abbrev pub RateLe : Rate → Rate → Type 0
RateLe a b = a.failed * b.total ≤ b.failed * a.total

RateLe-trans : (a b c : Rate) → 0 < b.total → RateLe a b → RateLe b c → RateLe a c
RateLe-trans a b c p g h = rate_trans a.failed a.total b.failed b.total c.failed c.total p g h

module _ (reads : Reads) where
  -- What the reads of a channel keep to: a failure rate is a fraction of at most 1.
  pub record IsRateReads : Type 0 where
    pub total_pos : (u : UpstreamConfig) → 0 < (reads.failure_rate u).total
    pub at_most_one :
        (u : UpstreamConfig) → (reads.failure_rate u).failed ≤ (reads.failure_rate u).total

  -- If the channel can be fallen back to, the rate is at most its own.
  abbrev pub NotAbove : List ℕ → List UpstreamConfig → Rate → ChannelInfo → Type 0
  NotAbove failed us r ch = elim (candidate failed us ch) [
    | none ↦ Unit
    | some u ↦ elim (is_open (reads.circuit_state u)) [
      | true ↦ Unit
      | false ↦ RateLe r (reads.failure_rate u)
    ]
  ]

  -- The rate is the rate of the choice, if there is one.
  abbrev pub IsRateOf : Best → Type 0
  IsRateOf best = elim best.choice [
    | none ↦ (best.rate.failed ≡ 2) × (best.rate.total ≡ 1)
    | some s ↦ best.rate ≡ reads.failure_rate s.upstream
  ]

  -- Not above the old rate, nor above that of the channel; and one of the two.
  better-NotAbove :
      (failed : List ℕ) (us : List UpstreamConfig) (ch : ChannelInfo) (best : Best)
      → NotAbove failed us (better reads failed us ch best).rate ch
        × RateLe (better reads failed us ch best).rate best.rate
  unfolding better
  better-NotAbove failed us ch best = ground arith

  better-IsRateOf :
      (failed : List ℕ) (us : List UpstreamConfig) (ch : ChannelInfo) (best : Best)
      → IsRateOf best
      → IsRateOf (better reads failed us ch best)
  unfolding better
  better-IsRateOf failed us ch best h = ground arith

  better-total_pos :
      (failed : List ℕ) (us : List UpstreamConfig) (ch : ChannelInfo) (best : Best)
      → IsRateReads
      → 0 < best.rate.total
      → 0 < (better reads failed us ch best).rate.total
  unfolding better
  better-total_pos failed us ch best laws h = elim (Option-cases (candidate failed us ch)) [
    | inl e ↦ ground (arith, e)
    | inr (u, e) ↦ ground (arith, e, laws.total_pos u)
  ]

  NotAbove-trans :
      (failed : List ℕ) (us : List UpstreamConfig) (a b : Rate) (ch : ChannelInfo)
      → 0 < b.total
      → RateLe a b
      → NotAbove failed us b ch
      → NotAbove failed us a ch
  NotAbove-trans failed us a b ch p h n = elim (Option-cases (candidate failed us ch)) [
    | inl e ↦ ground (arith, e)
    | inr (u, e) ↦ elim (Bool-cases (is_open (reads.circuit_state u))) [
      | inl o ↦ ground (arith, e, o)
      | inr o ↦
          let n' : RateLe b (reads.failure_rate u) = ground (arith, n, e, o) in
          ground (arith, e, o, RateLe-trans a b (reads.failure_rate u) p h n')
    ]
  ]

  fallback_from-RateLe :
      (failed : List ℕ) (us : List UpstreamConfig) (best : Best) (chs : List ChannelInfo)
      → IsRateReads
      → 0 < best.rate.total
      → RateLe (fallback_from reads failed us best chs).rate best.rate
  unfolding fallback_from
  fallback_from-RateLe failed us best [] laws p = omega arith
  fallback_from-RateLe failed us best (ch ∷ rest) laws p =
      let next = better reads failed us ch best in
      let p' = better-total_pos failed us ch best laws p in
      RateLe-trans (fallback_from reads failed us next rest).rate next.rate best.rate p'
        (fallback_from-RateLe failed us next rest laws p') (better-NotAbove failed us ch best).1

  fallback_from-NotAbove :
      (failed : List ℕ) (us : List UpstreamConfig) (best : Best) (chs : List ChannelInfo)
      → IsRateReads
      → 0 < best.rate.total
      → All (NotAbove failed us (fallback_from reads failed us best chs).rate) chs
  unfolding fallback_from
  fallback_from-NotAbove failed us best [] laws p = tt
  fallback_from-NotAbove failed us best (ch ∷ rest) laws p =
      let next = better reads failed us ch best in
      let p' = better-total_pos failed us ch best laws p in
      (
        NotAbove-trans failed us (fallback_from reads failed us next rest).rate next.rate ch p'
            (fallback_from-RateLe failed us next rest laws p')
            (better-NotAbove failed us ch best).0,
        fallback_from-NotAbove failed us next rest laws p',
      )

  fallback_from-IsRateOf :
      (failed : List ℕ) (us : List UpstreamConfig) (best : Best) (chs : List ChannelInfo)
      → IsRateOf best
      → IsRateOf (fallback_from reads failed us best chs)
  unfolding fallback_from
  fallback_from-IsRateOf failed us best [] h = h
  fallback_from-IsRateOf failed us best (ch ∷ rest) h =
      fallback_from-IsRateOf failed us (better reads failed us ch best) rest
        (better-IsRateOf failed us ch best h)

  -- The channel cannot be fallen back to: no candidate, or its circuit is open.
  abbrev pub IsUnusable : List ℕ → List UpstreamConfig → ChannelInfo → Type 0
  IsUnusable failed us ch = elim (candidate failed us ch) [
    | none ↦ Unit
    | some u ↦ is_open (reads.circuit_state u) ≡ true
  ]

  NotAbove-two :
      (failed : List ℕ) (us : List UpstreamConfig) (r : Rate) (chs : List ChannelInfo)
      → IsRateReads
      → r.failed ≡ 2
      → r.total ≡ 1
      → All (NotAbove failed us r) chs
      → All (IsUnusable failed us) chs
  NotAbove-two failed us r [] laws f t h = tt
  NotAbove-two failed us r (ch ∷ rest) laws f t h = (
    elim (Option-cases (candidate failed us ch)) [
      | inl e ↦ ground (arith, e)
      | inr (u, e) ↦ ground (arith, e, h.0, laws.total_pos u, laws.at_most_one u)
    ],
    NotAbove-two failed us r rest laws f t h.1,
  )

  -- If failure rates are fractions of at most 1, the channel that the fallback chooses is one of the active channels
  -- that are marked active, have not failed in this request, have an API key and whose circuit is not open, it is
  -- chosen with its index, and its failure rate is the lowest among them.
  pub fallback_lowest_rate :
      (failed : List ℕ) (us : List UpstreamConfig) (active : List ChannelInfo) (s : SelectionResult)
      → IsRateReads
      → select_fallback_channel reads failed us active ≡ selected s
      → IsOneOf reads failed us s active
        × All (NotAbove failed us (reads.failure_rate s.upstream)) active
  fallback_lowest_rate failed us active s laws e =
      let p : 0 < no_choice.rate.total = omega arith in
      let chosen = fallback_choice reads failed us active s e in
      (
        elim (fallback_from-IsOneOf reads failed us no_choice active s chosen) [
          | inl old ↦ absurd (ground (arith, old))
          | inr new ↦ new
        ],
        ground (
          arith,
          chosen,
          fallback_from-NotAbove failed us no_choice active laws p,
          fallback_from-IsRateOf failed us no_choice active (refl, refl),
        ),
      )

  -- If failure rates are fractions of at most 1, the fallback refuses only where every active channel has failed in this
  -- request, is not marked active, is gone, has no API key, or has an open circuit.
  pub fallback_refuses :
      (failed : List ℕ) (us : List UpstreamConfig) (active : List ChannelInfo)
      → IsRateReads
      → select_fallback_channel reads failed us active ≡ refused all_unavailable
      → All (IsUnusable failed us) active
  unfolding select_fallback_channel
  fallback_refuses failed us active laws e =
      elim (Option-cases (fallback_from reads failed us no_choice active).choice) [
        | inl n ↦
            let r : IsRateOf (fallback_from reads failed us no_choice active) =
              fallback_from-IsRateOf failed us no_choice active (refl, refl) in
            let p : 0 < no_choice.rate.total = omega arith in
            NotAbove-two failed us (fallback_from reads failed us no_choice active).rate active laws
              (ground (arith, r, n)) (ground (arith, r, n))
              (fallback_from-NotAbove failed us no_choice active laws p)
        | inr (s, n) ↦ ground (arith, n)
      ]
