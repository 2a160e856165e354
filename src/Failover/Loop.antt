-- ===== src/Failover/Loop.antt =====
-- How often the failover tries, and what it ends with:
-- backend-go/internal/handlers/common/multi_channel_failover.go.
use ccx.Base.{
  ℕ, string_eq, zero, suc, ◌+◌, ◌≤◌, ◌≡◌, ◌⊎◌, refl, Bool, true, false, List, [], ◌∷◌, String,
  length, arith, inl, inr,
}
use ccx.Scheduler.{
  get_active_channel_count, SelectionResult, Selection, SelectError, selected, refused, is_failed,
}
use ccx.Scheduler.Chosen.{select_channel-fresh}
use ccx.Failover.{
  Scheduling, select_in, AttemptResult, LoopState, Ending, cancelled, handled_by, all_failed,
  attempt_loop, handle_multi_channel_failover, select_error, note_failed, enter, first_state,
  affinity_channel,
}

-- No index stands twice in the list.
abbrev pub NoRepeat : List ℕ → Type 0
NoRepeat [] = Unit
NoRepeat (i ∷ is) = (is_failed is i ≡ false) × NoRepeat is

abbrev pub selection_cases :
    (s : Selection)
    → ((e : SelectError) × (s ≡ refused e)) ⊎ ((r : SelectionResult) × (s ≡ selected r))
selection_cases (refused e) = inl (e, refl)
selection_cases (selected r) = inr (r, refl)

-- The indices tried are those that failed, each of them once.
abbrev pub IsRound : {S : Type 0} → LoopState S → Type 0
IsRound l = (l.tried ≡ l.failed) × NoRepeat l.tried

module _ (S : Type 0) (is_cancelled : S → Bool) (try : SelectionResult → S → S × AttemptResult)
    (env : Scheduling S) (model prefix name : String) where
  abbrev loop : ℕ → LoopState S → LoopState S × Ending
  loop = attempt_loop S is_cancelled (select_in env model prefix name) try

  -- The state after an attempt that was not handled.
  abbrev pub next_round : SelectionResult → LoopState S → LoopState S
  next_round s l = note_failed s (try s l.world).1 (enter (try s l.world).0 s l)

  select_in-fresh :
      (w : S) (failed : List ℕ) (s : SelectionResult)
      → select_in env model prefix name w failed ≡ selected s
      → is_failed failed s.channel_index ≡ false
  unfolding select_in
  select_in-fresh w failed s e =
      (select_channel-fresh (env.reads w) env.supports (env.now w) failed (env.upstreams w)
        (env.preferred w) model prefix name s e).1

  enter-NoRepeat :
      (l : LoopState S) (s : SelectionResult) (w : S)
      → select_in env model prefix name l.world l.failed ≡ selected s
      → IsRound l
      → NoRepeat (enter w s l).tried
  enter-NoRepeat l s w e h = ground (arith, h.0, h.1, select_in-fresh l.world l.failed s e)

  next_round-IsRound :
      (l : LoopState S) (s : SelectionResult)
      → select_in env model prefix name l.world l.failed ≡ selected s
      → IsRound l
      → IsRound (next_round s l)
  next_round-IsRound l s e h = ground (arith, h.0, enter-NoRepeat l s (try s l.world).0 e h)

  next_round-length :
      (s : SelectionResult) (l : LoopState S) → length (next_round s l).tried ≡ suc (length l.tried)
  next_round-length s l = ground arith

  loop-NoRepeat : (rounds : ℕ) (l : LoopState S) → IsRound l → NoRepeat (loop rounds l).0.tried
  unfolding attempt_loop
  loop-NoRepeat zero l h = h.1
  loop-NoRepeat (suc rounds) l h =
      elim (selection_cases (select_in env model prefix name l.world l.failed)) [
        | inl (x, e) ↦ ground (arith, e, h.1)
        | inr (s, e) ↦ ground (
          arith,
          e,
          h.1,
          enter-NoRepeat l s (try s l.world).0 e h,
          loop-NoRepeat rounds (next_round s l) (next_round-IsRound l s e h),
        )
      ]

  loop-length :
      (rounds : ℕ) (l : LoopState S) → length (loop rounds l).0.tried ≤ length l.tried + rounds
  unfolding attempt_loop
  loop-length zero l = omega arith
  loop-length (suc rounds) l =
      elim (selection_cases (select_in env model prefix name l.world l.failed)) [
        | inl (x, e) ↦ ground (arith, e)
        | inr (s, e) ↦ ground (arith, e, loop-length rounds (next_round s l), next_round-length s l)
      ]

  -- How the loop ended: the request was cancelled; the attempt made last was handled; or all channels failed, where
  -- no round was left, or the scheduler refused in the state that the loop ended in.
  abbrev pub Ended : ℕ → LoopState S → Ending → Type 0
  Ended n l cancelled = is_cancelled l.world ≡ true
  Ended n l (handled_by s r ch) =
      (r.handled ≡ true) × (is_failed l.tried s.channel_index ≡ true) × (ch ≡ affinity_channel s r)
  Ended n l (all_failed f e) =
      (f ≡ l.last_failover_error)
      × (e ≡ l.last_error)
      × ((length l.tried ≡ n)
          ⊎ ((x : SelectError) × (select_in env model prefix name l.world l.failed ≡ refused x)
              × (e ≡ select_error x)))

  abbrev failover : S → LoopState S × Ending
  failover = handle_multi_channel_failover S is_cancelled try env model prefix name

  abbrev attempts : S → ℕ
  attempts w = get_active_channel_count env.supports (env.upstreams w)

  -- `HandleMultiChannelFailover` makes at most one attempt at each channel index, whatever the attempts do and however
  -- the configuration and the metrics change between them, and at most as many attempts as there are active
  -- channels when it starts. Of an index it counts what the number is, not which channel has it at the time.
  pub tries_no_index_twice :
      (w : S) → NoRepeat (failover w).0.tried × (length (failover w).0.tried ≤ attempts w)
  unfolding handle_multi_channel_failover
  tries_no_index_twice w = (
    loop-NoRepeat (attempts w) (first_state w) (refl, tt),
    ground (arith, loop-length (attempts w) (first_state w)),
  )
