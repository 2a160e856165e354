-- ===== src/Failover.antt =====
-- The failover of a request over channels: `HandleMultiChannelFailover` of
-- backend-go/internal/handlers/common/multi_channel_failover.go.
-- The attempt on a selected channel (`trySelectedChannel`) is the parameter `try`: it takes the
-- state of everything outside the loop and the selection, and returns the state and its result. Each
-- selection is the scheduler's, by what the state then holds; a configuration may change between two of
-- them. Logging and the texts of the errors are left out.
use ccx.Config.Types.{UpstreamConfig}
use ccx.Base.{
  ℕ, string_eq, zero, suc, ◌+◌, ◌≡◌, Bool, true, false, not, Option, none, some, List, [], ◌∷◌,
  ◌++◌, String, nat_eq, str_eq, if◌then◌else◌, length, any,
}
use ccx.Scheduler.{
  get_active_channel_count, SelectionResult, Selection, SelectError, selected, refused, Reads,
}
use ccx.Scheduler.Select.{select_channel}
pub mod Loop

-- `MultiChannelAttemptResult`: what the loop reads of it.
pub record AttemptResult : Type 0 where
  pub handled : Bool
  pub attempted : Bool
  pub success_key : String
  pub failover_error : Option String

-- `lastError`: none, an error of the selection, or "channel failed".
pub data LastError : Type 0 where
  no_error : LastError
  select_error : SelectError → LastError
  channel_failed : ℕ → LastError

-- How the call ends: by return on a cancelled request, with a handled result and the channel that
-- `SetTraceAffinity` is called for, or by `handleAllFailed`.
pub data Ending : Type 0 where
  cancelled : Ending
  handled_by : SelectionResult → AttemptResult → Option ℕ → Ending
  all_failed : Option String → LastError → Ending

-- The variables of the loop. `tried` is every channel that an attempt was made on, the last first.
pub record LoopState (S : Type 0) : Type 0 where
  pub world : S
  pub failed : List ℕ
  pub tried : List ℕ
  pub last_error : LastError
  pub last_failover_error : Option String

abbrev pub affinity_channel : SelectionResult → AttemptResult → Option ℕ
affinity_channel s r = if not (str_eq r.success_key "") then some s.channel_index else none

-- `failedChannels[channelIndex] = true` and the errors of an attempt that was not handled.
abbrev pub note_failed : {S : Type 0} → SelectionResult → AttemptResult → LoopState S → LoopState S
note_failed s r l = elim r.failover_error [
  | none ↦ record l { failed = s.channel_index ∷ l.failed }
  | some e ↦ record l {
    failed = s.channel_index ∷ l.failed;
    last_failover_error = some e;
    last_error = channel_failed s.channel_index;
  }
]

abbrev pub enter : {S : Type 0} → S → SelectionResult → LoopState S → LoopState S
enter w s l = record l { world = w; tried = s.channel_index ∷ l.tried }

-- What a selection reads of the state: the metrics, the channels of the kind, the clock, the channel of
-- the user's trace affinity, and which channel supports which model.
pub record Scheduling (S : Type 0) : Type 0 where
  pub reads : S → Reads
  pub upstreams : S → List UpstreamConfig
  pub now : S → ℕ
  pub preferred : S → Option ℕ
  pub supports : UpstreamConfig → String → Bool

-- `SelectChannel` for a request of a model, a route prefix and the `X-Channel` header.
unfoldable pub select_in :
    {S : Type 0} → Scheduling S → String → String → String → S → List ℕ → Selection
select_in env model prefix name w failed =
    select_channel (env.reads w) env.supports (env.now w) failed (env.upstreams w) (env.preferred w)
      model prefix name

module _ (S : Type 0) (is_cancelled : S → Bool) (select : S → List ℕ → Selection)
    (try : SelectionResult → S → S × AttemptResult) where
  -- The loop with `rounds` rounds left.
  unfoldable pub attempt_loop : ℕ → LoopState S → LoopState S × Ending
  attempt_loop zero l = (l, all_failed l.last_failover_error l.last_error)
  attempt_loop (suc rounds) l =
      if is_cancelled l.world then (l, cancelled) else elim (select l.world l.failed) [
        | refused e ↦ (
          record l { last_error = select_error e },
          all_failed l.last_failover_error (select_error e),
        )
        | selected s ↦
            let (w, r) = try s l.world in
            let next = attempt_loop rounds (note_failed s r (enter w s l)) in
            if r.handled then (enter w s l, handled_by s r (affinity_channel s r)) else next
      ]

abbrev pub first_state : {S : Type 0} → S → LoopState S
first_state w = record {
  world = w;
  failed = [];
  tried = [];
  last_error = no_error;
  last_failover_error = none;
}

-- `max_channel_attempts` is `GetActiveChannelCount` at the start.
unfoldable pub handle_multi_channel_failover :
    (S : Type 0) (is_cancelled : S → Bool) (try : SelectionResult → S → S × AttemptResult)
    → Scheduling S
    → String
    → String
    → String
    → S
    → LoopState S × Ending
unfolding attempt_loop get_active_channel_count
handle_multi_channel_failover S is_cancelled try env model prefix name w =
    attempt_loop S is_cancelled (select_in env model prefix name) try
      (get_active_channel_count env.supports (env.upstreams w)) (first_state w)
