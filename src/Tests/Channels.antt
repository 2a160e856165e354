-- ===== src/Tests/Channels.antt =====
-- Runs of the channel metrics, the scheduler and the failover: backend-go/internal/metrics/channel_metrics.go,
-- backend-go/internal/scheduler/channel_scheduler.go, backend-go/internal/handlers/common and backend-go/internal/transitions.
use ccx.Config.Types.{UpstreamConfig, Options}
use ccx.Base.{
  ℕ, ℕ_eq, string_eq, ◌+◌, ◌*◌, ◌≤◌, ◌≡◌, refl, Bool, true, false, none, some, List, [], ◌∷◌,
  String, arith, All, length, get_elem?, map, if◌then◌else◌, str_eq,
}
use ccx.Breaker.{Config, Key, state_closed, state_open, new_key_metrics}
use ccx.Metrics.{Names, channel_circuit_state, url_key_pairs}
use ccx.Metrics.Channel.{channel_verdict, pair_state, channel_circuit_state-verdict}
use ccx.Scheduler.{
  get_active_channel_count, ChannelInfo, Reads, SelectionResult, get_active_channels,
  with_route_prefix, is_failed, priority_order, fallback, info_of,
}
use ccx.Scheduler.Select.{select_channel, select_fallback_channel}
use ccx.Scheduler.Chosen.{select_channel-fresh}
use ccx.Scheduler.Fallback.{
  IsRateReads, NotAbove, IsUnusable, fallback_lowest_rate, fallback_refuses,
}
use ccx.Scheduler.Usable.{IsOneOf}
use ccx.Scheduler.Priority.{NotAhead, select_channel-best_priority}
use ccx.Scheduler.Recovery.{hour, day}
use ccx.Affinity.{TraceAffinityManager}
use ccx.Failover.{AttemptResult, Scheduling, handle_multi_channel_failover}
use ccx.Failover.Loop.{NoRepeat, tries_no_index_twice}
use ccx.Retry.{Body, decision}
use ccx.Transitions.{Callbacks, ok, restore_disabled_keys_and_activate}

abbrev pub no_options : Options
no_options = record {
  description = "";
  website = "";
  insecure_skip_verify = false;
  reasoning_param_style = "";
  text_verbosity = "";
  fast_mode = false;
  normalize_nonstandard_chat_roles = false;
  codex_native_tool_passthrough = false;
  codex_tool_compat = none;
  strip_codex_client_tools = false;
  low_quality = false;
  auto_blacklist_balance = none;
  normalize_metadata_user_id = none;
  inject_dummy_thought_signature = false;
  strip_thought_signature = false;
  passback_reasoning_content = false;
  custom_headers = [];
  proxy_url = "";
}

abbrev pub channel : String → ℕ → List String → UpstreamConfig
channel name priority keys = record {
  base_url = "https://a";
  base_urls = [];
  api_keys = keys;
  historical_api_keys = [];
  disabled_api_keys = [];
  service_type = "claude";
  name = name;
  model_mapping = [];
  reasoning_mapping = [];
  priority = priority;
  status = "";
  promotion_until = none;
  supported_models = [];
  route_prefix = "";
  options = no_options;
}

-- "a" comes after "b", and "c" has no key.
abbrev channels : List UpstreamConfig
channels = channel "a" 5 ("k1" ∷ []) ∷ channel "b" 2 ("k2" ∷ []) ∷ channel "c" 1 [] ∷ []

abbrev reads : Reads
reads = record {
  circuit_state = λ u. if str_eq u.name "b" then state_open else state_closed;
  failure_rate = λ u.
      if str_eq u.name "b"
      then record { failed = 3; total = 4 }
      else record { failed = 1; total = 4 };
  is_healthy = λ u. true;
}

abbrev all_supported : UpstreamConfig → String → Bool
all_supported u model = true

abbrev chosen : SelectionResult
chosen = record { upstream = channel "a" 5 ("k1" ∷ []); channel_index = 0; reason = priority_order }

abbrev config : Config
config = record {
  window_size = 10;
  threshold_num = 1;
  threshold_den = 2;
  backoff_base = 30;
  backoff_max = 600;
  half_open_target = 2;
  has_store = false;
}

-- A name is the key itself, without regard to the URL.
abbrev names : Names
names = record { identity_key = λ url key service. key; variant_keys = λ url key service. key ∷ [] }

opened : Key
unfolding new_key_metrics
opened = record {
  metrics = record (new_key_metrics "k1" "https://a" "k***") {
    circuit_state = state_open;
    circuit_broken_at = some 0;
    next_retry_at = some 30;
  };
  upserts = [];
  records = [];
}

channel_circuit_state-verdict_example :
    (channel_circuit_state config names "claude" 20
      ("https://a" ∷ [])
      ("k1" ∷ "k2" ∷ [])
      (("k1", opened) ∷ [])).1
    ≡ channel_verdict
        (map
          (pair_state config names "claude" 20 (("k1", opened) ∷ []))
          (url_key_pairs ("https://a" ∷ []) ("k1" ∷ "k2" ∷ [])))
        false
channel_circuit_state-verdict_example =
    channel_circuit_state-verdict config names "claude" 20 ("https://a" ∷ []) ("k1" ∷ "k2" ∷ [])
      (("k1", opened) ∷ [])

select_channel-fresh_example :
    (get_elem? channels 0 ≡ some chosen.upstream) × (is_failed (2 ∷ []) 0 ≡ false)
unfolding select_channel
select_channel-fresh_example =
    select_channel-fresh reads all_supported 0 (2 ∷ []) channels none "" "" "" chosen refl

select_channel-best_priority_example :
    All
      (NotAhead reads [] channels 5)
      (with_route_prefix "" channels (get_active_channels all_supported "" channels))
unfolding select_channel
select_channel-best_priority_example =
    select_channel-best_priority reads all_supported 0 [] channels none "" "" "" chosen refl refl

reads-IsRateReads : IsRateReads reads
reads-IsRateReads = record { total_pos = λ u. ground arith; at_most_one = λ u. ground arith }

abbrev infos : List ChannelInfo
infos = info_of 1 (channel "b" 2 ("k2" ∷ [])) ∷ info_of 0 (channel "a" 5 ("k1" ∷ [])) ∷ []

abbrev fallen_back : SelectionResult
fallen_back = record chosen { reason = fallback }

fallback_lowest_rate_example :
    IsOneOf reads [] channels fallen_back infos
    × All (NotAbove reads [] channels (reads.failure_rate fallen_back.upstream)) infos
unfolding select_fallback_channel
fallback_lowest_rate_example =
    fallback_lowest_rate reads [] channels infos fallen_back reads-IsRateReads refl

fallback_refuses_example : All (IsUnusable reads (0 ∷ []) channels) infos
unfolding select_fallback_channel
fallback_refuses_example = fallback_refuses reads (0 ∷ []) channels infos reads-IsRateReads refl

abbrev noon : ℕ
noon = 3 * day + 12 * hour

-- The state is the number of attempts made; each of them fails.
abbrev env : Scheduling ℕ
env = record {
  reads = λ n. reads;
  upstreams = λ n. channels;
  now = λ n. n;
  preferred = λ n. none;
  supports = all_supported;
}

abbrev failing : SelectionResult → ℕ → ℕ × AttemptResult
failing s n =
    (n + 1, record { handled = false; attempted = true; success_key = ""; failover_error = none })

tries_no_index_twice_example :
    let l = (handle_multi_channel_failover ℕ (λ n. false) failing env "" "" "" 0).0 in
    NoRepeat l.tried × (length l.tried ≤ get_active_channel_count all_supported channels)
tries_no_index_twice_example = tries_no_index_twice ℕ (λ n. false) failing env "" "" "" 0

abbrev body : Body
body = record {
  size = 20;
  is_content_moderation_error = false;
  is_non_retryable_error = true;
  classify_by_error_message = decision false false;
}

-- The state is the list of the keys that were moved to half-open.
abbrev callbacks : Callbacks (List String)
callbacks = record {
  restore_disabled_keys = λ keys w. (w, ok keys);
  move_key_to_half_open = λ url key w. key ∷ w;
  set_channel_status = λ status w. (w, none);
  should_activate_channel = some (λ w. true);
}

both_keys_moved :
    (restore_disabled_keys_and_activate callbacks ("k1" ∷ "k2" ∷ []) []).0 ≡ "k2" ∷ "k1" ∷ []
unfolding restore_disabled_keys_and_activate
both_keys_moved = refl

abbrev affinity : TraceAffinityManager
affinity = record { affinity = []; ttl = 30 }
