-- ===== src/Attempts/Trace.antt =====
-- The loops over the base URLs and the keys of a channel:
-- `TryUpstreamWithAllKeys` of backend-go/internal/handlers/common/upstream_failover.go.
use ccx.Attempts.Answers.{probe_key, add_name, emit, on_response}
use ccx.Base.{
  ℕ, zero, suc, Bool, true, false, ◌||◌, Option, none, some, List, [], ◌∷◌, ◌++◌, String, nat_eq,
  if◌then◌else◌, length,
}
use Prim.Native.Char.{code}
use ccx.Breaker.{state_closed, state_open, state_half_open}
use ccx.Config.Types.{UpstreamConfig}
use ccx.UrlManager.{UrlLatencyResult}
use ccx.Attempts.{
  Event, probe_acquired, probe_released, request_start, log_created, connected, Ports, Answer,
  State, Flow, returned, next_url, next_key, Round, answer, no_next_key, request_build_failed,
}

-- A text cut at its first `|`, as `strings.SplitN(key, "|", 2)` does.
unfoldable pub cut : String → Option (String × String)
cut String.[] = none
cut (String.◌∷◌ c s) =
    let rest = cut s in
    if nat_eq (code c) b'|'
    then some (String.[], s)
    else elim rest [ none ↦ none | some parts ↦ some (String.◌∷◌ c parts.0, parts.1) ]

-- `ReleaseProbe` of the two parts of a probe's key.
abbrev pub release_of : Option (String × String) → List Event
release_of none = []
release_of (some (url, key)) = probe_released url key ∷ []

unfoldable pub releases : List String → List Event
unfolding cut
releases [] = []
releases (probe ∷ probes) = release_of (cut probe) ++ releases probes

module _ {W : Type 0} where
  -- A round that does not end the loop is followed by the others.
  abbrev pub and_then : (State W → Flow W) → Flow W → Flow W
  and_then others (returned a t) = returned a t
  and_then others (next_url t) = next_url t
  and_then others (next_key t) = others t

  -- The answer when no URL is left.
  abbrev pub exhausted : State W → Answer
  exhausted s = record (answer false s.last_error) { failover_error = s.last_failover }

  -- What follows the loop over the keys of one URL.
  abbrev pub after_url : (State W → Answer × State W) → Flow W → Answer × State W
  after_url others (returned a t) = (a, t)
  after_url others (next_url t) = others (record t { failed_keys = [] })
  after_url others (next_key t) = others (record t { failed_keys = [] })

  abbrev pub initial : W → State W
  initial w = record {
    world = w;
    trace = [];
    failed_keys = [];
    probes = [];
    candidates = [];
    last_failover = none;
    last_error = none;
  }

module _ {W : Type 0} (ports : Ports W) where
  -- The request is built and sent.
  unfoldable pub send_with : Round → String → State W → Flow W
  unfolding on_response
  send_with r key s =
      let url = r.url.url in
      let built = ports.build_request url key s.world in
      let sent = ports.send_request url key built.0 in
      if built.1
      then on_response r key sent.1 (
          emit (connected url key ∷ log_created url key ∷ request_start url key ∷ [])
            (record s { world = sent.0 }))
      else returned (answer false (some request_build_failed)) (record s { world = built.0 })

  -- A key is passed over where it is open, or half-open with a probe under way.
  unfoldable pub attempt_key : Round → String → State W → Flow W
  unfolding send_with
  attempt_key r key s =
      let url = r.url.url in
      let state = ports.get_key_circuit_state url key s.world in
      let probe = ports.try_acquire_probe url key state.0 in
      let skipped =
        λ (w : W). next_key (record s { world = w; failed_keys = key ∷ s.failed_keys }) in
      elim state.1 [
        | state_open ↦ skipped state.0
        | state_closed ↦ send_with r key (record s { world = state.0 })
        | state_half_open ↦
            if probe.1
            then send_with r key (
                emit (probe_acquired url key ∷ [])
                  (record s { world = probe.0; probes = add_name (probe_key url key) s.probes }))
            else skipped probe.0
      ]

  -- One round of the loop over the keys.
  unfoldable pub attempt : Round → State W → Flow W
  unfolding attempt_key
  attempt r s =
      let next = ports.next_api_key s.failed_keys s.world in
      elim next.1 [
        | none ↦ next_url (record s { world = next.0; last_error = some no_next_key })
        | some key ↦ attempt_key r key (record s { world = next.0 })
      ]

  -- `left` rounds are left of those that the channel has keys.
  unfoldable pub attempts : ℕ → Bool → Round → State W → Flow W
  unfolding attempt
  attempts zero is_retry r s = next_url s
  attempts (suc left) is_retry r s =
      and_then (λ t. attempts left true r t) (attempt (record r { is_retry = is_retry }) s)

  unfoldable pub over_urls :
      UpstreamConfig → Bool → Bool → List UrlLatencyResult → State W → Answer × State W
  unfolding attempts
  over_urls u is_fuzzy is_retry [] s = (exhausted s, s)
  over_urls u is_fuzzy is_retry (url ∷ urls) s =
      after_url (λ t. over_urls u is_fuzzy true urls t)
        (attempts (length u.api_keys) is_retry
          (record { upstream = u; is_fuzzy = is_fuzzy; url = url; is_retry = is_retry }) s)

  -- The answer, the world and the calls made, the last first. The probes that are left are released at the end.
  unfoldable pub try_upstream_with_all_keys :
      UpstreamConfig → Bool → List UrlLatencyResult → W → Answer × State W
  unfolding over_urls releases
  try_upstream_with_all_keys u is_fuzzy urls w =
      if nat_eq (length u.api_keys) 0 || nat_eq (length urls) 0
      then (answer false none, initial w)
      else let run = over_urls u is_fuzzy false urls (initial w) in
        (run.0, emit (releases run.1.probes) run.1)
