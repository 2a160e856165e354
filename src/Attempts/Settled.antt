-- ===== src/Attempts/Settled.antt =====
-- What every request of an attempt on a channel comes to:
-- backend-go/internal/handlers/common/upstream_failover.go.
use ccx.Attempts.Answers.{
  add_name, emit, blacklisting, deprioritize_all, probe_key, on_bad_status, on_good_status,
  on_response,
}
use ccx.Base.{
  ℕ, ◌+◌, ◌≡◌, refl, Bool, true, false, ◌&&◌, ◌||◌, Option, none, some, List, [], ◌∷◌, ◌++◌, String,
  str_eq, nat_eq, length, count, arith, inl, inr, ◌⊎◌, All, Bool-cases, Option-cases,
}
use ccx.Breaker.{state_closed, state_open, state_half_open, CircuitState}
use ccx.Config.Types.{UpstreamConfig}
use ccx.Config.Keys.{has}
use ccx.Retry.{should_retry_with_next_key}
use ccx.UrlManager.{UrlLatencyResult}
use ccx.Attempts.{
  Event, probe_acquired, request_start, log_created, connected, finalize_success, finalize_failure,
  finalize_cancel, request_end, url_succeeded, Handled, finished, canceled, invalid_response,
  key_blacklisted, broken, BadResponse, Response, send_canceled, send_failed, bad_status,
  good_status, Ports, State, Round,
}
use ccx.Attempts.Ends.{EndsIn, over_urls-EndsIn}
use ccx.Attempts.Trace.{
  send_with, attempt_key, attempt, over_urls, releases, initial, try_upstream_with_all_keys, cut,
}

-- Which calls start, finalize and end a request to the URL with the key.
abbrev pub is_start : String → String → Event → Bool
is_start url key e = elim e [ request_start u k ↦ str_eq u url && str_eq k key | _ ↦ false ]

abbrev pub is_end : String → String → Event → Bool
is_end url key e = elim e [ request_end u k ↦ str_eq u url && str_eq k key | _ ↦ false ]

abbrev pub is_final : String → String → Event → Bool
is_final url key e = elim e [
  | finalize_success u k ↦ str_eq u url && str_eq k key
  | finalize_failure u k c ↦ str_eq u url && str_eq k key
  | finalize_cancel u k ↦ str_eq u url && str_eq k key
  | _ ↦ false
]

pub State-cases :
    (c : CircuitState) → (c ≡ state_closed) ⊎ ((c ≡ state_open) ⊎ (c ≡ state_half_open))
State-cases state_closed = inl refl
State-cases state_open = inr (inl refl)
State-cases state_half_open = inr (inr refl)

abbrev pub one_if : Bool → ℕ
one_if true = 1
one_if false = 0

abbrev AnyUrl : UrlLatencyResult → Type 0
AnyUrl url = Unit

every_url : (urls : List UrlLatencyResult) → All AnyUrl urls
every_url [] = tt
every_url (url ∷ urls) = (tt, every_url urls)

module _ (url key : String) where
  -- `running` requests are started and not yet finalized, and as many not yet ended.
  abbrev pub IsOpen : ℕ → List Event → Type 0
  IsOpen running tr =
      (count (is_start url key) tr ≡ count (is_end url key) tr + running)
      × (count (is_start url key) tr ≡ count (is_final url key) tr + running)

  count-deprioritize :
      (n : ℕ) (keys : List String) (tr : List Event)
      → IsOpen n tr
      → IsOpen n (deprioritize_all keys ++ tr)
  count-deprioritize n [] tr h = h
  count-deprioritize n (k ∷ keys) tr h = count-deprioritize n keys tr h

  count-blacklisting :
      (n : ℕ) (u : UpstreamConfig) (k : String) (reason : Option String) (tr : List Event)
      → IsOpen n tr
      → IsOpen n (blacklisting u k reason ++ tr)
  unfolding blacklisting
  count-blacklisting n u k none tr h = h
  count-blacklisting n u k (some reason) tr h = ground (arith, h)

  module _ {W : Type 0} where
    abbrev pub IsSettled : State W → Type 0
    IsSettled s = IsOpen 0 s.trace

    on_bad_status-IsSettled :
        (r : Round) (k : String) (b : BadResponse) (s : State W)
        → IsOpen (one_if (str_eq r.url.url url && str_eq k key)) s.trace
        → EndsIn IsSettled (on_bad_status r k b s)
    unfolding on_bad_status
    on_bad_status-IsSettled r k b s h =
        let listed =
          count-blacklisting (one_if (str_eq r.url.url url && str_eq k key)) r.upstream k
            b.blacklist s.trace h in
        let d = should_retry_with_next_key r.is_fuzzy b.status b.body in
        elim (Bool-cases d.should_failover) [
          | inl e ↦ rw (on_bad_status, e) (ground (arith, listed))
          | inr e ↦ rw (on_bad_status, e) (ground (arith, listed))
        ]

    on_good_status-IsSettled :
        (r : Round) (k : String) (g : Handled) (s : State W)
        → IsOpen (one_if (str_eq r.url.url url && str_eq k key)) s.trace
        → EndsIn IsSettled (on_good_status r k g s)
    unfolding on_good_status
    on_good_status-IsSettled r k finished s h =
        let good = count-deprioritize _ s.candidates s.trace h in
        elim (Bool-cases (has s.probes (probe_key r.url.url k))) [
          | inl e ↦ rw (on_good_status, e) (ground (arith, good))
          | inr e ↦ rw (on_good_status, e) (ground (arith, good))
        ]
    on_good_status-IsSettled r k canceled s h =
        ground (arith, count-deprioritize _ s.candidates s.trace h)
    on_good_status-IsSettled r k invalid_response s h =
        ground (arith, count-deprioritize _ s.candidates s.trace h)
    on_good_status-IsSettled r k (key_blacklisted reason) s h =
        let good =
          count-deprioritize (one_if (str_eq r.url.url url && str_eq k key)) s.candidates s.trace
            h in
        ground (
          arith,
          count-blacklisting (one_if (str_eq r.url.url url && str_eq k key)) r.upstream k
              (some reason) (url_succeeded r.url.url ∷ deprioritize_all s.candidates ++ s.trace)
              good,
        )
    on_good_status-IsSettled r k broken s h =
        ground (arith, count-deprioritize _ s.candidates s.trace h)

    on_response-IsSettled :
        (r : Round) (k : String) (answer : Response) (s : State W)
        → IsOpen (one_if (str_eq r.url.url url && str_eq k key)) s.trace
        → EndsIn IsSettled (on_response r k answer s)
    unfolding on_response
    on_response-IsSettled r k send_canceled s h = ground (arith, h)
    on_response-IsSettled r k send_failed s h = ground (arith, h)
    on_response-IsSettled r k (bad_status b) s h = on_bad_status-IsSettled r k b s h
    on_response-IsSettled r k (good_status g) s h = on_good_status-IsSettled r k g s h

    module _ (ports : Ports W) where
      send_with-IsSettled :
          (r : Round) (k : String) (s : State W)
          → IsSettled s
          → EndsIn IsSettled (send_with ports r k s)
      unfolding send_with
      send_with-IsSettled r k s h =
          let built = ports.build_request r.url.url k s.world in
          let sent = ports.send_request r.url.url k built.0 in
          let begun =
            emit (connected r.url.url k ∷ log_created r.url.url k ∷ request_start r.url.url k ∷ [])
              (record s { world = sent.0 }) in
          elim (Bool-cases built.1) [
            | inl e ↦ rw (send_with, e) (on_response-IsSettled r k sent.1 begun (ground (arith, h)))
            | inr e ↦ rw (send_with, e) h
          ]

      attempt_key-IsSettled :
          (r : Round) (k : String) (s : State W)
          → IsSettled s
          → EndsIn IsSettled (attempt_key ports r k s)
      unfolding attempt_key
      attempt_key-IsSettled r k s h =
          let state = ports.get_key_circuit_state r.url.url k s.world in
          let probe = ports.try_acquire_probe r.url.url k state.0 in
          elim (State-cases state.1) [
            | inl e ↦ rw (attempt_key, e) (send_with-IsSettled r k (record s { world = state.0 }) h)
            | inr (inl e) ↦ rw (attempt_key, e) h
            | inr (inr e) ↦ elim (Bool-cases probe.1) [
              | inl p ↦
                  rw (attempt_key, e, p)
                    (send_with-IsSettled r k
                      (emit (probe_acquired r.url.url k ∷ []) (record s {
                        world = probe.0;
                        probes = add_name (probe_key r.url.url k) s.probes;
                      }))
                      h)
              | inr p ↦ rw (attempt_key, e, p) h
            ]
          ]

      attempt-IsSettled :
          (r : Round) (s : State W) → IsSettled s → EndsIn IsSettled (attempt ports r s)
      unfolding attempt
      attempt-IsSettled r s h =
          let next = ports.next_api_key s.failed_keys s.world in
          elim (Option-cases next.1) [
            | inl e ↦ rw (attempt, e) h
            | inr (k, e) ↦
                rw (attempt, e) (attempt_key-IsSettled r k (record s { world = next.0 }) h)
          ]

      count-releases :
          (probes : List String) (tr : List Event) → IsOpen 0 tr → IsOpen 0 (releases probes ++ tr)
      unfolding releases
      count-releases [] tr h = h
      count-releases (probe ∷ probes) tr h = elim (Option-cases (cut probe)) [
        | inl e ↦ rw (releases, e) (count-releases probes tr h)
        | inr (parts, e) ↦ rw (releases, e) (count-releases probes tr h)
      ]

      -- In the calls that an attempt on a channel makes, a request to a URL with a key is ended as often as it is
      -- started, and it is finalized (as a success, a failure or a cancellation) as often as it is started: whatever
      -- the keys, the probes and the responses are, no request is left running and none is counted twice.
      pub try_upstream_with_all_keys-IsSettled :
          (u : UpstreamConfig) (fuzzy : Bool) (urls : List UrlLatencyResult) (w : W)
          → IsSettled (try_upstream_with_all_keys ports u fuzzy urls w).1
      unfolding try_upstream_with_all_keys
      try_upstream_with_all_keys-IsSettled u fuzzy urls w =
          let run = over_urls ports u fuzzy false urls (initial w) in
          elim (Bool-cases (nat_eq (length u.api_keys) 0 || nat_eq (length urls) 0)) [
            | inl e ↦ rw (try_upstream_with_all_keys, e) (refl, refl)
            | inr e ↦
                rw (try_upstream_with_all_keys, e)
                  (count-releases run.1.probes run.1.trace (
                    over_urls-EndsIn ports IsSettled (λ _ h. h) AnyUrl
                      (λ r t _ h. attempt-IsSettled r t h) u fuzzy false urls (initial w)
                      (every_url urls) (refl, refl)))
          ]
