-- ===== src/Attempts/Probes.antt =====
-- The half-open probes of an attempt on a channel:
-- backend-go/internal/handlers/common/upstream_failover.go.
use ccx.Attempts.Answers.{
  probe_key, add_name, emit, deprioritize_all, release_own, on_bad_status, on_good_status,
  on_response,
}
use ccx.Base.{
  ◌≡◌, refl, Bool, true, false, not, ◌||◌, none, some, List, [], ◌∷◌, ◌++◌, String, str_eq, nat_eq,
  length, arith, inl, inr, Bool-cases, Option-cases, eq_iff, All,
}
use ccx.Config.Keys.{has}
use ccx.Config.Keys.Lists.{has-filter}
use ccx.Config.Types.{UpstreamConfig}
use ccx.Retry.{should_retry_with_next_key}
use ccx.UrlManager.{UrlLatencyResult}
use ccx.Attempts.{
  probe_acquired, request_start, log_created, connected, request_end, finalize_success,
  url_succeeded, Handled, finished, canceled, invalid_response, key_blacklisted, broken,
  BadResponse, Response, send_canceled, send_failed, bad_status, good_status, Ports, State, Round,
}
use ccx.Attempts.Ends.{EndsIn, over_urls-EndsIn}
use ccx.Attempts.Settled.{State-cases}
use ccx.Attempts.Trace.{
  cut, send_with, attempt_key, attempt, over_urls, initial, try_upstream_with_all_keys,
}
use ccx.Attempts.Held.{
  held, held-deprioritize, held-blacklisting, held-releases, same_probe, IsPlain,
}

module _ (url key : String) (plain : cut url ≡ none) where
  module _ {W : Type 0} where
    -- A probe that is held is one of those to release.
    abbrev pub IsKept : State W → Type 0
    IsKept s = (not (held url key s.trace) || has s.probes (probe_key url key)) ≡ true

    release_own-IsKept :
        (u k : String) (s : State W) → cut u ≡ none → IsKept s → IsKept (release_own u k s)
    release_own-IsKept u k s p h = elim (Bool-cases (has s.probes (probe_key u k))) [
      | inl e ↦ ground (
        arith,
        e,
        h,
        has-filter (λ p. not (str_eq (probe_key u k) p)) s.probes (probe_key url key),
        eq_iff (probe_key u k) (probe_key url key),
        same_probe u k url key p plain,
        eq_iff u url,
        eq_iff k key,
      )
      | inr e ↦ ground (arith, e, h)
    ]

    acquire-IsKept :
        (u k : String) (s : State W) (w : W)
        → cut u ≡ none
        → IsKept s
        → IsKept (
            emit
              (probe_acquired u k ∷ [])
              (record s { world = w; probes = add_name (probe_key u k) s.probes }))
    acquire-IsKept u k s w p h = ground (
      arith,
      h,
      Bool-cases (has s.probes (probe_key u k)),
      eq_iff (probe_key url key) (probe_key u k),
      eq_iff u url,
      eq_iff k key,
    )

    on_bad_status-IsKept :
        (r : Round) (k : String) (b : BadResponse) (s : State W)
        → IsKept s
        → EndsIn IsKept (on_bad_status r k b s)
    unfolding on_bad_status
    on_bad_status-IsKept r k b s h =
        let listed = held-blacklisting url key plain r.upstream k b.blacklist s.trace in
        let d = should_retry_with_next_key r.is_fuzzy b.status b.body in
        elim (Bool-cases d.should_failover) [
          | inl e ↦ rw (on_bad_status, e) (ground (arith, listed, h))
          | inr e ↦ rw (on_bad_status, e) (ground (arith, listed, h))
        ]

    on_good_status-IsKept :
        (r : Round) (k : String) (g : Handled) (s : State W)
        → cut r.url.url ≡ none
        → IsKept s
        → EndsIn IsKept (on_good_status r k g s)
    unfolding on_good_status
    on_good_status-IsKept r k finished s p h =
        let good = held-deprioritize url key plain s.candidates s.trace in
        release_own-IsKept r.url.url k
          (emit
            (request_end r.url.url k
              ∷ finalize_success r.url.url k
              ∷ url_succeeded r.url.url
              ∷ deprioritize_all s.candidates)
            s)
          p (ground (arith, good, h))
    on_good_status-IsKept r k canceled s p h =
        ground (arith, held-deprioritize url key plain s.candidates s.trace, h)
    on_good_status-IsKept r k invalid_response s p h =
        ground (arith, held-deprioritize url key plain s.candidates s.trace, h)
    on_good_status-IsKept r k (key_blacklisted reason) s p h = ground (
      arith,
      held-deprioritize url key plain s.candidates s.trace,
      held-blacklisting url key plain r.upstream k (some reason)
          (url_succeeded r.url.url ∷ deprioritize_all s.candidates ++ s.trace),
      h,
    )
    on_good_status-IsKept r k broken s p h =
        ground (arith, held-deprioritize url key plain s.candidates s.trace, h)

    on_response-IsKept :
        (r : Round) (k : String) (answer : Response) (s : State W)
        → cut r.url.url ≡ none
        → IsKept s
        → EndsIn IsKept (on_response r k answer s)
    unfolding on_response
    on_response-IsKept r k send_canceled s p h = h
    on_response-IsKept r k send_failed s p h = h
    on_response-IsKept r k (bad_status b) s p h = on_bad_status-IsKept r k b s h
    on_response-IsKept r k (good_status g) s p h = on_good_status-IsKept r k g s p h

    module _ (ports : Ports W) where
      send_with-IsKept :
          (r : Round) (k : String) (s : State W)
          → cut r.url.url ≡ none
          → IsKept s
          → EndsIn IsKept (send_with ports r k s)
      unfolding send_with
      send_with-IsKept r k s p h =
          let built = ports.build_request r.url.url k s.world in
          let sent = ports.send_request r.url.url k built.0 in
          elim (Bool-cases built.1) [
            | inl e ↦
                rw (send_with, e)
                  (on_response-IsKept r k sent.1
                    (emit
                      (connected r.url.url k
                        ∷ log_created r.url.url k
                        ∷ request_start r.url.url k
                        ∷ [])
                      (record s { world = sent.0 }))
                    p h)
            | inr e ↦ rw (send_with, e) h
          ]

      attempt-IsKept :
          (r : Round) (s : State W)
          → cut r.url.url ≡ none
          → IsKept s
          → EndsIn IsKept (attempt ports r s)
      unfolding attempt attempt_key
      attempt-IsKept r s p h =
          let next = ports.next_api_key s.failed_keys s.world in
          elim (Option-cases next.1) [
            | inl e ↦ rw (attempt, e) h
            | inr (k, e) ↦
                let state = ports.get_key_circuit_state r.url.url k next.0 in
                let probe = ports.try_acquire_probe r.url.url k state.0 in
                elim (State-cases state.1) [
                  | inl c ↦
                      rw (attempt, e, attempt_key, c)
                        (send_with-IsKept r k (record s { world = state.0 }) p h)
                  | inr (inl c) ↦ rw (attempt, e, attempt_key, c) h
                  | inr (inr c) ↦ elim (Bool-cases probe.1) [
                    | inl a ↦
                        rw (attempt, e, attempt_key, c, a)
                          (send_with-IsKept r k
                            (emit (probe_acquired r.url.url k ∷ []) (record s {
                              world = probe.0;
                              probes = add_name (probe_key r.url.url k) s.probes;
                            }))
                            p (acquire-IsKept r.url.url k s probe.0 p h))
                    | inr a ↦ rw (attempt, e, attempt_key, c, a) h
                  ]
                ]
          ]

      -- If no base URL contains a `|`, then no probe that an attempt on a channel acquired for one of them is still held
      -- when the attempt is over, whatever its answer is: the last call about the probe, if any, released it.
      pub no_probe_left :
          (u : UpstreamConfig) (fuzzy : Bool) (urls : List UrlLatencyResult) (w : W)
          → All IsPlain urls
          → held url key (try_upstream_with_all_keys ports u fuzzy urls w).1.trace ≡ false
      unfolding try_upstream_with_all_keys
      no_probe_left u fuzzy urls w g =
          let run = over_urls ports u fuzzy false urls (initial w) in
          elim (Bool-cases (nat_eq (length u.api_keys) 0 || nat_eq (length urls) 0)) [
            | inl e ↦ rw (try_upstream_with_all_keys, e) refl
            | inr e ↦
                rw (try_upstream_with_all_keys, e)
                  (held-releases url key plain run.1.probes run.1.trace (
                    over_urls-EndsIn ports IsKept (λ _ h. h) IsPlain attempt-IsKept u fuzzy false
                      urls (initial w) g refl))
          ]
