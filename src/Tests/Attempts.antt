-- ===== src/Tests/Attempts.antt =====
-- Runs of the attempts on a channel: backend-go/internal/handlers/common/upstream_failover.go.
use ccx.Base.{
  ℕ, ◌+◌, ◌≡◌, refl, true, false, Option, none, some, List, [], ◌∷◌, String, str_eq, if◌then◌else◌,
}
use ccx.Breaker.{state_closed, state_half_open}
use ccx.Config.Keys.{has}
use ccx.UrlManager.{UrlLatencyResult}
use ccx.Attempts.{Ports, Response, send_failed, good_status, finished}
use ccx.Attempts.Trace.{cut, try_upstream_with_all_keys}
use ccx.Attempts.Settled.{IsSettled, try_upstream_with_all_keys-IsSettled}
use ccx.Attempts.Held.{held}
use ccx.Attempts.Probes.{no_probe_left}
use ccx.Tests.Channels.{channel}

abbrev first_new : List String → List String → Option String
first_new failed [] = none
first_new failed (key ∷ keys) = if has failed key then first_new failed keys else some key

abbrev reply : String → Response
reply key = if str_eq key "k2" then good_status finished else send_failed

-- The world counts the requests; the first key is half-open and fails, the second succeeds.
abbrev ports : Ports ℕ
ports = record {
  next_api_key = λ failed w. (w, first_new failed ("k1" ∷ "k2" ∷ []));
  get_key_circuit_state =
      λ url key w. (w, (if str_eq key "k1" then state_half_open else state_closed));
  try_acquire_probe = λ url key w. (w, true);
  build_request = λ url key w. (w, true);
  send_request = λ url key w. (w + 1, reply key);
}

abbrev site : String → UrlLatencyResult
site url = record { url = url; original_idx = 0; success = true }

abbrev sites : List UrlLatencyResult
sites = site "https://a" ∷ site "https://b" ∷ []

second_key :
    (try_upstream_with_all_keys ports (channel "c" 0 ("k1" ∷ "k2" ∷ [])) true sites 0).0.success_key
    ≡ "k2"
unfolding try_upstream_with_all_keys
second_key = refl

try_upstream_with_all_keys-IsSettled_example :
    IsSettled "https://a" "k1"
      (try_upstream_with_all_keys ports (channel "c" 0 ("k1" ∷ "k2" ∷ [])) true sites 0).1
try_upstream_with_all_keys-IsSettled_example =
    try_upstream_with_all_keys-IsSettled "https://a" "k1" ports (channel "c" 0 ("k1" ∷ "k2" ∷ []))
      true sites 0

no_probe_left_example :
    held "https://a" "k1"
      (try_upstream_with_all_keys ports (channel "c" 0 ("k1" ∷ "k2" ∷ [])) true sites 0).1.trace
    ≡ false
unfolding cut
no_probe_left_example =
    no_probe_left "https://a" "k1" refl ports (channel "c" 0 ("k1" ∷ "k2" ∷ [])) true sites 0
      (refl, (refl, tt))
