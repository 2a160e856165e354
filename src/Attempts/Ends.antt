-- ===== src/Attempts/Ends.antt =====
-- What holds after the loops of an attempt on a channel, where each round keeps it:
-- backend-go/internal/handlers/common/upstream_failover.go.
use ccx.Base.{ℕ, zero, suc, Bool, true, List, [], ◌∷◌, length, All}
use ccx.Config.Types.{UpstreamConfig}
use ccx.UrlManager.{UrlLatencyResult}
use ccx.Attempts.{Ports, Answer, State, Flow, returned, next_url, next_key, Round}
use ccx.Attempts.Trace.{attempt, attempts, and_then, after_url, over_urls}

module _ {W : Type 0} where
  abbrev pub EndsIn : (State W → Type 0) → Flow W → Type 0
  EndsIn P (returned a t) = P t
  EndsIn P (next_url t) = P t
  EndsIn P (next_key t) = P t

  module _ (ports : Ports W) (P : State W → Type 0)
      (reset : (s : State W) → P s → P (record s { failed_keys = [] })) where
    and_then-EndsIn :
        (others : State W → Flow W) (f : Flow W)
        → ((t : State W) → P t → EndsIn P (others t))
        → EndsIn P f
        → EndsIn P (and_then others f)
    and_then-EndsIn others (returned a t) step h = h
    and_then-EndsIn others (next_url t) step h = h
    and_then-EndsIn others (next_key t) step h = step t h

    after_url-EndsIn :
        (others : State W → Answer × State W) (f : Flow W)
        → ((t : State W) → P t → P (others t).1)
        → EndsIn P f
        → P (after_url others f).1
    after_url-EndsIn others (returned a t) step h = h
    after_url-EndsIn others (next_url t) step h = step (record t { failed_keys = [] }) (reset t h)
    after_url-EndsIn others (next_key t) step h = step (record t { failed_keys = [] }) (reset t h)

    module _ (Good : UrlLatencyResult → Type 0)
        (round : (r : Round) (s : State W) → Good r.url → P s → EndsIn P (attempt ports r s)) where
      attempts-EndsIn :
          (left : ℕ) (b : Bool) (r : Round) (s : State W)
          → Good r.url
          → P s
          → EndsIn P (attempts ports left b r s)
      unfolding attempts
      attempts-EndsIn zero b r s g h = h
      attempts-EndsIn (suc left) b r s g h =
          and_then-EndsIn (λ t. attempts ports left true r t)
            (attempt ports (record r { is_retry = b }) s) (λ t p. attempts-EndsIn left true r t g p)
            (round (record r { is_retry = b }) s g h)

      pub over_urls-EndsIn :
          (u : UpstreamConfig) (fuzzy b : Bool) (urls : List UrlLatencyResult) (s : State W)
          → All Good urls
          → P s
          → P (over_urls ports u fuzzy b urls s).1
      unfolding over_urls
      over_urls-EndsIn u fuzzy b [] s g h = h
      over_urls-EndsIn u fuzzy b (r ∷ urls) s (here, g) h =
          after_url-EndsIn (λ t. over_urls ports u fuzzy true urls t)
            (attempts ports (length u.api_keys) b
              (record { upstream = u; is_fuzzy = fuzzy; url = r; is_retry = b }) s)
            (λ t p. over_urls-EndsIn u fuzzy true urls t g p)
            (attempts-EndsIn (length u.api_keys) b
              (record { upstream = u; is_fuzzy = fuzzy; url = r; is_retry = b }) s here h)
