-- ===== src/UrlManager.antt =====
-- The order in which the base URLs of a channel are tried: backend-go/internal/warmup/url_manager.go.
-- Instants and durations are numbers of one unit; the instants that one call reads are one instant.
-- An instant that was never set is 0.
use ccx.Base.{
  ℕ, ℕ_eq, zero, suc, ◌+◌, ◌≡◌, Bool, true, false, ◌&&◌, ◌||◌, Option, none, some, List, [], ◌∷◌,
  String, ltb, leb, nat_eq, str_eq, if◌then◌else◌, length, any, all, map,
}
use ccx.Base.Dict.{Dict, lookup, insert, delete}
use ccx.Base.Sort.{sort_stable}
pub mod Order
pub mod Track

pub record UrlLatencyResult : Type 0 where
  pub url : String
  pub original_idx : ℕ
  pub success : Bool

pub record UrlState : Type 0 where
  pub url : String
  pub original_idx : ℕ
  pub fail_count : ℕ
  pub last_fail_time : ℕ
  pub last_success_time : ℕ
  pub total_requests : ℕ
  pub total_failures : ℕ

pub record ChannelUrlState : Type 0 where
  pub channel_index : ℕ
  pub urls : List UrlState
  pub updated_at : ℕ

pub record UrlManager : Type 0 where
  pub channel_states : Dict ℕ ChannelUrlState
  pub failure_cooldown : ℕ
  pub max_fail_count : ℕ

-- 30 seconds, in nanoseconds.
abbrev pub default_cooldown : ℕ
default_cooldown = 30000000000

abbrev pub default_max_fail_count : ℕ
default_max_fail_count = 3

unfoldable pub new_url_manager : ℕ → ℕ → UrlManager
new_url_manager cooldown max_fail_count = record {
  channel_states = [];
  failure_cooldown = if leb cooldown 0 then default_cooldown else cooldown;
  max_fail_count = if leb max_fail_count 0 then default_max_fail_count else max_fail_count;
}

-- `now.Sub(LastFailTime) >= failureCooldown`
abbrev pub cooldown_passed : ℕ → ℕ → UrlState → Bool
cooldown_passed cooldown now u = leb (u.last_fail_time + cooldown) now

abbrev pub no_fail : UrlState → Bool
no_fail u = nat_eq u.fail_count 0

-- The test of `sortURLs`. The remaining times are compared with `now` added to both.
unfoldable pub url_less : ℕ → ℕ → UrlState → UrlState → Bool
url_less cooldown now a b =
    if no_fail a && no_fail b
    then ltb a.original_idx b.original_idx
    else if no_fail a || no_fail b
    then no_fail a
    else if cooldown_passed cooldown now a && cooldown_passed cooldown now b
    then (if nat_eq a.fail_count b.fail_count
        then ltb a.original_idx b.original_idx
        else ltb a.fail_count b.fail_count)
    else if cooldown_passed cooldown now a || cooldown_passed cooldown now b
    then cooldown_passed cooldown now a
    else ltb (cooldown + a.last_fail_time) (cooldown + b.last_fail_time)

unfoldable pub sort_urls : ℕ → ℕ → List UrlState → List UrlState
unfolding sort_stable url_less
sort_urls cooldown now = sort_stable (url_less cooldown now)

abbrev pub new_url_state : String → ℕ → UrlState
new_url_state url i = record {
  url = url;
  original_idx = i;
  fail_count = 0;
  last_fail_time = 0;
  last_success_time = 0;
  total_requests = 0;
  total_failures = 0;
}

-- The loop over `urls`, from index `i` on.
abbrev pub new_urls : ℕ → List String → List UrlState
new_urls i [] = []
new_urls i (url ∷ urls) = new_url_state url i ∷ new_urls (suc i) urls

abbrev pub new_channel_state : ℕ → List String → ℕ → ChannelUrlState
new_channel_state ch urls now = record {
  channel_index = ch;
  urls = new_urls 0 urls;
  updated_at = now;
}

abbrev pub member : String → List String → Bool
member url urls = any (λ u. str_eq u url) urls

unfoldable pub urls_match : List UrlState → List String → Bool
urls_match states urls =
    if nat_eq (length states) (length urls) then all (λ s. member s.url urls) states else false

-- The state that `ensureChannelState` returns, which it also stores.
unfoldable pub ensured_state : ℕ → List String → ℕ → UrlManager → ChannelUrlState
unfolding urls_match
ensured_state ch urls now m = elim (lookup ch m.channel_states) [
  | none ↦ new_channel_state ch urls now
  | some s ↦ if urls_match s.urls urls then s else new_channel_state ch urls now
]

abbrev pub to_result : ℕ → ℕ → UrlState → UrlLatencyResult
to_result cooldown now u = record {
  url = u.url;
  original_idx = u.original_idx;
  success = no_fail u || cooldown_passed cooldown now u;
}

unfoldable pub get_sorted_urls :
    ℕ → List String → ℕ → UrlManager → UrlManager × List UrlLatencyResult
unfolding ensured_state sort_urls
get_sorted_urls ch [] now m = (m, [])
get_sorted_urls ch (url ∷ []) now m =
    (m, record { url = url; original_idx = 0; success = true } ∷ [])
get_sorted_urls ch (url ∷ url' ∷ urls) now m =
    let state = ensured_state ch (url ∷ url' ∷ urls) now m in
    let sorted = sort_urls m.failure_cooldown now state.urls in
    (
      record m { channel_states = insert ch (record state { urls = sorted }) m.channel_states },
      map (to_result m.failure_cooldown now) sorted,
    )

-- The loop of `MarkSuccess` and `MarkFailure`: the first state of the URL.
unfoldable pub update_first : (UrlState → UrlState) → String → List UrlState → List UrlState
update_first f url [] = []
update_first f url (u ∷ us) = if str_eq u.url url then f u ∷ us else u ∷ update_first f url us

abbrev pub succeeded : ℕ → UrlState → UrlState
succeeded now u = record u {
  fail_count = 0;
  last_success_time = now;
  total_requests = u.total_requests + 1;
}

abbrev pub failed : ℕ → UrlState → UrlState
failed now u = record u {
  fail_count = u.fail_count + 1;
  last_fail_time = now;
  total_requests = u.total_requests + 1;
  total_failures = u.total_failures + 1;
}

-- What `MarkSuccess` and `MarkFailure` share: nothing for a channel without a state.
unfoldable pub mark : (UrlState → UrlState) → ℕ → String → ℕ → UrlManager → UrlManager
unfolding update_first sort_urls
mark f ch url now m = elim (lookup ch m.channel_states) [
  | none ↦ m
  | some s ↦
      let sorted = sort_urls m.failure_cooldown now (update_first f url s.urls) in
      record m {
        channel_states = insert ch (record s { urls = sorted; updated_at = now }) m.channel_states;
      }
]

unfoldable pub mark_success : ℕ → String → ℕ → UrlManager → UrlManager
unfolding mark
mark_success ch url now = mark (succeeded now) ch url now

unfoldable pub mark_failure : ℕ → String → ℕ → UrlManager → UrlManager
unfolding mark
mark_failure ch url now = mark (failed now) ch url now

unfoldable pub invalidate_channel : ℕ → UrlManager → UrlManager
invalidate_channel ch m = record m { channel_states = delete ch m.channel_states }

unfoldable pub invalidate_all : UrlManager → UrlManager
invalidate_all m = record m { channel_states = [] }
