-- ===== src/Tests/Stores.antt =====
-- Runs of the log store, the URL manager and the trace affinity: backend-go/internal/metrics/channel_log.go,
-- backend-go/internal/warmup/url_manager.go and backend-go/internal/session/trace_affinity.go.
use ccx.Base.{ℕ, ℕ_eq, string_eq, ◌≡◌, refl, true, false, none, some, List, [], ◌∷◌, String, arith}
use ccx.Base.Dict.{lookup, insert, update_all}
use mathlib.Core.List.{reverse, Perm}
use ccx.LogStore.{
  ChannelLog, ChannelLogStore, get_logs, remove_and_shift, set_channel, channel_logs, update_log,
  update_found,
}
use ccx.LogStore.Shift.{get-remove_and_shift}
use ccx.LogStore.Update.{Located, contains, update-Located, update-remove_and_shift}
use ccx.UrlManager.{UrlState, new_url_manager, sort_urls, get_sorted_urls}
use ccx.UrlManager.Order.{IsOrdered, sort_urls-IsOrdered}
use ccx.UrlManager.Track.{Call, calls, result_pairs, enumerate, get_sorted_urls-complete}
use ccx.Affinity.{TraceAffinityManager, get_preferred_channel, cleanup, update_last_used}
use ccx.Affinity.Laws.{Call as AffinityCall, set, forget_channel, clean, calls as affinity_calls}

abbrev log : String → String → ChannelLog
log id status = record {
  request_id = id;
  channel_index = 0;
  timestamp = 0;
  model = "m";
  original_model = "";
  operation = "";
  status_code = 0;
  duration_ms = 0;
  success = false;
  key_mask = "k***";
  base_url = "https://a";
  error_info = "";
  is_retry = false;
  interface_type = "messages";
  request_source = "";
  status = status;
  start_time = 0;
  connected_at = none;
  first_byte_at = none;
  completed_at = none;
}

abbrev finish : ChannelLog → ChannelLog
finish l = record l { status = "completed"; success = true }

-- Channel 0 has a finished request, channel 1 the request "b" in flight.
abbrev store : ChannelLogStore
store = record {
  logs =
      (0, log "a" "completed" ∷ [])
      ∷ (1, record (log "b" "connecting") { channel_index = 1 } ∷ [])
      ∷ [];
  request_locations = ("b", 1) ∷ [];
}

store-Located : Located "b" 1 store
unfolding lookup contains
store-Located = record { named = refl; located = refl; logs = _; stored = refl; present = refl }

get-remove_and_shift_example :
    get_logs 0 (remove_and_shift 0 store) ≡ reverse (set_channel 0 (channel_logs 1 store.logs))
get-remove_and_shift_example = get-remove_and_shift 0 0 store

update-Located_example :
    let r = update_log "b" finish store in (r.1 ≡ update_found) × (r.2 ≡ some 1)
update-Located_example = update-Located "b" 1 finish store store-Located

update-remove_and_shift_example :
    let r = update_log "b" finish (remove_and_shift 0 store) in
    (r.1 ≡ update_found) × (r.2 ≡ some 0)
unfolding lookup
update-remove_and_shift_example =
    update-remove_and_shift 0 1 "b" finish store (refl, tt) (ground arith) store-Located

abbrev url : String → ℕ → ℕ → ℕ → UrlState
url u i fails at = record {
  url = u;
  original_idx = i;
  fail_count = fails;
  last_fail_time = at;
  last_success_time = 0;
  total_requests = fails;
  total_failures = fails;
}

abbrev some_urls : List UrlState
some_urls = url "https://a" 0 1 95 ∷ url "https://b" 1 2 10 ∷ url "https://c" 2 0 0 ∷ []

sort_urls-IsOrdered_example :
    Perm (sort_urls 30 100 some_urls) some_urls × IsOrdered 30 100 (sort_urls 30 100 some_urls)
sort_urls-IsOrdered_example = sort_urls-IsOrdered 30 100 some_urls

abbrev two_urls : List String
two_urls = "https://a" ∷ "https://b" ∷ []

abbrev url_calls : List Call
url_calls = Call.get 4 two_urls 1 ∷ Call.failure 4 "https://a" 2 ∷ Call.success 4 "https://b" 3 ∷ []

get_sorted_urls-complete_example :
    Perm
      (result_pairs (get_sorted_urls 4 two_urls 5 (calls url_calls (new_url_manager 30 3))).1)
      (enumerate 0 two_urls)
get_sorted_urls-complete_example =
    get_sorted_urls-complete 30 3 4 two_urls url_calls 5 ((λ e. refl), (tt, (tt, tt)))

abbrev affinity : TraceAffinityManager
affinity = record {
  affinity =
      ("messages:u", record { channel_index = 1; last_used_at = 10 })
      ∷ ("messages:v", record { channel_index = 2; last_used_at = 70 })
      ∷ [];
  ttl = 30;
}

abbrev later_calls : List AffinityCall
later_calls = set "messages:w" 2 81 ∷ forget_channel 2 ∷ clean 85 ∷ []

-- A record that has expired is renewed, unless a clean-up came first.
renewed_unless_cleaned :
    (get_preferred_channel "messages:u" 90 (update_last_used "messages:u" 85 affinity) ≡ some 1)
    × (get_preferred_channel "messages:u" 90
          (update_last_used "messages:u" 85 (cleanup 80 affinity).0)
        ≡ none)
unfolding get_preferred_channel update_last_used cleanup lookup insert update_all
renewed_unless_cleaned = (refl, refl)
