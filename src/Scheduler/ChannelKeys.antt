-- ===== src/Scheduler/ChannelKeys.antt =====
-- The keys under which the scheduler keeps the URL state of a channel: `urlManagerChannelKey` and the
-- methods that use it, backend-go/internal/scheduler/channel_scheduler.go.
use ccx.Config.Types.{ChannelKind, messages, responses, gemini, chat, images}
use ccx.Base.{ℕ, ◌+◌, ◌*◌, ◌<◌, ◌≡◌, ◌≢◌, Option-cases, inl, inr, ℕ_eq, List, String, arith}
use ccx.Base.Dict.{lookup, lookup-insert}
use ccx.UrlManager.{
  mark, ChannelUrlState, sort_urls, update_first, failed, UrlManager, UrlLatencyResult,
  get_sorted_urls, mark_success, mark_failure,
}

abbrev pub stride : ℕ
stride = 1000000

unfoldable pub url_manager_channel_key_ordinal : ChannelKind → ℕ
url_manager_channel_key_ordinal responses = 1
url_manager_channel_key_ordinal gemini = 2
url_manager_channel_key_ordinal chat = 3
url_manager_channel_key_ordinal images = 4
url_manager_channel_key_ordinal messages = 0

unfoldable pub url_manager_channel_key : ChannelKind → ℕ → ℕ
unfolding url_manager_channel_key_ordinal
url_manager_channel_key kind channel_index =
    url_manager_channel_key_ordinal kind * stride + channel_index

unfoldable pub get_sorted_urls_for_channel :
    ChannelKind → ℕ → List String → ℕ → UrlManager → UrlManager × List UrlLatencyResult
unfolding get_sorted_urls url_manager_channel_key
get_sorted_urls_for_channel kind ch urls now m =
    get_sorted_urls (url_manager_channel_key kind ch) urls now m

unfoldable pub mark_url_success : ChannelKind → ℕ → String → ℕ → UrlManager → UrlManager
unfolding mark_success url_manager_channel_key
mark_url_success kind ch url now m = mark_success (url_manager_channel_key kind ch) url now m

unfoldable pub mark_url_failure : ChannelKind → ℕ → String → ℕ → UrlManager → UrlManager
unfolding mark_failure url_manager_channel_key
mark_url_failure kind ch url now m = mark_failure (url_manager_channel_key kind ch) url now m

same_ordinal :
    (k k' : ChannelKind)
    → url_manager_channel_key_ordinal k ≡ url_manager_channel_key_ordinal k'
    → k ≡ k'
unfolding url_manager_channel_key_ordinal
same_ordinal k k' e = ground (arith, e)

-- Two channels with an index below 1,000,000 share a key of the URL manager only if they are of the
-- same kind and at the same index: the URL states of the kinds do not mix.
channel_key_injective :
    (k k' : ChannelKind) (i i' : ℕ)
    → i < stride
    → i' < stride
    → url_manager_channel_key k i ≡ url_manager_channel_key k' i'
    → (k ≡ k') × (i ≡ i')
unfolding url_manager_channel_key
channel_key_injective k k' i i' h h' e =
    let o : url_manager_channel_key_ordinal k ≡ url_manager_channel_key_ordinal k' = omega arith in
    (same_ordinal k k' o, omega arith)

abbrev marked : String → ℕ → ℕ → ChannelUrlState → ChannelUrlState
marked url now cooldown state = record state {
  urls = sort_urls cooldown now (update_first (failed now) url state.urls);
  updated_at = now;
}

mark_failure-others :
    (ch : ℕ) (url : String) (now : ℕ) (j : ℕ) (m : UrlManager)
    → ch ≢ j
    → lookup j (mark_failure ch url now m).channel_states ≡ lookup j m.channel_states
unfolding mark_failure mark
mark_failure-others ch url now j m h = elim (Option-cases (lookup ch m.channel_states)) [
  | inl e ↦ ground (arith, e)
  | inr (state, e) ↦
      ground
        (arith, e, lookup-insert ch j (marked url now m.failure_cooldown state) m.channel_states)
]

-- A failed URL of one channel changes the URL state of no other channel, of the same kind or of another,
-- while the indexes stay below 1,000,000.
pub mark_url_failure_keeps_others :
    (k k' : ChannelKind) (i i' : ℕ) (url : String) (now : ℕ) (m : UrlManager)
    → i < stride
    → i' < stride
    → (k ≡ k' → i ≢ i')
    → lookup (url_manager_channel_key k' i') (mark_url_failure k i url now m).channel_states
      ≡ lookup (url_manager_channel_key k' i') m.channel_states
unfolding mark_url_failure
mark_url_failure_keeps_others k k' i i' url now m h h' d =
    mark_failure-others (url_manager_channel_key k i) url now (url_manager_channel_key k' i') m
      (λ e. d (channel_key_injective k k' i i' h h' e).0 (channel_key_injective k k' i i' h h' e).1)
