-- ===== src/UrlManager/Track.antt =====
-- Which URLs a channel has, with which indices, through any marks and reads.
use ccx.Base.{
  nat_eq_iff, All, ℕ, ℕ_eq, suc, ◌≡◌, refl, sym, ap, true, some, List, [], ◌∷◌, arith, String, map,
  nat_eq, if◌then◌else◌, Bool-cases, inl, inr, str_eq, Option-cases, ◌∙◌,
}
use ccx.Base.Dict.{lookup, insert, lookup-insert, lookup-delete}
use ccx.Base.Sort.{sort_stable-perm}
use mathlib.Core.List.{Perm}
use mathlib.Core.List.Perm
use ccx.UrlManager.{
  UrlState, UrlLatencyResult, UrlManager, ChannelUrlState, url_less, sort_urls, to_result,
  get_sorted_urls, ensured_state, new_urls, update_first, new_url_manager, mark, mark_success,
  mark_failure, succeeded, failed, urls_match, invalidate_channel,
}

abbrev pub pairs : List UrlState → List (ℕ × String)
pairs = map (λ u. (u.original_idx, u.url))

abbrev pub enumerate : ℕ → List String → List (ℕ × String)
enumerate i [] = []
enumerate i (url ∷ urls) = (i, url) ∷ enumerate (suc i) urls

pairs-new_urls : (i : ℕ) (urls : List String) → pairs (new_urls i urls) ≡ enumerate i urls
pairs-new_urls i [] = refl
pairs-new_urls i (url ∷ urls) = ap (◌∷◌ (i, url)) (pairs-new_urls (suc i) urls)

abbrev Keeps : (UrlState → UrlState) → Type 0
Keeps f = (u : UrlState) → ((f u).original_idx ≡ u.original_idx) × ((f u).url ≡ u.url)

pairs-update_first :
    (f : UrlState → UrlState) (url : String) (us : List UrlState)
    → Keeps f
    → pairs (update_first f url us) ≡ pairs us
unfolding update_first
pairs-update_first f url [] h = refl
pairs-update_first f url (u ∷ us) h = elim (Bool-cases (str_eq u.url url)) [
  | inl e ↦ rw (e, (h u).0, (h u).1)
  | inr e ↦ rw (e, pairs-update_first f url us h)
]

pairs-sort_urls :
    (cooldown now : ℕ) (us : List UrlState) → Perm (pairs (sort_urls cooldown now us)) (pairs us)
unfolding sort_urls
pairs-sort_urls cooldown now us =
    Perm.map (λ u. (u.original_idx, u.url)) (sort_stable-perm (url_less cooldown now) us)

-- The channel has no state, or exactly the given URLs with their indices.
abbrev pub Tracks : ℕ → List String → UrlManager → Type 0
Tracks ch urls m =
    (s : ChannelUrlState)
    → lookup ch m.channel_states ≡ some s
    → Perm (pairs s.urls) (enumerate 0 urls)

-- A state is stored for one channel; the others keep theirs.
store-Tracks :
    (ch ch' : ℕ) (urls : List String) (t : ChannelUrlState) (m m' : UrlManager)
    → (nat_eq ch' ch ≡ true → Perm (pairs t.urls) (enumerate 0 urls))
    → m'.channel_states ≡ insert ch' t m.channel_states
    → Tracks ch urls m
    → Tracks ch urls m'
store-Tracks ch ch' urls t m m' new stored h s e =
    let found : (if nat_eq ch' ch then some t else lookup ch m.channel_states) ≡ some s =
      sym (lookup-insert ch' ch t m.channel_states) ∙ rw stored at e in
    elim (Bool-cases (nat_eq ch' ch)) [
      | inl y ↦ let same : t.urls ≡ s.urls = ground (arith, found, y) in rw (← same) (new y)
      | inr n ↦ h s (rw n at found)
    ]

mark-Tracks :
    (f : UrlState → UrlState) (ch ch' : ℕ) (urls : List String) (url : String) (now : ℕ)
    (m : UrlManager)
    → Keeps f
    → Tracks ch urls m
    → Tracks ch urls (mark f ch' url now m)
mark-Tracks f ch ch' urls url now m k h = elim (Option-cases (lookup ch' m.channel_states)) [
  | inl none' ↦ unfold mark in rw (none', mark) h
  | inr (t, found) ↦
      let sorted = sort_urls m.failure_cooldown now (update_first f url t.urls) in
      let t' : ChannelUrlState = record t { urls = sorted; updated_at = now } in
      store-Tracks ch ch' urls t' m (mark f ch' url now m)
        (λ same.
          Perm.trans (pairs-sort_urls m.failure_cooldown now (update_first f url t.urls))
            (rw (pairs-update_first, k) (h t (rw ((nat_eq_iff ch' ch).0 same) at found))))
        (unfold mark in rw (found, mark)) h
]

ensured-pairs :
    (ch : ℕ) (urls : List String) (now : ℕ) (m : UrlManager)
    → Tracks ch urls m
    → Perm (pairs (ensured_state ch urls now m).urls) (enumerate 0 urls)
unfolding ensured_state
ensured-pairs ch urls now m h = elim (Option-cases (lookup ch m.channel_states)) [
  | inl e ↦ rw (e, ensured_state) (rw pairs-new_urls (Perm.refl (enumerate 0 urls)))
  | inr (t, e) ↦ elim (Bool-cases (urls_match t.urls urls)) [
    | inl y ↦ rw (e, ensured_state) (rw y (h t e))
    | inr n ↦ rw (e, ensured_state) (rw (n, pairs-new_urls) (Perm.refl (enumerate 0 urls)))
  ]
]

get-Tracks :
    (ch ch' : ℕ) (urls urls' : List String) (now : ℕ) (m : UrlManager)
    → (nat_eq ch' ch ≡ true → urls' ≡ urls)
    → Tracks ch urls m
    → Tracks ch urls (get_sorted_urls ch' urls' now m).0
unfolding get_sorted_urls
get-Tracks ch ch' urls [] now m same h = h
get-Tracks ch ch' urls (a ∷ []) now m same h = h
get-Tracks ch ch' urls (a ∷ b ∷ rest) now m same h =
    let state = ensured_state ch' (a ∷ b ∷ rest) now m in
    let sorted = sort_urls m.failure_cooldown now state.urls in
    let m' : UrlManager = record m {
      channel_states = insert ch' (record state { urls = sorted }) m.channel_states;
    } in
    store-Tracks ch ch' urls (record state { urls = sorted }) m m'
      (λ y.
        Perm.trans (pairs-sort_urls m.failure_cooldown now state.urls)
          (rw (same y, (nat_eq_iff ch' ch).0 y) (ensured-pairs ch urls now m h)))
      refl h

-- Calls of the manager, each with its instant.
pub data Call : Type 0 where
  get : ℕ → List String → ℕ → Call
  success : ℕ → String → ℕ → Call
  failure : ℕ → String → ℕ → Call
  invalidate : ℕ → Call

unfoldable pub call : Call → UrlManager → UrlManager
call (get ch urls now) m = (get_sorted_urls ch urls now m).0
call (success ch url now) m = mark_success ch url now m
call (failure ch url now) m = mark_failure ch url now m
call (invalidate ch) m = invalidate_channel ch m

unfoldable pub calls : List Call → UrlManager → UrlManager
calls [] m = m
calls (c ∷ cs) m = calls cs (call c m)

-- A read of the channel asks for the given URLs.
abbrev pub Asks : ℕ → List String → Call → Type 0
Asks ch urls (get ch' urls' now) = nat_eq ch' ch ≡ true → urls' ≡ urls
Asks ch urls _ = Unit

call-Tracks :
    (ch : ℕ) (urls : List String) (c : Call) (m : UrlManager)
    → Asks ch urls c
    → Tracks ch urls m
    → Tracks ch urls (call c m)
unfolding call
call-Tracks ch urls (get ch' urls' now) m a h = get-Tracks ch ch' urls urls' now m a h
call-Tracks ch urls (success ch' url now) m a h =
    unfold mark_success in mark-Tracks (succeeded now) ch ch' urls url now m (λ u. (refl, refl)) h
call-Tracks ch urls (failure ch' url now) m a h =
    unfold mark_failure in mark-Tracks (failed now) ch ch' urls url now m (λ u. (refl, refl)) h
call-Tracks ch urls (invalidate ch') m a h =
    λ s e. unfold invalidate_channel in h s (ground (arith, lookup-delete ch' ch m.channel_states))

calls-Tracks :
    (ch : ℕ) (urls : List String) (cs : List Call) (m : UrlManager)
    → All (Asks ch urls) cs
    → Tracks ch urls m
    → Tracks ch urls (calls cs m)
unfolding calls
calls-Tracks ch urls [] m a h = h
calls-Tracks ch urls (c ∷ cs) m a h =
    calls-Tracks ch urls cs (call c m) a.1 (call-Tracks ch urls c m a.0 h)

abbrev pub result_pairs : List UrlLatencyResult → List (ℕ × String)
result_pairs = map (λ r. (r.original_idx, r.url))

result_pairs-to_result :
    (cooldown now : ℕ) (us : List UrlState)
    → result_pairs (map (to_result cooldown now) us) ≡ pairs us
result_pairs-to_result cooldown now [] = refl
result_pairs-to_result cooldown now (u ∷ us) =
    ap (◌∷◌ (u.original_idx, u.url)) (result_pairs-to_result cooldown now us)

get_sorted_urls-pairs :
    (ch : ℕ) (urls : List String) (now : ℕ) (m : UrlManager)
    → Tracks ch urls m
    → Perm (result_pairs (get_sorted_urls ch urls now m).1) (enumerate 0 urls)
unfolding get_sorted_urls
get_sorted_urls-pairs ch [] now m h = Perm.refl []
get_sorted_urls-pairs ch (a ∷ []) now m h = Perm.refl ((0, a) ∷ [])
get_sorted_urls-pairs ch (a ∷ b ∷ rest) now m h =
    let state = ensured_state ch (a ∷ b ∷ rest) now m in
    rw result_pairs-to_result (
      Perm.trans (pairs-sort_urls m.failure_cooldown now state.urls)
        (ensured-pairs ch (a ∷ b ∷ rest) now m h))

-- After any calls on a new manager whose reads of a channel ask for the same list of URLs, a read of
-- that channel returns each URL of the list once, with its index in the list.
pub get_sorted_urls-complete :
    (cooldown max_fail ch : ℕ) (urls : List String) (cs : List Call) (now : ℕ)
    → All (Asks ch urls) cs
    → let m = calls cs (new_url_manager cooldown max_fail) in
      Perm (result_pairs (get_sorted_urls ch urls now m).1) (enumerate 0 urls)
get_sorted_urls-complete cooldown max_fail ch urls cs now a =
    get_sorted_urls-pairs ch urls now _
      (calls-Tracks ch urls cs (new_url_manager cooldown max_fail) a (λ s e. absurd (none_of e)))
  where
    none_of :
        {s : ChannelUrlState}
        → lookup ch (new_url_manager cooldown max_fail).channel_states ≡ some s
        → ⊥
    none_of e = unfold new_url_manager lookup in cc
