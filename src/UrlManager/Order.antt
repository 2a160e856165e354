-- ===== src/UrlManager/Order.antt =====
-- The order that the URLs of a channel are tried in: backend-go/internal/warmup/url_manager.go.
use ccx.Base.{
  String, ℕ, ℕ_eq, ◌≤◌, ◌≡◌, refl, Bool, true, false, ◌||◌, List, [], ◌∷◌, arith, if◌then◌else◌,
  All, any, map, Bool-cases, inl, inr,
}
use ccx.Base.Sort.{IsSorted, sort_stable-IsSorted, sort_stable-perm}
use mathlib.Core.List.{Perm}
use ccx.UrlManager.{
  UrlState, UrlLatencyResult, UrlManager, url_less, sort_urls, no_fail, cooldown_passed, to_result,
  get_sorted_urls, ensured_state,
}

abbrev pub head_success : List UrlLatencyResult → Bool
head_success [] = false
head_success (r ∷ rs) = r.success

module _ (cooldown now : ℕ) where
  url_less-asym :
      (a b : UrlState) → url_less cooldown now a b ≡ true → url_less cooldown now b a ≡ false
  unfolding url_less
  url_less-asym a b h = ground arith

  url_less_trans :
      (a b c : UrlState)
      → url_less cooldown now b a ≡ false
      → url_less cooldown now c b ≡ false
      → url_less cooldown now c a ≡ false
  unfolding url_less
  url_less_trans a b c h g = ground arith

  abbrev usable : UrlState → Bool
  usable u = no_fail u || cooldown_passed cooldown now u

  -- Never failed, cooled down, still cooling down.
  pub tier : UrlState → ℕ
  tier u = if no_fail u then 0 else if cooldown_passed cooldown now u then 1 else 2

  -- The documented order of two URLs.
  pub record Before (a b : UrlState) : Type 0 where
    pub by_tier : tier a ≤ tier b
    pub by_index : tier a ≡ 0 → tier b ≡ 0 → a.original_idx ≤ b.original_idx
    pub by_failures : tier a ≡ 1 → tier b ≡ 1 → a.fail_count ≤ b.fail_count
    pub by_failures_index :
        tier a ≡ 1 → tier b ≡ 1 → a.fail_count ≡ b.fail_count → a.original_idx ≤ b.original_idx
    pub by_cooldown : tier a ≡ 2 → tier b ≡ 2 → a.last_fail_time ≤ b.last_fail_time

  Before-of_not_less : (a b : UrlState) → url_less cooldown now b a ≡ false → Before a b
  unfolding url_less tier
  Before-of_not_less a b h = ground arith

  abbrev pub IsOrdered : List UrlState → Type 0
  IsOrdered [] = Unit
  IsOrdered (x ∷ xs) = All (Before x) xs × IsOrdered xs

  All-Before :
      (x : UrlState) (ys : List UrlState)
      → All (λ y. url_less cooldown now y x ≡ false) ys
      → All (Before x) ys
  All-Before x [] h = tt
  All-Before x (y ∷ ys) h = (Before-of_not_less x y h.0, All-Before x ys h.1)

  IsSorted-IsOrdered : (l : List UrlState) → IsSorted (url_less cooldown now) l → IsOrdered l
  IsSorted-IsOrdered [] h = tt
  IsSorted-IsOrdered (x ∷ xs) h = (All-Before x xs h.0, IsSorted-IsOrdered xs h.1)

  -- The sorted list holds the same states, and each stands before all that follow it in the
  -- documented order: the URLs that never failed by index, then the cooled-down ones by failures
  -- and index, then those that cool down by the instant of their last failure.
  pub sort_urls-IsOrdered :
      (l : List UrlState) → Perm (sort_urls cooldown now l) l × IsOrdered (sort_urls cooldown now l)
  unfolding sort_urls
  sort_urls-IsOrdered l = (
    sort_stable-perm (url_less cooldown now) l,
    IsSorted-IsOrdered _
        (sort_stable-IsSorted (url_less cooldown now) url_less-asym url_less_trans l),
  )

  usable_head :
      (x : UrlState) (xs : List UrlState)
      → All (Before x) xs
      → any (λ r. r.success) (map (to_result cooldown now) xs) ≡ true
      → usable x ≡ true
  unfolding tier
  usable_head x [] h e = cc
  usable_head x (y ∷ ys) h e = elim (Bool-cases (usable y)) [
    | inl u ↦ ground (arith, h.0.by_tier)
    | inr u ↦ usable_head x ys h.1 (ground arith)
  ]

  head_of_ordered :
      (l : List UrlState)
      → IsOrdered l
      → any (λ r. r.success) (map (to_result cooldown now) l) ≡ true
      → head_success (map (to_result cooldown now) l) ≡ true
  head_of_ordered [] h e = cc
  head_of_ordered (x ∷ xs) h e = elim (Bool-cases (usable x)) [
    | inl u ↦ u
    | inr u ↦ usable_head x xs h.0 (ground arith)
  ]

-- If any URL of the channel is usable now, the first one that is returned is.
pub get_sorted_urls-usable_first :
    (ch : ℕ) (urls : List String) (now : ℕ) (m : UrlManager)
    → let rs = (get_sorted_urls ch urls now m).1 in
      any (λ r. r.success) rs ≡ true → head_success rs ≡ true
unfolding get_sorted_urls
get_sorted_urls-usable_first ch [] now m h = h
get_sorted_urls-usable_first ch (url ∷ []) now m h = refl
get_sorted_urls-usable_first ch (url ∷ url' ∷ urls) now m h =
    let s = ensured_state ch (url ∷ url' ∷ urls) now m in
    head_of_ordered m.failure_cooldown now (sort_urls m.failure_cooldown now s.urls)
      (sort_urls-IsOrdered m.failure_cooldown now s.urls).1 h
