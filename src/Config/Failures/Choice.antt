-- ===== src/Config/Failures/Choice.antt =====
-- Which key a request gets: backend-go/internal/config/config.go.
use ccx.Base.{
  ℕ, string_eq, ◌≡◌, refl, Bool, true, false, not, ◌&&◌, ◌||◌, Option, List, [], ◌∷◌, String,
  str_eq, eq_iff, arith, filter, any, Bool-cases, Option-cases, inl, inr,
}
use ccx.Base.Dict.{lookup}
use ccx.Base.Results.{Result, fail, ok}
use ccx.Config.Types.{UpstreamConfig}
use ccx.Config.Keys.{has}
use ccx.Config.Manager.{ConfigManager, FailedKey, ConfigError, failed_key_cache_key}
use ccx.Config.Failures.{oldest_failed, is_available, pick, choose_key, get_next_api_key}

abbrev pub HeadOf : (String → Bool) → List String → List String → Type 0
HeadOf p keys [] = any p keys ≡ false
HeadOf p keys (key ∷ rest) = (p key ≡ true) × (has keys key ≡ true) × (any p keys ≡ true)

HeadOf-cons :
    (p : String → Bool) (k : String) (keys found : List String)
    → p k ≡ false
    → HeadOf p keys found
    → HeadOf p (k ∷ keys) found
HeadOf-cons p k keys [] e h = ground (arith, e, h)
HeadOf-cons p k keys (key ∷ rest) e h = ground (arith, e, h)

filter-HeadOf : (p : String → Bool) (keys : List String) → HeadOf p keys (filter p keys)
filter-HeadOf p [] = refl
filter-HeadOf p (k ∷ keys) = elim (Bool-cases (p k)) [
  | inl e ↦ rw e (e, ground (arith, eq_iff k k), ground (arith, e))
  | inr e ↦ rw e (HeadOf-cons p k keys (filter p keys) e (filter-HeadOf p keys))
]

-- The text is one of the keys, and was not tried.
abbrev pub is_untried : List String → List String → String → Bool
is_untried keys tried key = has keys key && not (has tried key)

oldest_failed-is_untried :
    (failure : String → Option FailedKey) (tried keys : List String) (oldest : ℕ) (best : String)
    → (str_eq (oldest_failed failure tried keys oldest best) best
        || is_untried keys tried (oldest_failed failure tried keys oldest best))
      ≡ true
unfolding oldest_failed
oldest_failed-is_untried failure tried [] oldest best = ground (arith, eq_iff best best)
oldest_failed-is_untried failure tried (key ∷ keys) oldest best =
    elim (Option-cases (failure key)) [
      | inl e ↦ ground (arith, e, oldest_failed-is_untried failure tried keys oldest best)
      | inr (f, e) ↦ ground (
        arith,
        e,
        oldest_failed-is_untried failure tried keys oldest best,
        oldest_failed-is_untried failure tried keys f.timestamp key,
        eq_iff (oldest_failed failure tried keys f.timestamp key) key,
      )
    ]

-- What a request may expect of the answer, when `available` says whether a key is neither tried nor cooling down.
abbrev pub IsGoodChoice :
    List String → List String → (String → Bool) → Result ConfigError String → Type 0
IsGoodChoice keys tried available (fail e) = any available keys ≡ false
IsGoodChoice keys tried available (ok key) =
    (is_untried keys tried key ≡ true) × (available key ≡ any available keys)

any-has :
    (p : String → Bool) (keys : List String) (k : String)
    → any p keys ≡ false
    → has keys k ≡ true
    → p k ≡ false
any-has p [] k none_holds here = ground (arith, here)
any-has p (x ∷ xs) k none_holds here = elim (Bool-cases (str_eq k x)) [
  | inl e ↦ let same : k ≡ x = (eq_iff k x).0 e in rw same (ground (arith, none_holds))
  | inr e ↦ any-has p xs k (ground (arith, none_holds)) (ground (arith, e, here))
]

pick-IsGoodChoice :
    (keys tried : List String) (available : String → Bool) (found : List String) (oldest : String)
    → ((k : String) → available k ≡ true → has tried k ≡ false)
    → HeadOf available keys found
    → (str_eq oldest "" || is_untried keys tried oldest) ≡ true
    → IsGoodChoice keys tried available (pick found oldest)
pick-IsGoodChoice keys tried available (key ∷ rest) oldest fresh h o =
    (ground (arith, h.0, h.1, fresh key h.0), ground (arith, h.0, h.2))
pick-IsGoodChoice keys tried available [] oldest fresh h o = elim (Bool-cases (str_eq oldest "")) [
  | inl e ↦ rw e h
  | inr e ↦
      let untried : is_untried keys tried oldest ≡ true = ground (arith, e, o) in
      rw e (untried, ground (arith, h, any-has available keys oldest h (ground (arith, untried))))
]

is_available-untried :
    (tried : List String) (name : String) (now : ℕ) (m : ConfigManager) (k : String)
    → is_available tried name now m k ≡ true
    → has tried k ≡ false
unfolding is_available
is_available-untried tried name now m k h = ground (arith, h)

choose_key-IsGoodChoice :
    (keys tried : List String) (name : String) (now : ℕ) (m : ConfigManager)
    → IsGoodChoice keys tried (is_available tried name now m) (choose_key keys tried name now m)
unfolding choose_key
choose_key-IsGoodChoice keys tried name now m =
    pick-IsGoodChoice keys tried (is_available tried name now m)
      (filter (is_available tried name now m) keys)
      (oldest_failed (λ key. lookup (failed_key_cache_key name key) m.failed_keys_cache) tried keys
        now "")
      (is_available-untried tried name now m) (filter-HeadOf (is_available tried name now m) keys)
      (oldest_failed-is_untried (λ key. lookup (failed_key_cache_key name key) m.failed_keys_cache)
        tried keys now "")

-- With two keys or more, the key that a request gets is a key of the channel that the request has not tried, and is
-- one that is not cooling down either, if the channel has such a key; an error means that it has none.
pub get_next_api_key-IsGoodChoice :
    (u : UpstreamConfig) (first second : String) (others tried : List String) (name : String)
    (now : ℕ) (m : ConfigManager)
    → u.api_keys ≡ first ∷ second ∷ others
    → IsGoodChoice u.api_keys tried
        (is_available tried name now m)
        (get_next_api_key u tried name now m)
unfolding get_next_api_key
get_next_api_key-IsGoodChoice u first second others tried name now m two =
    rw two (choose_key-IsGoodChoice (first ∷ second ∷ others) tried name now m)
