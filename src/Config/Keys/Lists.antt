-- ===== src/Config/Keys/Lists.antt =====
-- The lists of keys that the operations of Config/Keys build: backend-go/internal/config/config.go.
use ccx.Base.{
  ℕ, ◌≡◌, refl, Bool, true, false, not, ◌&&◌, ◌||◌, Option, none, some, List, [], ◌∷◌, ◌++◌, String,
  str_eq, eq_iff, arith, if◌then◌else◌, filter, remove_at, Bool-cases, Option-cases, inl, inr,
}
use ccx.Config.Urls.{keep_new, deduplicate_strings}
use ccx.Config.Keys.{index_of, has, remove_first, add_missing, retire}

abbrev pub map_option {ℓ κ} : {A : Type ℓ} {B : Type κ} → (A → B) → Option A → Option B
map_option f none = none
map_option f (some a) = some (f a)

remove_first-cons :
    (key k : String) (ks : List String)
    → remove_first key (k ∷ ks)
      ≡ (if str_eq k key then some ks else map_option (λ rest. k ∷ rest) (remove_first key ks))
unfolding remove_first index_of
remove_first-cons key k ks = elim (Option-cases (index_of key ks)) [
  | inl e ↦ ground (arith, e)
  | inr (i, e) ↦ ground (arith, e)
]

pub has-append : (xs ys : List String) (k : String) → has (xs ++ ys) k ≡ (has xs k || has ys k)
has-append [] ys k = refl
has-append (x ∷ xs) ys k = ground (arith, has-append xs ys k)

pub has-filter :
    (p : String → Bool) (xs : List String) (k : String) → has (filter p xs) k ≡ (has xs k && p k)
has-filter p [] k = refl
has-filter p (x ∷ xs) k = elim (Bool-cases (str_eq k x)) [
  | inl e ↦ let same : k ≡ x = (eq_iff k x).0 e in ground (arith, e, same, has-filter p xs k)
  | inr e ↦ ground (arith, e, has-filter p xs k)
]

pub has-add_missing :
    (ks : List String) (key k : String) → has (add_missing ks key) k ≡ (has ks k || str_eq k key)
has-add_missing ks key k = ground (arith, has-append ks (key ∷ []) k, eq_iff k key)

pub has-keep_new :
    (xs seen : List String) (k : String) → has (keep_new xs seen) k ≡ (has xs k && not (has seen k))
unfolding keep_new
has-keep_new [] seen k = refl
has-keep_new (x ∷ xs) seen k =
    ground (arith, eq_iff k x, has-keep_new xs seen k, has-keep_new xs (x ∷ seen) k)

pub has-retire :
    (news keys historical : List String) (k : String)
    → has (retire news keys historical) k ≡ (has historical k || has keys k && not (has news k))
unfolding retire
has-retire news [] historical k = ground arith
has-retire news (key ∷ keys) historical k = ground (
  arith,
  eq_iff k key,
  has-add_missing historical key k,
  has-retire news keys historical k,
  has-retire news keys (add_missing historical key) k,
)

-- No key twice.
abbrev pub IsDistinctKeys : List String → Type 0
IsDistinctKeys [] = Unit
IsDistinctKeys (k ∷ ks) = (has ks k ≡ false) × IsDistinctKeys ks

pub IsDistinctKeys-filter :
    (p : String → Bool) (xs : List String) → IsDistinctKeys xs → IsDistinctKeys (filter p xs)
IsDistinctKeys-filter p [] d = tt
IsDistinctKeys-filter p (x ∷ xs) d =
    ground (arith, has-filter p xs x, IsDistinctKeys-filter p xs d.1)

pub IsDistinctKeys-append :
    (xs : List String) (key : String)
    → IsDistinctKeys xs
    → has xs key ≡ false
    → IsDistinctKeys (xs ++ (key ∷ []))
IsDistinctKeys-append [] key d h = (refl, tt)
IsDistinctKeys-append (x ∷ xs) key d h = ground (
  arith,
  eq_iff x key,
  eq_iff key x,
  has-append xs (key ∷ []) x,
  IsDistinctKeys-append xs key d.1,
)

pub IsDistinctKeys-add_missing :
    (xs : List String) (key : String) → IsDistinctKeys xs → IsDistinctKeys (add_missing xs key)
IsDistinctKeys-add_missing xs key d = elim (Bool-cases (has xs key)) [
  | inl e ↦ rw e d
  | inr e ↦ rw e (IsDistinctKeys-append xs key d e)
]

keep_new-IsDistinctKeys : (xs seen : List String) → IsDistinctKeys (keep_new xs seen)
unfolding keep_new
keep_new-IsDistinctKeys [] seen = tt
keep_new-IsDistinctKeys (x ∷ xs) seen = ground (
  arith,
  eq_iff x x,
  has-keep_new xs (x ∷ seen) x,
  keep_new-IsDistinctKeys xs seen,
  keep_new-IsDistinctKeys xs (x ∷ seen),
)

pub deduplicate_strings-IsDistinctKeys :
    (xs : List String) → IsDistinctKeys (deduplicate_strings xs)
unfolding deduplicate_strings
deduplicate_strings-IsDistinctKeys xs = keep_new-IsDistinctKeys xs []

pub has-deduplicate_strings :
    (xs : List String) (k : String) → has (deduplicate_strings xs) k ≡ has xs k
unfolding deduplicate_strings
has-deduplicate_strings xs k = ground (arith, has-keep_new xs [] k)

-- The keys without the first occurrence of a key.
unfoldable pub drop_key : String → List String → List String
drop_key key [] = []
drop_key key (k ∷ ks) = let rest = drop_key key ks in if str_eq k key then ks else k ∷ rest

pub remove_first_lem :
    (key : String) (ks : List String)
    → remove_first key ks ≡ (if has ks key then some (drop_key key ks) else none)
unfolding drop_key
remove_first_lem key [] = unfold remove_first in unfold index_of in refl
remove_first_lem key (k ∷ ks) =
    ground (arith, eq_iff k key, eq_iff key k, remove_first-cons key k ks, remove_first_lem key ks)

-- What is left of keys that are all different is what is not the key.
pub has-drop_key :
    (key : String) (ks : List String) (k : String)
    → IsDistinctKeys ks
    → has (drop_key key ks) k ≡ (has ks k && not (str_eq k key))
unfolding drop_key
has-drop_key key [] k d = refl
has-drop_key key (x ∷ xs) k d = elim (Bool-cases (str_eq k x)) [
  | inl e ↦
      let same : k ≡ x = (eq_iff k x).0 e in
      ground (arith, e, same, d.0, eq_iff x key, eq_iff k key, has-drop_key key xs k d.1)
  | inr e ↦ ground (arith, e, eq_iff x key, eq_iff k key, eq_iff k x, has-drop_key key xs k d.1)
]

-- Only the key itself can be missing afterwards.
pub has-drop_key_other :
    (key : String) (ks : List String) (k : String)
    → str_eq k key ≡ false
    → has (drop_key key ks) k ≡ has ks k
unfolding drop_key
has-drop_key_other key [] k d = refl
has-drop_key_other key (x ∷ xs) k d =
    ground (arith, d, eq_iff x key, eq_iff k key, eq_iff k x, has-drop_key_other key xs k d)

pub drop_key-IsDistinctKeys :
    (key : String) (ks : List String) → IsDistinctKeys ks → IsDistinctKeys (drop_key key ks)
unfolding drop_key
drop_key-IsDistinctKeys key [] d = tt
drop_key-IsDistinctKeys key (x ∷ xs) d =
    ground (arith, has-drop_key key xs x d.1, drop_key-IsDistinctKeys key xs d.1)

pub index_of-drop_key :
    (key : String) (ks : List String) (i : ℕ)
    → index_of key ks ≡ some i
    → (has ks key ≡ true) × (remove_at ks i ≡ drop_key key ks)
index_of-drop_key key ks i h =
    let found : remove_first key ks ≡ some (remove_at ks i) =
      unfold remove_first in ground (arith, h) in
    ground (arith, found, remove_first_lem key ks)

pub index_of-none : (key : String) (ks : List String) → index_of key ks ≡ none → has ks key ≡ false
index_of-none key ks h =
    let missing : remove_first key ks ≡ none = unfold remove_first in ground (arith, h) in
    ground (arith, missing, remove_first_lem key ks)
