-- ===== src/Config/Keys/Tidy.antt =====
-- What every operation on the keys of a channel keeps: backend-go/internal/config/config.go and
-- backend-go/internal/config/config_messages.go.
use ccx.Base.{
  ◌≡◌, Bool, true, false, not, ◌&&◌, ◌||◌, List, [], ◌∷◌, ◌++◌, String, str_eq, eq_iff, arith,
  filter, Bool-cases, inl, inr,
}
use ccx.Config.Types.{UpstreamConfig}
use ccx.Config.Urls.{deduplicate_strings}
use ccx.Config.Keys.{has, without, add_missing, retire}
use ccx.Config.Keys.Lists.{
  has-append, has-filter, has-add_missing, has-retire, has-deduplicate_strings, has-drop_key,
  has-drop_key_other, IsDistinctKeys, IsDistinctKeys-append, IsDistinctKeys-add_missing,
  deduplicate_strings-IsDistinctKeys, drop_key, drop_key-IsDistinctKeys,
}
use ccx.Config.Keys.Moves.{
  KeyOp, key_op, key_ops, Moves, same, retired, activated, to_bottom, to_top, replaced,
  key_op-Moves,
}

-- Both lists of the keys that count for the statistics: `active` are all different.
abbrev pub IsTidyPair : List String → List String → Type 0
IsTidyPair active historical =
    IsDistinctKeys active × ((k : String) → (has active k && has historical k) ≡ false)

abbrev pub IsTidy : UpstreamConfig → Type 0
IsTidy u = IsTidyPair u.api_keys u.historical_api_keys

-- The operations build these lists out of the active and the historical keys.
retired-IsTidyPair :
    (key : String) (active historical : List String)
    → IsTidyPair active historical
    → IsTidyPair (drop_key key active) (add_missing historical key)
retired-IsTidyPair key active historical (d, apart) = (
  drop_key-IsDistinctKeys key active d,
  λ k.
      ground (
        arith,
        apart k,
        has-drop_key key active k d,
        has-add_missing historical key k,
        eq_iff k key,
      ),
)

activated-IsTidyPair :
    (key : String) (active historical : List String)
    → IsTidyPair active historical
    → IsTidyPair (add_missing active key) (without key historical)
activated-IsTidyPair key active historical (d, apart) = (
  IsDistinctKeys-add_missing active key d,
  λ k. ground (
    arith,
    apart k,
    has-add_missing active key k,
    has-filter (λ x. not (str_eq x key)) historical k,
    eq_iff k key,
  ),
)

to_bottom-IsTidyPair :
    (key : String) (active historical : List String)
    → has active key ≡ true
    → IsTidyPair active historical
    → IsTidyPair (drop_key key active ++ (key ∷ [])) historical
to_bottom-IsTidyPair key active historical here (d, apart) = (
  IsDistinctKeys-append (drop_key key active) key (drop_key-IsDistinctKeys key active d)
      (ground (arith, has-drop_key key active key d, eq_iff key key)),
  λ k. ground (
    arith,
    apart k,
    here,
    has-append (drop_key key active) (key ∷ []) k,
    has-drop_key key active k d,
    eq_iff k key,
  ),
)

to_top-IsTidyPair :
    (key : String) (active historical : List String)
    → has active key ≡ true
    → IsTidyPair active historical
    → IsTidyPair (key ∷ drop_key key active) historical
to_top-IsTidyPair key active historical here (d, apart) = (
  (
    ground (arith, has-drop_key key active key d, eq_iff key key),
    drop_key-IsDistinctKeys key active d,
  ),
  λ k. ground (arith, apart k, here, has-drop_key key active k d, eq_iff k key),
)

replaced-IsTidyPair :
    (news active historical : List String)
    → IsTidyPair
        (deduplicate_strings news)
        (filter (λ k. not (has news k)) (retire news active historical))
replaced-IsTidyPair news active historical = (
  deduplicate_strings-IsDistinctKeys news,
  λ k. ground (
    arith,
    has-deduplicate_strings news k,
    has-filter (λ x. not (has news x)) (retire news active historical) k,
  ),
)

Moves-IsTidyPair : {a h a' h' : List String} → Moves a h a' h' → IsTidyPair a h → IsTidyPair a' h'
Moves-IsTidyPair same t = t
Moves-IsTidyPair (retired key here) t = retired-IsTidyPair key _ _ t
Moves-IsTidyPair (activated key earlier) t =
    activated-IsTidyPair key _ _ (Moves-IsTidyPair earlier t)
Moves-IsTidyPair (to_bottom key here) t = to_bottom-IsTidyPair key _ _ here t
Moves-IsTidyPair (to_top key here) t = to_top-IsTidyPair key _ _ here t
Moves-IsTidyPair (replaced news) t = replaced-IsTidyPair news _ _

-- If the active keys of a channel are all different and none of them is a historical key, this stays so
-- through any of the operations on its keys: no key is counted twice in the statistics of the channel.
pub key_ops-IsTidy : (ops : List KeyOp) (u : UpstreamConfig) → IsTidy u → IsTidy (key_ops ops u)
unfolding key_ops
key_ops-IsTidy [] u t = t
key_ops-IsTidy (op ∷ ops) u t =
    key_ops-IsTidy ops (key_op op u) (Moves-IsTidyPair (key_op-Moves op u) t)

-- The key is counted in the statistics of the channel.
abbrev pub is_counted : List String → List String → String → Bool
is_counted active historical k = has active k || has historical k

Moves-is_counted :
    {a h a' h' : List String} (k : String)
    → Moves a h a' h'
    → is_counted a h k ≡ true
    → is_counted a' h' k ≡ true
Moves-is_counted k same c = c
Moves-is_counted {a = a} {h = h} k (retired key here) c = elim (Bool-cases (str_eq k key)) [
  | inl e ↦ ground (arith, e, has-add_missing h key k)
  | inr e ↦ ground (arith, e, c, has-add_missing h key k, has-drop_key_other key a k e)
]
Moves-is_counted k (activated {a' = a'} {h' = h'} key earlier) c = ground (
  arith,
  Moves-is_counted k earlier c,
  has-add_missing a' key k,
  has-filter (λ x. not (str_eq x key)) h' k,
)
Moves-is_counted {a = a} k (to_bottom key here) c = elim (Bool-cases (str_eq k key)) [
  | inl e ↦ ground (arith, e, has-append (drop_key key a) (key ∷ []) k)
  | inr e ↦
      ground (arith, e, c, has-append (drop_key key a) (key ∷ []) k, has-drop_key_other key a k e)
]
Moves-is_counted {a = a} k (to_top key here) c = elim (Bool-cases (str_eq k key)) [
  | inl e ↦ ground (arith, e)
  | inr e ↦ ground (arith, e, c, has-drop_key_other key a k e)
]
Moves-is_counted {a = a} {h = h} k (replaced news) c = ground (
  arith,
  c,
  has-deduplicate_strings news k,
  has-filter (λ x. not (has news x)) (retire news a h) k,
  has-retire news a h k,
)

-- A key that is active or historical stays one of the two through any of the operations on the
-- keys of the channel, so its statistics are never lost.
pub key_ops_forget_no_key :
    (k : String) (ops : List KeyOp) (u : UpstreamConfig)
    → is_counted u.api_keys u.historical_api_keys k ≡ true
    → is_counted (key_ops ops u).api_keys (key_ops ops u).historical_api_keys k ≡ true
unfolding key_ops
key_ops_forget_no_key k [] u c = c
key_ops_forget_no_key k (op ∷ ops) u c =
    key_ops_forget_no_key k ops (key_op op u) (Moves-is_counted k (key_op-Moves op u) c)
