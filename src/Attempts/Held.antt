-- ===== src/Attempts/Held.antt =====
-- Which probes the calls of an attempt on a channel hold:
-- backend-go/internal/handlers/common/upstream_failover.go.
use ccx.Attempts.Answers.{probe_key, blacklisting, deprioritize_all}
use ccx.Base.{
  ◌≡◌, refl, sym, ap, ◌∙◌, Bool, true, false, not, ◌&&◌, ◌||◌, Option, none, some, List, [], ◌∷◌,
  ◌++◌, String, str_eq, nat_eq, arith, inl, inr, Bool-cases, Option-cases, eq_iff,
}
use Prim.Native.String.{◌++◌ as append}
use Prim.Native.String.append.{nil, cons}
use Prim.Native.Char.{code}
use ccx.Config.Keys.{has}
use ccx.Config.Types.{UpstreamConfig}
use ccx.UrlManager.{UrlLatencyResult}
use ccx.Attempts.{Event, probe_acquired, probe_released}
use ccx.Attempts.Trace.{cut, releases}

-- Whether the probe of the URL and the key was acquired and not released since.
abbrev pub held_after : String → String → Event → Bool → Bool
held_after url key (probe_acquired u k) before = (str_eq u url && str_eq k key) || before
held_after url key (probe_released u k) before = not (str_eq u url && str_eq k key) && before
held_after url key e before = before

abbrev pub held : String → String → List Event → Bool
held url key [] = false
held url key (e ∷ es) = held_after url key e (held url key es)

append-bar : (k : String) → append "|" k ≡ String.◌∷◌ "|" k
append-bar k = (λ i. cons "|" String.[] k i) ∙ ap (λ t. String.◌∷◌ "|" t) (λ i. nil k i)

cut-bar : (k : String) → cut (String.◌∷◌ "|" k) ≡ some (String.[], k)
unfolding cut
cut-bar k = refl

cut-probe_key : (u k : String) → cut u ≡ none → cut (probe_key u k) ≡ some (u, k)
unfolding cut
cut-probe_key String.[] k h = ap cut (λ i. nil (append "|" k) i) ∙ ap cut (append-bar k) ∙ cut-bar k
cut-probe_key (String.◌∷◌ c u) k h =
    ap cut (λ i. cons c u (append "|" k) i) ∙ elim (Bool-cases (nat_eq (code c) b'|')) [
      | inl e ↦ absurd (ground (arith, e, rw (cut, e) at h))
      | inr e ↦ elim (Option-cases (cut u)) [
        | inl n ↦ rw (cut, e, cut-probe_key u k n) refl
        | inr (parts, n) ↦ absurd (ground (arith, n, rw (cut, e, n) at h))
      ]
    ]

pub same_probe :
    (u k url key : String)
    → cut u ≡ none
    → cut url ≡ none
    → probe_key u k ≡ probe_key url key
    → (str_eq u url && str_eq k key) ≡ true
same_probe u k url key h g e =
    ground
      (arith, cut-probe_key u k h, cut-probe_key url key g, ap cut e, eq_iff u url, eq_iff k key)

abbrev pub IsPlain : UrlLatencyResult → Type 0
IsPlain r = cut r.url ≡ none

module _ (url key : String) (plain : cut url ≡ none) where
  pub held-deprioritize :
      (keys : List String) (tr : List Event)
      → held url key (deprioritize_all keys ++ tr) ≡ held url key tr
  held-deprioritize [] tr = refl
  held-deprioritize (k ∷ keys) tr = held-deprioritize keys tr

  pub held-blacklisting :
      (u : UpstreamConfig) (k : String) (reason : Option String) (tr : List Event)
      → held url key (blacklisting u k reason ++ tr) ≡ held url key tr
  unfolding blacklisting
  held-blacklisting u k none tr = refl
  held-blacklisting u k (some reason) tr = ground arith

  -- The releases at the end release every probe that is left.
  pub held-releases :
      (probes : List String) (tr : List Event)
      → (not (held url key tr) || has probes (probe_key url key)) ≡ true
      → held url key (releases probes ++ tr) ≡ false
  unfolding releases
  held-releases [] tr h = ground (arith, Bool-cases (held url key tr), h)
  held-releases (probe ∷ probes) tr h = elim (Bool-cases (str_eq (probe_key url key) probe)) [
    | inl e ↦
        let same : probe_key url key ≡ probe = (eq_iff (probe_key url key) probe).0 e in
        let parts : cut probe ≡ some (url, key) = ap cut (sym same) ∙ cut-probe_key url key plain in
        rw (releases, parts) (ground (arith, eq_iff url url, eq_iff key key))
    | inr e ↦
        let rest = held-releases probes tr (ground (arith, e, h)) in
        elim (Option-cases (cut probe)) [
          | inl n ↦ rw (releases, n) rest
          | inr (parts, n) ↦ rw (releases, n) (ground (arith, rest))
        ]
  ]
