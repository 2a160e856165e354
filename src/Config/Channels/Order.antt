-- ===== src/Config/Channels/Order.antt =====
-- The order and the promotion of the channels: backend-go/internal/config/config_messages.go and the files of the other
-- kinds.
use ccx.Base.{
  ℕ, ℕ_eq, zero, suc, ◌+◌, ◌≡◌, ◌≢◌, refl, sym, ap, ◌∙◌, true, false, ◌&&◌, Option, none, some,
  List, [], ◌∷◌, str_eq, leb, ltb, nat_eq, nat_eq_iff, inl, inr, arith, if◌then◌else◌, any, length,
  get_elem?, modify, map, get_elem?-modify_ne, Bool-cases, Option-cases,
}
use ccx.Base.Results.{ok}
use ccx.Config.Types.{
  ChannelKind, messages, responses, gemini, chat, images, UpstreamConfig, channels_of,
  effective_status,
}
use ccx.Config.Keys.Lists.{map_option}
use ccx.Config.Manager.{ConfigManager, Host, saving, put_channels}
use ccx.Config.Channels.{
  check_order, set_priorities, reorder_upstreams, promoted_until, promote_only, first_promoted,
  set_channel_promotion, get_promoted_channel,
}

module _ {ℓ} {A : Type ℓ} where
  get_elem?-modify_eq :
      (f : A → A) (xs : List A) (i : ℕ)
      → get_elem? (modify f xs i) i ≡ map_option f (get_elem? xs i)
  get_elem?-modify_eq f [] i = refl
  get_elem?-modify_eq f (x ∷ xs) zero = refl
  get_elem?-modify_eq f (x ∷ xs) (suc i) = get_elem?-modify_eq f xs i

-- The place of an index in the order.
unfoldable pub position : ℕ → List ℕ → Option ℕ
position i [] = none
position i (j ∷ order) =
    let rest = position i order in
    if nat_eq j i then some 0 else elim rest [ none ↦ none | some k ↦ some (suc k) ]

-- A channel at place `k` of the order has the priority `priority + k`, the others keep theirs.
abbrev pub prioritized : ℕ → Option ℕ → UpstreamConfig → UpstreamConfig
prioritized priority none u = u
prioritized priority (some k) u = record u { priority = priority + k }

position-seen :
    (count i : ℕ) (order seen : List ℕ)
    → check_order count order seen ≡ none
    → any (nat_eq i) seen ≡ true
    → position i order ≡ none
unfolding check_order position
position-seen count i [] seen h s = refl
position-seen count i (j ∷ order) seen h s =
    ground (arith, h, s, nat_eq_iff i j, nat_eq_iff j i, position-seen count i order (j ∷ seen))

check_order-rest :
    (count j : ℕ) (order seen : List ℕ)
    → check_order count (j ∷ order) seen ≡ none
    → check_order count order (j ∷ seen) ≡ none
unfolding check_order
check_order-rest count j order seen h = ground (arith, h)

position-cons :
    (i j : ℕ) (order : List ℕ)
    → nat_eq j i ≡ false
    → position i (j ∷ order) ≡ map_option suc (position i order)
unfolding position
position-cons i j order h = elim (Option-cases (position i order)) [
  | inl e ↦ ground (arith, h, e)
  | inr (k, e) ↦ ground (arith, h, e)
]

prioritized-suc :
    (priority : ℕ) (place : Option ℕ) (u : UpstreamConfig)
    → prioritized (suc priority) place u ≡ prioritized priority (map_option suc place) u
prioritized-suc priority none u = refl
prioritized-suc priority (some k) u =
    let same : suc priority + k ≡ priority + suc k = omega arith in
    ap (λ n. record u { priority = n }) same

abbrev with_priority : ℕ → UpstreamConfig → UpstreamConfig
with_priority priority u = record u { priority = priority }

placed_here :
    (priority : ℕ) (o : Option UpstreamConfig)
    → map_option (prioritized (suc priority) none) (map_option (with_priority priority) o)
      ≡ map_option (prioritized priority (some 0)) o
placed_here priority none = refl
placed_here priority (some u) =
    let same : priority ≡ priority + 0 = omega arith in ap (λ n. some (with_priority n u)) same

placed_later :
    (priority : ℕ) (place : Option ℕ) (o : Option UpstreamConfig)
    → map_option (prioritized (suc priority) place) o
      ≡ map_option (prioritized priority (map_option suc place)) o
placed_later priority place none = refl
placed_later priority place (some u) = ap some (prioritized-suc priority place u)

position-head : (i j : ℕ) (order : List ℕ) → nat_eq j i ≡ true → position i (j ∷ order) ≡ some 0
unfolding position
position-head i j order h = ground (arith, h)

set_priorities-get :
    (count i : ℕ) (order seen : List ℕ) (priority : ℕ) (us : List UpstreamConfig)
    → check_order count order seen ≡ none
    → get_elem? (set_priorities priority order us) i
      ≡ map_option (prioritized priority (position i order)) (get_elem? us i)
unfolding set_priorities
set_priorities-get count i [] seen priority us h = elim (Option-cases (get_elem? us i)) [
  | inl e ↦ unfold position in rw e refl
  | inr (u, e) ↦ unfold position in rw e refl
]
set_priorities-get count i (j ∷ order) seen priority us h =
    let set = modify (with_priority priority) us j in
    let later =
      set_priorities-get count i order (j ∷ seen) (suc priority) set
        (check_order-rest count j order seen h) in
    elim (Bool-cases (nat_eq j i)) [
      | inl e ↦
          let same : j ≡ i = (nat_eq_iff j i).0 e in
          let once : position i order ≡ none =
            position-seen count i order (j ∷ seen) (check_order-rest count j order seen h)
              (ground (arith, e, nat_eq_iff i j, nat_eq_iff j i)) in
          let found : get_elem? set i ≡ map_option (with_priority priority) (get_elem? us i) =
            rw same (get_elem?-modify_eq (with_priority priority) us i) in
          later
          ∙ ap (λ z. map_option (prioritized (suc priority) z) (get_elem? set i)) once
          ∙ ap (map_option (prioritized (suc priority) none)) found
          ∙ placed_here priority (get_elem? us i)
          ∙ ap (λ z. map_option (prioritized priority z) (get_elem? us i))
              (sym (position-head i j order e))
      | inr e ↦
          let apart : j ≢ i = λ same. ground (arith, e, same, nat_eq_iff j i) in
          later
          ∙ ap (map_option (prioritized (suc priority) (position i order)))
              (get_elem?-modify_ne (with_priority priority) us j i apart)
          ∙ placed_later priority (position i order) (get_elem? us i)
          ∙ ap (λ z. map_option (prioritized priority z) (get_elem? us i))
              (sym (position-cons i j order e))
    ]

channels_of-saving :
    {A : Type 0} (host : Host) (a : A) (kind : ChannelKind) (us : List UpstreamConfig)
    (m : ConfigManager)
    → channels_of (saving host a (put_channels kind us m)).0.config kind ≡ us
unfolding channels_of saving put_channels
channels_of-saving host a messages us m = refl
channels_of-saving host a responses us m = refl
channels_of-saving host a gemini us m = refl
channels_of-saving host a chat us m = refl
channels_of-saving host a images us m = refl

-- A reorder that succeeds gives each channel at place k of the order, counted from 0, the priority k + 1, and leaves the other
-- channels of the kind as they were.
pub reorder_upstreams-get :
    (host : Host) (kind : ChannelKind) (order : List ℕ) (m : ConfigManager) (i : ℕ)
    → (reorder_upstreams host kind order m).1 ≡ ok tt
    → get_elem? (channels_of (reorder_upstreams host kind order m).0.config kind) i
      ≡ map_option (prioritized 1 (position i order)) (get_elem? (channels_of m.config kind) i)
unfolding reorder_upstreams
reorder_upstreams-get host kind [] m i done = absurd (ground (arith, done))
reorder_upstreams-get host kind (j ∷ order) m i done =
    let us = channels_of m.config kind in
    elim (Option-cases (check_order (length us) (j ∷ order) [])) [
      | inl e ↦
          rw (reorder_upstreams, e)
            (ap (λ z. get_elem? z i)
                (channels_of-saving host tt kind (set_priorities 1 (j ∷ order) us) m)
              ∙ set_priorities-get (length us) i (j ∷ order) [] 1 us e)
      | inr (x, e) ↦ absurd (ground (arith, e, rw (reorder_upstreams, e) at done))
    ]

first_promoted-none :
    (now : ℕ) (us : List UpstreamConfig) (base : ℕ)
    → first_promoted now base (map (promoted_until none) us) ≡ none
unfolding first_promoted
first_promoted-none now [] base = refl
first_promoted-none now (u ∷ us) base = first_promoted-none now us (suc base)

-- The index, where the channel is active and the promotion not over.
abbrev pub found_at : ℕ → ℕ → ℕ → Option UpstreamConfig → Option ℕ
found_at now t i none = none
found_at now t i (some u) =
    if ltb now t && str_eq (effective_status u) "active" then some i else none

first_promoted-promote_only :
    (now t i : ℕ) (us : List UpstreamConfig) (base : ℕ)
    → first_promoted now base (promote_only t i us) ≡ found_at now t (base + i) (get_elem? us i)
unfolding first_promoted promote_only
first_promoted-promote_only now t i [] base = refl
first_promoted-promote_only now t zero (u ∷ us) base =
    let same : base + 0 ≡ base = omega arith in
    ground (arith, same, first_promoted-none now us (suc base))
first_promoted-promote_only now t (suc i) (u ∷ us) base =
    let same : suc base + i ≡ base + suc i = omega arith in
    first_promoted-promote_only now t i us (suc base)
    ∙ ap (λ z. found_at now t z (get_elem? us i)) same

-- After a promotion for a positive duration that succeeds, the promoted channel of the kind is the
-- one it was set for, at every instant before its end and if that channel is active;
-- otherwise no channel of the kind is promoted, whatever was promoted before.
pub get_promoted-set_promotion :
    (host : Host) (kind : ChannelKind) (i d now : ℕ) (m : ConfigManager)
    → nat_eq d 0 ≡ false
    → (set_channel_promotion host kind i d m).1 ≡ ok tt
    → get_promoted_channel now kind (set_channel_promotion host kind i d m).0
      ≡ found_at now (host.now + d) i (get_elem? (channels_of m.config kind) i)
unfolding set_channel_promotion get_promoted_channel
get_promoted-set_promotion host kind i d now m positive done =
    let us = channels_of m.config kind in
    let start : 0 + i ≡ i = omega arith in
    elim (Bool-cases (leb (length us) i)) [
      | inl e ↦ absurd (ground (arith, e, rw (set_channel_promotion, e) at done))
      | inr e ↦
          rw (set_channel_promotion, e, positive)
            (ap (first_promoted now 0)
                (channels_of-saving host tt kind (promote_only (host.now + d) i us) m)
              ∙ first_promoted-promote_only now (host.now + d) i us 0
              ∙ ap (λ z. found_at now (host.now + d) z (get_elem? us i)) start)
    ]
