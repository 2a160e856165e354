-- ===== src/LogStore/Shift.antt =====
-- What the removal of a channel does to the logs of the others.
use ccx.Base.{
  ℕ, ℕ_eq, string_eq, suc, ◌≡◌, refl, true, Option, none, some, List, [], ◌∷◌, arith, String, ltb,
  Bool-cases, inl, inr, if◌then◌else◌,
}
use ccx.Base.Dict.{Dict, lookup, IsDistinct, bind, update_all, lookup-update_all}
use mathlib.Core.List.{reverse}
use ccx.LogStore.{
  ChannelLog, ChannelLogStore, channel_logs, get_logs, set_channel, shift_logs, shift_location,
  remove_and_shift, is_empty,
}

abbrev pub map_logs :
    (List ChannelLog → List ChannelLog) → Option (List ChannelLog) → Option (List ChannelLog)
map_logs f none = none
map_logs f (some l) = some (f l)

lookup-shift_logs :
    (ch j : ℕ) (m : Dict ℕ (List ChannelLog))
    → lookup j (shift_logs ch m)
      ≡ (if ltb j ch then lookup j m else map_logs (set_channel j) (lookup (suc j) m))
unfolding lookup shift_logs
lookup-shift_logs ch j [] = ground arith
lookup-shift_logs ch j ((idx, ls) ∷ m) = ground (arith, lookup-shift_logs ch j m)

channel_logs-shift_logs :
    (ch j : ℕ) (m : Dict ℕ (List ChannelLog))
    → channel_logs j (shift_logs ch m)
      ≡ (if ltb j ch then channel_logs j m else set_channel j (channel_logs (suc j) m))
channel_logs-shift_logs ch j m = ground (arith, lookup-shift_logs ch j m)

shift_logs-empty : (ch : ℕ) (m : Dict ℕ (List ChannelLog)) → is_empty m ≡ true → shift_logs ch m ≡ m
unfolding shift_logs
shift_logs-empty ch [] h = refl
shift_logs-empty ch (x ∷ m) h = absurd (cc)

update_all-empty {ℓ κ} :
    {K : Type ℓ} {V : Type κ} (f : K → V → Option V) (m : Dict K V)
    → is_empty m ≡ true
    → update_all f m ≡ m
unfolding update_all
update_all-empty f [] h = refl
update_all-empty f (x ∷ m) h = absurd (cc)

remove_and_shift-logs :
    (ch : ℕ) (s : ChannelLogStore) → (remove_and_shift ch s).logs ≡ shift_logs ch s.logs
unfolding remove_and_shift
remove_and_shift-logs ch s = ground (arith, shift_logs-empty ch s.logs)

remove_and_shift-locations :
    (ch : ℕ) (s : ChannelLogStore)
    → (remove_and_shift ch s).request_locations ≡ update_all (shift_location ch) s.request_locations
unfolding remove_and_shift
remove_and_shift-locations ch s =
    ground (arith, update_all-empty (shift_location ch) s.request_locations)

pub lookup-remove_and_shift :
    (ch j : ℕ) (s : ChannelLogStore)
    → lookup j (remove_and_shift ch s).logs
      ≡ (if ltb j ch then lookup j s.logs else map_logs (set_channel j) (lookup (suc j) s.logs))
lookup-remove_and_shift ch j s = rw remove_and_shift-logs (lookup-shift_logs ch j s.logs)

-- After channel `ch` is removed, the channels below it show their logs as before, and every channel
-- from `ch` on shows the logs of the next one, under its own index.
pub get-remove_and_shift :
    (ch j : ℕ) (s : ChannelLogStore)
    → get_logs j (remove_and_shift ch s)
      ≡ (if ltb j ch then get_logs j s else reverse (set_channel j (channel_logs (suc j) s.logs)))
unfolding get_logs
get-remove_and_shift ch j s =
    rw (remove_and_shift-logs, channel_logs-shift_logs)
      (elim (Bool-cases (ltb j ch)) [ inl e ↦ rw e | inr e ↦ rw e ])

-- With one location for each request, the location of a request in flight moves with its channel, and is forgotten with it.
pub locations-remove_and_shift :
    (ch : ℕ) (id : String) (s : ChannelLogStore)
    → IsDistinct s.request_locations
    → lookup id (remove_and_shift ch s).request_locations
      ≡ bind (lookup id s.request_locations) (shift_location ch id)
locations-remove_and_shift ch id s d =
    rw remove_and_shift-locations (lookup-update_all (shift_location ch) id s.request_locations d)
