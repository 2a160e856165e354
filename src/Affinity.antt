-- ===== src/Affinity.antt =====
-- Which channel a user's conversation stays on: backend-go/internal/session/trace_affinity.go.
-- Instants and durations are numbers of one unit, read once by each call.
use ccx.Base.{
  ℕ, string_eq, zero, suc, ◌+◌, ◌≡◌, Bool, true, false, Option, none, some, List, [], ◌∷◌, String,
  ltb, leb, nat_eq, str_eq, if◌then◌else◌, length,
}
use ccx.Base.Dict.{Dict, lookup, insert, delete, update_all}
pub mod Laws
pub mod Cleanup

pub record TraceAffinity : Type 0 where
  pub channel_index : ℕ
  pub last_used_at : ℕ

pub record TraceAffinityManager : Type 0 where
  pub affinity : Dict String TraceAffinity
  pub ttl : ℕ

-- 30 minutes, in nanoseconds.
abbrev pub default_ttl : ℕ
default_ttl = 1800000000000

unfoldable pub new_trace_affinity_manager_with_ttl : ℕ → TraceAffinityManager
new_trace_affinity_manager_with_ttl ttl = record {
  affinity = [];
  ttl = if leb ttl 0 then default_ttl else ttl;
}

unfoldable pub new_trace_affinity_manager : TraceAffinityManager
new_trace_affinity_manager = record { affinity = []; ttl = default_ttl }

-- `now.Sub(LastUsedAt) > ttl`
abbrev pub is_expired : ℕ → ℕ → TraceAffinity → Bool
is_expired ttl now a = ltb (a.last_used_at + ttl) now

-- The channel, or `none` for (-1, false).
unfoldable pub get_preferred_channel : String → ℕ → TraceAffinityManager → Option ℕ
get_preferred_channel user now m = if str_eq user "" then none else elim (lookup user m.affinity) [
  | none ↦ none
  | some a ↦ if is_expired m.ttl now a then none else some a.channel_index
]

unfoldable pub set_preferred_channel : String → ℕ → ℕ → TraceAffinityManager → TraceAffinityManager
set_preferred_channel user ch now m = if str_eq user "" then m else record m {
  affinity = insert user (record { channel_index = ch; last_used_at = now }) m.affinity;
}

unfoldable pub update_last_used : String → ℕ → TraceAffinityManager → TraceAffinityManager
update_last_used user now m = if str_eq user "" then m else elim (lookup user m.affinity) [
  | none ↦ m
  | some a ↦ record m { affinity = insert user (record a { last_used_at = now }) m.affinity }
]

unfoldable pub remove : String → TraceAffinityManager → TraceAffinityManager
remove user m = record m { affinity = delete user m.affinity }

abbrev pub unless_channel : ℕ → String → TraceAffinity → Option TraceAffinity
unless_channel ch user a = if nat_eq a.channel_index ch then none else some a

unfoldable pub remove_by_channel : ℕ → TraceAffinityManager → TraceAffinityManager
remove_by_channel ch m = record m { affinity = update_all (unless_channel ch) m.affinity }

abbrev pub unless_expired : ℕ → ℕ → String → TraceAffinity → Option TraceAffinity
unless_expired ttl now user a = if is_expired ttl now a then none else some a

-- How many records the loop of `Cleanup` deletes.
unfoldable pub count_expired : ℕ → ℕ → Dict String TraceAffinity → ℕ
count_expired ttl now [] = 0
count_expired ttl now ((user, a) ∷ m) =
    let rest = count_expired ttl now m in if is_expired ttl now a then suc rest else rest

unfoldable pub cleanup : ℕ → TraceAffinityManager → TraceAffinityManager × ℕ
unfolding count_expired
cleanup now m = (
  record m { affinity = update_all (unless_expired m.ttl now) m.affinity },
  count_expired m.ttl now m.affinity,
)

unfoldable pub size : TraceAffinityManager → ℕ
size m = length m.affinity
