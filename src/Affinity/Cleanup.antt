-- ===== src/Affinity/Cleanup.antt =====
-- What a clean-up of the affinities changes later on: backend-go/internal/session/trace_affinity.go.
use ccx.Base.{ℕ, string_eq, ◌≡◌, Bool, true, false, Option, none, some, ◌⊎◌, String}
use ccx.Base.Dict.{lookup, IsDistinct}
use ccx.Affinity.{TraceAffinity, TraceAffinityManager, is_expired}
use ccx.Affinity.Laws.{Call, set, touch, forget, forget_channel, clean}

-- Whether the call is `UpdateLastUsed`, which renews a record.
abbrev pub is_renewal : Call → Bool
is_renewal (set user ch now) = false
is_renewal (touch user now) = true
is_renewal (forget user) = false
is_renewal (forget_channel ch) = false
is_renewal (clean now) = false

module _ (ttl since : ℕ) where
  abbrev is_dead : Option TraceAffinity → Bool
  is_dead none = false
  is_dead (some a) = is_expired ttl since a

  -- The record is the same, or missing where the other one had expired.
  abbrev IsLess : Option TraceAffinity → Option TraceAffinity → Type 0
  IsLess a b = (a ≡ b) ⊎ ((a ≡ none) × (is_dead b ≡ true))

  record Follows (m n : TraceAffinityManager) : Type 0 where
    same_ttl : m.ttl ≡ ttl
    same_ttl' : n.ttl ≡ ttl
    distinct : IsDistinct m.affinity
    distinct' : IsDistinct n.affinity
    less : (user : String) → IsLess (lookup user m.affinity) (lookup user n.affinity)
