-- ===== src/Affinity/Laws.antt =====
-- What can be read back of the affinities: backend-go/internal/session/trace_affinity.go.
use ccx.Base.{
  ℕ, string_eq, ◌+◌, ◌≤◌, ◌≡◌, false, none, some, List, [], ◌∷◌, arith, String, ltb, nat_eq, str_eq,
  eq_iff, if◌then◌else◌, length, Option-cases, inl, inr,
}
use ccx.Base.Dict.{
  Dict, lookup, IsDistinct, bind, update_all, lookup-insert, lookup-update_all, insert-IsDistinct,
  delete-IsDistinct, update_all-IsDistinct,
}
use ccx.Affinity.{
  TraceAffinity, TraceAffinityManager, get_preferred_channel, set_preferred_channel,
  update_last_used, remove, remove_by_channel, cleanup, count_expired, size, unless_channel,
  unless_expired,
}

-- A named user reads the channel set last, as long as it was used within the lifetime; a set
-- touches no other user.
pub get-set_preferred_channel :
    (user user' : String) (ch now now' : ℕ) (m : TraceAffinityManager)
    → str_eq user "" ≡ false
    → get_preferred_channel user' now' (set_preferred_channel user ch now m) ≡ (
        if str_eq user user'
        then (if ltb (now + m.ttl) now' then none else some ch)
        else get_preferred_channel user' now' m)
unfolding get_preferred_channel set_preferred_channel
get-set_preferred_channel user user' ch now now' m named = ground (
  arith,
  named,
  eq_iff user user',
  lookup-insert user user' (record { channel_index = ch; last_used_at = now }) m.affinity,
)

-- With one record for each user, a read of any user at the instant of the clean-up or later, with no call in between,
-- has the answer that it has without the clean-up.
pub get-cleanup :
    (user : String) (now now' : ℕ) (m : TraceAffinityManager)
    → IsDistinct m.affinity
    → now ≤ now'
    → get_preferred_channel user now' (cleanup now m).0 ≡ get_preferred_channel user now' m
unfolding get_preferred_channel cleanup
get-cleanup user now now' m d later =
    ground (arith, lookup-update_all (unless_expired m.ttl now) user m.affinity d)

-- With one record for each user, the removal by a channel index leaves no user at that index and the others as they were.
-- The indices above it do not move, and a user of any kind of channel counts, since the kind is part of the
-- user's name.
pub get-remove_by_channel :
    (user : String) (ch now : ℕ) (m : TraceAffinityManager)
    → IsDistinct m.affinity
    → get_preferred_channel user now (remove_by_channel ch m)
      ≡ bind (get_preferred_channel user now m) (λ x. if nat_eq x ch then none else some x)
unfolding get_preferred_channel remove_by_channel
get-remove_by_channel user ch now m d =
    ground (arith, lookup-update_all (unless_channel ch) user m.affinity d)

count-update_all :
    (ttl now : ℕ) (m : Dict String TraceAffinity)
    → length (update_all (unless_expired ttl now) m) + count_expired ttl now m ≡ length m
unfolding update_all count_expired
count-update_all ttl now [] = omega arith
count-update_all ttl now ((user, a) ∷ m) = ground (arith, count-update_all ttl now m)

-- The clean-up returns how many records it removed.
pub size-cleanup :
    (now : ℕ) (m : TraceAffinityManager) → size (cleanup now m).0 + (cleanup now m).1 ≡ size m
unfolding size cleanup
size-cleanup now m = count-update_all m.ttl now m.affinity

-- The calls that change the records.
pub data Call : Type 0 where
  set : String → ℕ → ℕ → Call
  touch : String → ℕ → Call
  forget : String → Call
  forget_channel : ℕ → Call
  clean : ℕ → Call

unfoldable pub call : Call → TraceAffinityManager → TraceAffinityManager
call (set user ch now) m = set_preferred_channel user ch now m
call (touch user now) m = update_last_used user now m
call (forget user) m = remove user m
call (forget_channel ch) m = remove_by_channel ch m
call (clean now) m = (cleanup now m).0

pub call-IsDistinct :
    (c : Call) (m : TraceAffinityManager) → IsDistinct m.affinity → IsDistinct (call c m).affinity
unfolding call
call-IsDistinct (set user ch now) m d =
    unfold set_preferred_channel in
    ground (
      arith,
      insert-IsDistinct user (record { channel_index = ch; last_used_at = now }) m.affinity d,
    )
call-IsDistinct (touch user now) m d = elim (Option-cases (lookup user m.affinity)) [
  | inl e ↦ unfold update_last_used in ground (arith, e)
  | inr (a, e) ↦
      unfold update_last_used in
      ground (arith, e, insert-IsDistinct user (record a { last_used_at = now }) m.affinity d)
]
call-IsDistinct (forget user) m d = unfold remove in delete-IsDistinct user m.affinity d
call-IsDistinct (forget_channel ch) m d =
    unfold remove_by_channel in update_all-IsDistinct (unless_channel ch) m.affinity d
call-IsDistinct (clean now) m d =
    unfold cleanup in update_all-IsDistinct (unless_expired m.ttl now) m.affinity d

unfoldable pub calls : List Call → TraceAffinityManager → TraceAffinityManager
calls [] m = m
calls (c ∷ cs) m = calls cs (call c m)

-- No calls give a user two records.
pub calls-IsDistinct :
    (cs : List Call) (m : TraceAffinityManager)
    → IsDistinct m.affinity
    → IsDistinct (calls cs m).affinity
unfolding calls
calls-IsDistinct [] m d = d
calls-IsDistinct (c ∷ cs) m d = calls-IsDistinct cs (call c m) (call-IsDistinct c m d)
