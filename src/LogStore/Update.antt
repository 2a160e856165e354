-- ===== src/LogStore/Update.antt =====
-- The updates of a request, from its record to its end: backend-go/internal/metrics/channel_log.go.
use ccx.Base.{
  ltb→lt, ltb-false→le, Option-cases, ℕ, ℕ_eq, string_eq, zero, suc, ◌-◌, ◌≡◌, ◌≢◌, refl, Bool,
  true, false, ◌||◌, none, some, List, [], ◌∷◌, ◌++◌, arith, String, nat_eq_iff, ltb, str_eq,
  eq_iff, Bool-cases, inl, inr, if◌then◌else◌, length, drop,
}
use ccx.Base.Dict.{lookup, lookup-insert, lookup-delete, IsDistinct}
use ccx.LogStore.{
  ChannelLog, ChannelLogStore, channel_logs, record_log, set_channel, remove_and_shift, trim_logs,
  stamp, track, is_terminal_status, max_channel_logs, update_first, update_log, update_found,
  update_missing_deleted,
}
use ccx.LogStore.Shift.{locations-remove_and_shift, lookup-remove_and_shift}

-- The log of the request is among these.
unfoldable pub contains : String → List ChannelLog → Bool
contains id [] = false
contains id (log ∷ ls) = str_eq log.request_id id || contains id ls

-- The request is in flight on channel `ch`, and its log is still there.
pub record Located (id : String) (ch : ℕ) (s : ChannelLogStore) : Type 0 where
  pub named : str_eq id "" ≡ false
  pub located : lookup id s.request_locations ≡ some ch
  pub logs : List ChannelLog
  pub stored : lookup ch s.logs ≡ some logs
  pub present : contains id logs ≡ true

contains-append :
    (id : String) (xs : List ChannelLog) (log : ChannelLog)
    → str_eq log.request_id id ≡ true
    → contains id (xs ++ log ∷ []) ≡ true
unfolding contains
contains-append id [] log h = ground arith
contains-append id (x ∷ xs) log h = ground (arith, contains-append id xs log h)

contains-drop_append :
    (id : String) (k : ℕ) (xs : List ChannelLog) (log : ChannelLog)
    → ltb k (length (xs ++ log ∷ [])) ≡ true
    → str_eq log.request_id id ≡ true
    → contains id (drop k (xs ++ log ∷ [])) ≡ true
contains-drop_append id zero xs log l h = contains-append id xs log h
contains-drop_append id (suc k) [] log l h = absurd (ground arith)
contains-drop_append id (suc k) (x ∷ xs) log l h = contains-drop_append id k xs log (ground arith) h

contains-set_channel :
    (id : String) (ch : ℕ) (ls : List ChannelLog) → contains id (set_channel ch ls) ≡ contains id ls
unfolding contains
contains-set_channel id ch [] = refl
contains-set_channel id ch (x ∷ ls) = ground (arith, contains-set_channel id ch ls)

update_first-contains :
    (id : String) (f : ChannelLog → ChannelLog) (ls : List ChannelLog)
    → contains id ls ≡ true
    → (x : ChannelLog × List ChannelLog) × (update_first id f ls ≡ some x)
unfolding contains update_first
update_first-contains id f [] h = absurd (cc)
update_first-contains id f (x ∷ ls) h = elim (Bool-cases (str_eq x.request_id id)) [
  | inl e ↦ ((f x, f x ∷ ls), rw e)
  | inr e ↦
      let ((y, ls'), found) = update_first-contains id f ls (ground arith) in
      ((y, x ∷ ls'), rw (e, found))
]

-- An update of a located request is made on its channel.
pub update-Located :
    (id : String) (ch : ℕ) (f : ChannelLog → ChannelLog) (s : ChannelLogStore)
    → Located id ch s
    → let r = update_log id f s in (r.1 ≡ update_found) × (r.2 ≡ some ch)
unfolding update_log
update-Located id ch f s h =
    let (x, found) = update_first-contains id f h.logs h.present in
    rw (h.named, h.located, h.stored, found, update_log) (refl, refl)

record_log-Located :
    (ch : ℕ) (log : ChannelLog) (s : ChannelLogStore)
    → str_eq log.request_id "" ≡ false
    → is_terminal_status log.status ≡ false
    → Located log.request_id ch (record_log ch log s)
unfolding record_log
record_log-Located ch log s named running =
    let l = channel_logs ch s.logs ++ stamp ch log ∷ [] in
    let id = log.request_id in
    let same : str_eq (stamp ch log).request_id id ≡ true = ground (arith, (eq_iff id id).1 refl) in
    record {
      named = named;
      located = unfold track in rw (named, running, lookup-insert, (eq_iff id id).1 refl);
      logs = trim_logs l;
      stored = rw (lookup-insert, (nat_eq_iff ch ch).1 refl);
      present =
          unfold trim_logs in
          elim (Bool-cases (ltb max_channel_logs (length l))) [
            | inl e ↦ rw e (
                contains-drop_append id (length l - max_channel_logs) (channel_logs ch s.logs)
                  (stamp ch log) (ground arith) same)
            | inr e ↦ rw e (contains-append id (channel_logs ch s.logs) (stamp ch log) same)
          ];
    }

-- A request recorded in flight can be updated on its channel, whatever else the ring buffer holds
-- and whatever the update is.
pub update-record_log :
    (ch : ℕ) (log : ChannelLog) (f : ChannelLog → ChannelLog) (s : ChannelLogStore)
    → str_eq log.request_id "" ≡ false
    → is_terminal_status log.status ≡ false
    → let r = update_log log.request_id f (record_log ch log s) in
      (r.1 ≡ update_found) × (r.2 ≡ some ch)
update-record_log ch log f s named running =
    update-Located log.request_id ch f (record_log ch log s)
      (record_log-Located ch log s named running)

remove_and_shift-Located :
    (gone ch : ℕ) (id : String) (s : ChannelLogStore)
    → IsDistinct s.request_locations
    → gone ≢ ch
    → Located id ch s
    → Located id (if ltb gone ch then ch - 1 else ch) (remove_and_shift gone s)
remove_and_shift-Located gone ch id s d ne h = elim (Bool-cases (ltb gone ch)) [
  | inl above ↦
      let e : suc (ch - 1) ≡ ch = omega (arith, ltb→lt gone ch above) in
      let later : ltb (ch - 1) gone ≡ false = ground (arith, ltb→lt gone ch above) in
      rw above (record {
        named = h.named;
        located = ground (arith, locations-remove_and_shift gone id s d, h.located);
        logs = set_channel (ch - 1) h.logs;
        stored = rw (lookup-remove_and_shift, later, e, h.stored);
        present = rw contains-set_channel h.present;
      })
  | inr below ↦
      let earlier : ltb ch gone ≡ true = ground (arith, ltb-false→le gone ch below) in
      rw below (record {
        named = h.named;
        located = ground (arith, locations-remove_and_shift gone id s d, h.located);
        logs = h.logs;
        stored = rw (lookup-remove_and_shift, earlier, h.stored);
        present = h.present;
      })
]

-- With one location for each request, when another channel is removed, a located request can still be updated, on the index that its own
-- channel has then.
pub update-remove_and_shift :
    (gone ch : ℕ) (id : String) (f : ChannelLog → ChannelLog) (s : ChannelLogStore)
    → IsDistinct s.request_locations
    → gone ≢ ch
    → Located id ch s
    → let r = update_log id f (remove_and_shift gone s) in
      (r.1 ≡ update_found) × (r.2 ≡ some (if ltb gone ch then ch - 1 else ch))
update-remove_and_shift gone ch id f s d ne h =
    update-Located id (if ltb gone ch then ch - 1 else ch) f (remove_and_shift gone s)
      (remove_and_shift-Located gone ch id s d ne h)

update_first-value :
    (id : String) (f : ChannelLog → ChannelLog) (ls : List ChannelLog)
    (x : ChannelLog × List ChannelLog)
    → update_first id f ls ≡ some x
    → (log : ChannelLog) × (x.0 ≡ f log)
unfolding update_first
update_first-value id f [] x h = absurd (cc)
update_first-value id f (log ∷ ls) x h = elim (Bool-cases (str_eq log.request_id id)) [
  | inl e ↦ (log, ground arith)
  | inr e ↦ elim (Option-cases (update_first id f ls)) [
    | inl n ↦ absurd (ground arith)
    | inr (y, found) ↦ let (l, eq) = update_first-value id f ls y found in (l, ground arith)
  ]
]

-- An update that ends a located request takes it out of flight: the next update of it finds nothing.
pub update-update_finished :
    (id : String) (ch : ℕ) (f g : ChannelLog → ChannelLog) (s : ChannelLogStore)
    → ((log : ChannelLog) → is_terminal_status (f log).status ≡ true)
    → Located id ch s
    → let r = update_log id g (update_log id f s).0 in (r.1 ≡ update_missing_deleted) × (r.2 ≡ none)
unfolding update_log
update-update_finished id ch f g s ends h =
    let (x, found) = update_first-contains id f h.logs h.present in
    let (log, value) = update_first-value id f h.logs x found in
    let ended : is_terminal_status x.0.status ≡ true = rw value (ends log) in
    ground (
      arith,
      h.named,
      h.located,
      h.stored,
      found,
      ended,
      lookup-delete id id s.request_locations,
      (eq_iff id id).1 refl,
    )
