-- ===== src/LogStore.antt =====
-- The log of recent upstream requests of each channel: backend-go/internal/metrics/channel_log.go.
-- Channel indices are not negative; the index -1 that `Update` returns is `none`. A log is never nil.
use ccx.Base.{
  ℕ, ℕ_eq, string_eq, ◌+◌, ◌-◌, ◌≡◌, Bool, true, false, ◌&&◌, ◌||◌, not, Option, none, some, List,
  [], ◌∷◌, ◌++◌, String, ltb, nat_eq, str_eq, if◌then◌else◌, length, drop,
}
use ccx.Base.Dict.{Dict, lookup, insert, delete, update_all}
use mathlib.Core.List.{reverse}
pub mod Ring
pub mod Shift
pub mod Update

pub record ChannelLog : Type 0 where
  pub request_id : String
  pub channel_index : ℕ
  pub timestamp : ℕ
  pub model : String
  pub original_model : String
  pub operation : String
  pub status_code : ℕ
  pub duration_ms : ℕ
  pub success : Bool
  pub key_mask : String
  pub base_url : String
  pub error_info : String
  pub is_retry : Bool
  pub interface_type : String
  pub request_source : String
  pub status : String
  pub start_time : ℕ
  pub connected_at : Option ℕ
  pub first_byte_at : Option ℕ
  pub completed_at : Option ℕ

abbrev pub max_channel_logs : ℕ
max_channel_logs = 50

abbrev pub status_completed : String
status_completed = "completed"

abbrev pub status_failed : String
status_failed = "failed"

abbrev pub status_cancelled : String
status_cancelled = "cancelled"

unfoldable pub is_terminal_status : String → Bool
is_terminal_status status =
    str_eq status status_completed || str_eq status status_failed || str_eq status status_cancelled

pub record ChannelLogStore : Type 0 where
  pub logs : Dict ℕ (List ChannelLog)
  pub request_locations : Dict String ℕ

unfoldable pub new_channel_log_store : ChannelLogStore
new_channel_log_store = record { logs = []; request_locations = [] }

-- `m[k]` of a map of slices: a missing key is an empty slice.
abbrev pub channel_logs : ℕ → Dict ℕ (List ChannelLog) → List ChannelLog
channel_logs ch m = elim (lookup ch m) [ none ↦ [] | some l ↦ l ]

abbrev pub is_empty {ℓ} : {A : Type ℓ} → List A → Bool
is_empty [] = true
is_empty (x ∷ xs) = false

-- The newest `max_channel_logs` of the logs.
unfoldable pub trim_logs : List ChannelLog → List ChannelLog
trim_logs l = if ltb max_channel_logs (length l) then drop (length l - max_channel_logs) l else l

abbrev pub stamp : ℕ → ChannelLog → ChannelLog
stamp ch log = if str_eq log.request_id "" then log else record log { channel_index = ch }

unfoldable pub track : ℕ → ChannelLog → Dict String ℕ → Dict String ℕ
track ch log locations =
    if str_eq log.request_id ""
    then locations
    else if is_terminal_status log.status
    then delete log.request_id locations
    else insert log.request_id ch locations

unfoldable pub record_log : ℕ → ChannelLog → ChannelLogStore → ChannelLogStore
unfolding track trim_logs
record_log ch log s = record s {
  request_locations = track ch log s.request_locations;
  logs = insert ch (trim_logs (channel_logs ch s.logs ++ stamp ch log ∷ [])) s.logs;
}

-- Where a request goes when channel `ch` is removed.
abbrev pub shift_location : ℕ → String → ℕ → Option ℕ
shift_location ch id idx =
    if nat_eq idx ch then none else some (if ltb ch idx then idx - 1 else idx)

abbrev pub set_channel : ℕ → List ChannelLog → List ChannelLog
set_channel ch [] = []
set_channel ch (log ∷ ls) = record log { channel_index = ch } ∷ set_channel ch ls

-- The loop that fills `shifted`.
unfoldable pub shift_logs : ℕ → Dict ℕ (List ChannelLog) → Dict ℕ (List ChannelLog)
shift_logs ch [] = []
shift_logs ch ((idx, ls) ∷ m) =
    let rest = shift_logs ch m in
    if nat_eq idx ch
    then rest
    else if ltb ch idx
    then (idx - 1, set_channel (idx - 1) ls) ∷ rest
    else (idx, ls) ∷ rest

unfoldable pub remove_and_shift : ℕ → ChannelLogStore → ChannelLogStore
unfolding shift_logs
remove_and_shift ch s =
    if is_empty s.logs && is_empty s.request_locations
    then s
    else (let moved = update_all (shift_location ch) s.request_locations in
        if is_empty s.logs
        then record s { request_locations = moved }
        else record { logs = shift_logs ch s.logs; request_locations = moved })

unfoldable pub clear_all : ChannelLogStore → ChannelLogStore
clear_all s = record { logs = []; request_locations = [] }

-- The copy that `Get` returns: newest first.
unfoldable pub get_logs : ℕ → ChannelLogStore → List ChannelLog
get_logs ch s = reverse (channel_logs ch s.logs)

pub data UpdateStatus : Type 0 where
  update_found update_missing_evicted update_missing_deleted : UpdateStatus

-- The first log of the request, updated, with its new value.
unfoldable pub update_first :
    String → (ChannelLog → ChannelLog) → List ChannelLog → Option (ChannelLog × List ChannelLog)
update_first id f [] = none
update_first id f (log ∷ ls) =
    let rest = update_first id f ls in
    if str_eq log.request_id id
    then some (f log, f log ∷ ls)
    else elim rest [ none ↦ none | some (x, ls') ↦ some (x, log ∷ ls') ]

-- `Update`; its channel argument is not used.
unfoldable pub update_log :
    String → (ChannelLog → ChannelLog) → ChannelLogStore → ChannelLogStore × UpdateStatus × Option ℕ
unfolding update_first
update_log id f s =
    if str_eq id ""
    then (s, update_missing_deleted, none)
    else elim (lookup id s.request_locations) [
      | none ↦ (s, update_missing_deleted, none)
      | some ch ↦ elim (lookup ch s.logs) [
        | none ↦ (
          record s { request_locations = delete id s.request_locations },
          update_missing_deleted,
          none,
        )
        | some ls ↦ elim (update_first id f ls) [
          | none ↦ (s, update_missing_evicted, some ch)
          | some (x, ls') ↦ (
            record {
              logs = insert ch ls' s.logs;
              request_locations =
                  if is_terminal_status x.status
                  then delete id s.request_locations
                  else s.request_locations;
            },
            update_found,
            some ch,
          )
        ]
      ]
    ]
