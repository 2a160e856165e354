-- ===== src/Tests/Sessions.antt =====
-- Runs of the conversations: backend-go/internal/session/manager.go.
use ccx.Base.{ℕ, string_eq, ◌≡◌, refl, some, List, [], ◌∷◌, str_eq, if◌then◌else◌}
use ccx.Base.Dict.{lookup, bind, update_all}
use ccx.Base.Results.{ok}
use ccx.Session.{
  Session, SessionManager, get_or_create_session, record_response_mapping, session_of, cleanup,
  get_session, get_stats,
}
use ccx.Session.Laws.{
  unless_removed, session_of-cleanup, Call, append, create, set_last, calls, conversation, specs,
  conversation-calls, continued, get_or_create-record_response_mapping,
}

-- One session "s1" of the items 7 and 8, last used at 100, that the response "r1" leads to.
abbrev session : Session ℕ
session = record {
  id = "s1";
  messages = 7 ∷ 8 ∷ [];
  last_response_id = "r1";
  created_at = 5;
  last_access_at = 100;
  total_tokens = 30;
}

abbrev manager : SessionManager ℕ
manager = record {
  sessions = ("s1", session) ∷ [];
  response_mapping = ("r1", "s1") ∷ ("r2", "gone") ∷ [];
  max_age = 50;
  max_messages = 10;
  max_tokens = 1000;
}

cleaned_stats :
    (get_stats (cleanup 120 manager) ≡ (1, 1)) × (get_stats (cleanup 151 manager) ≡ (0, 0))
unfolding get_stats cleanup update_all lookup
cleaned_stats = (refl, refl)

cloned : get_session (λ items. some items) "s1" manager ≡ ok session
unfolding get_session lookup
cloned = refl

session_of-cleanup_example :
    session_of "r1" (cleanup 151 manager)
    ≡ bind (session_of "r1" manager) (unless_removed 151 manager)
unfolding lookup
session_of-cleanup_example = session_of-cleanup "r1" 151 manager ((refl, tt), (refl, (refl, tt)))

abbrev two_calls : List (Call ℕ)
two_calls = create "s2" 110 ∷ append "s1" 9 4 120 ∷ set_last "s1" "r3" ∷ []

conversation-calls_example :
    conversation "s1" (calls two_calls manager) ≡ specs "s1" two_calls (conversation "s1" manager)
conversation-calls_example = conversation-calls "s1" two_calls manager

all_items : specs "s1" two_calls (some (7 ∷ 8 ∷ [])) ≡ some (7 ∷ 8 ∷ 9 ∷ [])
unfolding specs
all_items = refl

get_or_create-record_response_mapping_example :
    (get_or_create_session "r9" "s5" 130 (record_response_mapping "r9" "s1" manager)).1 ≡ (
      if str_eq "r9" "r9"
      then continued 130 (lookup "s1" manager.sessions)
      else (get_or_create_session "r9" "s5" 130 manager).1)
get_or_create-record_response_mapping_example =
    get_or_create-record_response_mapping "r9" "r9" "s1" "s5" 130 manager refl
