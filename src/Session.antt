-- ===== src/Session.antt =====
-- The conversations of the Responses API: backend-go/internal/session/manager.go.
-- The items of a conversation are the parameter `Item`. The instants are numbers of one unit, read once by each call;
-- a fresh id and the copy of the items through JSON are arguments. A token count is a natural number.
use ccx.Base.{
  ℕ, string_eq, ◌+◌, Bool, ◌||◌, Option, none, some, List, [], ◌∷◌, ◌++◌, String, ltb, str_eq,
  if◌then◌else◌, length,
}
use ccx.Base.Dict.{Dict, lookup, insert, update_all}
use ccx.Base.Results.{Result, fail, ok}
pub mod Laws

pub data SessionError : Type 0 where
  invalid_previous_response_id : SessionError
  no_such_session : SessionError
  clone_failed : SessionError

module _ (Item : Type 0) where
  pub record Session : Type 0 where
    pub id : String
    pub messages : List Item
    pub last_response_id : String
    pub created_at : ℕ
    pub last_access_at : ℕ
    pub total_tokens : ℕ

  pub record SessionManager : Type 0 where
    pub sessions : Dict String Session
    pub response_mapping : Dict String String
    pub max_age : ℕ
    pub max_messages : ℕ
    pub max_tokens : ℕ

module _ {Item : Type 0} where
  unfoldable pub new_session_manager : ℕ → ℕ → ℕ → SessionManager Item
  new_session_manager age count tokens = record {
    sessions = [];
    response_mapping = [];
    max_age = age;
    max_messages = count;
    max_tokens = tokens;
  }

  abbrev pub new_session : String → ℕ → Session Item
  new_session fresh now = record {
    id = fresh;
    messages = [];
    last_response_id = "";
    created_at = now;
    last_access_at = now;
    total_tokens = 0;
  }

  -- `m.sessions[id]` with the fields of the session changed.
  abbrev pub put_session : String → Session Item → SessionManager Item → SessionManager Item
  put_session id s m = record m { sessions = insert id s m.sessions }

  -- The session that a response id leads to.
  unfoldable pub session_of : String → SessionManager Item → Option (String × Session Item)
  session_of response m = elim (lookup response m.response_mapping) [
    | none ↦ none
    | some id ↦ elim (lookup id m.sessions) [ none ↦ none | some s ↦ some (id, s) ]
  ]

  -- `fresh` is what `generateID` gives.
  unfoldable pub get_or_create_session :
      String
      → String
      → ℕ
      → SessionManager Item
      → SessionManager Item × Result SessionError (Session Item)
  unfolding session_of
  get_or_create_session previous fresh now m =
      if str_eq previous ""
      then (put_session fresh (new_session fresh now) m, ok (new_session fresh now))
      else elim (session_of previous m) [
        | none ↦ (m, fail invalid_previous_response_id)
        | some (id, s) ↦
            let touched = record s { last_access_at = now } in
            (put_session id touched m, ok touched)
      ]

  unfoldable pub record_response_mapping :
      String → String → SessionManager Item → SessionManager Item
  record_response_mapping response id m = record m {
    response_mapping = insert response id m.response_mapping;
  }

  abbrev pub appended : Item → ℕ → ℕ → Session Item → Session Item
  appended item tokens now s = record s {
    messages = s.messages ++ (item ∷ []);
    total_tokens = s.total_tokens + tokens;
    last_access_at = now;
  }

  -- The error, where there is one.
  unfoldable pub append_message :
      String → Item → ℕ → ℕ → SessionManager Item → SessionManager Item × Option SessionError
  append_message id item tokens now m = elim (lookup id m.sessions) [
    | none ↦ (m, some no_such_session)
    | some s ↦ (put_session id (appended item tokens now s) m, none)
  ]

  unfoldable pub update_last_response_id :
      String → String → SessionManager Item → SessionManager Item × Option SessionError
  update_last_response_id id response m = elim (lookup id m.sessions) [
    | none ↦ (m, some no_such_session)
    | some s ↦ (put_session id (record s { last_response_id = response }) m, none)
  ]

  -- `copy` is `json.Marshal` and then `json.Unmarshal` of the items, `none` where one of them fails.
  unfoldable pub clone_session :
      (List Item → Option (List Item)) → Session Item → Result SessionError (Session Item)
  clone_session copy s = elim s.messages [
    | [] ↦ ok (record s { messages = [] })
    | item ∷ items ↦ elim (copy (item ∷ items)) [
      | none ↦ fail clone_failed
      | some copies ↦ ok (record s { messages = copies })
    ]
  ]

  unfoldable pub get_session :
      (List Item → Option (List Item))
      → String
      → SessionManager Item
      → Result SessionError (Session Item)
  unfolding clone_session
  get_session copy id m = elim (lookup id m.sessions) [
    | none ↦ fail no_such_session
    | some s ↦ clone_session copy s
  ]

  -- The three tests of the first loop of `cleanup`.
  abbrev pub should_remove : ℕ → SessionManager Item → Session Item → Bool
  should_remove now m s =
      ltb (s.last_access_at + m.max_age) now
      || ltb m.max_messages (length s.messages)
      || ltb m.max_tokens s.total_tokens

  abbrev pub unless_over_limit :
      ℕ → SessionManager Item → String → Session Item → Option (Session Item)
  unless_over_limit now m id s = if should_remove now m s then none else some s

  abbrev pub unless_orphan : Dict String (Session Item) → String → String → Option String
  unless_orphan sessions response id = elim (lookup id sessions) [ none ↦ none | some s ↦ some id ]

  unfoldable pub cleanup : ℕ → SessionManager Item → SessionManager Item
  cleanup now m =
      let kept = update_all (unless_over_limit now m) m.sessions in
      record m {
        sessions = kept;
        response_mapping = update_all (unless_orphan kept) m.response_mapping;
      }

  unfoldable pub get_stats : SessionManager Item → ℕ × ℕ
  get_stats m = (length m.sessions, length m.response_mapping)
