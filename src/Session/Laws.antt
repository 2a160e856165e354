-- ===== src/Session/Laws.antt =====
-- What can be read back of the conversations: backend-go/internal/session/manager.go.
use ccx.Base.{
  ℕ, string_eq, ◌≡◌, ap, ◌∙◌, refl, false, Option, none, some, List, [], ◌∷◌, ◌++◌, String, arith,
  str_eq, eq_iff, if◌then◌else◌, Option-cases, inl, inr,
}
use ccx.Base.Dict.{lookup, IsDistinct, bind, update_all, lookup-insert, lookup-update_all}
use ccx.Base.Results.{Result, fail, ok}
use ccx.Session.{
  Session, SessionManager, SessionError, invalid_previous_response_id, new_session, put_session,
  appended, session_of, get_or_create_session, record_response_mapping, append_message,
  update_last_response_id, cleanup, should_remove, unless_over_limit, unless_orphan,
}

module _ {Item : Type 0} where
  -- One session for each id and one session id for each response.
  abbrev pub IsValid : SessionManager Item → Type 0
  IsValid m = IsDistinct m.sessions × IsDistinct m.response_mapping

  abbrev pub unless_removed :
      ℕ → SessionManager Item → String × Session Item → Option (String × Session Item)
  unless_removed now m (id, s) = if should_remove now m s then none else some (id, s)

  -- In a manager with one session for each id and one session id for each response, the clean-up takes from a
  -- response the session it leads to exactly where that session is too old, too long or has too
  -- many tokens; every other response leads to the same session as before. So the removal of the orphaned responses
  -- is not observed.
  pub session_of-cleanup :
      (response : String) (now : ℕ) (m : SessionManager Item)
      → IsValid m
      → session_of response (cleanup now m) ≡ bind (session_of response m) (unless_removed now m)
  unfolding session_of cleanup
  session_of-cleanup response now m v = elim (Option-cases (lookup response m.response_mapping)) [
    | inl e ↦ ground (
      arith,
      e,
      lookup-update_all (unless_orphan (update_all (unless_over_limit now m) m.sessions)) response
          m.response_mapping v.1,
    )
    | inr (id, e) ↦ ground (
      arith,
      e,
      lookup-update_all (unless_orphan (update_all (unless_over_limit now m) m.sessions)) response
          m.response_mapping v.1,
      lookup-update_all (unless_over_limit now m) id m.sessions v.0,
    )
  ]

-- The calls of the request handlers between two clean-ups.
pub data Call (Item : Type 0) : Type 0 where
  create : String → ℕ → Call Item
  continue_from : String → String → ℕ → Call Item
  map_response : String → String → Call Item
  append : String → Item → ℕ → ℕ → Call Item
  set_last : String → String → Call Item

module _ {Item : Type 0} where
  unfoldable pub call : Call Item → SessionManager Item → SessionManager Item
  call (create fresh now) m = (get_or_create_session "" fresh now m).0
  call (continue_from previous fresh now) m =
      if str_eq previous "" then m else (get_or_create_session previous fresh now m).0
  call (map_response response id) m = record_response_mapping response id m
  call (append id item tokens now) m = (append_message id item tokens now m).0
  call (set_last id response) m = (update_last_response_id id response m).0

  unfoldable pub calls : List (Call Item) → SessionManager Item → SessionManager Item
  calls [] m = m
  calls (c ∷ cs) m = calls cs (call c m)

  -- The items of a session, where there is one.
  unfoldable pub conversation : String → SessionManager Item → Option (List Item)
  conversation id m = elim (lookup id m.sessions) [ none ↦ none | some s ↦ some s.messages ]

  -- What a call does to the items of one session: the abstract view forgets instants, tokens and mappings.
  unfoldable pub spec : String → Call Item → Option (List Item) → Option (List Item)
  spec id (create fresh now) c = if str_eq fresh id then some [] else c
  spec id (append other item tokens now) c =
      if str_eq other id then bind c (λ items. some (items ++ (item ∷ []))) else c
  spec id (continue_from previous fresh now) c = c
  spec id (map_response response other) c = c
  spec id (set_last other response) c = c

  unfoldable pub specs : String → List (Call Item) → Option (List Item) → Option (List Item)
  unfolding spec
  specs id [] c = c
  specs id (x ∷ xs) c = specs id xs (spec id x c)

  conversation-put :
      (id other : String) (s : Session Item) (m : SessionManager Item)
      → conversation id (put_session other s m)
        ≡ (if str_eq other id then some s.messages else conversation id m)
  unfolding conversation
  conversation-put id other s m = ground (arith, lookup-insert other id s m.sessions)

  -- A session that is written back with the same items changes no conversation.
  conversation-put_same :
      (id other : String) (old new : Session Item) (m : SessionManager Item)
      → lookup other m.sessions ≡ some old
      → new.messages ≡ old.messages
      → conversation id (put_session other new m) ≡ conversation id m
  unfolding conversation
  conversation-put_same id other old new m found same =
      ground (arith, eq_iff other id, lookup-insert other id new m.sessions)

  lookup-session_of :
      (response id : String) (s : Session Item) (m : SessionManager Item)
      → session_of response m ≡ some (id, s)
      → lookup id m.sessions ≡ some s
  unfolding session_of
  lookup-session_of response id s m h = ground arith

  conversation-call :
      (id : String) (c : Call Item) (m : SessionManager Item)
      → conversation id (call c m) ≡ spec id c (conversation id m)
  unfolding call spec
  conversation-call id (create fresh now) m =
      unfold get_or_create_session in conversation-put id fresh (new_session fresh now) m
  conversation-call id (continue_from previous fresh now) m =
      elim (Option-cases (session_of previous m)) [
        | inl e ↦ unfold get_or_create_session in ground (arith, e)
        | inr ((other, s), e) ↦
            unfold get_or_create_session in
            ground (
              arith,
              e,
              conversation-put_same id other s (record s { last_access_at = now }) m
                  (lookup-session_of previous other s m e) refl,
            )
      ]
  conversation-call id (map_response response other) m =
      unfold record_response_mapping in unfold conversation in refl
  conversation-call id (append other item tokens now) m =
      elim (Option-cases (lookup other m.sessions)) [
        | inl e ↦ unfold append_message in unfold conversation in ground (arith, e, eq_iff other id)
        | inr (s, e) ↦
            unfold append_message in
            unfold conversation in
            ground (
              arith,
              e,
              eq_iff other id,
              lookup-insert other id (appended item tokens now s) m.sessions,
            )
      ]
  conversation-call id (set_last other response) m = elim (Option-cases (lookup other m.sessions)) [
    | inl e ↦ unfold update_last_response_id in ground (arith, e)
    | inr (s, e) ↦
        unfold update_last_response_id in
        ground (
          arith,
          e,
          conversation-put_same id other s (record s { last_response_id = response }) m e refl,
        )
  ]

  -- Whatever the calls between two clean-ups, the items of a session are those it had before, followed by exactly the items appended
  -- under its id since, in their order, once the session exists; a creation under the id starts with none.
  pub conversation-calls :
      (id : String) (cs : List (Call Item)) (m : SessionManager Item)
      → conversation id (calls cs m) ≡ specs id cs (conversation id m)
  unfolding calls specs
  conversation-calls id [] m = refl
  conversation-calls id (c ∷ cs) m =
      conversation-calls id cs (call c m) ∙ ap (specs id cs) (conversation-call id c m)

  abbrev pub continued : ℕ → Option (Session Item) → Result SessionError (Session Item)
  continued now none = fail invalid_previous_response_id
  continued now (some s) = ok (record s { last_access_at = now })

  -- After a response with a name is recorded for a session id, a request that names the response
  -- continues the session of that id, and gets the error where there is none; no mapping
  -- recorded for another response changes what the request gets.
  pub get_or_create-record_response_mapping :
      (response other id fresh : String) (now : ℕ) (m : SessionManager Item)
      → str_eq response "" ≡ false
      → (get_or_create_session response fresh now (record_response_mapping other id m)).1 ≡ (
          if str_eq other response
          then continued now (lookup id m.sessions)
          else (get_or_create_session response fresh now m).1)
  unfolding get_or_create_session record_response_mapping session_of
  get_or_create-record_response_mapping response other id fresh now m named =
      elim (Option-cases (lookup id m.sessions)) [
        | inl e ↦ ground (
          arith,
          named,
          e,
          eq_iff other response,
          lookup-insert other response id m.response_mapping,
        )
        | inr (s, e) ↦ ground (
          arith,
          named,
          e,
          eq_iff other response,
          lookup-insert other response id m.response_mapping,
        )
      ]
