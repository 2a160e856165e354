-- ===== src/Scheduler/AffinityKeys.antt =====
-- The keys of the trace affinity, a kind and a user: backend-go/internal/scheduler/channel_scheduler.go.
use Prim.Native.Char.{Char, code}
use Prim.Native.String.{◌++◌ as append}
use Prim.Native.String.append
use text.Mathlib.TextLemmas.{append_cancel_left}
use ccx.Config.Types.{ChannelKind, messages, responses, gemini, chat, images}
use ccx.Base.{
  ℕ, string_eq, ◌≡◌, ◌≢◌, refl, ap, sym, ◌∙◌, false, none, some, ltb, ◌+◌, String, str_eq, eq_iff,
  arith, if◌then◌else◌, Bool-cases, inl, inr,
}
use ccx.Affinity.{TraceAffinityManager}
use ccx.Affinity.Laws.{get-set_preferred_channel}
use ccx.Scheduler.{kind_string}
use ccx.Scheduler.Select.{composite_key, preferred_channel, set_trace_affinity}

-- The code of the first character, which tells the kinds apart.
abbrev head_code : String → ℕ
head_code String.[] = 0
head_code (String.◌∷◌ c s) = code c

head_code-append : (c : Char) (s t : String) → head_code (append (String.◌∷◌ c s) t) ≡ code c
head_code-append c s t = ap head_code (append.cons c s t)

abbrev kind_code : ChannelKind → ℕ
kind_code messages = 109
kind_code responses = 114
kind_code gemini = 103
kind_code chat = 99
kind_code images = 105

head_code-composite_key :
    (k : ChannelKind) (user : String) → head_code (composite_key k user) ≡ kind_code k
unfolding kind_string
head_code-composite_key messages user = head_code-append _ _ (append ":" user)
head_code-composite_key responses user = head_code-append _ _ (append ":" user)
head_code-composite_key gemini user = head_code-append _ _ (append ":" user)
head_code-composite_key chat user = head_code-append _ _ (append ":" user)
head_code-composite_key images user = head_code-append _ _ (append ":" user)

kind_code-injective : (k k' : ChannelKind) → kind_code k ≡ kind_code k' → k ≡ k'
kind_code-injective k k' e = ground (arith, e)

-- Two users with equal keys are the same user of the same kind.
composite_key-injective :
    (k k' : ChannelKind) (user user' : String)
    → composite_key k user ≡ composite_key k' user'
    → (k ≡ k') × (user ≡ user')
composite_key-injective k k' user user' q =
    let same : k ≡ k' =
      kind_code-injective k k' (
        sym (head_code-composite_key k user) ∙ ap head_code q ∙ head_code-composite_key k' user') in
    let q' : composite_key k' user ≡ composite_key k' user' =
      ap (λ z. composite_key z user) (sym same) ∙ q in
    (
      same,
      append_cancel_left ":" user user'
          (append_cancel_left (kind_string k') (append ":" user) (append ":" user') q'),
    )

composite_key-ne :
    (k k' : ChannelKind) (user user' : String)
    → (k ≡ k' → user ≢ user')
    → str_eq (composite_key k user) (composite_key k' user') ≡ false
composite_key-ne k k' user user' ne =
    elim (Bool-cases (str_eq (composite_key k user) (composite_key k' user'))) [
      | inl e ↦
          let both =
            composite_key-injective k k' user user'
              ((eq_iff (composite_key k user) (composite_key k' user')).0 e) in
          absurd (ne both.0 both.1)
      | inr e ↦ e
    ]

kind_code-positive : (k : ChannelKind) → kind_code k ≢ 0
kind_code-positive k = ground arith

composite_key-nonempty :
    (k : ChannelKind) (user : String) → str_eq (composite_key k user) "" ≡ false
composite_key-nonempty k user = elim (Bool-cases (str_eq (composite_key k user) "")) [
  | inl e ↦
      let zero_code : kind_code k ≡ 0 =
        sym (head_code-composite_key k user)
        ∙ ap head_code ((eq_iff (composite_key k user) "").0 e) in
      absurd (kind_code-positive k zero_code)
  | inr e ↦ e
]

-- The channel that a named user's request was set to is the one that the next request of the user and of
-- the same kind prefers, as long as the record's lifetime has not passed.
pub preferred_channel-set_trace_affinity :
    (kind : ChannelKind) (user : String) (ch now now' : ℕ) (m : TraceAffinityManager)
    → str_eq user "" ≡ false
    → preferred_channel user kind now' (set_trace_affinity user ch kind now m)
      ≡ (if ltb (now + m.ttl) now' then none else some ch)
unfolding preferred_channel set_trace_affinity
preferred_channel-set_trace_affinity kind user ch now now' m h = rw h (
    ground (
      arith,
      (eq_iff (composite_key kind user) (composite_key kind user)).1 refl,
      get-set_preferred_channel (composite_key kind user) (composite_key kind user) ch now now' m
          (composite_key-nonempty kind user),
    ))

-- Setting the affinity of a user for one kind of request changes the preference of no other user, and not
-- the preference of this user for another kind.
pub set_trace_affinity_keeps_others :
    (kind kind' : ChannelKind) (user user' : String) (ch now now' : ℕ) (m : TraceAffinityManager)
    → (kind ≡ kind' → user ≢ user')
    → preferred_channel user' kind' now' (set_trace_affinity user ch kind now m)
      ≡ preferred_channel user' kind' now' m
unfolding preferred_channel set_trace_affinity
set_trace_affinity_keeps_others kind kind' user user' ch now now' m ne = ground (
  arith,
  composite_key-ne kind kind' user user' ne,
  get-set_preferred_channel (composite_key kind user) (composite_key kind' user') ch now now' m
      (composite_key-nonempty kind user),
)
