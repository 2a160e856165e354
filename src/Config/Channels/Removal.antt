-- ===== src/Config/Channels/Removal.antt =====
-- The cooling down of the keys of a channel that is removed, and the keys that `DeprioritizeAPIKey` moves:
-- backend-go/internal/config/config.go and the files of the kinds of channel.
use Prim.Native.Char.{code, Char}
use Prim.Native.String.{◌++◌ as append}
use Prim.Native.String.append
use text.Mathlib.TextLemmas.{append_cancel_left}
use ccx.Base.{
  ℕ, string_eq, ◌≡◌, refl, ap, ◌∙◌, Bool, true, false, some, List, [], ◌∷◌, String, str_eq, eq_iff,
  inl, inr, arith, if◌then◌else◌, get_elem?, remove_at, Bool-cases, Option-cases, All,
}
use ccx.Base.Dict.{delete, lookup-delete}
use ccx.Config.Types.{
  ChannelKind, messages, responses, gemini, chat, images, UpstreamConfig, channels_of,
}
use ccx.Config.Keys.{has}
use ccx.Config.Manager.{
  ConfigManager, Host, saving, put_channels, forget_keys, failed_key_cache_key, api_type,
}
use ccx.Config.Failures.{is_key_failed}
use ccx.Config.Channels.{remove_upstream, removal_name}
use ccx.Config.Channels.Messages.{deprioritize_api_key, deprioritize_among, deprioritize_in}

failed_key_cache_key-injective :
    (name key other : String)
    → failed_key_cache_key name key ≡ failed_key_cache_key name other
    → key ≡ other
unfolding failed_key_cache_key
failed_key_cache_key-injective name key other h =
    append_cancel_left ":" key other (append_cancel_left name (append ":" key) (append ":" other) h)

same_cache_key :
    (name key other : String)
    → str_eq (failed_key_cache_key name key) (failed_key_cache_key name other) ≡ str_eq other key
same_cache_key name key other = elim (Bool-cases (str_eq other key)) [
  | inl e ↦
      let same : other ≡ key = (eq_iff other key).0 e in
      rw (e, same) ((eq_iff (failed_key_cache_key name key) (failed_key_cache_key name key)).1 refl)
  | inr e ↦
      elim (Bool-cases (str_eq (failed_key_cache_key name key) (failed_key_cache_key name other))) [
        | inl f ↦ ground (
          arith,
          e,
          eq_iff other key,
          failed_key_cache_key-injective name key other
              ((eq_iff (failed_key_cache_key name key) (failed_key_cache_key name other)).0 f),
        )
        | inr f ↦ rw (e, f) refl
      ]
]

abbrev after_delete : String → String → ConfigManager → ConfigManager
after_delete name key m = record m {
  failed_keys_cache = delete (failed_key_cache_key name key) m.failed_keys_cache;
}

is_key_failed-forget_keys :
    (name k : String) (now : ℕ) (keys : List String) (m : ConfigManager)
    → is_key_failed k name now (forget_keys name keys m)
      ≡ (if has keys k then false else is_key_failed k name now m)
unfolding forget_keys is_key_failed
is_key_failed-forget_keys name k now [] m = refl
is_key_failed-forget_keys name k now (key ∷ keys) m = ground (
  arith,
  same_cache_key name key k,
  is_key_failed-forget_keys name k now keys (after_delete name key m),
  lookup-delete (failed_key_cache_key name key) (failed_key_cache_key name k) m.failed_keys_cache,
)

-- The code of the first character.
abbrev head_code : String → ℕ
head_code String.[] = 0
head_code (String.◌∷◌ c s) = code c

head_code-append : (c : Char) (s t : String) → head_code (append (String.◌∷◌ c s) t) ≡ code c
head_code-append c s t = ap head_code (append.cons c s t)

head_code-chat : (k : String) → head_code (failed_key_cache_key "chat" k) ≡ 99
unfolding failed_key_cache_key
head_code-chat k = head_code-append _ _ (append ":" k)

head_code-Chat : (k : String) → head_code (failed_key_cache_key "Chat" k) ≡ 67
unfolding failed_key_cache_key
head_code-Chat k = head_code-append _ _ (append ":" k)

other_cache_key :
    (key k : String)
    → str_eq (failed_key_cache_key "chat" key) (failed_key_cache_key "Chat" k) ≡ false
other_cache_key key k =
    elim (Bool-cases (str_eq (failed_key_cache_key "chat" key) (failed_key_cache_key "Chat" k))) [
      | inl e ↦
          let same =
            (eq_iff (failed_key_cache_key "chat" key) (failed_key_cache_key "Chat" k)).0 e in
          ground (arith, ap head_code same, head_code-chat key, head_code-Chat k)
      | inr e ↦ e
    ]

is_key_failed-forget_chat :
    (k : String) (now : ℕ) (keys : List String) (m : ConfigManager)
    → is_key_failed k "Chat" now (forget_keys "chat" keys m) ≡ is_key_failed k "Chat" now m
unfolding forget_keys is_key_failed
is_key_failed-forget_chat k now [] m = refl
is_key_failed-forget_chat k now (key ∷ keys) m = ground (
  arith,
  other_cache_key key k,
  is_key_failed-forget_chat k now keys (after_delete "chat" key m),
  lookup-delete (failed_key_cache_key "chat" key) (failed_key_cache_key "Chat" k)
      m.failed_keys_cache,
)

is_key_failed-saving :
    {A : Type 0} (host : Host) (a : A) (k name : String) (now : ℕ) (m : ConfigManager)
    → is_key_failed k name now (saving host a m).0 ≡ is_key_failed k name now m
unfolding is_key_failed saving
is_key_failed-saving host a k name now m = refl

is_key_failed-put_channels :
    (kind : ChannelKind) (us : List UpstreamConfig) (k name : String) (now : ℕ) (m : ConfigManager)
    → is_key_failed k name now (put_channels kind us m) ≡ is_key_failed k name now m
unfolding is_key_failed put_channels
is_key_failed-put_channels kind us k name now m = refl

-- What is left of the cooling down of a key, when the keys of the channel are `keys`.
abbrev pub cools_after : ChannelKind → List String → String → Bool → Bool
cools_after chat keys k before = before
cools_after messages keys k before = if has keys k then false else before
cools_after responses keys k before = if has keys k then false else before
cools_after gemini keys k before = if has keys k then false else before
cools_after images keys k before = if has keys k then false else before

forgotten :
    (kind : ChannelKind) (k : String) (now : ℕ) (keys : List String) (m : ConfigManager)
    → is_key_failed k (api_type kind) now (forget_keys (removal_name kind) keys m)
      ≡ cools_after kind keys k (is_key_failed k (api_type kind) now m)
unfolding removal_name api_type
forgotten messages k now keys m = is_key_failed-forget_keys "Messages" k now keys m
forgotten responses k now keys m = is_key_failed-forget_keys "Responses" k now keys m
forgotten gemini k now keys m = is_key_failed-forget_keys "Gemini" k now keys m
forgotten chat k now keys m = is_key_failed-forget_chat k now keys m
forgotten images k now keys m = is_key_failed-forget_keys "Images" k now keys m

-- The removal of a channel ends the cooling down of its keys, and of no other key of its kind; but that of a chat
-- channel ends none, since its keys are stored under "Chat" and deleted under "chat".
pub is_key_failed-remove_upstream :
    (host : Host) (kind : ChannelKind) (i : ℕ) (u : UpstreamConfig) (k : String) (now : ℕ)
    (m : ConfigManager)
    → get_elem? (channels_of m.config kind) i ≡ some u
    → is_key_failed k (api_type kind) now (remove_upstream host kind i m).0
      ≡ cools_after kind u.api_keys k (is_key_failed k (api_type kind) now m)
unfolding remove_upstream
is_key_failed-remove_upstream host kind i u k now m found =
    let rest = put_channels kind (remove_at (channels_of m.config kind) i) m in
    rw (remove_upstream, found)
      (is_key_failed-saving host u k (api_type kind) now
          (forget_keys (removal_name kind) u.api_keys rest)
        ∙ forgotten kind k now u.api_keys rest
        ∙ ap (cools_after kind u.api_keys k) (
            is_key_failed-put_channels kind (remove_at (channels_of m.config kind) i) k
              (api_type kind) now m))

is_gemini : ChannelKind → Bool
is_gemini kind = elim kind [ gemini ↦ true | _ ↦ false ]

gemini-saving :
    {A : Type 0} (host : Host) (a : A) (kind : ChannelKind) (us : List UpstreamConfig)
    (m : ConfigManager)
    → is_gemini kind ≡ false
    → channels_of (saving host a (put_channels kind us m)).0.config gemini
      ≡ channels_of m.config gemini
unfolding saving put_channels channels_of is_gemini
gemini-saving host a messages us m h = refl
gemini-saving host a responses us m h = refl
gemini-saving host a gemini us m h = absurd (ground (arith, h))
gemini-saving host a chat us m h = refl
gemini-saving host a images us m h = refl

gemini-deprioritize_among :
    (host : Host) (key : String) (kinds : List ChannelKind) (m : ConfigManager)
    → All (λ kind. is_gemini kind ≡ false) kinds
    → channels_of (deprioritize_among host key kinds m).0.config gemini
      ≡ channels_of m.config gemini
unfolding deprioritize_among
gemini-deprioritize_among host key [] m h = refl
gemini-deprioritize_among host key (kind ∷ kinds) m h =
    elim (Option-cases (deprioritize_in key (channels_of m.config kind))) [
      | inl e ↦ rw (deprioritize_among, e) (gemini-deprioritize_among host key kinds m h.1)
      | inr (us, e) ↦ rw (deprioritize_among, e) (gemini-saving host tt kind us m h.0)
    ]

-- `DeprioritizeAPIKey` never changes a Gemini channel, also where the key is one of its keys.
pub deprioritize_keeps_gemini :
    (host : Host) (key : String) (m : ConfigManager)
    → channels_of (deprioritize_api_key host key m).0.config gemini ≡ channels_of m.config gemini
unfolding deprioritize_api_key is_gemini
deprioritize_keeps_gemini host key m =
    gemini-deprioritize_among host key (messages ∷ responses ∷ chat ∷ images ∷ []) m
      (refl, (refl, (refl, (refl, tt))))
