-- ===== src/Requests/History.antt =====
-- The data of a request and the 24-hour history of a key: backend-go/internal/metrics/channel_metrics.go.
use ccx.Base.{
  ℕ, ℕ_eq, zero, suc, ◌+◌, ◌-◌, Bool, true, false, ◌&&◌, Option, none, some, List, [], ◌∷◌, ◌++◌,
  String, ltb, leb, if◌then◌else◌, drop,
}
use ccx.Base.Dict.{update_all}
use ccx.Breaker.{Config, Key, KeyMetrics, FailureClass, RequestRecord, normalize_failure_class}

pub record Usage : Type 0 where
  pub input_tokens : ℕ
  pub output_tokens : ℕ
  pub cache_creation_input_tokens : ℕ
  pub cache_read_input_tokens : ℕ
  pub cache_creation_5m_input_tokens : ℕ
  pub cache_creation_1h_input_tokens : ℕ
  pub prompt_tokens_total : ℕ

pub record Tokens : Type 0 where
  pub input : ℕ
  pub output : ℕ
  pub cache_creation : ℕ
  pub cache_read : ℕ

-- `normalizedInput` stops at 0, as the subtraction on ℕ does.
unfoldable pub extract_usage_tokens : Option Usage → Tokens
extract_usage_tokens none = record { input = 0; output = 0; cache_creation = 0; cache_read = 0 }
extract_usage_tokens (some u) = record {
  input =
      if ltb 0 u.prompt_tokens_total && ltb 0 u.cache_read_input_tokens
      then u.prompt_tokens_total - u.cache_read_input_tokens
      else u.input_tokens;
  output = u.output_tokens;
  cache_creation =
      if leb u.cache_creation_input_tokens 0
      then u.cache_creation_5m_input_tokens + u.cache_creation_1h_input_tokens
      else u.cache_creation_input_tokens;
  cache_read = u.cache_read_input_tokens;
}

abbrev pub no_tokens : Tokens
no_tokens = record { input = 0; output = 0; cache_creation = 0; cache_read = 0 }

-- 24 hours, in nanoseconds.
abbrev pub day : ℕ
day = 86400000000000

-- `record.Timestamp.After(now - 24h)`
abbrev pub is_recent : ℕ → RequestRecord → Bool
is_recent now r = ltb now (r.timestamp + day)

-- The loop for `newStart`, from index `i` on; `none` for -1.
unfoldable pub first_recent : ℕ → ℕ → List RequestRecord → Option ℕ
first_recent now i [] = none
first_recent now i (r ∷ rs) =
    let rest = first_recent now (suc i) rs in if is_recent now r then some i else rest

-- A pending index after the first `start` records are cut.
abbrev pub shift_index : ℕ → ℕ → ℕ → Option ℕ
shift_index start id idx = if ltb idx start then none else some (idx - start)

unfoldable pub cut_history : Option ℕ → KeyMetrics → KeyMetrics
cut_history none m = record m { request_history = []; pending_history_idx = [] }
cut_history (some zero) m = m
cut_history (some (suc n)) m = record m {
  request_history = drop (suc n) m.request_history;
  pending_history_idx = update_all (shift_index (suc n)) m.pending_history_idx;
}

abbrev pub is_empty {ℓ} : {A : Type ℓ} → List A → Bool
is_empty [] = true
is_empty (x ∷ xs) = false

unfoldable pub cleanup_history : ℕ → KeyMetrics → KeyMetrics
cleanup_history now m =
    if is_empty m.request_history then m else cut_history (first_recent now 0 m.request_history) m

unfoldable pub append_to_history : ℕ → Bool → FailureClass → Tokens → KeyMetrics → KeyMetrics
append_to_history now success class t m = cleanup_history now (record m {
  request_history =
      m.request_history
      ++ (record {
        model = "";
        timestamp = now;
        success = success;
        failure_class = normalize_failure_class success class;
        input_tokens = t.input;
        output_tokens = t.output;
        cache_creation_input_tokens = t.cache_creation;
        cache_read_input_tokens = t.cache_read;
      })
        ∷ [];
})

-- `m.store.AddRecord`, if there is a store.
unfoldable pub add_record : Config → ℕ → Bool → FailureClass → Tokens → String → Key → Key
add_record c timestamp success class t model k =
    let m = k.metrics in
    if c.has_store
    then record k {
      records =
          k.records
          ++ (record {
            metrics_key = m.metrics_key;
            base_url = m.base_url;
            key_mask = m.key_mask;
            timestamp = timestamp;
            success = success;
            failure_class = class;
            input_tokens = t.input;
            output_tokens = t.output;
            cache_creation_tokens = t.cache_creation;
            cache_read_tokens = t.cache_read;
            model = model;
          })
            ∷ [];
    }
    else k
