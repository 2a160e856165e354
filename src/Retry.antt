-- ===== src/Retry.antt =====
-- Whether an upstream's error is tried again with the next key:
-- backend-go/internal/handlers/common/failover.go. What the code reads out of the body of an error
-- (`isContentModerationError`, `isNonRetryableError` and `classifyByErrorMessage`, which parse JSON) is a
-- record of verdicts.
use ccx.Base.{
  ℕ, ◌≤◌, ◌≡◌, ◌↔◌, Bool, true, false, not, ◌&&◌, ◌||◌, List, [], ◌∷◌, ltb, leb, nat_eq,
  if◌then◌else◌, any, arith,
}

-- The two results of the functions of this file.
pub record Decision : Type 0 where
  pub should_failover : Bool
  pub is_quota_related : Bool

-- A body: its length, and the verdicts on it.
pub record Body : Type 0 where
  pub size : ℕ
  pub is_content_moderation_error : Bool
  pub is_non_retryable_error : Bool
  pub classify_by_error_message : Decision

abbrev pub decision : Bool → Bool → Decision
decision f q = record { should_failover = f; is_quota_related = q }

abbrev pub client_errors : List ℕ
client_errors =
    404 ∷ 405 ∷ 406 ∷ 409 ∷ 410 ∷ 411 ∷ 412 ∷ 413 ∷ 414 ∷ 415 ∷ 416 ∷ 417 ∷ 422 ∷ 423 ∷ 424 ∷ 426
    ∷ 428 ∷ 431 ∷ 451 ∷ []

unfoldable pub classify_by_status_code : ℕ → Decision
classify_by_status_code code =
    if nat_eq code 401
    then decision true false
    else if nat_eq code 403
    then decision true false
    else if nat_eq code 402
    then decision true true
    else if nat_eq code 429
    then decision true true
    else if nat_eq code 408
    then decision true false
    else if nat_eq code 400
    then decision false false
    else if any (nat_eq code) client_errors
    then decision false false
    else if leb 500 code
    then decision true false
    else if leb 400 code && ltb code 500
    then decision false false
    else decision false false

-- `len(bodyBytes) > 0 && isContentModerationError(bodyBytes)`
abbrev pub is_moderated : Body → Bool
is_moderated b = ltb 0 b.size && b.is_content_moderation_error

-- A 4xx status, and a body that is not to be tried again.
abbrev pub is_rejected : ℕ → Body → Bool
is_rejected code b = (leb 400 code && ltb code 500) && (ltb 0 b.size && b.is_non_retryable_error)

unfoldable pub should_retry_with_next_key_fuzzy : ℕ → Body → Decision
should_retry_with_next_key_fuzzy code b =
    if leb 200 code && ltb code 300
    then decision false false
    else if is_moderated b
    then decision false false
    else if is_rejected code b
    then decision false false
    else if nat_eq code 402 || nat_eq code 429
    then decision true true
    else if ltb 0 b.size && b.classify_by_error_message.is_quota_related
    then decision true true
    else decision true false

unfoldable pub should_retry_with_next_key_normal : ℕ → Body → Decision
unfolding classify_by_status_code
should_retry_with_next_key_normal code b =
    if is_moderated b
    then decision false false
    else if is_rejected code b
    then decision false false
    else if (classify_by_status_code code).should_failover
    then (if (classify_by_status_code code).is_quota_related
        then decision true true
        else if b.classify_by_error_message.is_quota_related
        then decision true true
        else decision true false)
    else b.classify_by_error_message

unfoldable pub should_retry_with_next_key : Bool → ℕ → Body → Decision
unfolding should_retry_with_next_key_fuzzy should_retry_with_next_key_normal
should_retry_with_next_key fuzzy code b =
    if fuzzy
    then should_retry_with_next_key_fuzzy code b
    else should_retry_with_next_key_normal code b

-- In fuzzy mode an error is tried with the next key exactly if its status is not 2xx, its body is no
-- content moderation error, and it is not a 4xx with a body that is not to be tried again.
pub fuzzy_retries_iff :
    (code : ℕ) (b : Body)
    → ((should_retry_with_next_key true code b).should_failover ≡ true)
      ↔ (((leb 200 code && ltb code 300) || is_moderated b || is_rejected code b) ≡ false)
unfolding should_retry_with_next_key
fuzzy_retries_iff code b = ground arith

-- For a status outside 2xx, what the normal mode tries with the next key, the fuzzy mode does too.
normal_retries_in_fuzzy :
    (code : ℕ) (b : Body)
    → (leb 200 code && ltb code 300) ≡ false
    → (should_retry_with_next_key false code b).should_failover ≡ true
    → (should_retry_with_next_key true code b).should_failover ≡ true
unfolding should_retry_with_next_key
normal_retries_in_fuzzy code b h e = ground arith

-- A server error (5xx and above) is tried with the next key in both modes, unless its body is a content
-- moderation error; a content moderation error is in neither mode.
pub server_error_retries :
    (fuzzy : Bool) (code : ℕ) (b : Body)
    → 500 ≤ code
    → ((should_retry_with_next_key fuzzy code b).should_failover ≡ not (is_moderated b))
unfolding should_retry_with_next_key
server_error_retries fuzzy code b h = ground arith

-- Where the message of a body is called quota related only together with a failover, so is an error.
quota_implies_failover :
    (fuzzy : Bool) (code : ℕ) (b : Body)
    → (b.classify_by_error_message.is_quota_related ≡ true
        → b.classify_by_error_message.should_failover ≡ true)
    → (should_retry_with_next_key fuzzy code b).is_quota_related ≡ true
    → (should_retry_with_next_key fuzzy code b).should_failover ≡ true
unfolding should_retry_with_next_key
quota_implies_failover fuzzy code b h e = ground arith
