-- ===== src/LogStore/Ring.antt =====
-- The ring buffer of a channel: backend-go/internal/metrics/channel_log.go.
use ccx.Base.{
  ℕ, ℕ_eq, zero, suc, ◌-◌, ◌≤◌, ◌<◌, ◌≡◌, refl, sym, ◌∙◌, ap, true, false, List, [], ◌∷◌, ◌++◌,
  arith, ◌⊎◌, ltb, Bool-cases, inl, inr, ltb→lt, ltb-false→le, nat_eq, if◌then◌else◌, length, drop,
  take, length-append,
}
use ccx.Base.Dict.{Dict, insert, lookup-insert}
use mathlib.Core.List.{reverse, reverse-append}
use ccx.LogStore.{
  ChannelLog, ChannelLogStore, max_channel_logs, trim_logs, channel_logs, stamp, record_log,
  get_logs,
}

module _ {ℓ} {A : Type ℓ} where
  length-reverse : (l : List A) → length (reverse l) ≡ length l
  length-reverse [] = refl
  length-reverse (x ∷ l) =
      ap length (reverse-append (x ∷ []) l)
      ∙ length-append (reverse l) (x ∷ [])
      ∙ omega (arith, length-reverse l)

  take-append_le : (n : ℕ) (xs ys : List A) → n ≤ length xs → take n (xs ++ ys) ≡ take n xs
  take-append_le zero xs ys h = refl
  take-append_le (suc n) [] ys h = absurd (omega arith)
  take-append_le (suc n) (x ∷ xs) ys h = ap (◌∷◌ x) (take-append_le n xs ys (omega arith))

  take_all : (n : ℕ) (xs : List A) → length xs ≤ n → take n xs ≡ xs
  take_all zero [] h = refl
  take_all zero (x ∷ xs) h = absurd (omega arith)
  take_all (suc n) [] h = refl
  take_all (suc n) (x ∷ xs) h = ap (◌∷◌ x) (take_all n xs (omega arith))

  -- Dropping from the front is keeping at the back.
  pub reverse-drop :
      (k : ℕ) (l : List A) → k ≤ length l → reverse (drop k l) ≡ take (length l - k) (reverse l)
  reverse-drop zero l h =
      sym (take_all (length l - 0) (reverse l) (omega (arith, length-reverse l)))
  reverse-drop (suc k) [] h = absurd (omega arith)
  reverse-drop (suc k) (x ∷ l) h =
      let n : length (x ∷ l) - suc k ≡ length l - k = omega arith in
      rw (n, reverse-append (x ∷ []) l)
        (reverse-drop k l (omega arith)
          ∙ sym (
              take-append_le (length l - k) (reverse l) (x ∷ []) (omega (arith, length-reverse l))))

reverse-trim_logs :
    (l : List ChannelLog) → reverse (trim_logs l) ≡ take max_channel_logs (reverse l)
unfolding trim_logs
reverse-trim_logs l = elim (Bool-cases (ltb max_channel_logs (length l))) [
  | inl e ↦
      let more : 50 < length l = ltb→lt 50 (length l) e in
      let kept : length l - (length l - max_channel_logs) ≡ 50 = omega arith in
      rw e (rw (reverse-drop (length l - max_channel_logs) l (omega arith)) (rw kept))
  | inr e ↦ rw e (
      sym (take_all 50 (reverse l) (omega (arith, ltb-false→le 50 (length l) e, length-reverse l))))
]

channel_logs-insert :
    (ch j : ℕ) (v : List ChannelLog) (m : Dict ℕ (List ChannelLog))
    → channel_logs j (insert ch v m) ≡ (if nat_eq ch j then v else channel_logs j m)
channel_logs-insert ch j v m = ground (arith, lookup-insert ch j v m)

-- After a log is recorded on a channel, the channel shows that log, then what it showed before, and
-- at most fifty of them; the other channels show what they showed before.
pub get-record_log :
    (ch j : ℕ) (log : ChannelLog) (s : ChannelLogStore)
    → get_logs j (record_log ch log s)
      ≡ (if nat_eq ch j then take max_channel_logs (stamp ch log ∷ get_logs ch s) else get_logs j s)
unfolding get_logs record_log
get-record_log ch j log s =
    ap reverse
      (channel_logs-insert ch j (trim_logs (channel_logs ch s.logs ++ stamp ch log ∷ [])) s.logs)
    ∙ shown (Bool-cases (nat_eq ch j))
  where
    shown :
        (nat_eq ch j ≡ true) ⊎ (nat_eq ch j ≡ false)
        → reverse (
            if nat_eq ch j
            then trim_logs (channel_logs ch s.logs ++ stamp ch log ∷ [])
            else channel_logs j s.logs)
          ≡ (if nat_eq ch j
              then take max_channel_logs (stamp ch log ∷ reverse (channel_logs ch s.logs))
              else reverse (channel_logs j s.logs))
    shown (inl e) = rw e (
        reverse-trim_logs (channel_logs ch s.logs ++ stamp ch log ∷ [])
        ∙ ap (take max_channel_logs) (reverse-append (channel_logs ch s.logs) (stamp ch log ∷ [])))
    shown (inr e) = rw e
