-- ===== src/Requests/Index.antt =====
-- The index of the pending requests into the history: backend-go/internal/metrics/channel_metrics.go.
use ccx.Base.{
  ℕ, ℕ_eq, zero, suc, ◌+◌, ◌≤◌, ◌<◌, ◌≡◌, ◌≢◌, refl, Bool, Option, none, some, List, [], ◌∷◌, ◌++◌,
  arith, length, if◌then◌else◌, nat_eq, leb, ap, Bool-cases, length-drop, length-remove_at,
  length-modify, length-append, inl, inr, drop,
}
use ccx.Base.Dict.{
  lookup, insert, delete, IsDistinct, bind, lookup-insert, lookup-delete, lookup-update_all,
  insert-IsDistinct, delete-IsDistinct, update_all-IsDistinct,
}
use ccx.Breaker.{KeyMetrics, FailureClass, RequestRecord}
use ccx.Requests.{
  is_empty, write_outcome, Tokens, first_recent, cut_history, cleanup_history, cancel_at,
  settle_pending, shift_index, close_gap,
}

pub record IsIndexed (m : KeyMetrics) : Type 0 where
  pub distinct : IsDistinct m.pending_history_idx
  pub in_range :
      (id i : ℕ) → lookup id m.pending_history_idx ≡ some i → i < length m.request_history
  pub injective :
      (id id' i : ℕ)
      → lookup id m.pending_history_idx ≡ some i
      → lookup id' m.pending_history_idx ≡ some i
      → id ≡ id'

-- `newStart` lies in the history.
pub first_recent_lt :
    (now i j : ℕ) (rs : List RequestRecord)
    → first_recent now i rs ≡ some j
    → (i ≤ j) × (j < i + length rs)
unfolding first_recent
first_recent_lt now i j [] h = ground arith
first_recent_lt now i j (r ∷ rs) h = ground (arith, first_recent_lt now (suc i) j rs)

-- What an index was before the cut.
shift_index-eq-some :
    (n id i : ℕ) (o : Option ℕ) → bind o (shift_index n id) ≡ some i → o ≡ some (i + n)
shift_index-eq-some n id i none h = cc
shift_index-eq-some n id i (some j) h = ground arith

pub lookup-cut :
    (n id i : ℕ) (m : KeyMetrics)
    → IsDistinct m.pending_history_idx
    → lookup id (cut_history (some n) m).pending_history_idx ≡ some i
    → lookup id m.pending_history_idx ≡ some (i + n)
unfolding cut_history
lookup-cut zero id i m d h = let e : i + 0 ≡ i = omega arith in rw e h
lookup-cut (suc n) id i m d h =
    shift_index-eq-some (suc n) id i (lookup id m.pending_history_idx)
      (rw (lookup-update_all, d) at h)

history-cut :
    (n : ℕ) (m : KeyMetrics) → (cut_history (some n) m).request_history ≡ drop n m.request_history
unfolding cut_history
history-cut zero m = refl
history-cut (suc n) m = refl

IsDistinct-cut :
    (n : ℕ) (m : KeyMetrics)
    → IsDistinct m.pending_history_idx
    → IsDistinct (cut_history (some n) m).pending_history_idx
unfolding cut_history
IsDistinct-cut zero m d = d
IsDistinct-cut (suc n) m d = update_all-IsDistinct (shift_index (suc n)) m.pending_history_idx d

cut-IsIndexed : (n : ℕ) (m : KeyMetrics) → IsIndexed m → IsIndexed (cut_history (some n) m)
cut-IsIndexed n m h = record {
  distinct = IsDistinct-cut n m h.distinct;
  in_range = λ id i e. omega (
    arith,
    ap length (history-cut n m),
    length-drop n m.request_history,
    h.in_range id (i + n) (lookup-cut n id i m h.distinct e),
  );
  injective = λ id id' i e e'.
      h.injective id id' (i + n) (lookup-cut n id i m h.distinct e)
        (lookup-cut n id' i m h.distinct e');
}

empty-IsIndexed : (m : KeyMetrics) → IsIndexed (cut_history none m)
unfolding cut_history lookup
empty-IsIndexed m = record {
  distinct = tt;
  in_range = λ id i e. absurd (cc);
  injective = λ id id' i e e'. absurd (cc);
}

pub cleanup-IsIndexed : (now : ℕ) (m : KeyMetrics) → IsIndexed m → IsIndexed (cleanup_history now m)
unfolding cleanup_history
cleanup-IsIndexed now m h = elim (Bool-cases (is_empty m.request_history)) [
  | inl e ↦ rw e h
  | inr e ↦ rw e (cut (first_recent now 0 m.request_history))
]
  where
    cut : (o : Option ℕ) → IsIndexed (cut_history o m)
    cut none = empty-IsIndexed m
    cut (some n) = cut-IsIndexed n m h

-- What an index was before the record at `i` was removed, for another request's index.
abbrev open_gap : ℕ → ℕ → ℕ
open_gap i j = if leb i j then j + 1 else j

close_gap-eq-some :
    (i id j : ℕ) (o : Option ℕ)
    → o ≢ some i
    → bind o (close_gap i id) ≡ some j
    → o ≡ some (open_gap i j)
close_gap-eq-some i id j none ne h = cc
close_gap-eq-some i id j (some x) ne h =
    let other : x ≢ i = λ e. ne (ap some e) in ground (arith, other)

pub lookup-cancel_at :
    (id i id' j : ℕ) (m : KeyMetrics)
    → IsIndexed m
    → lookup id m.pending_history_idx ≡ some i
    → lookup id' (cancel_at id i m).pending_history_idx ≡ some j
    → (id' ≢ id) × (lookup id' m.pending_history_idx ≡ some (open_gap i j))
unfolding cancel_at
lookup-cancel_at id i id' j m h e e' =
    let rest = delete id m.pending_history_idx in
    let found : bind (lookup id' rest) (close_gap i id') ≡ some j =
      rw (lookup-update_all, delete-IsDistinct id m.pending_history_idx h.distinct) at e' in
    let kept = lookup-delete id id' m.pending_history_idx in
    let other : id' ≢ id = ground (arith, kept) in
    let same : lookup id' rest ≡ lookup id' m.pending_history_idx = ground (arith, kept, other) in
    (
      other,
      close_gap-eq-some i id' j (lookup id' m.pending_history_idx)
          (λ clash. other (h.injective id' id i clash e)) (rw same at found),
    )

cancel_at-IsIndexed :
    (id i : ℕ) (m : KeyMetrics)
    → IsIndexed m
    → lookup id m.pending_history_idx ≡ some i
    → IsIndexed (cancel_at id i m)
unfolding cancel_at
cancel_at-IsIndexed id i m h e = record {
  distinct =
      update_all-IsDistinct (close_gap i) _ (delete-IsDistinct id m.pending_history_idx h.distinct);
  in_range = λ id' j e'. ground (
    arith,
    h.in_range id' (open_gap i j) (lookup-cancel_at id i id' j m h e e').1,
    h.in_range id i e,
    length-remove_at m.request_history i (h.in_range id i e),
  );
  injective = λ id₁ id₂ j e₁ e₂.
      h.injective id₁ id₂ (open_gap i j) (lookup-cancel_at id i id₁ j m h e e₁).1
        (lookup-cancel_at id i id₂ j m h e e₂).1;
}

pub settle_pending-IsIndexed :
    (id i : ℕ) (success : Bool) (class : FailureClass) (t : Tokens) (m : KeyMetrics)
    → IsIndexed m
    → IsIndexed (settle_pending id i success class t m)
unfolding settle_pending
settle_pending-IsIndexed id i success class t m h = record {
  distinct = delete-IsDistinct id m.pending_history_idx h.distinct;
  in_range = λ id' j e. omega (
    arith,
    length-modify (write_outcome success class t) m.request_history i,
    h.in_range id' j (kept id' j e),
  );
  injective = λ id₁ id₂ j e₁ e₂. h.injective id₁ id₂ j (kept id₁ j e₁) (kept id₂ j e₂);
}
  where
    kept :
        (id' j : ℕ)
        → lookup id' (delete id m.pending_history_idx) ≡ some j
        → lookup id' m.pending_history_idx ≡ some j
    kept id' j e = ground (arith, lookup-delete id id' m.pending_history_idx)

-- One record more, and perhaps one request more that points to it.
pub append-IsIndexed :
    (r : RequestRecord) (m : KeyMetrics)
    → IsIndexed m
    → IsIndexed (record m { request_history = m.request_history ++ r ∷ [] })
append-IsIndexed r m h = record {
  distinct = h.distinct;
  in_range = λ id i e. omega (arith, length-append m.request_history (r ∷ []), h.in_range id i e);
  injective = h.injective;
}

pub append_pending-IsIndexed :
    (id : ℕ) (r : RequestRecord) (m : KeyMetrics)
    → IsIndexed m
    → IsIndexed (record m {
      request_history = m.request_history ++ r ∷ [];
      pending_history_idx = insert id (length m.request_history) m.pending_history_idx;
    })
append_pending-IsIndexed id r m h = record {
  distinct = insert-IsDistinct id _ m.pending_history_idx h.distinct;
  in_range = λ id' i e.
      ground (arith, length-append m.request_history (r ∷ []), inserted id', h.in_range id' i);
  injective = λ id₁ id₂ i e₁ e₂. ground (
    arith,
    inserted id₁,
    inserted id₂,
    h.in_range id₁ i,
    h.in_range id₂ i,
    h.injective id₁ id₂ i,
  );
}
  where
    inserted :
        (id' : ℕ)
        → lookup id' (insert id (length m.request_history) m.pending_history_idx) ≡ (
            if nat_eq id id'
            then some (length m.request_history)
            else lookup id' m.pending_history_idx)
    inserted id' = lookup-insert id id' (length m.request_history) m.pending_history_idx
