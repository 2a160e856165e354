-- ===== src/Breaker/Window.antt =====
-- The sliding window of results.
use ccx.Base.{
  ℕ, zero, suc, ◌+◌, ◌-◌, ◌≤◌, ◌≡◌, refl, Bool, List, [], ◌∷◌, ◌++◌, arith, ltb, Bool-cases, inl,
  inr, length, drop, length-append, length-drop, ltb→lt, ltb-false→le, ap, ◌∙◌, sym,
}
use mathlib.Core.List.{append-nil, append_assoc}
use ccx.Breaker.{append_to_window}

pub length-append_to_window-le :
    (n : ℕ) (xs : List Bool) (b : Bool) → length xs ≤ n → length (append_to_window n xs b) ≤ n
unfolding append_to_window
length-append_to_window-le n xs b h = elim (Bool-cases (ltb n (length (xs ++ b ∷ [])))) [
  | inl e ↦ rw e (omega (arith, length-drop 1 (xs ++ b ∷ []), length-append xs (b ∷ [])))
  | inr e ↦ rw e (omega (arith, ltb-false→le _ _ e))
]

-- The results of a run, appended one by one.
unfoldable pub append_all : ℕ → List Bool → List Bool → List Bool
append_all n window [] = window
append_all n window (b ∷ bs) = append_all n (append_to_window n window b) bs

drop-append : (k : ℕ) (xs ys : List Bool) → k ≤ length xs → drop k (xs ++ ys) ≡ drop k xs ++ ys
drop-append zero xs ys h = refl
drop-append (suc k) [] ys h = absurd (omega arith)
drop-append (suc k) (x ∷ xs) ys h = drop-append k xs ys (omega arith)

drop-drop : (j k : ℕ) (xs : List Bool) → drop j (drop k xs) ≡ drop (k + j) xs
drop-drop j zero xs = let e : 0 + j ≡ j = omega arith in rw e
drop-drop zero (suc k) [] = let e : suc k + 0 ≡ suc k = omega arith in rw e
drop-drop (suc j) (suc k) [] = let e : suc k + suc j ≡ suc (k + suc j) = omega arith in rw e
drop-drop j (suc k) (x ∷ xs) =
    let e : suc k + j ≡ suc (k + j) = omega arith in rw e (drop-drop j k xs)

append_to_window-drop :
    (n : ℕ) (xs : List Bool) (b : Bool)
    → append_to_window n (drop (length xs - n) xs) b
      ≡ drop (length (xs ++ b ∷ []) - n) (xs ++ b ∷ [])
unfolding append_to_window
append_to_window-drop n xs b =
    let k = length xs - n in
    let more : length (xs ++ b ∷ []) ≡ length xs + 1 = length-append xs (b ∷ []) in
    let size : length (drop k xs ++ b ∷ []) ≡ length xs - k + 1 =
      length-append (drop k xs) (b ∷ []) ∙ ap (λ (m : ℕ). m + 1) (length-drop k xs) in
    let fits : k ≤ length xs = omega arith in
    elim (Bool-cases (ltb n (length (drop k xs ++ b ∷ [])))) [
      | inl e ↦
          let full : length (xs ++ b ∷ []) - n ≡ k + 1 = omega (arith, ltb→lt _ _ e) in
          rw (e, full, ← drop-append k xs (b ∷ []) fits) (drop-drop 1 k (xs ++ b ∷ []))
      | inr e ↦
          let room : length (xs ++ b ∷ []) - n ≡ k = omega (arith, ltb-false→le _ _ e) in
          rw (e, room) (sym (drop-append k xs (b ∷ []) fits))
    ]

append_all-drop :
    (n : ℕ) (xs bs : List Bool)
    → append_all n (drop (length xs - n) xs) bs ≡ drop (length (xs ++ bs) - n) (xs ++ bs)
unfolding append_all
append_all-drop n xs [] = rw append-nil
append_all-drop n xs (b ∷ bs) = rw (append_to_window-drop n xs b) (
    append_all-drop n (xs ++ b ∷ []) bs
    ∙ ap (λ (l : List Bool). drop (length l - n) l) (append_assoc xs (b ∷ []) bs))

-- The window holds the last `n` results of the run, in order.
pub append_all-last : (n : ℕ) (bs : List Bool) → append_all n [] bs ≡ drop (length bs - n) bs
append_all-last n bs = let e : 0 - n ≡ 0 = omega arith in rw e at (append_all-drop n [] bs)
