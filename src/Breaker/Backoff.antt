-- ===== src/Breaker/Backoff.antt =====
-- The backoff delay in closed form.
use ccx.Base.{ℕ, zero, suc, ◌*◌, ◌^◌, ◌≤◌, ◌≡◌, min, arith, leb, Bool-cases, inl, inr, leb→le}
use native.Mathlib.Nat.{pow-suc}
use ccx.Breaker.{Config, backoff_loop, next_backoff_duration}

pub two_pow_pos : (n : ℕ) → 1 ≤ 2 ^ n
two_pow_pos zero = omega arith
two_pow_pos (suc n) = rw pow-suc (omega (arith, two_pow_pos n))

le-mul-two_pow : (a d n : ℕ) → a ≤ d → a ≤ d * 2 ^ n
le-mul-two_pow a d n h = grind (arith, two_pow_pos n)

backoff_loop-min :
    (c : Config) (level delay : ℕ)
    → backoff_loop c level delay ≡ min (delay * 2 ^ level) c.backoff_max
unfolding backoff_loop
backoff_loop-min c zero delay = ground arith
backoff_loop-min c (suc level) delay = elim (Bool-cases (leb c.backoff_max (delay * 2))) [
  | inl e ↦
      rw (e, pow-suc) (omega (arith, le-mul-two_pow c.backoff_max (delay * 2) level (leb→le _ _ e)))
  | inr e ↦ rw (e, backoff_loop-min c level (delay * 2), pow-suc) (omega arith)
]

-- The delay of a level doubles the base once for each level, and never passes the maximum.
pub next_backoff_duration-min :
    (c : Config) (level : ℕ)
    → next_backoff_duration c level ≡ min (c.backoff_base * 2 ^ level) c.backoff_max
unfolding next_backoff_duration
next_backoff_duration-min c level = backoff_loop-min c level c.backoff_base
