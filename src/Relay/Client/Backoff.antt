-- ===== src/Relay/Client/Backoff.antt =====
-- The waits of `run`, in seconds: doubled after each session that ends, up to 30.
use native.Mathlib.Nat.{pow-suc}
use over_mesh.Common.{ℕ, zero, suc, ◌*◌, ◌^◌, ◌≡◌, arith, ltb, if◌then◌else◌}

-- `if backoff *= 2; backoff > 30*time.Second { backoff = 30*time.Second }`
unfoldable pub next_backoff : ℕ → ℕ
next_backoff b = if ltb 30 (b * 2) then 30 else b * 2

-- The wait that follows a session when `n` sessions before it had ended.
unfoldable pub backoff : ℕ → ℕ
unfolding next_backoff
backoff zero = 1
backoff (suc n) = next_backoff (backoff n)

abbrev pub capped : ℕ → ℕ → ℕ
capped cap n = if ltb cap n then cap else n

-- The wait after the session number `n` + 1 is 2^n seconds, but never over 30.
backoff-capped : (n : ℕ) → backoff n ≡ capped 30 (2 ^ n)
unfolding backoff
backoff-capped zero = omega arith
backoff-capped (suc n) = ground (arith, backoff-capped n, pow-suc 2 n)
