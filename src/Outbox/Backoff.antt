-- ===== src/Outbox/Backoff.antt =====
-- The retry delay.
use native.Mathlib.Nat.{pow-suc}
use sophia_orchestrator.Prelude.{ℕ, zero, suc, ◌*◌, ◌^◌, ◌≤◌, min, pos, negsuc, ◌≡◌, refl, arith}
use sophia_orchestrator.Outbox.{backoff, backoff_base, backoff_ceiling}

pow_large : (k : ℕ) → 64 ≤ 2 ^ suc (suc (suc (suc (suc (suc k)))))
pow_large zero = omega arith
pow_large (suc k) = rw pow-suc (omega (arith, pow_large k))

-- For every count of attempts the guarded shift of `Backoff` is the formula of its comment,
-- min(base * 2^attempts, 5 minutes), and a negative count is taken for 0.
pub backoff_formula :
    (n : ℕ)
    → (backoff (pos n) ≡ min (backoff_base * 2 ^ n) backoff_ceiling)
      × (backoff (negsuc n) ≡ backoff_base)
unfolding backoff
backoff_formula zero = (refl, refl)
backoff_formula (suc zero) = (refl, refl)
backoff_formula (suc (suc zero)) = (refl, refl)
backoff_formula (suc (suc (suc zero))) = (refl, refl)
backoff_formula (suc (suc (suc (suc zero)))) = (refl, refl)
backoff_formula (suc (suc (suc (suc (suc zero))))) = (refl, refl)
backoff_formula (suc (suc (suc (suc (suc (suc k)))))) = (ground (arith, pow_large k), refl)
