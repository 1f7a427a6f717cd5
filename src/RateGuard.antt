-- ===== src/RateGuard.antt =====
-- internal/application/bootstrap/rateguard.go: the in-memory sliding-window guard. Each call runs
-- under the mutex, so it is one step; the clock is read before it, so that concurrent calls may come
-- with times that do not rise. Times and durations are ticks, the limit is a count.
pub mod Window
use sophia_orchestrator.Prelude.{
  ℕ, ◌+◌, ltb, leb, String, Bool, true, false, not, List, [], ◌∷◌, ◌++◌, str_eq, keep, length,
  if◌then◌else◌,
}

pub record Guard : Type 0 where
  pub limit : ℕ
  pub window : ℕ
  -- A project with no entry has no calls.
  pub entries : String → List ℕ

unfoldable pub new : ℕ → ℕ → Guard
new limit window = record { limit = limit; window = window; entries = λ _. [] }

-- `!t.Before(now - window)`
abbrev pub fresh : ℕ → ℕ → ℕ → Bool
fresh window now t = not (ltb (t + window) now)

abbrev pub put : String → List ℕ → Guard → Guard
put project calls g = record g { entries = λ p. if str_eq p project then calls else g.entries p }

unfoldable pub allow : ℕ → String → Guard → Guard × Bool
allow now project g =
    let valid = keep (fresh g.window now) (g.entries project) in
    if leb g.limit (length valid)
    then (put project valid g, false)
    else (put project (valid ++ now ∷ []) g, true)
