-- ===== src/Discipline/SpawnGovernor.antt =====
-- internal/application/discipline/spawn_governor.go with its repository,
-- internal/adapters/outbound/pg/spawn_governor_state.go: the cap on concurrent agent processes.
-- Durations are integers. The metrics and the real clock, timer and random source are left out.
pub mod Cap
pub mod Loop
use sophia_orchestrator.Prelude.{
  ℕ, zero, suc, ◌+◌, ◌-◌, max, ltb, leb, ℤ, pos, negsuc, ltb_ℤ, Bool, true, false, ◌||◌, not, List,
  [], ◌∷◌, Option, none, some, if◌then◌else◌,
}

-- `Max` and the durations as Go integers, which may be negative.
pub record Config : Type 0 where
  pub max_concurrent : ℤ
  pub stagger_min : ℤ
  pub stagger_max : ℤ
  pub wait_interval : ℤ
  pub max_wait : ℤ

pub data Error : Type 0 where
  invalid_config saturated : Error
  -- An error of the repository, or of the interrupted wait.
  acquire_failed wait_failed release_failed : ℕ → Error

-- `c.X <= 0`
abbrev pub not_positive : ℤ → Bool
not_positive z = not (ltb_ℤ (pos 0) z)

unfoldable pub validate : Config → Option Error
validate c =
    if not_positive c.max_concurrent
    then some invalid_config
    else if ltb_ℤ c.stagger_min (pos 0) || ltb_ℤ c.stagger_max c.stagger_min
    then some invalid_config
    else if not_positive c.wait_interval
    then some invalid_config
    else if ltb_ℤ c.max_wait (pos 0)
    then some invalid_config
    else none

unfoldable pub default_config : Config
default_config = record {
  max_concurrent = pos 4;
  stagger_min = pos 200_000_000;
  stagger_max = pos 500_000_000;
  wait_interval = pos 250_000_000;
  max_wait = pos 30_000_000_000;
}

-- The singleton row: `active_count` and `max_count`.
pub record Row : Type 0 where
  pub active_count : ℕ
  pub max_count : ℕ

-- The transaction of `SpawnGovernorRepo.Acquire` under its advisory lock, for a positive maximum:
-- whether a slot was taken, and the count.
unfoldable pub repo_acquire : ℕ → Row → Row × Bool × ℕ
repo_acquire max_concurrent row =
    if leb max_concurrent row.active_count then (row, false, row.active_count) else (
      record row { active_count = row.active_count + 1; max_count = max_concurrent },
      true,
      row.active_count + 1,
    )

-- `GREATEST(active_count - 1, 0)`, which the truncated subtraction is.
unfoldable pub repo_release : Row → Row
repo_release row = record row { active_count = row.active_count - 1 }

-- What one round of the loop of `SpawnGovernor.Acquire` meets.
pub data Round : Type 0 where
  -- The repository fails.
  repo_error : ℕ → Round
  -- The repository grants a slot.
  granted : Round
  -- No slot; the clock reads `now`, and the wait after it ends with an error, if any.
  refused : ℕ → Option ℕ → Round

pub data Acquired : Type 0 where
  -- The slot is taken, and the stagger sleep is made.
  acquired : Acquired
  failed : Error → Acquired
  -- The rounds ran out before the loop ended.
  polling : Acquired

-- The loop of `Acquire` from the deadline on.
unfoldable pub poll : ℕ → List Round → Acquired
poll deadline [] = polling
poll deadline (repo_error x ∷ rounds) = failed (acquire_failed x)
poll deadline (granted ∷ rounds) = acquired
poll deadline (refused now interrupted ∷ rounds) =
    let rest = poll deadline rounds in
    if not (ltb now deadline)
    then failed saturated
    else elim interrupted [ some x ↦ failed (wait_failed x) | none ↦ rest ]

-- `deadline := start.Add(MaxWait)`
unfoldable pub acquire : ℕ → ℕ → List Round → Acquired
unfolding poll
acquire max_wait start rounds = poll (start + max_wait) rounds

-- The duration that `applyStagger` sleeps: `jitter` stands for the random source.
unfoldable pub stagger : (ℕ → ℕ) → ℕ → ℕ → ℕ
stagger jitter stagger_min stagger_max = stagger_min + jitter (stagger_max - stagger_min)
