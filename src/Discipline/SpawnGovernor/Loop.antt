-- ===== src/Discipline/SpawnGovernor/Loop.antt =====
-- The polling loop of the governor, and the validation of its configuration.
use sophia_orchestrator.Prelude.{
  ℕ, ◌+◌, ◌≤◌, ◌<◌, true, false, List, [], ◌∷◌, ◌++◌, none, some, ◌≡◌, ◌↔◌, pos, ltb_ℤ, arith, refl,
  All, length, ◌≢◌, ◌*◌,
}
use native.Mathlib.Decide.{dec_lt}
use sophia_orchestrator.Discipline.SpawnGovernor.{
  Config, validate, Round, repo_error, granted, refused, polling, poll, acquire,
}

-- The configuration that the comment of `Validate` asks for.
pub record Sane (c : Config) : Type 0 where
  pub room : ltb_ℤ (pos 0) c.max_concurrent ≡ true
  pub stagger_floor : ltb_ℤ c.stagger_min (pos 0) ≡ false
  pub stagger_order : ltb_ℤ c.stagger_max c.stagger_min ≡ false
  pub interval : ltb_ℤ (pos 0) c.wait_interval ≡ true
  pub patience : ltb_ℤ c.max_wait (pos 0) ≡ false

-- `validate` returns nil exactly for the configurations with Max > 0, StaggerMax ≥ StaggerMin ≥ 0,
-- WaitInterval > 0 and MaxWait ≥ 0.
pub validate-Sane : (c : Config) → (validate c ≡ none) ↔ Sane c
unfolding validate
validate-Sane c = ((λ h. ground arith), (λ v. ground arith))

-- A round that neither ends the loop by an error nor grants a slot before the deadline.
abbrev pub Waits : ℕ → Round → Type 0
Waits deadline (refused now none) = now < deadline
Waits deadline _ = ⊥

-- The loop waits through refusals before the deadline: it ends as it does from the next round on.
pub acquire_outcome :
    (max_wait start : ℕ) (waits : List Round) (last : Round) (rounds : List Round)
    → All (Waits (start + max_wait)) waits
    → acquire max_wait start (waits ++ last ∷ rounds) ≡ acquire max_wait start (last ∷ rounds)
unfolding acquire
acquire_outcome max_wait start [] last rounds h = refl
acquire_outcome max_wait start (refused now none ∷ ws) last rounds h =
    ground (arith, acquire_outcome max_wait start ws last rounds h.1)
acquire_outcome max_wait start (refused now (some x) ∷ ws) last rounds h = absurd h.0
acquire_outcome max_wait start (granted ∷ ws) last rounds h = absurd h.0
acquire_outcome max_wait start (repo_error x ∷ ws) last rounds h = absurd h.0

-- The clock readings of the refused rounds: none before `now`, and after each the wait takes
-- `interval` at least.
abbrev pub Ticks : ℕ → ℕ → List Round → Type 0
Ticks interval now [] = Unit
Ticks interval now (refused later none ∷ rounds) =
    (now ≤ later) × Ticks interval (later + interval) rounds
Ticks interval now (_ ∷ rounds) = Unit

poll_ends :
    (deadline interval now : ℕ) (rounds : List Round)
    → Ticks interval now rounds
    → now < deadline + interval
    → deadline + interval ≤ now + length rounds * interval
    → poll deadline rounds ≢ polling
unfolding poll
poll_ends deadline interval now [] t near long h = absurd (omega arith)
poll_ends deadline interval now (repo_error x ∷ rounds) t near long h = cc
poll_ends deadline interval now (granted ∷ rounds) t near long h = cc
poll_ends deadline interval now (refused later (some x) ∷ rounds) t near long h = ground arith
poll_ends deadline interval now (refused later none ∷ rounds) t near long h =
    elim (dec_lt later deadline) [
      | yes early ↦
          poll_ends deadline interval (later + interval) rounds t.1 (omega arith) (omega arith)
            (ground arith)
      | no late ↦ ground arith
    ]

-- The loop ends: with an interval above 0 it has acquired or failed after no more rounds than
-- MaxWait / WaitInterval + 1, rounded up, whatever the repository answers.
pub acquire_ends :
    (max_wait interval start : ℕ) (rounds : List Round)
    → 0 < interval
    → Ticks interval start rounds
    → max_wait + interval ≤ length rounds * interval
    → acquire max_wait start rounds ≢ polling
unfolding acquire
acquire_ends max_wait interval start rounds busy t long =
    poll_ends (start + max_wait) interval start rounds t (omega arith) (omega arith)
