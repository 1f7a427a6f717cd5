-- ===== src/Change/Sequence.antt =====
-- The order of the phases over any sequence of calls on a change.
use sophia_orchestrator.Prelude.{
  ℕ, suc, ◌+◌, String, true, List, [], ◌∷◌, Option, none, some, ◌≡◌, refl, arith, ◌⊎◌, inl, inr,
  subst, sym, zero,
}
use native.Mathlib.Nat.{add-zero, zero-add}
use sophia_orchestrator.Phase.Types.{PhaseType, all_phase_types, contains, next_valid}
use sophia_orchestrator.Change.{
  Change, ArtifactStoreMode, Error, ok, is_terminal, new, advance_phase, mark_completed, abort,
}

pub data Call : Type 0 where
  advances : PhaseType → ℕ → Call
  completes : ℕ → Call
  aborts : String → ℕ → Call

unfoldable pub step : Call → Change → Change × Option Error
unfolding advance_phase mark_completed abort
step (advances next now) c = advance_phase next now c
step (completes now) c = mark_completed now c
step (aborts reason now) c = abort reason now c

unfoldable pub run : List Call → Change → Change
run [] c = c
run (x ∷ xs) c = run xs (step x c).0

-- 1 for an advance that is not refused.
abbrev advanced : Call → Change → ℕ
unfolding step
advanced (advances next now) c = elim (step (advances next now) c).1 [ none ↦ 1 | some _ ↦ 0 ]
advanced _ c = 0

-- How many advances of a sequence succeed.
unfoldable pub advances_made : List Call → Change → ℕ
unfolding step
advances_made [] c = 0
advances_made (x ∷ xs) c = advanced x c + advances_made xs (step x c).0

abbrev get_elem? : List PhaseType → ℕ → Option PhaseType
get_elem? [] i = none
get_elem? (x ∷ xs) zero = some x
get_elem? (x ∷ xs) (suc i) = get_elem? xs i

-- The `k`-th phase of the canonical order.
abbrev pub canonical : ℕ → Option PhaseType
canonical k = get_elem? all_phase_types k

index : PhaseType → ℕ
index PhaseType.init = 0
index PhaseType.explore = 1
index PhaseType.proposal = 2
index PhaseType.spec = 3
index PhaseType.design = 4
index PhaseType.tasks = 5
index PhaseType.apply = 6
index PhaseType.verify = 7
index PhaseType.archive = 8
index (PhaseType.unknown _) = 9

index_of_canonical : (t : PhaseType) (k : ℕ) → canonical k ≡ some t → k ≡ index t
unfolding index
index_of_canonical t zero h = ground arith
index_of_canonical t (suc zero) h = ground arith
index_of_canonical t (suc (suc zero)) h = ground arith
index_of_canonical t (suc (suc (suc zero))) h = ground arith
index_of_canonical t (suc (suc (suc (suc zero)))) h = ground arith
index_of_canonical t (suc (suc (suc (suc (suc zero))))) h = ground arith
index_of_canonical t (suc (suc (suc (suc (suc (suc zero)))))) h = ground arith
index_of_canonical t (suc (suc (suc (suc (suc (suc (suc zero))))))) h = ground arith
index_of_canonical t (suc (suc (suc (suc (suc (suc (suc (suc zero)))))))) h = ground arith
index_of_canonical t (suc (suc (suc (suc (suc (suc (suc (suc (suc k))))))))) h = absurd (cc)

next-index :
    (t u : PhaseType) → contains (next_valid t) u ≡ true → canonical (suc (index t)) ≡ some u
unfolding next_valid index
next-index PhaseType.init u h = ground arith
next-index PhaseType.explore u h = ground arith
next-index PhaseType.proposal u h = ground arith
next-index PhaseType.spec u h = ground arith
next-index PhaseType.design u h = ground arith
next-index PhaseType.tasks u h = ground arith
next-index PhaseType.apply u h = ground arith
next-index PhaseType.verify u h = ground arith
next-index PhaseType.archive u h = absurd (cc)
next-index (PhaseType.unknown s) u h = absurd (cc)

canonical-next :
    (t u : PhaseType) (k : ℕ)
    → canonical k ≡ some t
    → contains (next_valid t) u ≡ true
    → canonical (suc k) ≡ some u
canonical-next t u k h n =
    subst (λ j. canonical (suc j) ≡ some u) (sym (index_of_canonical t k h)) (next-index t u n)

-- A step that does not advance keeps the phase; one that does goes to a valid successor.
step-phase :
    (x : Call) (c : Change)
    → ((advanced x c ≡ 0) × ((step x c).0.current_phase ≡ c.current_phase))
      ⊎ ((advanced x c ≡ 1)
          × (contains (next_valid c.current_phase) (step x c).0.current_phase ≡ true))
unfolding step
step-phase (advances next now) c = ground arith
step-phase (completes now) c = ground arith
step-phase (aborts reason now) c = ground arith

run-canonical :
    (xs : List Call) (c : Change) (k : ℕ)
    → canonical k ≡ some c.current_phase
    → canonical (k + advances_made xs c) ≡ some (run xs c).current_phase
unfolding run advances_made
run-canonical [] c k h = rw add-zero h
run-canonical (x ∷ xs) c k h = elim (step-phase x c) [
  | inl (none_made, kept) ↦
      subst (λ j. canonical j ≡ some (run xs (step x c).0).current_phase) (omega arith)
        (run-canonical xs (step x c).0 k (rw kept h))
  | inr (one_made, valid) ↦
      subst (λ j. canonical j ≡ some (run xs (step x c).0).current_phase) (omega arith)
        (run-canonical xs (step x c).0 (suc k)
          (canonical-next c.current_phase (step x c).0.current_phase k h valid))
]

-- On a new change, after any sequence of calls of which `k` advances were not refused, the current
-- phase is the `k`-th of the canonical order: no phase is skipped, repeated or taken back.
pub new-run-canonical :
    (id : ℕ) (name project : String) (store : ArtifactStoreMode) (base_ref : String) (now : ℕ)
    (xs : List Call) {c : Change}
    → new id name project store base_ref now ≡ ok c
    → canonical (advances_made xs c) ≡ some (run xs c).current_phase
unfolding new
new-run-canonical id name project store base_ref now xs {c} h =
    subst (λ j. canonical j ≡ some (run xs c).current_phase) (zero-add _)
      (run-canonical xs c 0 (ground arith))

terminal-step : (x : Call) (c : Change) → is_terminal c.status ≡ true → (step x c).0 ≡ c
unfolding step
terminal-step (advances next now) c h = ground arith
terminal-step (completes now) c h = ground arith
terminal-step (aborts reason now) c h = ground arith

-- A completed or aborted change is never changed again.
pub terminal_absorbs : (xs : List Call) (c : Change) → is_terminal c.status ≡ true → run xs c ≡ c
unfolding run
terminal_absorbs [] c h = refl
terminal_absorbs (x ∷ xs) c h = let kept = terminal-step x c h in rw kept (terminal_absorbs xs c h)
