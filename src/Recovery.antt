-- ===== src/Recovery.antt =====
-- internal/application/recovery/service.go: what the boot does with the phases that a crash left
-- running. The repository's answers are given; the log is left out.
pub mod Sweep
use sophia_orchestrator.Prelude.{ℕ, zero, suc, Bool, true, false, List, [], ◌∷◌, Option, none, some}
use sophia_orchestrator.Phase
use sophia_orchestrator.Phase.{Phase, mark_interrupted}

-- Each but the first names its phase by its id.
pub data Error : Type 0 where
  list_failed : ℕ → Error
  mark_failed : ℕ → Phase.Error → Error
  save_failed : ℕ → ℕ → Error

-- The result of FindAllRunning.
pub data Listed : Type 0 where
  listed : List Phase → Listed
  failed : ℕ → Listed

-- The phases as the sweep leaves them in memory, those that were saved, the count and the first error.
pub record Swept : Type 0 where
  pub phases : List Phase
  pub saved : List Phase
  pub marked : ℕ
  pub first_err : Option Error

-- `if firstErr == nil { firstErr = e }`
abbrev pub or_else : Option Error → Error → Option Error
or_else none e = some e
or_else (some e') _ = some e'

-- `save p` is what Save answers for a phase, `none` for nil. The loop runs with the first error so
-- far; the count and the lists are those of the phases from here on.
pub sweep : (Phase → Option ℕ) → List Phase → Option Error → Swept
unfolding mark_interrupted
sweep save [] err = record { phases = []; saved = []; marked = 0; first_err = err }
sweep save (p ∷ ps) err =
    let (p', refused) = mark_interrupted p in
    elim refused [
      | some e ↦
          let rest = sweep save ps (or_else err (mark_failed p.id e)) in
          record rest { phases = p' ∷ rest.phases }
      | none ↦ elim (save p') [
        | some e ↦
            let rest = sweep save ps (or_else err (save_failed p.id e)) in
            record rest { phases = p' ∷ rest.phases }
        | none ↦
            let rest = sweep save ps err in
            record rest {
              phases = p' ∷ rest.phases;
              saved = p' ∷ rest.saved;
              marked = suc rest.marked;
            }
      ]
    ]

unfoldable pub mark_stuck_interrupted : (Phase → Option ℕ) → Listed → Swept
unfolding sweep
mark_stuck_interrupted save (failed e) = record {
  phases = [];
  saved = [];
  marked = 0;
  first_err = some (list_failed e);
}
mark_stuck_interrupted save (listed stuck) = sweep save stuck none
