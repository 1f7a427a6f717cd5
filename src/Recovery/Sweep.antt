-- ===== src/Recovery/Sweep.antt =====
-- What the sweep reports against what it did.
use sophia_orchestrator.Prelude.{
  ℕ, suc, ◌≤◌, Bool, true, false, List, [], ◌∷◌, ◌≡◌, ◌≢◌, refl, arith, length, keep, Option, none,
  some, All, map, subst, sym, ap, Option-cases, inl, inr,
}
use sophia_orchestrator.Phase.{Phase, mark_interrupted}
use sophia_orchestrator.Phase.Statuses.{PhaseStatus, is_terminal}
use sophia_orchestrator.Recovery.{
  Error, save_failed, Swept, listed, or_else, sweep, mark_stuck_interrupted,
}

abbrev Running : Phase → Type 0
Running p = p.status ≡ PhaseStatus.running

abbrev interrupted : Phase → Phase
interrupted p = record p { status = PhaseStatus.interrupted }

abbrev is_saved : (Phase → Option ℕ) → Phase → Bool
is_saved save p = elim (save p) [ none ↦ true | some _ ↦ false ]

marks : (p : Phase) → Running p → mark_interrupted p ≡ (interrupted p, none)
unfolding mark_interrupted is_terminal
marks p h = rw h

-- What a sweep reports of phases that are all running.
pub record Reported (save : Phase → Option ℕ) (ps : List Phase) (err : Option Error) (r : Swept)
    : Type 0 where
  pub phases : r.phases ≡ map interrupted ps
  pub saved : r.saved ≡ keep (is_saved save) (map interrupted ps)
  pub marked : r.marked ≡ length r.saved
  pub bounded : r.marked ≤ length ps
  pub failure : r.first_err ≡ none → (err ≡ none) × (r.marked ≡ length ps)
  pub success : err ≡ none → r.marked ≡ length ps → r.first_err ≡ none

sweep_saved :
    (save : Phase → Option ℕ) (p : Phase) (ps : List Phase) (err : Option Error)
    → Running p
    → save (interrupted p) ≡ none
    → let rest = sweep save ps err in
      sweep save (p ∷ ps) err ≡ record rest {
        phases = interrupted p ∷ rest.phases;
        saved = interrupted p ∷ rest.saved;
        marked = suc rest.marked;
      }
unfolding sweep
sweep_saved save p ps err h e =
    let m = marks p h in
    let m0 : (mark_interrupted p).0 ≡ interrupted p = ap (λ r. r.0) m in
    let m1 : (mark_interrupted p).1 ≡ none = ap (λ r. r.1) m in ground arith

sweep_failed :
    (save : Phase → Option ℕ) (p : Phase) (ps : List Phase) (err : Option Error) (code : ℕ)
    → Running p
    → save (interrupted p) ≡ some code
    → let rest = sweep save ps (or_else err (save_failed p.id code)) in
      sweep save (p ∷ ps) err ≡ record rest { phases = interrupted p ∷ rest.phases }
unfolding sweep
sweep_failed save p ps err code h e =
    let m = marks p h in
    let m0 : (mark_interrupted p).0 ≡ interrupted p = ap (λ r. r.0) m in
    let m1 : (mark_interrupted p).1 ≡ none = ap (λ r. r.1) m in ground arith

or_else-some : (err : Option Error) (e : Error) → or_else err e ≢ none
or_else-some none e h = ground arith
or_else-some (some _) e h = ground arith

sweep-Reported :
    (save : Phase → Option ℕ) (ps : List Phase) (err : Option Error)
    → All Running ps
    → Reported save ps err (sweep save ps err)
unfolding sweep
sweep-Reported save [] err h = record {
  phases = refl;
  saved = refl;
  marked = refl;
  bounded = omega arith;
  failure = λ done. (done, refl);
  success = λ clean _. clean;
}
sweep-Reported save (p ∷ ps) err (now, later) = elim (Option-cases (save (interrupted p))) [
  | inl e ↦
      let ih = sweep-Reported save ps err later in
      subst (Reported save (p ∷ ps) err) (sym (sweep_saved save p ps err now e)) (record {
        phases = ap (λ qs. interrupted p ∷ qs) ih.phases;
        saved = rw (e, keep) (ap (λ qs. interrupted p ∷ qs) ih.saved);
        marked = omega (arith, ih.marked);
        bounded = omega (arith, ih.bounded);
        failure = λ done. let before = ih.failure done in (before.0, omega (arith, before.1));
        success = λ clean all. ih.success clean (omega arith);
      })
  | inr (code, e) ↦
      let err' = or_else err (save_failed p.id code) in
      let ih = sweep-Reported save ps err' later in
      subst (Reported save (p ∷ ps) err) (sym (sweep_failed save p ps err code now e)) (record {
        phases = ap (λ qs. interrupted p ∷ qs) ih.phases;
        saved = rw (e, keep) ih.saved;
        marked = ih.marked;
        bounded = omega (arith, ih.bounded);
        failure = λ done. absurd (or_else-some err (save_failed p.id code) (ih.failure done).0);
        success = λ clean all. absurd (let bound = ih.bounded in omega arith);
      })
]

-- When every listed phase is running, the sweep of the boot leaves each of them interrupted, saves
-- those that the repository takes and counts these. It reports no error exactly if the count is
-- the number of the phases.
pub mark_stuck_interrupted-Reported :
    (save : Phase → Option ℕ) (stuck : List Phase)
    → All Running stuck
    → Reported save stuck none (mark_stuck_interrupted save (listed stuck))
unfolding mark_stuck_interrupted
mark_stuck_interrupted-Reported save stuck h = sweep-Reported save stuck none h
