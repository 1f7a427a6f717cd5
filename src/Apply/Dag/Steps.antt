-- ===== src/Apply/Dag/Steps.antt =====
-- The ways in which one call of `visit` and one round of its loop can go, with their equations.
use sophia_orchestrator.Prelude.{ℕ, suc, List, ◌∷◌, Option, none, some, ◌≡◌, refl, ◌⊎◌, inl, inr}
use sophia_orchestrator.Apply.Group.{Group}
use sophia_orchestrator.Apply.Dag.{
  Color, unseen, visiting, done, State, update, Index, Outcome, ok, cycle, out_of_fuel, visit_deps,
  finish, visit, visit_all,
}

module _ (visitor : Group → State → Outcome) (ids : Index) where
  pub data Round (d : ℕ) (ds : List ℕ) (s : State) (r : Outcome) : Type 0 where
    skipped : ids d ≡ none → visit_deps visitor ids ds s ≡ r → Round d ds s r
    entered :
        (dep : Group) (t : State)
        → ids d ≡ some dep
        → visitor dep s ≡ ok t
        → visit_deps visitor ids ds t ≡ r
        → Round d ds s r
    stopped :
        (dep : Group)
        → ids d ≡ some dep
        → visitor dep s ≡ r
        → (r ≡ cycle) ⊎ (r ≡ out_of_fuel)
        → Round d ds s r

  pub visit_deps-Round :
      (d : ℕ) (ds : List ℕ) (s : State) → Round d ds s (visit_deps visitor ids (d ∷ ds) s)
  unfolding visit_deps
  visit_deps-Round d ds s = found (ids d) refl
    where
      visited :
          (dep : Group) (o : Outcome)
          → ids d ≡ some dep
          → visitor dep s ≡ o
          → Round d ds s (visit_deps visitor ids (d ∷ ds) s)
      visited dep (ok t) e v = entered dep t e v (rw (e, v, visit_deps))
      visited dep cycle e v = stopped dep e (rw (e, v, visit_deps)) (inl (rw (e, v, visit_deps)))
      visited dep out_of_fuel e v =
          stopped dep e (rw (e, v, visit_deps)) (inr (rw (e, v, visit_deps)))

      found : (o : Option Group) → ids d ≡ o → Round d ds s (visit_deps visitor ids (d ∷ ds) s)
      found none e = skipped e (rw (e, visit_deps))
      found (some dep) e = visited dep (visitor dep s) e refl

pub data Visit (f : ℕ) (ids : Index) (g : Group) (s : State) (r : Outcome) : Type 0 where
  on_stack : s g.id ≡ visiting → r ≡ cycle → Visit f ids g s r
  finished : s g.id ≡ done → r ≡ ok s → Visit f ids g s r
  explored :
      s g.id ≡ unseen
      → r ≡ finish g.id (visit_deps (visit f ids) ids g.depends_on (update s g.id visiting))
      → Visit f ids g s r

pub visit-Visit :
    (f : ℕ) (ids : Index) (g : Group) (s : State) → Visit f ids g s (visit (suc f) ids g s)
unfolding visit
visit-Visit f ids g s = go (s g.id) refl
  where
    go : (c : Color) → s g.id ≡ c → Visit f ids g s (visit (suc f) ids g s)
    go unseen e = explored e (rw (e, visit))
    go visiting e = on_stack e (rw (e, visit))
    go done e = finished e (rw (e, visit))

-- One turn of the outer loop.
pub data Turn (f : ℕ) (ids : Index) (g : Group) (gs : List Group) (s : State) (r : Outcome)
    : Type 0 where
  went : (t : State) → visit f ids g s ≡ ok t → visit_all f ids gs t ≡ r → Turn f ids g gs s r
  halted : visit f ids g s ≡ r → (r ≡ cycle) ⊎ (r ≡ out_of_fuel) → Turn f ids g gs s r

pub visit_all-Turn :
    (f : ℕ) (ids : Index) (g : Group) (gs : List Group) (s : State)
    → Turn f ids g gs s (visit_all f ids (g ∷ gs) s)
unfolding visit_all
visit_all-Turn f ids g gs s = go (visit f ids g s) refl
  where
    go : (o : Outcome) → visit f ids g s ≡ o → Turn f ids g gs s (visit_all f ids (g ∷ gs) s)
    go (ok t) e = went t e (rw (e, visit_all))
    go cycle e = halted (rw (e, visit_all)) (inl (rw (e, visit_all)))
    go out_of_fuel e = halted (rw (e, visit_all)) (inr (rw (e, visit_all)))
