-- ===== src/Apply/Dag/Complete.antt =====
-- What a nil of the walk says of the groups.
use sophia_orchestrator.Prelude.{
  ℕ, zero, suc, ◌==◌, List, [], ◌∷◌, some, ◌≡◌, refl, sym, ◌∙◌, subst, inl, inr, Memᴰ, arith,
  Bool-cases, length,
}
use sophia_orchestrator.Apply.Group.{Group}
use sophia_orchestrator.Apply.Dag.{
  unseen, visiting, done, State, update, Index, Outcome, ok, cycle, out_of_fuel, visit_deps, visit,
  visit_all, by_id, valid, conclude, validate_dag,
}
use sophia_orchestrator.Apply.Dag.Graph.{
  Edge, edge, Reaches, one, more, Acyclic, by_id-Indexes, DistinctIds, by_id_hit,
}
use sophia_orchestrator.Apply.Dag.Steps.{
  skipped, entered, stopped, visit_deps-Round, went, halted, visit_all-Turn,
}
use sophia_orchestrator.Apply.Dag.Frame.{
  Ext, Ext-refl, Ext-trans, ok_injective, before, now, visit-Returned, visit-Ext, visit_deps-Ext,
  visit_done, update_self,
}

module _ (ids : Index) (named : (k : ℕ) (g : Group) → ids k ≡ some g → g.id ≡ k) where
  -- What is done depends on what is done, and not on itself.
  record Settled (s : State) : Type 0 where
    closed : (x y : ℕ) → s x ≡ done → Edge ids x y → s y ≡ done
    acyclic : (x : ℕ) → s x ≡ done → ¬ Reaches ids x x

  Settled-push : (s : State) (k : ℕ) → s k ≡ unseen → Settled s → Settled (update s k visiting)
  Settled-push s k fresh v = record { closed = closed; acyclic = acyclic }
    where
      was : (x : ℕ) → update s k visiting x ≡ done → s x ≡ done
      was x h = ground arith

      stays : (x : ℕ) → s x ≡ done → update s k visiting x ≡ done
      stays x h = ground arith

      closed :
          (x y : ℕ) → update s k visiting x ≡ done → Edge ids x y → update s k visiting y ≡ done
      closed x y h e = stays y (v.closed x y (was x h) e)

      acyclic : (x : ℕ) → update s k visiting x ≡ done → ¬ Reaches ids x x
      acyclic x h p = v.acyclic x (was x h) p

  -- All known dependencies of `k` are done.
  Served : ℕ → State → Type 0
  Served k s = (y : ℕ) → Edge ids k y → s y ≡ done

  Reaches_done : {s : State} {k c : ℕ} → Settled s → Served k s → Reaches ids k c → s c ≡ done
  unfolding Served
  Reaches_done v served (one e) = served _ e
  Reaches_done v served (more p e) = v.closed _ _ (Reaches_done v served p) e

  serve :
      (u : State) {g : Group}
      → ids g.id ≡ some g
      → ((y : ℕ) (h : Group) → Memᴰ y g.depends_on → ids y ≡ some h → u y ≡ done)
      → Served g.id u
  unfolding Served
  serve u {g} known served y (edge g' h e m k) =
      let same : g' ≡ g = cc in served y h (subst (λ z. Memᴰ y z.depends_on) same m) k

  Settled-pop :
      (s : State) (k : ℕ) → s k ≡ visiting → Served k s → Settled s → Settled (update s k done)
  unfolding Served
  Settled-pop s k held served v = record { closed = closed; acyclic = acyclic }
    where
      stays : (x : ℕ) → s x ≡ done → update s k done x ≡ done
      stays x h = ground arith

      closed : (x y : ℕ) → update s k done x ≡ done → Edge ids x y → update s k done y ≡ done
      closed x y h e = elim (Bool-cases (x == k)) [
        | inl hit ↦ stays y (served y (subst (λ z. Edge ids z y) (ground arith) e))
        | inr miss ↦ stays y (v.closed x y (ground arith) e)
      ]

      acyclic : (x : ℕ) → update s k done x ≡ done → ¬ Reaches ids x x
      acyclic x h p = elim (Bool-cases (x == k)) [
        | inl hit ↦
            let same : x ≡ k = ground arith in
            absurd (cc (Reaches_done v served (subst (λ z. Reaches ids z z) same p)))
        | inr miss ↦ v.acyclic x (ground arith) p
      ]

  -- The loop of `visit` settles the dependencies that it has walked.
  deps_settle :
      (f : ℕ)
      → ((g : Group) (s t : State)
          → ids g.id ≡ some g
          → Settled s
          → visit f ids g s ≡ ok t
          → Settled t)
      → (ds : List ℕ) (s u : State) → Settled s
      → visit_deps (visit f ids) ids ds s ≡ ok u
      → Settled u × ((y : ℕ) (h : Group) → Memᴰ y ds → ids y ≡ some h → u y ≡ done)
  unfolding visit_deps
  deps_settle f ih [] s u v e = (subst Settled (ok_injective e) v, λ y h m _. elim m [ ])
  deps_settle f ih (d ∷ ds) s u v e = elim (visit_deps-Round (visit f ids) ids d ds s) [
    | skipped gone r ↦
        let (settled, rest) = deps_settle f ih ds s u v (r ∙ e) in
        (
          settled,
          λ y h m known. elim m [ Memᴰ.head same ↦ absurd (cc) | Memᴰ.tail m' ↦ rest y h m' known ],
        )
    | entered dep t here w r ↦
        let (settled, rest) =
          deps_settle f ih ds t u
            (ih dep s t (subst (λ z. ids z ≡ some dep) (sym (named d dep here)) here) v w)
            (r ∙ e) in
        let later = visit_deps-Ext (visit f ids) ids (visit-Ext f ids) ds t u (r ∙ e) in
        (
          settled,
          λ y h m known. elim m [
            | Memᴰ.head same ↦
                later.done_kept y (
                  subst (λ z. t z ≡ done) (named d dep here ∙ sym same)
                    (visit_done f ids dep s t w))
            | Memᴰ.tail m' ↦ rest y h m' known
          ],
        )
    | stopped dep here w (inl c) ↦ absurd (cc)
    | stopped dep here w (inr c) ↦ absurd (cc)
  ]

  visit_settles :
      (f : ℕ) (g : Group) (s t : State)
      → ids g.id ≡ some g
      → Settled s
      → visit f ids g s ≡ ok t
      → Settled t
  unfolding visit
  visit_settles zero g s t known v h = absurd (cc)
  visit_settles (suc f) g s t known v h = elim (visit-Returned f ids g s t h) [
    | before _ same ↦ subst Settled same v
    | now u fresh walked ended ↦
        let (settled, served) =
          deps_settle f (visit_settles f) g.depends_on (update s g.id visiting) u
            (Settled-push s g.id fresh v) walked in
        let held =
          (visit_deps-Ext (visit f ids) ids (visit-Ext f ids) g.depends_on _ u walked).visiting_kept
            g.id (update_self s g.id visiting) in
        subst Settled ended (Settled-pop u g.id held (serve u known served) settled)
  ]

  visit_all_settles :
      (f : ℕ) (gs : List Group) (s t : State)
      → ((g : Group) → Memᴰ g gs → ids g.id ≡ some g)
      → Settled s
      → visit_all f ids gs s ≡ ok t
      → Settled t × Ext s t × ((g : Group) → Memᴰ g gs → t g.id ≡ done)
  unfolding visit_all
  visit_all_settles f [] s t known v h = (
    subst Settled (ok_injective h) v,
    subst (Ext s) (ok_injective h) (Ext-refl s),
    λ g m. elim m [ ],
  )
  visit_all_settles f (g ∷ gs) s t known v h = elim (visit_all-Turn f ids g gs s) [
    | went u e r ↦
        let (settled, later, rest) =
          visit_all_settles f gs u t (λ x m. known x (Memᴰ.tail m))
            (visit_settles f g s u (known g (Memᴰ.head refl)) v e) (r ∙ h) in
        (
          settled,
          Ext-trans (visit-Ext f ids g s u e) later,
          λ x m. elim m [
            | Memᴰ.head same ↦
                subst (λ z. t z.id ≡ done) (sym same)
                  (later.done_kept g.id (visit_done f ids g s u e))
            | Memᴰ.tail m' ↦ rest x m'
          ],
        )
    | halted e (inl c) ↦ absurd (cc)
    | halted e (inr c) ↦ absurd (cc)
  ]

conclude-valid : (o : Outcome) → conclude o ≡ valid → (t : State) × (o ≡ ok t)
conclude-valid (ok t) h = (t, refl)
conclude-valid cycle h = absurd (cc)
conclude-valid out_of_fuel h = absurd (cc)

Reaches-from : {ids : Index} {a b : ℕ} → Reaches ids a b → (g : Group) × (ids a ≡ some g)
Reaches-from (one (edge g h e m k)) = (g, e)
Reaches-from (more p e) = Reaches-from p

-- If the ids of the groups differ and `validate_dag` returns nil, then no group depends on itself,
-- through any number of dependencies.
pub validate_dag_complete :
    (gs : List Group) → DistinctIds gs → validate_dag gs ≡ valid → Acyclic gs
unfolding validate_dag
validate_dag_complete gs distinct h a p =
    let ids = by_id-Indexes gs in
    let (t, walked) = conclude-valid _ h in
    let (g, here) = Reaches-from p in
    let (settled, _, all_done) =
      visit_all_settles (by_id gs) ids.named (suc (length gs)) gs (λ _. unseen) t
        (by_id_hit gs distinct) (record { closed = λ x y e _. absurd (cc); acyclic = λ x e _. cc })
        walked in
    settled.acyclic a
      (subst (λ z. t z ≡ done) (ids.named a g here) (all_done g (ids.member a g here))) p
