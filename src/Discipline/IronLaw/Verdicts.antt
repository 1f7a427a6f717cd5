-- ===== src/Discipline/IronLaw/Verdicts.antt =====
-- Which laws the Iron Law check cites.
use sophia_orchestrator.Prelude.{
  ℕ, String, ℤ, pos, negsuc, ltb_ℤ, leb, ◌≤◌, Bool, true, false, not, ◌&&◌, List, [], ◌∷◌, ◌++◌,
  map, Option, none, some, ◌≡◌, ◌↔◌, ◌⊎◌, inl, inr, refl, sym, ◌∙◌, Memᴰ, Bool-cases, arith,
}
use sophia_orchestrator.Phase.Types.{PhaseType, confidence_threshold}
use sophia_orchestrator.Phase.Statuses.{PhaseStatus}
use sophia_orchestrator.Discipline.IronLaw.{
  Context, Action, PhasePredicate, Violation, settled, is_done, check, append_if, by_id, find_law,
  catalog, is_run_apply, is_run_archive, is_dispatch, iron_law_2, iron_law_3, iron_law_4,
  iron_law_5,
}

-- A confidence of at least `m` millionths; one below 0 reaches nothing.
pub data Reaches (m : ℕ) : ℤ → Type 0 where
  reaches : (n : ℕ) → m ≤ n → Reaches m (pos n)

-- The phase was run, is DONE, and has a confidence of at least `m` millionths.
pub record Settled (m : ℕ) (o : Option PhasePredicate) : Type 0 where
  pub phase : PhasePredicate
  pub run : o ≡ some phase
  pub done : phase.status ≡ PhaseStatus.done
  pub confident : Reaches m phase.confidence

-- The laws that the action of the context breaks, by their identifiers.
abbrev pub Broken : Context → String → Type 0
Broken ctx id =
    ((id ≡ "IL2_NO_APPLY_WITHOUT_TASKS_DONE")
      × (ctx.action ≡ Action.run_apply)
      × (¬ Settled 800_000 (ctx.prior_phases PhaseType.tasks)))
    ⊎ ((id ≡ "IL3_NO_ARCHIVE_WITHOUT_VERIFY")
        × (ctx.action ≡ Action.run_archive)
        × (¬ Settled 900_000 (ctx.prior_phases PhaseType.verify)))
    ⊎ ((id ≡ "IL4_NO_RUNTIME_WITHOUT_GOVERNANCE")
        × (ctx.action ≡ Action.dispatch)
        × (ctx.has_governance_decision ≡ false))
    ⊎ ((id ≡ "IL5_NO_FIX_4_WITHOUT_ESCALATION") × (3 ≤ ctx.task_attempts))

-- The identifiers of the laws of the violations.
abbrev pub cited : List Violation → List String
cited vs = map (λ v. v.law.id) vs

settled→Settled : (m : ℕ) (o : Option PhasePredicate) → settled o (pos m) ≡ true → Settled m o
settled→Settled m none h = absurd (cc)
settled→Settled m (some p) h = elim (Bool-cases (is_done p.status)) [
  | inr d ↦ let no : false ≡ true = rw d at h in absurd (cc)
  | inl d ↦
      let c : not (ltb_ℤ p.confidence (pos m)) ≡ true = rw d at h in
      record {
        phase = p;
        run = refl;
        done = done_status p.status d;
        confident = reached m p.confidence c;
      }
]
  where
    done_status : (s : PhaseStatus) → is_done s ≡ true → s ≡ PhaseStatus.done
    done_status s h = ground arith

    reached : (m : ℕ) (c : ℤ) → not (ltb_ℤ c (pos m)) ≡ true → Reaches m c
    reached m (pos n) h = reaches n (ground arith)
    reached m (negsuc n) h = absurd (cc)

Settled→settled : (m : ℕ) (o : Option PhasePredicate) → Settled m o → settled o (pos m) ≡ true
Settled→settled m o k = rw (k.run, k.done) (enough m k.phase.confidence k.confident)
  where
    enough : (m : ℕ) (c : ℤ) → Reaches m c → not (ltb_ℤ c (pos m)) ≡ true
    enough m _ (reaches n h) = ground arith

mem_step :
    (x : String) (b : Bool) (id text : String) (rest : List Violation)
    → Memᴰ x (cited (append_if b id text ++ rest))
      ↔ ((x ≡ (by_id id).0.id) × (b ≡ true)) ⊎ Memᴰ x (cited rest)
mem_step x true id text rest = (
  λ m. elim m [ Memᴰ.head e ↦ inl (e, refl) | Memᴰ.tail t ↦ inr t ],
  λ s. elim s [ inl e ↦ Memᴰ.head e.0 | inr t ↦ Memᴰ.tail t ],
)
mem_step x false id text rest = (λ m. inr m, λ s. elim s [ inl e ↦ absurd (cc) | inr t ↦ t ])

mem_last :
    (x : String) (b : Bool) (id text : String)
    → Memᴰ x (cited (append_if b id text)) ↔ ((x ≡ (by_id id).0.id) × (b ≡ true))
mem_last x true id text =
    (λ m. elim m [ Memᴰ.head e ↦ (e, refl) | Memᴰ.tail t ↦ elim t [ ] ], λ e. Memᴰ.head e.0)
mem_last x false id text = (λ m. elim m [ ], λ e. absurd (cc))

-- A guard of the form `t && !s`.
guard_iff :
    {A S : Type 0}
    → (t s : Bool) → ((t ≡ true) ↔ A)
    → ((s ≡ true) ↔ S)
    → ((t && not s) ≡ true) ↔ (A × (¬ S))
guard_iff true true f g = (λ h. absurd (cc), λ k. absurd (k.1 (g.0 refl)))
guard_iff true false f g =
    (λ h. (f.0 refl, λ s. let no : false ≡ true = g.1 s in absurd (cc)), λ k. refl)
guard_iff false s f g = (λ h. absurd (cc), λ k. let no : false ≡ true = f.1 k.0 in absurd (cc))

apply_iff : (a : Action) → (is_run_apply a ≡ true) ↔ (a ≡ Action.run_apply)
apply_iff a = (λ h. ground arith, λ e. rw e refl)

archive_iff : (a : Action) → (is_run_archive a ≡ true) ↔ (a ≡ Action.run_archive)
archive_iff a = (λ h. ground arith, λ e. rw e refl)

dispatch_iff : (a : Action) → (is_dispatch a ≡ true) ↔ (a ≡ Action.dispatch)
dispatch_iff a = (λ h. ground arith, λ e. rw e refl)

settled_iff : (m : ℕ) (o : Option PhasePredicate) → (settled o (pos m) ≡ true) ↔ Settled m o
settled_iff m o = (settled→Settled m o, Settled→settled m o)

-- The guards of the check.
abbrev no_tasks : Context → Bool
no_tasks ctx =
    is_run_apply ctx.action && not (settled (ctx.prior_phases PhaseType.tasks) (pos 800_000))

abbrev no_verify : Context → Bool
no_verify ctx =
    is_run_archive ctx.action && not (settled (ctx.prior_phases PhaseType.verify) (pos 900_000))

abbrev no_decision : Context → Bool
no_decision ctx = is_dispatch ctx.action && not ctx.has_governance_decision

abbrev too_often : Context → Bool
too_often ctx = leb 3 ctx.task_attempts

tasks_iff :
    (ctx : Context)
    → (no_tasks ctx ≡ true)
      ↔ ((ctx.action ≡ Action.run_apply) × (¬ Settled 800_000 (ctx.prior_phases PhaseType.tasks)))
tasks_iff ctx =
    guard_iff _ _ (apply_iff ctx.action) (settled_iff 800_000 (ctx.prior_phases PhaseType.tasks))

verify_iff :
    (ctx : Context)
    → (no_verify ctx ≡ true) ↔ (
        (ctx.action ≡ Action.run_archive) × (¬ Settled 900_000 (ctx.prior_phases PhaseType.verify)))
verify_iff ctx =
    guard_iff _ _ (archive_iff ctx.action) (settled_iff 900_000 (ctx.prior_phases PhaseType.verify))

decision_iff :
    (ctx : Context)
    → (no_decision ctx ≡ true)
      ↔ ((ctx.action ≡ Action.dispatch) × (ctx.has_governance_decision ≡ false))
decision_iff ctx = elim (Bool-cases (is_dispatch ctx.action)) [
  | inl d ↦
      let a = (dispatch_iff ctx.action).0 d in
      (
        λ h. let n : not ctx.has_governance_decision ≡ true = rw d at h in (a, ground arith),
        λ k. rw (d, k.1) refl,
      )
  | inr d ↦ (
    λ h. let no : false ≡ true = rw d at h in absurd (cc),
    λ k. let no : false ≡ true = sym d ∙ (dispatch_iff ctx.action).1 k.0 in absurd (cc),
  )
]

often_iff : (ctx : Context) → (too_often ctx ≡ true) ↔ (3 ≤ ctx.task_attempts)
often_iff ctx = (λ h. ground arith, λ h. ground arith)

cited→Broken : (ctx : Context) (id : String) → Memᴰ id (cited (check ctx)) → Broken ctx id
unfolding check by_id find_law catalog confidence_threshold
cited→Broken ctx id m = elim ((mem_step id (no_tasks ctx) iron_law_2 _ _).0 m) [
  | inl h ↦ let k = (tasks_iff ctx).0 h.1 in inl (h.0, k.0, k.1)
  | inr m ↦ elim ((mem_step id (no_verify ctx) iron_law_3 _ _).0 m) [
    | inl h ↦ let k = (verify_iff ctx).0 h.1 in inr (inl (h.0, k.0, k.1))
    | inr m ↦ elim ((mem_step id (no_decision ctx) iron_law_4 _ _).0 m) [
      | inl h ↦ let k = (decision_iff ctx).0 h.1 in inr (inr (inl (h.0, k.0, k.1)))
      | inr m ↦
          let h = (mem_last id (too_often ctx) iron_law_5 _).0 m in
          inr (inr (inr (h.0, (often_iff ctx).0 h.1)))
    ]
  ]
]

Broken→cited : (ctx : Context) (id : String) → Broken ctx id → Memᴰ id (cited (check ctx))
unfolding check by_id find_law catalog confidence_threshold
Broken→cited ctx id b = elim b [
  | inl h ↦ (mem_step id (no_tasks ctx) iron_law_2 _ _).1 (inl (h.0, (tasks_iff ctx).1 (h.1, h.2)))
  | inr (inl h) ↦ (mem_step id (no_tasks ctx) iron_law_2 _ _).1 (
      inr
        ((mem_step id (no_verify ctx) iron_law_3 _ _).1 (inl (h.0, (verify_iff ctx).1 (h.1, h.2)))))
  | inr (inr (inl h)) ↦ (mem_step id (no_tasks ctx) iron_law_2 _ _).1 (
      inr (
        (mem_step id (no_verify ctx) iron_law_3 _ _).1 (
          inr (
            (mem_step id (no_decision ctx) iron_law_4 _ _).1
              (inl (h.0, (decision_iff ctx).1 (h.1, h.2)))))))
  | inr (inr (inr h)) ↦ (mem_step id (no_tasks ctx) iron_law_2 _ _).1 (
      inr (
        (mem_step id (no_verify ctx) iron_law_3 _ _).1 (
          inr (
            (mem_step id (no_decision ctx) iron_law_4 _ _).1
              (inr ((mem_last id (too_often ctx) iron_law_5 _).1 (h.0, (often_iff ctx).1 h.1)))))))
]

nothing_cited : (vs : List Violation) → ((id : String) → ¬ Memᴰ id (cited vs)) → vs ≡ []
nothing_cited [] h = refl
nothing_cited (v ∷ vs) h = absurd (h v.law.id (Memᴰ.head refl))

-- The check cites a law exactly when the context breaks it: an apply without a tasks phase that is DONE
-- with at least 0.8, an archive without a verify phase that is DONE with at least 0.9, a dispatch
-- without a governance decision, a task with three attempts or more. It cites no other law, and it
-- returns no violation exactly when none is broken.
pub check-cites_iff :
    (ctx : Context)
    → ((id : String) → Memᴰ id (cited (check ctx)) ↔ Broken ctx id)
      × ((check ctx ≡ []) ↔ ((id : String) → ¬ Broken ctx id))
check-cites_iff ctx = (
  λ id. (cited→Broken ctx id, Broken→cited ctx id),
  (
    λ e id b. let m : Memᴰ id [] = rw e at (Broken→cited ctx id b) in elim m [ ],
    λ h. nothing_cited (check ctx) (λ id m. h id (cited→Broken ctx id m)),
  ),
)
