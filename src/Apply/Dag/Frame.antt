-- ===== src/Apply/Dag/Frame.antt =====
-- What a walk that returns nil leaves of the colours it found.
use sophia_orchestrator.Prelude.{
  ℕ, zero, suc, List, [], ◌∷◌, ◌≡◌, refl, sym, ◌∙◌, subst, ◌⊎◌, inl, inr, arith,
}
use sophia_orchestrator.Apply.Group.{Group}
use sophia_orchestrator.Apply.Dag.{
  Color, unseen, visiting, done, State, update, Index, Outcome, ok, cycle, out_of_fuel, visit_deps,
  finish, visit,
}
use sophia_orchestrator.Apply.Dag.Steps.{
  skipped, entered, stopped, visit_deps-Round, on_stack, finished, explored, visit-Visit,
}

-- From `s` to `t` the groups on the stack are the same, and what was done is done.
pub record Ext (s t : State) : Type 0 where
  pub visiting_back : (x : ℕ) → t x ≡ visiting → s x ≡ visiting
  pub visiting_kept : (x : ℕ) → s x ≡ visiting → t x ≡ visiting
  pub done_kept : (x : ℕ) → s x ≡ done → t x ≡ done

pub Ext-refl : (s : State) → Ext s s
Ext-refl s = record { visiting_back = λ x h. h; visiting_kept = λ x h. h; done_kept = λ x h. h }

pub Ext-trans : {s t u : State} → Ext s t → Ext t u → Ext s u
Ext-trans a b = record {
  visiting_back = λ x h. a.visiting_back x (b.visiting_back x h);
  visiting_kept = λ x h. b.visiting_kept x (a.visiting_kept x h);
  done_kept = λ x h. b.done_kept x (a.done_kept x h);
}

color_cases : (c : Color) → (c ≡ unseen) ⊎ ((c ≡ visiting) ⊎ (c ≡ done))
color_cases unseen = inl refl
color_cases visiting = inr (inl refl)
color_cases done = inr (inr refl)

pub unseen_back : {s t : State} → Ext s t → (x : ℕ) → t x ≡ unseen → s x ≡ unseen
unseen_back {s} e x h = elim (color_cases (s x)) [
  | inl u ↦ u
  | inr (inl v) ↦ absurd (cc (e.visiting_kept x v))
  | inr (inr d) ↦ absurd (cc (e.done_kept x d))
]

pub update_self : (s : State) (k : ℕ) (c : Color) → update s k c k ≡ c
update_self s k c = ground arith

-- A group that was unseen is put on the stack, its dependencies are walked, and it is done.
around-Ext :
    (s u : State) (k : ℕ) → s k ≡ unseen → Ext (update s k visiting) u → Ext s (update u k done)
around-Ext s u k h e = record {
  visiting_back = λ x v. ground (arith, e.visiting_back x);
  visiting_kept = λ x v. ground (arith, e.visiting_kept x);
  done_kept = λ x v. ground (arith, e.done_kept x);
}

pub ok_injective : {s t : State} → ok s ≡ ok t → s ≡ t
ok_injective h = cc

-- A visitor keeps the frame if each call of it does.
abbrev pub Steady : (Group → State → Outcome) → Type 0
Steady visitor = (g : Group) (s t : State) → visitor g s ≡ ok t → Ext s t

module _ (visitor : Group → State → Outcome) (ids : Index) (steady : Steady visitor) where
  pub visit_deps-Ext : (ds : List ℕ) (s t : State) → visit_deps visitor ids ds s ≡ ok t → Ext s t
  unfolding visit_deps
  visit_deps-Ext [] s t h = subst (Ext s) (ok_injective h) (Ext-refl s)
  visit_deps-Ext (d ∷ ds) s t h = elim (visit_deps-Round visitor ids d ds s) [
    | skipped e r ↦ visit_deps-Ext ds s t (r ∙ h)
    | entered dep u e v r ↦ Ext-trans (steady dep s u v) (visit_deps-Ext ds u t (r ∙ h))
    | stopped dep e v (inl c) ↦ absurd (cc)
    | stopped dep e v (inr c) ↦ absurd (cc)
  ]

finish-ok :
    (k : ℕ) (o : Outcome) {t : State}
    → finish k o ≡ ok t
    → (u : State) × (o ≡ ok u) × (update u k done ≡ t)
finish-ok k (ok u) h = (u, refl, ok_injective h)
finish-ok k cycle h = absurd (cc)
finish-ok k out_of_fuel h = absurd (cc)

-- How a visit that returned nil went: the group was done before, or it was walked just now.
pub data Returned (f : ℕ) (ids : Index) (g : Group) (s t : State) : Type 0 where
  before : s g.id ≡ done → s ≡ t → Returned f ids g s t
  now :
      (u : State)
      → s g.id ≡ unseen
      → visit_deps (visit f ids) ids g.depends_on (update s g.id visiting) ≡ ok u
      → update u g.id done ≡ t
      → Returned f ids g s t

pub visit-Returned :
    (f : ℕ) (ids : Index) (g : Group) (s t : State)
    → visit (suc f) ids g s ≡ ok t
    → Returned f ids g s t
visit-Returned f ids g s t h = elim (visit-Visit f ids g s) [
  | on_stack e r ↦ absurd (cc)
  | finished e r ↦ before e (ok_injective (sym r ∙ h))
  | explored e r ↦ let (u, walked, ended) = finish-ok g.id _ (sym r ∙ h) in now u e walked ended
]

pub visit-Ext : (f : ℕ) (ids : Index) → Steady (visit f ids)
unfolding visit
visit-Ext zero ids g s t h = absurd (cc)
visit-Ext (suc f) ids g s t h = elim (visit-Returned f ids g s t h) [
  | before e same ↦ subst (Ext s) same (Ext-refl s)
  | now u e walked ended ↦ subst (Ext s) ended (
      around-Ext s u g.id e
        (visit_deps-Ext (visit f ids) ids (visit-Ext f ids) g.depends_on _ u walked))
]

-- The group that was visited is done.
pub visit_done :
    (f : ℕ) (ids : Index) (g : Group) (s t : State) → visit f ids g s ≡ ok t → t g.id ≡ done
unfolding visit
visit_done zero ids g s t h = absurd (cc)
visit_done (suc f) ids g s t h = elim (visit-Returned f ids g s t h) [
  | before e same ↦ subst (λ r. r g.id ≡ done) same e
  | now u e walked ended ↦ subst (λ r. r g.id ≡ done) ended (update_self u g.id done)
]
