-- ===== src/Skill/Aggregate/Invariant.antt =====
-- What holds of a skill from its construction on.
use sophia_orchestrator.Prelude.{
  ℕ, Bool, true, false, List, [], ◌∷◌, none, some, keep, is_nil, ◌≡◌, ◌⊎◌, refl, ap, ◌∙◌, arith,
  if◌then◌else◌, eq_refl, subst, sym, Option-cases, inl, inr,
}
use sophia_orchestrator.Phase.Types
use sophia_orchestrator.Phase.Types.{PhaseType, all_phase_types}
use sophia_orchestrator.Skill.Lifecycle.{LifecycleInput}
use sophia_orchestrator.Skill.Techniques.{Technique, validate_techniques, dedupe_techniques}
use sophia_orchestrator.Skill.Techniques.Tags.{distinct, deduped}
use sophia_orchestrator.Skill.Aggregate.{
  Skill, ok, is_blank, canonicalize_phases, validate_core, validate_lifecycle, with_defaults,
  merge_lifecycle, new, update,
}

-- `ordered`: the phases are a subsequence of the canonical order.
pub record WellFormed (s : Skill) : Type 0 where
  pub named : is_blank s.name ≡ false
  pub filled : is_blank s.content ≡ false
  pub some_phase : is_nil s.phases ≡ false
  pub ordered : (p : PhaseType → Bool) × (s.phases ≡ keep p all_phase_types)
  pub some_tag : is_nil s.techniques ≡ false
  pub tags_valid : validate_techniques s.techniques ≡ true
  pub tags_distinct : distinct s.techniques ≡ true
  pub lifecycle_valid : validate_lifecycle s.lifecycle ≡ none

-- A phase of the canonical list that passes the test is kept.
keep-nonempty :
    (f : PhaseType → Bool) (p : PhaseType)
    → Types.is_valid p ≡ true
    → f p ≡ true
    → is_nil (keep f all_phase_types) ≡ false
unfolding Types.is_valid
keep-nonempty f PhaseType.init v h = ground arith
keep-nonempty f PhaseType.explore v h = ground arith
keep-nonempty f PhaseType.proposal v h = ground arith
keep-nonempty f PhaseType.spec v h = ground arith
keep-nonempty f PhaseType.design v h = ground arith
keep-nonempty f PhaseType.tasks v h = ground arith
keep-nonempty f PhaseType.apply v h = ground arith
keep-nonempty f PhaseType.verify v h = ground arith
keep-nonempty f PhaseType.archive v h = ground arith
keep-nonempty f (PhaseType.unknown _) v h = ground arith

phase-same_refl : (p : PhaseType) → Types.is_valid p ≡ true → Types.same p p ≡ true
unfolding Types.is_valid
phase-same_refl PhaseType.init v = refl
phase-same_refl PhaseType.explore v = refl
phase-same_refl PhaseType.proposal v = refl
phase-same_refl PhaseType.spec v = refl
phase-same_refl PhaseType.design v = refl
phase-same_refl PhaseType.tasks v = refl
phase-same_refl PhaseType.apply v = refl
phase-same_refl PhaseType.verify v = refl
phase-same_refl PhaseType.archive v = refl
phase-same_refl (PhaseType.unknown s) v = eq_refl s

keep-valid :
    (ps qs : List PhaseType) (q : PhaseType)
    → keep Types.is_valid ps ≡ q ∷ qs
    → Types.is_valid q ≡ true
keep-valid [] qs q h = ground arith
keep-valid (p ∷ ps) qs q h = let ih = keep-valid ps qs q in ground arith

some-inj : {xs ys : List PhaseType} → some xs ≡ some ys → xs ≡ ys
some-inj h = cc

canonical_phases :
    (input canonical : List PhaseType)
    → canonicalize_phases input ≡ some canonical
    → (is_nil canonical ≡ false) × ((p : PhaseType → Bool) × (canonical ≡ keep p all_phase_types))
unfolding canonicalize_phases
canonical_phases input canonical h = go (keep Types.is_valid input) refl h
  where
    go :
        (seen : List PhaseType)
        → keep Types.is_valid input ≡ seen
        → (if is_nil seen then none else some (keep (Types.contains seen) all_phase_types))
          ≡ some canonical
        → (is_nil canonical ≡ false)
          × ((p : PhaseType → Bool) × (canonical ≡ keep p all_phase_types))
    go [] e h = ground arith
    go (q ∷ qs) e h =
        let valid = keep-valid input qs q e in
        let same : keep (Types.contains (q ∷ qs)) all_phase_types ≡ canonical = some-inj h in
        let full = keep-nonempty (Types.contains (q ∷ qs)) q valid (rw (phase-same_refl q valid)) in
        (ap is_nil (sym same) ∙ full, (Types.contains (q ∷ qs), sym same))

core_valid :
    (name content : List ℕ) (ts : List Technique)
    → validate_core name content ts ≡ none
    → (is_blank name ≡ false)
      × (is_blank content ≡ false)
      × (is_nil ts ≡ false)
      × (validate_techniques ts ≡ true)
unfolding validate_core
core_valid name content ts h = ground arith

ok-inj : {s t : Skill} → ok s ≡ ok t → s ≡ t
ok-inj h = cc

built :
    (name : List ℕ) (phases canonical : List PhaseType) (content : List ℕ)
    (techniques : List Technique) (lc : LifecycleInput) (s : Skill)
    → canonicalize_phases phases ≡ some canonical
    → validate_core name content techniques ≡ none
    → validate_lifecycle lc ≡ none
    → s.name ≡ name
    → s.phases ≡ canonical
    → s.content ≡ content
    → s.techniques ≡ dedupe_techniques techniques
    → s.lifecycle ≡ lc
    → WellFormed s
built name phases canonical content techniques lc s hp hc hl en ep ec et el =
    let core = core_valid name content techniques hc in
    let order = canonical_phases phases canonical hp in
    let tags = deduped techniques core.2 core.3 in
    record {
      named = rw en core.0;
      filled = rw ec core.1;
      some_phase = rw ep order.0;
      ordered = (order.1.0, rw ep order.1.1);
      some_tag = rw et tags.0;
      tags_valid = rw et tags.1;
      tags_distinct = rw et tags.2;
      lifecycle_valid = rw el hl;
    }

-- A skill that `New` returns is well-formed: its name and its content are not blank, its phases are
-- a non-empty subsequence of the canonical order, its tags are valid, distinct and at least one, and
-- the values of its life cycle are valid.
pub new_skill-WellFormed :
    (id : ℕ) (name : List ℕ) (phases : List PhaseType) (content : List ℕ)
    (techniques : List Technique) (lifecycle : LifecycleInput) (now : ℕ) (s : Skill)
    → new id name phases content techniques lifecycle now ≡ ok s
    → WellFormed s
unfolding new
new_skill-WellFormed id name phases content techniques lifecycle now s h =
    elim (Option-cases (canonicalize_phases phases)) [
      | inl e ↦ ground arith
      | inr (canonical, e) ↦ elim (Option-cases (validate_core name content techniques)) [
        | inr (c, f) ↦ ground arith
        | inl f ↦ elim (Option-cases (validate_lifecycle (with_defaults lifecycle))) [
          | inr (l, g) ↦ ground arith
          | inl g ↦
              let made : new id name phases content techniques lifecycle now
                  ≡ ok (record {
                    id = id;
                    name = name;
                    phases = canonical;
                    content = content;
                    techniques = dedupe_techniques techniques;
                    lifecycle = with_defaults lifecycle;
                    created_at = now;
                    updated_at = now;
                  }) =
                rw (e, f, g, new) in
              subst WellFormed (ok-inj (sym made ∙ h)) (
                built name phases canonical content techniques (with_defaults lifecycle) _ e f g
                  refl refl refl refl refl)
        ]
      ]
    ]

-- `Update` keeps a skill well-formed, and changes nothing when it refuses.
pub update_skill-WellFormed :
    (name : List ℕ) (phases : List PhaseType) (content : List ℕ) (techniques : List Technique)
    (lifecycle : LifecycleInput) (now : ℕ) (s : Skill)
    → WellFormed s
    → let r = update name phases content techniques lifecycle now s in
      WellFormed r.0 × ((r.1 ≡ none) ⊎ (r.0 ≡ s))
unfolding update
update_skill-WellFormed name phases content techniques lifecycle now s h =
    elim (Option-cases (canonicalize_phases phases)) [
      | inl e ↦ rw (e, update) (h, inr refl)
      | inr (canonical, e) ↦ elim (Option-cases (validate_core name content techniques)) [
        | inr (c, f) ↦ rw (e, f, update) (h, inr refl)
        | inl f ↦ elim (Option-cases (validate_lifecycle (merge_lifecycle s lifecycle))) [
          | inr (l, g) ↦ rw (e, f, g, update) (h, inr refl)
          | inl g ↦
              rw (e, f, g, update)
                (
                  built name phases canonical content techniques (merge_lifecycle s lifecycle) _ e f
                      g refl refl refl refl refl,
                  inl refl,
                )
        ]
      ]
    ]
