-- ===== src/Apply/Build/Built.antt =====
-- The board that is built from a tasks list.
use sophia_orchestrator.Prelude.{
  ℕ, suc, String, ◌≡◌, ◌∙◌, List, [], ◌∷◌, ◌++◌, map, none, refl, ap, sym, subst, arith,
  Option-cases, inl, inr, ◌⊎◌,
}
use mathlib.Core.List.{append-nil, append_assoc}
use sophia_orchestrator.Apply.Task
use sophia_orchestrator.Apply.Task.{Task}
use sophia_orchestrator.Apply.Group
use sophia_orchestrator.Apply.Group.{Group, add_task}
use sophia_orchestrator.Apply.Board
use sophia_orchestrator.Apply.Board.{Board, BoardStatus, add_group}
use sophia_orchestrator.Apply.Dag.{
  Verdict, validate_dag, by_id, visit_all, valid, err_cycle, no_fuel,
}
use sophia_orchestrator.Apply.Build
use sophia_orchestrator.Apply.Build.{
  TaskItemSpec, strip_group_prefix, TaskGroupSpec, TasksList, Names, and_then, build_tasks,
  attach_group, build_groups, build_board, save_tasks, name_groups, add_new_task, save_built, id_of,
  resolve_deps,
}
use sophia_orchestrator.PhaseService.{Answer, ok, err}

abbrev pub group_names : List Group → List String
group_names gs = map (λ g. g.name) gs

Answer-cases : {A : Type 0} → (x : Answer A) → ((a : A) × (x ≡ ok a)) ⊎ ((t : String) × (x ≡ err t))
Answer-cases (ok a) = inl (a, refl)
Answer-cases (err t) = inr (t, refl)

verdict_cases : (v : Verdict) → (v ≡ valid) ⊎ (v ≡ err_cycle) ⊎ (v ≡ no_fuel)
verdict_cases valid = inl refl
verdict_cases err_cycle = inr (inl refl)
verdict_cases no_fuel = inr (inr refl)

-- The graph of the board was checked, it is still building, and it has the groups of these names.
pub record Built (ns : List String) (b : Board) : Type 0 where
  pub acyclic : validate_dag b.groups ≡ valid
  pub status : b.status ≡ BoardStatus.building
  pub names : group_names b.groups ≡ ns

names_append :
    (gs : List Group) (g : Group) → group_names (gs ++ g ∷ []) ≡ group_names gs ++ g.name ∷ []
names_append [] g = refl
names_append (h ∷ gs) g = ap (λ ns. h.name ∷ ns) (names_append gs g)

saved_board : (site : Build.Site) (g : Group) (b b' : Board) → save_built site g b ≡ ok b' → b ≡ b'
saved_board site g b b' h = elim (Option-cases (site.save_group g)) [
  | inr (t, e) ↦ let no : err _ ≡ ok b' = rw (save_built, e) at h in absurd (cc)
  | inl e ↦ elim (Option-cases (save_tasks site g.tasks)) [
    | inr (t, r) ↦ let no : err t ≡ ok b' = rw (save_built, e, r) at h in absurd (cc)
    | inl r ↦ let same : ok b ≡ ok b' = rw (save_built, e, r) at h in cc
  ]
]

attach-Built :
    (site : Build.Site) (g : Group) (b b' : Board) (names : List String)
    → Built names b
    → attach_group site g b ≡ ok b'
    → Built (names ++ g.name ∷ []) b'
unfolding attach_group add_group
attach-Built site g b b' names k h = elim (verdict_cases (validate_dag (b.groups ++ g ∷ []))) [
  | inr (inl e) ↦ let no : err site.cycle_text ≡ ok b' = rw (attach_group, e) at h in absurd (cc)
  | inr (inr e) ↦ let no : err site.cycle_text ≡ ok b' = rw (attach_group, e) at h in absurd (cc)
  | inl e ↦
      let grown : Board = record b { groups = b.groups ++ g ∷ [] } in
      let added : add_group g b ≡ (grown, none) = rw (add_group, k.status) refl in
      let free : (add_group g b).1 ≡ none = ap (λ x. x.1) added in
      let kept : save_built site g (add_group g b).0 ≡ ok b' = rw (attach_group, e, free) at h in
      let same = sym (ap (λ x. x.0) added) ∙ saved_board site g (add_group g b).0 b' kept in
      subst (λ x. Built (names ++ g.name ∷ []) x) same
        (record {
          acyclic = e;
          status = k.status;
          names = names_append b.groups g ∙ ap (λ ns. ns ++ g.name ∷ []) k.names;
        })
]

add_task_name : (t : Task) (g : Group) → (add_task t g).0.name ≡ g.name
unfolding add_task
add_task_name t g = ground arith

add_new_task_name :
    (site : Build.Site) (t : Task.Created) (g g' : Group)
    → add_new_task site t g ≡ ok g'
    → g'.name ≡ g.name
add_new_task_name site (Task.err x) g g' h = absurd (cc)
add_new_task_name site (Task.ok t) g g' h = elim (Option-cases (add_task t g).1) [
  | inl e ↦
      let same : ok (add_task t g).0 ≡ ok g' = rw (add_new_task, save_built, e) at h in
      let q : (add_task t g).0 ≡ g' = cc in ap (λ x. x.name) (sym q) ∙ add_task_name t g
  | inr (x, e) ↦ let no : err _ ≡ ok g' = rw (add_new_task, save_built, e) at h in absurd (cc)
]

build_tasks_name :
    (site : Build.Site) (n : ℕ) (ts : List TaskItemSpec) (g : Group) (r : ℕ × Group)
    → build_tasks site n ts g ≡ ok r
    → r.1.name ≡ g.name
unfolding build_tasks
build_tasks_name site n [] g r h = let e : (n, g) ≡ r = cc in ap (λ x. x.1.name) (sym e)
build_tasks_name site n (t ∷ ts) g r h = elim (Option-cases (site.ids n)) [
  | inl e ↦ let no : err _ ≡ ok r = rw (build_tasks, e) at h in absurd (cc)
  | inr (tid, e) ↦
      let made = Task.new tid g.id t.description (strip_group_prefix g.name t.files_pattern) in
      elim (Answer-cases (add_new_task site made g)) [
        | inr (x, a) ↦ let no : err x ≡ ok r = rw (build_tasks, e, a) at h in absurd (cc)
        | inl (g', a) ↦
            build_tasks_name site (suc n) ts g' r (rw (build_tasks, e, a) at h)
            ∙ add_new_task_name site made g g' a
      ]
]

empty_board : validate_dag [] ≡ valid
unfolding validate_dag by_id visit_all
empty_board = refl

groups-Built :
    (site : Build.Site) (n bid : ℕ) (m : Names) (gss : List TaskGroupSpec) (b b' : Board)
    (names : List String)
    → Built names b
    → build_groups site n bid m gss b ≡ ok b'
    → Built (names ++ map (λ g. g.name) gss) b'
unfolding build_groups Group.new
groups-Built site n bid m [] b b' names k h =
    let e : b ≡ b' = cc in
    subst (λ ns. Built ns b') (sym (append-nil names)) (subst (λ x. Built names x) e k)
groups-Built site n bid m (gs ∷ gss) b b' names k h =
    let g = Group.new (id_of gs.name m) bid gs.name (resolve_deps m gs.depends_on) in
    elim (Answer-cases (build_tasks site n gs.tasks g)) [
      | inr (t, e) ↦ let no : err t ≡ ok b' = rw (build_groups, e) at h in absurd (cc)
      | inl (built, e) ↦ elim (Answer-cases (attach_group site built.1 b)) [
        | inr (t, a) ↦ let no : err t ≡ ok b' = rw (build_groups, e, a) at h in absurd (cc)
        | inl (b₁, a) ↦
            let name : built.1.name ≡ gs.name = build_tasks_name site n gs.tasks g built e in
            let k₁ =
              subst (λ s. Built (names ++ s ∷ []) b₁) name
                (attach-Built site built.1 b b₁ names k a) in
            subst (λ ns. Built ns b') (append_assoc names (gs.name ∷ []) (map (λ x. x.name) gss))
              (groups-Built site built.0 bid m gss b₁ b' (names ++ gs.name ∷ []) k₁
                (rw (build_groups, e, a) at h))
      ]
    ]

-- A new board that is built from a tasks list has one group for each entry, with its name and in its
-- order, is still building, and passed the check of its graph with all its groups.
pub build_board-Built :
    (site : Build.Site) (phase_id : ℕ) (tl : TasksList) (b : Board)
    → site.existing ≡ none
    → build_board site phase_id tl ≡ ok b
    → (validate_dag b.groups ≡ valid)
      × (b.status ≡ BoardStatus.building)
      × (group_names b.groups ≡ map (λ g. g.name) tl.groups)
unfolding build_board Board.new
build_board-Built site phase_id tl b x h = elim (Option-cases (site.ids 0)) [
  | inl e ↦ let no : err _ ≡ ok b = rw (build_board, x, e) at h in absurd (cc)
  | inr (bid, e) ↦ elim (Option-cases site.save_board) [
    | inr (t, s) ↦ let no : err _ ≡ ok b = rw (build_board, x, e, s) at h in absurd (cc)
    | inl s ↦ elim (Answer-cases (name_groups site 1 tl.groups [])) [
      | inr (t, q) ↦ let no : err t ≡ ok b = rw (build_board, x, e, s, q) at h in absurd (cc)
      | inl (named, q) ↦
          let k =
            groups-Built site named.0 bid named.1 tl.groups (Board.new bid phase_id) b []
              (record { acyclic = empty_board; status = refl; names = refl })
              (rw (build_board, x, e, s, q) at h) in
          (k.acyclic, k.status, k.names)
    ]
  ]
]
