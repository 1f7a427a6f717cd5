-- ===== src/Store/Changes.antt =====
-- internal/adapters/outbound/pg/change_repo.go: the table of changes has the primary key `id` and
-- UNIQUE (project, name); and the transaction of outbox_repo.go that completes a change.
use sophia_orchestrator.Prelude.{
  ℕ, ◌==◌, String, Bool, true, false, ◌&&◌, List, [], ◌∷◌, Option, none, some, map, str_eq,
  if◌then◌else◌,
}
use sophia_orchestrator.Change.{Change}
use sophia_orchestrator.Outbox

unfoldable pub find_by_id : ℕ → List Change → Option Change
find_by_id id [] = none
find_by_id id (r ∷ rs) = let rest = find_by_id id rs in if r.id == id then some r else rest

abbrev pub of_project : String → String → Change → Bool
of_project project name r = str_eq r.project project && str_eq r.name name

unfoldable pub find_by_project_name : String → String → List Change → Option Change
find_by_project_name project name [] = none
find_by_project_name project name (r ∷ rs) =
    let rest = find_by_project_name project name rs in
    if of_project project name r then some r else rest

abbrev pub update_row : Change → Change → Change
update_row c r =
    if r.id == c.id
    then record r { status = c.status; current_phase = c.current_phase; updated_at = c.updated_at }
    else r

-- INSERT … ON CONFLICT (id) DO UPDATE: a new row with the project and the name of another one
-- breaks the unique constraint.
unfoldable pub save : Change → List Change → Option (List Change)
unfolding find_by_id find_by_project_name
save c rows = elim (find_by_id c.id rows) [
  | some _ ↦ some (map (update_row c) rows)
  | none ↦ elim (find_by_project_name c.project c.name rows) [
    | some _ ↦ none
    | none ↦ some (c ∷ rows)
  ]
]

abbrev pub has_outbox_id : ℕ → List Outbox.Event → Bool
has_outbox_id id [] = false
has_outbox_id id (e ∷ es) = let rest = has_outbox_id id es in if e.id == id then true else rest

-- SaveCompletedWithOutbox: both tables after the commit, or `none` after a rollback.
unfoldable pub save_completed_with_outbox :
    Change
    → Outbox.Event
    → List Change
    → List Outbox.Event
    → Option (List Change × List Outbox.Event)
unfolding save
save_completed_with_outbox c ev changes outbox = elim (save c changes) [
  | none ↦ none
  | some changes' ↦ if has_outbox_id ev.id outbox then none else some (changes', ev ∷ outbox)
]
