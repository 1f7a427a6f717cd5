-- ===== src/ChangeService.antt =====
-- internal/application/change/service.go: the service that creates, reads and aborts changes.
pub mod Contract
use sophia_orchestrator.Prelude.{
  ℕ, zero, suc, String, ℤ, pos, negsuc, Bool, not, List, Option, none, some, if◌then◌else◌,
}
use sophia_orchestrator.Change
use sophia_orchestrator.Change.{Change, ArtifactStoreMode, abort}
use sophia_orchestrator.Store.Changes.{find_by_id, find_by_project_name, save}

pub data Site : Type 0 where
  find_existing find_change save_change list_changes : Site

pub data Error : Type 0 where
  already_exists not_found bad_id save_failed : Error
  statement_failed : Site → Error
  refused : Change.Error → Error

-- Which statements work, the clock, and the id that is minted, `none` if it does not parse.
pub record Answers : Type 0 where
  pub works : Site → Bool
  pub now : ℕ
  pub new_id : Option ℕ

pub record CreateChangeInput : Type 0 where
  pub name : String
  pub project : String
  pub artifact_store_mode : ArtifactStoreMode
  pub base_ref : String

pub data Result (A : Type 0) : Type 0 where
  ok : A → Result A
  err : Error → Result A

unfoldable pub save_row : Answers → Change → List Change → Option (List Change)
unfolding save
save_row a c rows = if a.works save_change then save c rows else none

unfoldable pub save_created : Answers → Change → List Change → List Change × Result Change
unfolding save_row
save_created a c rows = elim (save_row a c rows) [
  | none ↦ (rows, err save_failed)
  | some rows' ↦ (rows', ok c)
]

unfoldable pub create_new : Answers → CreateChangeInput → List Change → List Change × Result Change
unfolding Change.new save_created
create_new a input rows = elim a.new_id [
  | none ↦ (rows, err bad_id)
  | some id ↦
      elim (Change.new id input.name input.project input.artifact_store_mode input.base_ref a.now) [
        | Change.err x ↦ (rows, err (refused x))
        | Change.ok c ↦ save_created a c rows
      ]
]

unfoldable pub create : Answers → CreateChangeInput → List Change → List Change × Result Change
unfolding find_by_project_name create_new
create a input rows =
    if not (a.works find_existing)
    then (rows, err (statement_failed find_existing))
    else elim (find_by_project_name input.project input.name rows) [
      | some _ ↦ (rows, err already_exists)
      | none ↦ create_new a input rows
    ]

unfoldable pub get : Answers → ℕ → List Change → Result Change
unfolding find_by_id
get a id rows =
    if not (a.works find_change)
    then err (statement_failed find_change)
    else elim (find_by_id id rows) [ none ↦ err not_found | some c ↦ ok c ]

abbrev limit_of : ℤ → ℕ
limit_of (pos zero) = 50
limit_of (pos (suc n)) = suc n
limit_of (negsuc _) = 50

abbrev offset_of : ℤ → ℕ
offset_of (pos n) = n
offset_of (negsuc _) = 0

-- `query` stands for the SELECT with LIMIT and OFFSET.
unfoldable pub list :
    Answers
    → (String → String → ℕ → ℕ → List Change)
    → String
    → String
    → ℤ
    → ℤ
    → Result (List Change)
list a query project status limit offset =
    if a.works list_changes
    then ok (query project status (limit_of limit) (offset_of offset))
    else err (statement_failed list_changes)

unfoldable pub abort_change : Answers → ℕ → String → List Change → List Change × Option Error
unfolding find_by_id abort save_row
abort_change a id reason rows =
    if not (a.works find_change)
    then (rows, some (statement_failed find_change))
    else elim (find_by_id id rows) [
      | none ↦ (rows, some not_found)
      | some c ↦
          let (c', failed) = abort reason a.now c in
          elim failed [
            | some x ↦ (rows, some (refused x))
            | none ↦ elim (save_row a c' rows) [
              | none ↦ (rows, some save_failed)
              | some rows' ↦ (rows', none)
            ]
          ]
    ]
