-- ===== src/Change.antt =====
-- internal/domain/change: the aggregate that is driven through the nine phases. A method on
-- `*Change` returns the new record with the error, `none` for nil.
pub mod Sequence
use sophia_orchestrator.Prelude.{
  ℕ, String, Bool, true, false, not, Option, none, some, str_eq, if◌then◌else◌,
}
use sophia_orchestrator.Phase.Types.{PhaseType, contains, next_valid}

-- `unknown s` is a text `s` that is none of the constants.
pub data Status : Type 0 where
  active completed aborted : Status
  unknown : String → Status

unfoldable pub is_terminal : Status → Bool
is_terminal Status.completed = true
is_terminal Status.aborted = true
is_terminal _ = false

pub data ArtifactStoreMode : Type 0 where
  memory_engine openspec hybrid inline : ArtifactStoreMode
  unknown : String → ArtifactStoreMode

unfoldable pub is_valid : ArtifactStoreMode → Bool
is_valid (ArtifactStoreMode.unknown _) = false
is_valid _ = true

pub data Error : Type 0 where
  empty_name empty_project invalid_artifact_store already_terminal invalid_transition : Error

pub record Change : Type 0 where
  pub id : ℕ
  pub name : String
  pub project : String
  pub status : Status
  pub current_phase : PhaseType
  pub artifact_store : ArtifactStoreMode
  pub base_ref : String
  pub created_at : ℕ
  pub updated_at : ℕ

pub data Created : Type 0 where
  ok : Change → Created
  err : Error → Created

unfoldable pub new : ℕ → String → String → ArtifactStoreMode → String → ℕ → Created
unfolding is_valid
new id name project store base_ref created_at =
    if str_eq name ""
    then err empty_name
    else if str_eq project ""
    then err empty_project
    else if not (is_valid store)
    then err invalid_artifact_store
    else ok (record {
      id = id;
      name = name;
      project = project;
      status = Status.active;
      current_phase = PhaseType.init;
      artifact_store = store;
      base_ref = base_ref;
      created_at = created_at;
      updated_at = created_at;
    })

unfoldable pub advance_phase : PhaseType → ℕ → Change → Change × Option Error
unfolding is_terminal next_valid
advance_phase next now c =
    if is_terminal c.status
    then (c, some already_terminal)
    else if contains (next_valid c.current_phase) next
    then (record c { current_phase = next; updated_at = now }, none)
    else (c, some invalid_transition)

unfoldable pub mark_completed : ℕ → Change → Change × Option Error
unfolding is_terminal
mark_completed now c =
    if is_terminal c.status
    then (c, some already_terminal)
    else (record c { status = Status.completed; updated_at = now }, none)

-- The reason is not kept by the aggregate.
unfoldable pub abort : String → ℕ → Change → Change × Option Error
unfolding is_terminal
abort reason now c =
    if is_terminal c.status
    then (c, some already_terminal)
    else (record c { status = Status.aborted; updated_at = now }, none)
