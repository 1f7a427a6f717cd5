-- ===== src/ChangeService/Contract.antt =====
-- What Create answers, and what it leaves in the table.
use sophia_orchestrator.Prelude.{ℕ, String, false, List, ◌∷◌, none, some, ◌≡◌, ◌≢◌, Memᴰ, All}
use sophia_orchestrator.Phase.Types.{PhaseType}
use sophia_orchestrator.Change
use sophia_orchestrator.Change.{Change, ArtifactStoreMode}
use sophia_orchestrator.ChangeService.{
  Answers, Result, CreateChangeInput, find_existing, save_change, ok, err, already_exists, bad_id,
  save_failed, statement_failed, refused,
}

-- The change has the project and the name of the input.
abbrev pub Named : CreateChangeInput → Change → Type 0
Named input r = (r.project ≡ input.project) × (r.name ≡ input.name)

-- No change of the table has them.
abbrev pub Free : CreateChangeInput → List Change → Type 0
Free input rows = All (λ r. ¬ Named input r) rows

-- An input that a change can be made of.
pub record Acceptable (input : CreateChangeInput) : Type 0 where
  pub name : input.name ≢ ""
  pub project : input.project ≢ ""
  pub known : (s : String) → input.artifact_store_mode ≢ ArtifactStoreMode.unknown s

-- The new change is active, stands at the first phase, and was not there before.
pub record Made (a : Answers) (input : CreateChangeInput) (rows : List Change) (c : Change)
    : Type 0 where
  pub minted : a.new_id ≡ some c.id
  pub named : Named input c
  pub active : c.status ≡ Change.Status.active
  pub first : c.current_phase ≡ PhaseType.init
  pub free : Free input rows
  pub acceptable : Acceptable input

-- The answer of Create against the table before it, and the table after it.
abbrev pub Answered :
    Answers → CreateChangeInput → List Change → List Change × Result Change → Type 0
Answered a input rows (rows', ok c) = (rows' ≡ c ∷ rows) × Made a input rows c
Answered a input rows (rows', err already_exists) =
    (rows' ≡ rows) × ((r : Change) × Memᴰ r rows × Named input r)
Answered a input rows (rows', err bad_id) = (rows' ≡ rows) × Free input rows × (a.new_id ≡ none)
Answered a input rows (rows', err save_failed) =
    (rows' ≡ rows) × Free input rows × Acceptable input × (a.works save_change ≡ false)
Answered a input rows (rows', err (refused x)) =
    (rows' ≡ rows) × Free input rows × (¬ Acceptable input)
Answered a input rows (rows', err (statement_failed find_existing)) =
    (rows' ≡ rows) × (a.works find_existing ≡ false)
Answered a input rows (rows', err _) = ⊥

-- What the constructor of the change says of the input.
abbrev Checked : ℕ → CreateChangeInput → Change.Created → Type 0
Checked id input (Change.ok c) =
    Acceptable input
    × (c.id ≡ id)
    × Named input c
    × (c.status ≡ Change.Status.active)
    × (c.current_phase ≡ PhaseType.init)
Checked id input (Change.err x) = ¬ Acceptable input
