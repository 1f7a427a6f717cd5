-- ===== src/Phase/Types.antt =====
-- internal/domain/phase/type.go: the nine SDD phases, their order and their thresholds.
use sophia_orchestrator.Prelude.{String, ℤ, pos, Bool, true, false, ◌||◌, List, [], ◌∷◌, str_eq}

-- `unknown s` is a text `s` that is none of the nine constants.
pub data PhaseType : Type 0 where
  init explore proposal spec design tasks apply verify archive : PhaseType
  unknown : String → PhaseType

abbrev pub to_string : PhaseType → String
to_string PhaseType.init = "init"
to_string PhaseType.explore = "explore"
to_string PhaseType.proposal = "proposal"
to_string PhaseType.spec = "spec"
to_string PhaseType.design = "design"
to_string PhaseType.tasks = "tasks"
to_string PhaseType.apply = "apply"
to_string PhaseType.verify = "verify"
to_string PhaseType.archive = "archive"
to_string (PhaseType.unknown s) = s

-- The test `v == p` on phase types.
abbrev pub same : PhaseType → PhaseType → Bool
same PhaseType.init PhaseType.init = true
same PhaseType.explore PhaseType.explore = true
same PhaseType.proposal PhaseType.proposal = true
same PhaseType.spec PhaseType.spec = true
same PhaseType.design PhaseType.design = true
same PhaseType.tasks PhaseType.tasks = true
same PhaseType.apply PhaseType.apply = true
same PhaseType.verify PhaseType.verify = true
same PhaseType.archive PhaseType.archive = true
same (PhaseType.unknown s) (PhaseType.unknown t) = str_eq s t
same _ _ = false

abbrev pub all_phase_types : List PhaseType
all_phase_types =
    PhaseType.init ∷ PhaseType.explore ∷ PhaseType.proposal ∷ PhaseType.spec ∷ PhaseType.design
    ∷ PhaseType.tasks ∷ PhaseType.apply ∷ PhaseType.verify ∷ PhaseType.archive ∷ []

-- The loop `for _, v := range vs { if v == p { return true } }`.
abbrev pub contains : List PhaseType → PhaseType → Bool
contains [] p = false
contains (v ∷ vs) p = same v p || contains vs p

unfoldable pub is_valid : PhaseType → Bool
is_valid p = contains all_phase_types p

unfoldable pub next_valid : PhaseType → List PhaseType
next_valid PhaseType.init = PhaseType.explore ∷ []
next_valid PhaseType.explore = PhaseType.proposal ∷ []
next_valid PhaseType.proposal = PhaseType.spec ∷ []
next_valid PhaseType.spec = PhaseType.design ∷ []
next_valid PhaseType.design = PhaseType.tasks ∷ []
next_valid PhaseType.tasks = PhaseType.apply ∷ []
next_valid PhaseType.apply = PhaseType.verify ∷ []
next_valid PhaseType.verify = PhaseType.archive ∷ []
next_valid PhaseType.archive = []
next_valid (PhaseType.unknown _) = []

-- In units of 10^-6.
unfoldable pub confidence_threshold : PhaseType → ℤ
confidence_threshold PhaseType.explore = pos 500_000
confidence_threshold PhaseType.proposal = pos 700_000
confidence_threshold PhaseType.design = pos 700_000
confidence_threshold PhaseType.apply = pos 700_000
confidence_threshold PhaseType.spec = pos 800_000
confidence_threshold PhaseType.tasks = pos 800_000
confidence_threshold PhaseType.verify = pos 900_000
confidence_threshold PhaseType.archive = pos 900_000
confidence_threshold _ = pos 0
