-- ===== src/SkillUsage.antt =====
-- internal/domain/skillusage and internal/adapters/outbound/pg/skill_usage_repo.go: which skill was
-- injected into which phase, and how that phase ended.
use sophia_orchestrator.Prelude.{
  ℕ, ◌==◌, String, Bool, true, false, ◌&&◌, not, List, [], ◌∷◌, Option, none, some, map, str_eq,
  if◌then◌else◌,
}

-- `unknown s` is a text `s` that is none of the constants.
pub data Outcome : Type 0 where
  pending success failure blocked : Outcome
  unknown : String → Outcome

unfoldable pub is_valid : Outcome → Bool
is_valid (Outcome.unknown _) = false
is_valid _ = true

pub data Error : Type 0 where
  invalid_outcome : Error

pub record SkillUsage : Type 0 where
  pub id : ℕ
  pub change_id : ℕ
  pub phase_type : String
  pub skill_id : ℕ
  pub skill_version : String
  pub injected_at : ℕ
  pub outcome : Outcome

unfoldable pub new : ℕ → ℕ → String → ℕ → String → ℕ → SkillUsage
new id change_id phase_type skill_id skill_version injected_at = record {
  id = id;
  change_id = change_id;
  phase_type = phase_type;
  skill_id = skill_id;
  skill_version = skill_version;
  injected_at = injected_at;
  outcome = Outcome.pending;
}

unfoldable pub set_outcome : Outcome → SkillUsage → SkillUsage × Option Error
unfolding is_valid
set_outcome o s =
    if not (is_valid o) then (s, some invalid_outcome) else (record s { outcome = o }, none)

-- UNIQUE (change_id, phase_type, skill_id, skill_version)
abbrev pub same_key : SkillUsage → SkillUsage → Bool
same_key s r =
    s.change_id == r.change_id
    && str_eq s.phase_type r.phase_type
    && s.skill_id == r.skill_id
    && str_eq s.skill_version r.skill_version

abbrev pub has_key : SkillUsage → List SkillUsage → Bool
has_key s [] = false
has_key s (r ∷ rs) = let rest = has_key s rs in if same_key s r then true else rest

-- `INSERT … ON CONFLICT DO NOTHING`, for an id that is not in the table.
unfoldable pub insert : SkillUsage → List SkillUsage → List SkillUsage
insert s rows = if has_key s rows then rows else s ∷ rows

abbrev set_row : ℕ → Outcome → SkillUsage → SkillUsage
set_row id o r = if r.id == id then record r { outcome = o } else r

-- `UPDATE … WHERE id = $1`
unfoldable pub update_outcome : ℕ → Outcome → List SkillUsage → List SkillUsage
update_outcome id o rows = map (set_row id o) rows
