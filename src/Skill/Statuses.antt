-- ===== src/Skill/Statuses.antt =====
-- internal/domain/skill/lifecycle.go, Status.
use sophia_orchestrator.Prelude.{String, Bool, true, false, str_eq}

-- `unknown s` is a text `s` that is none of the six constants.
pub data Status : Type 0 where
  candidate validated active deprecated blocked archived : Status
  unknown : String → Status

unfoldable pub is_valid : Status → Bool
is_valid (Status.unknown _) = false
is_valid _ = true

-- The test `s == t`.
abbrev pub same : Status → Status → Bool
same Status.candidate Status.candidate = true
same Status.validated Status.validated = true
same Status.active Status.active = true
same Status.deprecated Status.deprecated = true
same Status.blocked Status.blocked = true
same Status.archived Status.archived = true
same (Status.unknown s) (Status.unknown t) = str_eq s t
same _ _ = false
