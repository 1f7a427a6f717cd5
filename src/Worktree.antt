-- ===== src/Worktree.antt =====
-- internal/domain/worktree: the working tree of a session. A method on `*Worktree` returns the new
-- record with the error, `none` for nil.
pub mod Forward
use sophia_orchestrator.Prelude.{
  ℕ, String, Bool, true, false, ◌&&◌, not, Option, none, some, str_eq, if◌then◌else◌,
}

pub data Status : Type 0 where
  created locked released cleaned : Status
  unknown : String → Status

unfoldable pub is_valid : Status → Bool
is_valid (Status.unknown _) = false
is_valid _ = true

pub data Error : Type 0 where
  invalid_transition empty_path empty_branch : Error

pub record Worktree : Type 0 where
  pub id : ℕ
  pub session_id : Option ℕ
  pub path : String
  pub branch : String
  pub status : Status
  pub created_at : ℕ
  pub cleaned_at : Option ℕ

pub data Created : Type 0 where
  ok : Worktree → Created
  err : Error → Created

unfoldable pub new : ℕ → Option ℕ → String → String → ℕ → Created
new id session_id path branch created_at =
    if str_eq path ""
    then err empty_path
    else if str_eq branch ""
    then err empty_branch
    else ok (record {
      id = id;
      session_id = session_id;
      path = path;
      branch = branch;
      status = Status.created;
      created_at = created_at;
      cleaned_at = none;
    })

abbrev pub is_created : Status → Bool
is_created Status.created = true
is_created _ = false

abbrev pub is_locked : Status → Bool
is_locked Status.locked = true
is_locked _ = false

abbrev pub is_cleaned : Status → Bool
is_cleaned Status.cleaned = true
is_cleaned _ = false

unfoldable pub lock : Worktree → Worktree × Option Error
lock w =
    if not (is_created w.status)
    then (w, some invalid_transition)
    else (record w { status = Status.locked }, none)

unfoldable pub release : Worktree → Worktree × Option Error
release w =
    if not (is_locked w.status) && not (is_created w.status)
    then (w, some invalid_transition)
    else (record w { status = Status.released }, none)

unfoldable pub clean : ℕ → Worktree → Worktree × Option Error
clean cleaned_at w =
    if is_cleaned w.status
    then (w, some invalid_transition)
    else (record w { status = Status.cleaned; cleaned_at = some cleaned_at }, none)
