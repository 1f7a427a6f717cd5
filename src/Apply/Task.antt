-- ===== src/Apply/Task.antt =====
-- internal/domain/apply/task.go: one work item, its claim and its attempts. A method on `*Task`
-- returns the new record with the error, `none` for nil.
pub mod Escalation
use sophia_orchestrator.Prelude.{
  ℕ, ◌+◌, String, leb, Bool, true, false, ◌&&◌, not, List, [], ◌∷◌, Option, none, some, str_eq,
  if◌then◌else◌,
}
use sophia_orchestrator.Envelope.{Envelope}

abbrev pub max_attempts : ℕ
max_attempts = 3

pub data TaskStatus : Type 0 where
  pending claimed running done failed blocked : TaskStatus
  unknown : String → TaskStatus

pub data Error : Type 0 where
  invalid_task_transition already_claimed escalation_required empty_description
        empty_files_pattern :
      Error

pub record Task : Type 0 where
  pub id : ℕ
  pub group_id : ℕ
  pub description : String
  pub files_pattern : List String
  pub status : TaskStatus
  pub claimed_by : Option ℕ
  pub attempts : ℕ
  pub envelope : Option Envelope

pub data Created : Type 0 where
  ok : Task → Created
  err : Error → Created

-- `len(filesPattern) == 0`
abbrev is_empty : List String → Bool
is_empty [] = true
is_empty (_ ∷ _) = false

unfoldable pub new : ℕ → ℕ → String → List String → Created
new id group_id description files_pattern =
    if str_eq description ""
    then err empty_description
    else if is_empty files_pattern
    then err empty_files_pattern
    else ok (record {
      id = id;
      group_id = group_id;
      description = description;
      files_pattern = files_pattern;
      status = TaskStatus.pending;
      claimed_by = none;
      attempts = 0;
      envelope = none;
    })

unfoldable pub hydrate :
    ℕ → ℕ → String → List String → TaskStatus → Option ℕ → ℕ → Option Envelope → Created
hydrate id group_id description files_pattern status claimed_by attempts env =
    if str_eq description ""
    then err empty_description
    else if is_empty files_pattern
    then err empty_files_pattern
    else ok (record {
      id = id;
      group_id = group_id;
      description = description;
      files_pattern = files_pattern;
      status = status;
      claimed_by = claimed_by;
      attempts = attempts;
      envelope = env;
    })

abbrev pub is_pending : TaskStatus → Bool
is_pending TaskStatus.pending = true
is_pending _ = false

abbrev pub is_claimed : TaskStatus → Bool
is_claimed TaskStatus.claimed = true
is_claimed _ = false

abbrev pub is_running : TaskStatus → Bool
is_running TaskStatus.running = true
is_running _ = false

unfoldable pub claim : ℕ → Task → Task × Option Error
claim sid t =
    if not (is_pending t.status)
    then (t, some already_claimed)
    else (record t { status = TaskStatus.claimed; claimed_by = some sid }, none)

unfoldable pub release : Task → Task × Option Error
release t =
    if not (is_claimed t.status) && not (is_running t.status)
    then (t, some invalid_task_transition)
    else (record t { status = TaskStatus.pending; claimed_by = none }, none)

unfoldable pub mark_running : Task → Task × Option Error
mark_running t =
    if not (is_claimed t.status)
    then (t, some invalid_task_transition)
    else (record t { status = TaskStatus.running }, none)

abbrev complete_running : Option Envelope → Task → Task × Option Error
complete_running none t = (t, some invalid_task_transition)
complete_running (some e) t = (record t { envelope = some e; status = TaskStatus.done }, none)

unfoldable pub complete : Option Envelope → Task → Task × Option Error
complete e t =
    if not (is_running t.status) then (t, some invalid_task_transition) else complete_running e t

unfoldable pub record_attempt : Bool → Task → Task × Option Error
record_attempt success t =
    let u = record t { attempts = t.attempts + 1 } in
    if success
    then (record u { status = TaskStatus.done }, none)
    else if leb max_attempts u.attempts
    then (record u { status = TaskStatus.blocked }, some escalation_required)
    else (record u { status = TaskStatus.failed }, none)
