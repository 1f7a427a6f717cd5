-- ===== src/Store/Phases.antt =====
-- internal/adapters/outbound/pg/phase_repo.go over migrations/postgres/002_phases.up.sql: the table
-- has the primary key `id` and UNIQUE (change_id, phase_type, attempts).
use sophia_orchestrator.Prelude.{
  ℕ, ◌+◌, ◌*◌, ◌/◌, ltb, ◌==◌, ℤ, pos, negsuc, zero, suc, Bool, true, false, ◌&&◌, List, [], ◌∷◌,
  Option, none, some, map, keep, if◌then◌else◌,
}
use sophia_orchestrator.Phase.{Phase, is_running}
use sophia_orchestrator.Phase.Types.{PhaseType, same}
use sophia_orchestrator.Phase.Statuses.{PhaseStatus}

-- `confidence NUMERIC(3,2)`: two decimals, a half rounded away from 0.
abbrev negate : ℕ → ℤ
negate zero = pos 0
negate (suc k) = negsuc k

unfoldable pub stored_confidence : ℤ → ℤ
stored_confidence (pos n) = pos ((n + 5000) / 10000 * 10000)
stored_confidence (negsuc n) = negate ((suc n + 5000) / 10000 * 10000)

abbrev pub same_key : Phase → Phase → Bool
same_key p r = p.change_id == r.change_id && same p.p_type r.p_type && p.attempts == r.attempts

abbrev pub has_key : Phase → List Phase → Bool
has_key p [] = false
has_key p (r ∷ rs) = let rest = has_key p rs in if same_key p r then true else rest

-- SELECT … WHERE id = $1
unfoldable pub find_by_id : ℕ → List Phase → Option Phase
find_by_id id [] = none
find_by_id id (r ∷ rs) = let rest = find_by_id id rs in if r.id == id then some r else rest

abbrev pub inserted : Phase → Phase
inserted p = record p { confidence = stored_confidence p.confidence }

-- DO UPDATE: the id of the row stays.
abbrev pub update_row : Phase → Phase → Phase
update_row p r =
    if same_key p r
    then record r {
      status = p.status;
      envelope = p.envelope;
      confidence = stored_confidence p.confidence;
      retry_budget = p.retry_budget;
      started_at = p.started_at;
      completed_at = p.completed_at;
      concerns = p.concerns;
    }
    else r

-- INSERT … ON CONFLICT (change_id, phase_type, attempts) DO UPDATE: a row with the same key is
-- updated; else a row with the same id breaks the primary key.
unfoldable pub save : Phase → List Phase → Option (List Phase)
unfolding find_by_id
save p rows =
    if has_key p rows
    then some (map (update_row p) rows)
    else elim (find_by_id p.id rows) [ none ↦ some (inserted p ∷ rows) | some _ ↦ none ]

abbrev pub of_slot : ℕ → PhaseType → Phase → Bool
of_slot change_id pt r = r.change_id == change_id && same pt r.p_type

-- The better of two rows under ORDER BY attempts DESC.
abbrev pub more_attempts : Phase → Option Phase → Phase
more_attempts r none = r
more_attempts r (some q) = if ltb r.attempts q.attempts then q else r

-- SELECT … WHERE change_id = $1 AND phase_type = $2 ORDER BY attempts DESC LIMIT 1
unfoldable pub find_by_change_and_type : ℕ → PhaseType → List Phase → Option Phase
find_by_change_and_type change_id pt [] = none
find_by_change_and_type change_id pt (r ∷ rs) =
    let rest = find_by_change_and_type change_id pt rs in
    if of_slot change_id pt r then some (more_attempts r rest) else rest

-- status IN ('running', 'interrupted')
abbrev pub is_live : PhaseStatus → Bool
is_live PhaseStatus.running = true
is_live PhaseStatus.interrupted = true
is_live _ = false

-- ORDER BY started_at DESC, where a null comes first.
abbrev pub started_later : Phase → Option Phase → Phase
started_later r none = r
started_later r (some q) = elim r.started_at [
  | none ↦ r
  | some t ↦ elim q.started_at [ none ↦ q | some u ↦ if ltb t u then q else r ]
]

-- SELECT … WHERE change_id = $1 AND status IN (…) ORDER BY started_at DESC LIMIT 1
unfoldable pub find_running_by_change : ℕ → List Phase → Option Phase
find_running_by_change change_id [] = none
find_running_by_change change_id (r ∷ rs) =
    let rest = find_running_by_change change_id rs in
    if r.change_id == change_id && is_live r.status then some (started_later r rest) else rest

-- SELECT … WHERE status = 'running', in the order of the table.
unfoldable pub find_all_running : List Phase → List Phase
find_all_running rows = keep (λ r. is_running r.status) rows
