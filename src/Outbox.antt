-- ===== src/Outbox.antt =====
-- internal/domain/outbox, internal/application/outbox/relay.go and
-- internal/adapters/outbound/pg/outbox_repo.go: the events of completed changes and their delivery.
-- The table is the list of its rows; times are nanoseconds. `deliver` stands for the HTTP call, and
-- `writes` says whether the statement for the row with an id succeeds.
pub mod Backoff
pub mod Delivery
pub mod Drain
use sophia_orchestrator.Prelude.{
  ℕ, zero, suc, ◌+◌, ◌*◌, ◌^◌, ltb, leb, ◌==◌, String, ℤ, pos, negsuc, Bool, true, false, ◌&&◌, not,
  List, [], ◌∷◌, Option, none, some, map, keep, if◌then◌else◌,
}

pub data Status : Type 0 where
  pending delivered : Status
  unknown : String → Status

pub record Event : Type 0 where
  pub id : ℕ
  pub event_type : String
  pub payload : List ℕ
  pub status : Status
  pub attempts : ℕ
  pub next_attempt_at : ℕ
  pub created_at : ℕ
  pub delivered_at : Option ℕ

unfoldable pub new : ℕ → String → List ℕ → ℕ → Event
new id event_type payload created_at = record {
  id = id;
  event_type = event_type;
  payload = payload;
  status = Status.pending;
  attempts = 0;
  next_attempt_at = created_at;
  created_at = created_at;
  delivered_at = none;
}

abbrev pub second : ℕ
second = 1_000_000_000

abbrev pub backoff_base : ℕ
backoff_base = 10 * second

abbrev pub backoff_ceiling : ℕ
backoff_ceiling = 300 * second

abbrev pub max_shift : ℕ
max_shift = 6

-- `base << attempts`, capped, from a count that is not negative.
abbrev pub backoff_nat : ℕ → ℕ
backoff_nat attempts =
    if leb max_shift attempts
    then backoff_ceiling
    else let d = backoff_base * 2 ^ attempts in if ltb backoff_ceiling d then backoff_ceiling else d

unfoldable pub backoff : ℤ → ℕ
backoff (pos n) = backoff_nat n
backoff (negsuc n) = backoff_nat 0

abbrev pub is_pending : Status → Bool
is_pending Status.pending = true
is_pending _ = false

abbrev pub is_due : ℕ → Event → Bool
is_due now e = is_pending e.status && leb e.next_attempt_at now

-- `ORDER BY next_attempt_at`
pub place : Event → List Event → List Event
place e [] = e ∷ []
place e (x ∷ xs) =
    let rest = place e xs in
    if leb e.next_attempt_at x.next_attempt_at then e ∷ x ∷ xs else x ∷ rest

pub order : List Event → List Event
unfolding place
order [] = []
order (e ∷ es) = place e (order es)

-- `LIMIT n`
abbrev pub take : ℕ → List Event → List Event
take zero es = []
take (suc n) [] = []
take (suc n) (e ∷ es) = e ∷ take n es

-- The rows that are pending and due, the longest due first; none of them is locked elsewhere.
unfoldable pub claim_due : ℕ → ℕ → List Event → List Event
unfolding order
claim_due limit now rows = take limit (order (keep (is_due now) rows))

abbrev pub deliver_row : ℕ → ℕ → Event → Event
deliver_row id at row =
    if row.id == id then record row { status = Status.delivered; delivered_at = some at } else row

abbrev pub reschedule_row : ℕ → ℕ → ℕ → Event → Event
reschedule_row id attempts next row =
    if row.id == id then record row { attempts = attempts; next_attempt_at = next } else row

unfoldable pub mark_delivered : ℕ → ℕ → List Event → List Event
mark_delivered id at rows = map (deliver_row id at) rows

unfoldable pub reschedule : ℕ → ℕ → ℕ → List Event → List Event
reschedule id attempts next rows = map (reschedule_row id attempts next) rows

-- One turn of the loop of `Tick`: a failed statement is logged and the row stays as it was.
unfoldable pub process : (List ℕ → Bool) → (ℕ → Bool) → ℕ → Event → List Event → List Event
unfolding mark_delivered reschedule backoff
process deliver writes now e rows =
    if not (writes e.id)
    then rows
    else if deliver e.payload
    then mark_delivered e.id now rows
    else reschedule e.id (e.attempts + 1) (now + backoff (pos (e.attempts + 1))) rows

unfoldable pub process_all : (List ℕ → Bool) → (ℕ → Bool) → ℕ → List Event → List Event → List Event
unfolding process
process_all deliver writes now [] rows = rows
process_all deliver writes now (e ∷ es) rows =
    process_all deliver writes now es (process deliver writes now e rows)

-- A claim that fails leaves the table as it is, which is not modelled further.
unfoldable pub tick : (List ℕ → Bool) → (ℕ → Bool) → ℕ → ℕ → List Event → List Event
unfolding process_all claim_due
tick deliver writes limit now rows = process_all deliver writes now (claim_due limit now rows) rows
