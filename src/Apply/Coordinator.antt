-- ===== src/Apply/Coordinator.antt =====
-- internal/application/apply/dag.go: the signals between the groups of a board. A channel of
-- capacity 1 is the value that it holds, if any. The scheduler decides what a waiting group sees:
-- a list of events, one for each turn of a blocked `select`.
pub mod Signals
use sophia_orchestrator.Prelude.{
  ℕ, zero, suc, ◌==◌, Bool, true, false, List, [], ◌∷◌, Option, none, some, if◌then◌else◌,
}
use sophia_orchestrator.Apply.Group.{Group}

-- The error of the failed group stands behind `failed`, as a number.
pub record GroupResult : Type 0 where
  pub failed : Bool
  pub reason : Option ℕ

-- No channel, or a channel with its buffer.
pub data Slot : Type 0 where
  missing empty : Slot
  full : GroupResult → Slot

abbrev pub Coordinator : Type 0
Coordinator = ℕ → Slot

abbrev pub put : ℕ → Slot → Coordinator → Coordinator
put k v d x = if x == k then v else d x

pub open_channels : List Group → Coordinator → Coordinator
open_channels [] d = d
open_channels (g ∷ gs) d = open_channels gs (put g.id empty d)

unfoldable pub new : List Group → Coordinator
unfolding open_channels
new gs = open_channels gs (λ _. missing)

-- A send on a full buffer is dropped, and so is one to an unknown group.
unfoldable pub signal : ℕ → Bool → Option ℕ → Coordinator → Coordinator
signal g failed reason d = elim (d g) [
  | missing ↦ d
  | empty ↦ put g (full (record { failed = failed; reason = reason })) d
  | full r ↦ d
]

-- A call of `Signal` by another goroutine: the group, `failed` and the error.
abbrev pub Call : Type 0
Call = ℕ × Bool × Option ℕ

abbrev pub signal_all : List Call → Coordinator → Coordinator
signal_all [] d = d
signal_all ((g, failed, reason) ∷ cs) d = signal_all cs (signal g failed reason d)

-- What the scheduler lets happen next while `Wait` stands at its `select`.
pub data Event : Type 0 where
  -- Another goroutine signals.
  signals : Call → Event
  -- The `select` receives, if the buffer holds a value; before the value is published again other
  -- goroutines make the calls of the list.
  receives : List Call → Event
  cancelled timed_out : Event

pub data Waited : Type 0 where
  -- nil
  ready : Waited
  unknown_dep : ℕ → Waited
  group_failed : ℕ → Option ℕ → Waited
  context_done dependency_timeout : Waited
  -- The events ran out before `Wait` returned.
  blocked : Waited

-- Receive, the calls in between, and the call of `Signal` that publishes the value again.
abbrev pub republish : ℕ → GroupResult → List Call → Coordinator → Coordinator
republish dep r between d = signal dep r.failed r.reason (signal_all between (put dep empty d))

unfoldable pub wait : List Event → List ℕ → Coordinator → Waited × Coordinator
unfolding signal
wait es [] d = (ready, d)
wait [] (dep ∷ deps) d = elim (d dep) [ missing ↦ (unknown_dep dep, d) | _ ↦ (blocked, d) ]
wait (signals (g, failed, reason) ∷ es) (dep ∷ deps) d = elim (d dep) [
  | missing ↦ (unknown_dep dep, d)
  | _ ↦ wait es (dep ∷ deps) (signal g failed reason d)
]
wait (receives between ∷ es) (dep ∷ deps) d = elim (d dep) [
  | missing ↦ (unknown_dep dep, d)
  | empty ↦ wait es (dep ∷ deps) d
  | full r ↦
      let rest = wait es deps (republish dep r between d) in
      if r.failed then (group_failed dep r.reason, republish dep r between d) else rest
]
wait (cancelled ∷ es) (dep ∷ deps) d = elim (d dep) [
  | missing ↦ (unknown_dep dep, d)
  | _ ↦ (context_done, d)
]
wait (timed_out ∷ es) (dep ∷ deps) d = elim (d dep) [
  | missing ↦ (unknown_dep dep, d)
  | _ ↦ (dependency_timeout, d)
]
