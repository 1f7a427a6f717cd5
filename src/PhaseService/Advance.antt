-- ===== src/PhaseService/Advance.antt =====
-- internal/application/phase/service.go: advanceChange, which moves the change on after a phase, and
-- completes it with its outbox row after the archive phase.
pub mod Atomic
use sophia_orchestrator.Prelude.{
  ℕ, Bool, true, false, not, List, [], ◌∷◌, Option, none, some, if◌then◌else◌,
}
use sophia_orchestrator.Phase.{Phase}
use sophia_orchestrator.Phase.Types.{PhaseType}
use sophia_orchestrator.Change.{Change, Error, advance_phase, mark_completed}
use sophia_orchestrator.Outbox
use sophia_orchestrator.Store.{Store, archived}
use sophia_orchestrator.Store.Phases
use sophia_orchestrator.Store.Changes
use sophia_orchestrator.PhaseService.{
  Answers, enqueue, find_archive, publish_event, save_change_row, or_same,
}

abbrev pub is_archive : PhaseType → Bool
is_archive PhaseType.archive = true
is_archive _ = false

-- The completed change and its event in one transaction: `none` after an early return.
unfoldable pub enqueue_completed : Answers → Change → Store → Option Store
unfolding Changes.save_completed_with_outbox Outbox.new
enqueue_completed a c w = elim (a.archived_body c.id c.name a.now) [
  | none ↦ none
  | some body ↦ elim a.outbox_id [
    | none ↦ none
    | some id ↦
        if not (a.works enqueue)
        then none
        else elim (Changes.save_completed_with_outbox c (Outbox.new id "phase.archived" body a.now)
            w.changes w.outbox) [
              | none ↦ none
              | some (changes, outbox) ↦ some (record w { changes = changes; outbox = outbox })
            ]
  ]
]

unfoldable pub save_completed_change : Answers → Change → Store → Option Store
unfolding enqueue_completed save_change_row
save_completed_change a c w =
    if a.outbox_wired then enqueue_completed a c w else save_change_row a c w

-- The id of the archive phase, or the zero id if the lookup fails.
abbrev pub archive_phase_id : Answers → ℕ → Store → ℕ
archive_phase_id a change_id w =
    if a.works find_archive
    then elim (Phases.find_by_change_and_type change_id PhaseType.archive w.phases) [
      | none ↦ 0
      | some p ↦ p.id
    ]
    else 0

abbrev pub announce_archived : Answers → Change → Store → Store
announce_archived a c w =
    publish_event a (archive_phase_id a c.id w) "phase.archived" (archived c.id c.name a.now) w

unfoldable pub complete_change : Answers → Change → Store → Store
unfolding mark_completed save_completed_change publish_event Phases.find_by_change_and_type
complete_change a c w =
    let (c', refused) = mark_completed a.now c in
    elim refused [
      | some _ ↦ w
      | none ↦ elim (save_completed_change a c' w) [
        | none ↦ w
        | some w' ↦ announce_archived a c' w'
      ]
    ]

unfoldable pub advance_change : Answers → Change → PhaseType → Store → Store
unfolding advance_phase complete_change save_change_row
advance_change a c completed w =
    let (c', refused) = advance_phase completed a.now c in
    elim refused [
      | some _ ↦ w
      | none ↦
          if is_archive completed
          then complete_change a c' w
          else or_same w (save_change_row a c' w)
    ]
