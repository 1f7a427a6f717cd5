-- ===== src/Examples/Deliveries.antt =====
-- internal/application/outbox at a concrete table.
use sophia_orchestrator.Prelude.{All, arith, ℕ, Bool, true, false, List, [], ◌∷◌, ◌≡◌, refl, ◌==◌}
use sophia_orchestrator.Outbox
use sophia_orchestrator.Outbox.{is_due, Event, backoff, backoff_base, backoff_ceiling, tick}
use sophia_orchestrator.Outbox.Drain.{tick_drains}
use sophia_orchestrator.Outbox.Delivery.{RowSteps, tick-RowSteps}

abbrev rows : List Event
unfolding Outbox.new
rows =
    Outbox.new 1 "phase.archived" (7 ∷ []) 100
    ∷ Outbox.new 2 "phase.archived" (8 ∷ []) 200
    ∷ Outbox.new 3 "phase.archived" (9 ∷ []) 900
    ∷ []

-- The hook takes the payload that starts with 7 and no other.
abbrev deliver : List ℕ → Bool
deliver [] = false
deliver (b ∷ _) = b == 7

tick-RowSteps_example : RowSteps deliver (λ _. true) 500 rows (tick deliver (λ _. true) 10 500 rows)
unfolding Outbox.new
tick-RowSteps_example =
    tick-RowSteps deliver (λ _. true) 10 500 rows ((refl, (refl, tt)), ((refl, tt), (tt, tt)))

tick_drains_example : All (λ r. is_due 500 r ≡ false) (tick deliver (λ _. true) 3 500 rows)
unfolding Outbox.new
tick_drains_example =
    tick_drains deliver (λ _. true) 3 500 rows (λ _. refl)
      ((refl, (refl, tt)), ((refl, tt), (tt, tt))) (omega arith)
