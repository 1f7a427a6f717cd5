-- ===== src/Examples/Streams.antt =====
-- internal/application/eventstream at a concrete phase with two subscribers.
use sophia_orchestrator.Prelude.{
  ℕ, false, List, [], ◌∷◌, none, some, ◌≡◌, refl, ◌==◌, if◌then◌else◌,
}
use sophia_orchestrator.EventStream.{Event, Channel, Stream, Action, cancels, publish}
use sophia_orchestrator.EventStream.Publish.{
  Broadcast, stamped, quiet, cancelled_publish_panics, publish-Broadcast,
}

abbrev event : Event
event = record { event_type = "apply.task.claimed"; sequence = 0 }

abbrev open_channel : Channel
open_channel = record { buffer = []; closed = false }

abbrev two_subscribers : Stream
two_subscribers = record {
  buf_size = 32;
  topics = λ p. if p == 7 then 1 ∷ 2 ∷ [] else [];
  channels = λ _. open_channel;
  drops = 0;
  failures = 0;
}

publish-Broadcast_example :
    Broadcast
      (stamped event (some 41))
      (1 ∷ 2 ∷ [])
      two_subscribers
      (publish 7 event (some 41) quiet two_subscribers)
publish-Broadcast_example =
    publish-Broadcast 7 event (some 41) two_subscribers (refl, (refl, tt)) (refl, (refl, tt))

abbrev first_leaves : ℕ → List Action
first_leaves n = if n == 0 then cancels 7 1 ∷ [] else []

cancelled_publish_panics_example : publish 7 event none first_leaves two_subscribers ≡ none
cancelled_publish_panics_example =
    cancelled_publish_panics 7 1 (2 ∷ []) event none first_leaves two_subscribers refl refl
