-- ===== src/EventStream/Publish.antt =====
-- What a publish delivers, and what a cancel in the middle of it does.
use sophia_orchestrator.Prelude.{
  ℕ, ◌+◌, ltb, ◌==◌, false, List, [], ◌∷◌, ◌++◌, Option, none, some, length, ◌≡◌, refl, ap, ◌∙◌,
  arith, All, if◌then◌else◌, Bool-cases, inl, inr,
}
use sophia_orchestrator.EventStream.{
  Event, Channel, Stream, Action, cancels, is_in, cancel, act, act_all, send, broadcast, publish,
  put_channel,
}

-- No other goroutine acts.
abbrev pub quiet : ℕ → List Action
quiet _ = []

abbrev pub Open : Stream → ℕ → Type 0
Open s sub = (s.channels sub).closed ≡ false

abbrev pub DistinctSubs : List ℕ → Type 0
DistinctSubs [] = Unit
DistinctSubs (x ∷ xs) = (is_in x xs ≡ false) × DistinctSubs xs

-- A full buffer drops the event.
abbrev pub offered : ℕ → Event → Channel → Channel
offered size ev c =
    if ltb (length c.buffer) size then record c { buffer = c.buffer ++ ev ∷ [] } else c

-- If the first subscriber of the snapshot is cancelled before the send to it, the publish sends on a
-- closed channel, which panics.
pub cancelled_publish_panics :
    (phase sub : ℕ) (subs : List ℕ) (ev : Event) (appended : Option ℕ) (between : ℕ → List Action)
    (s : Stream)
    → s.topics phase ≡ sub ∷ subs
    → between 0 ≡ cancels phase sub ∷ []
    → publish phase ev appended between s ≡ none
unfolding publish broadcast send act_all act cancel
cancelled_publish_panics phase sub subs ev none between s h b = ground arith
cancelled_publish_panics phase sub subs ev (some seq) between s h b = ground arith

-- Sending to an open channel changes this channel alone.
record Delivered (ev : Event) (sub : ℕ) (s : Stream) (r : Option Stream) : Type 0 where
  after : Stream
  result : r ≡ some after
  here : after.channels sub ≡ offered s.buf_size ev (s.channels sub)
  elsewhere : (x : ℕ) → (x == sub) ≡ false → after.channels x ≡ s.channels x
  size : after.buf_size ≡ s.buf_size
  topics : after.topics ≡ s.topics

send-Delivered :
    (ev : Event) (sub : ℕ) (s : Stream) → Open s sub → Delivered ev sub s (send ev sub s)
unfolding send
send-Delivered ev sub s o = elim (Bool-cases (ltb (length (s.channels sub).buffer) s.buf_size)) [
  | inl room ↦ record {
    after =
        put_channel sub (record { buffer = (s.channels sub).buffer ++ ev ∷ []; closed = false }) s;
    result = rw (o, room);
    here = ground arith;
    elsewhere = λ x h. ground arith;
    size = refl;
    topics = refl;
  }
  | inr full ↦ record {
    after = record s { drops = s.drops + 1 };
    result = rw (o, full);
    here = rw full;
    elsewhere = λ x h. refl;
    size = refl;
    topics = refl;
  }
]

-- What a broadcast leaves of the channels.
pub record Broadcast (ev : Event) (subs : List ℕ) (s : Stream) (r : Option Stream) : Type 0 where
  pub after : Stream
  pub result : r ≡ some after
  pub reached : All (λ sub. after.channels sub ≡ offered s.buf_size ev (s.channels sub)) subs
  pub others : (x : ℕ) → is_in x subs ≡ false → after.channels x ≡ s.channels x
  pub topics : after.topics ≡ s.topics

differs :
    (x y : ℕ) (ys : List ℕ) → is_in x (y ∷ ys) ≡ false → ((y == x) ≡ false) × (is_in x ys ≡ false)
differs x y ys h = ground arith

apart :
    (x y : ℕ) (ys : List ℕ) → is_in x (y ∷ ys) ≡ false → ((x == y) ≡ false) × (is_in x ys ≡ false)
apart x y ys h = ground arith

still-Open :
    (sub : ℕ) (subs : List ℕ) (s t : Stream)
    → is_in sub subs ≡ false
    → ((x : ℕ) → (x == sub) ≡ false → t.channels x ≡ s.channels x)
    → All (Open s) subs
    → All (Open t) subs
still-Open sub [] s t h same o = tt
still-Open sub (y ∷ ys) s t h same (o, os) =
    let d = differs sub y ys h in
    (ap (λ c. c.closed) (same y d.0) ∙ o, still-Open sub ys s t d.1 same os)

reached_before :
    (ev : Event) (sub : ℕ) (subs : List ℕ) (s t r : Stream)
    → is_in sub subs ≡ false
    → ((x : ℕ) → (x == sub) ≡ false → t.channels x ≡ s.channels x)
    → t.buf_size ≡ s.buf_size
    → All (λ x. r.channels x ≡ offered t.buf_size ev (t.channels x)) subs
    → All (λ x. r.channels x ≡ offered s.buf_size ev (s.channels x)) subs
reached_before ev sub [] s t r h same size a = tt
reached_before ev sub (y ∷ ys) s t r h same size (a, as') =
    let d = differs sub y ys h in
    (
      a ∙ ap (λ n. offered n ev (t.channels y)) size ∙ ap (offered s.buf_size ev) (same y d.0),
      reached_before ev sub ys s t r d.1 same size as',
    )

broadcast-Broadcast :
    (ev : Event) (n : ℕ) (subs : List ℕ) (s : Stream)
    → DistinctSubs subs
    → All (Open s) subs
    → Broadcast ev subs s (broadcast ev quiet n subs s)
unfolding broadcast act_all
broadcast-Broadcast ev n [] s distinct o = record {
  after = s;
  result = refl;
  reached = tt;
  others = λ x h. refl;
  topics = refl;
}
broadcast-Broadcast ev n (sub ∷ subs) s (fresh, distinct) (o, os) =
    let d = send-Delivered ev sub s o in
    let ih =
      broadcast-Broadcast ev (n + 1) subs d.after distinct
        (still-Open sub subs s d.after fresh d.elsewhere os) in
    let sent = d.result in
    let result = ih.result in
    record {
      after = ih.after;
      result = rw (sent, broadcast) result;
      reached = (
        ih.others sub fresh ∙ d.here,
        reached_before ev sub subs s d.after ih.after fresh d.elsewhere d.size ih.reached,
      );
      others = λ x h. let p = apart x sub subs h in ih.others x p.1 ∙ d.elsewhere x p.0;
      topics = ih.topics ∙ d.topics;
    }

-- The event as it is sent.
abbrev pub stamped : Event → Option ℕ → Event
stamped ev none = ev
stamped ev (some seq) = record ev { sequence = seq }

-- A publish that no other goroutine disturbs, on a phase whose subscribers are distinct and open,
-- does not panic. Each subscriber with room in its buffer finds the event at the end of it, with the
-- sequence of the store, or as it is if the store failed; one with a full buffer misses it; all other
-- channels and the subscriptions stay as they are.
pub publish-Broadcast :
    (phase : ℕ) (ev : Event) (appended : Option ℕ) (s : Stream)
    → DistinctSubs (s.topics phase)
    → All (Open s) (s.topics phase)
    → Broadcast (stamped ev appended) (s.topics phase) s (publish phase ev appended quiet s)
unfolding publish
publish-Broadcast phase ev none s distinct o =
    let failed = record s { failures = s.failures + 1 } in
    let r = broadcast-Broadcast ev 0 (s.topics phase) failed distinct o in
    record {
      after = r.after;
      result = r.result;
      reached = r.reached;
      others = r.others;
      topics = r.topics;
    }
publish-Broadcast phase ev (some seq) s distinct o =
    broadcast-Broadcast (record ev { sequence = seq }) 0 (s.topics phase) s distinct o
