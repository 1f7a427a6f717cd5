-- ===== src/Apply/Coordinator/Signals.antt =====
-- What `Wait` reports, against the signals that were sent.
use sophia_orchestrator.Prelude.{
  ℕ, ◌==◌, Bool, true, false, List, [], ◌∷◌, Option, ◌≡◌, refl, inl, inr, Memᴰ, All, arith, length,
  replicate, Bool-cases, subst, if◌then◌else◌, ◌++◌, All-append_left, All-append_right, fun_ext,
}
use sophia_orchestrator.Apply.Coordinator.{
  GroupResult, Slot, missing, empty, full, Coordinator, put, signal, Call, signal_all, Event,
  signals, receives, cancelled, timed_out, Waited, ready, unknown_dep, group_failed, context_done,
  dependency_timeout, blocked, republish, wait,
}

-- The first signal of a group stays: later ones for it change nothing.
pub signal_first_wins :
    (g : ℕ) (failed failed' : Bool) (reason reason' : Option ℕ) (d : Coordinator) (x : ℕ)
    → signal g failed' reason' (signal g failed reason d) x ≡ signal g failed reason d x
unfolding signal
signal_first_wins g failed failed' reason reason' d x = go (d g) refl
  where
    go :
        (c : Slot)
        → d g ≡ c
        → signal g failed' reason' (signal g failed reason d) x ≡ signal g failed reason d x
    go missing e = ground arith
    go empty e = ground arith
    go (full r) e = ground arith

-- The calls of `Signal` that other goroutines make during the events.
abbrev pub event_calls : List Event → List Call
event_calls [] = []
event_calls (signals c ∷ es) = c ∷ event_calls es
event_calls (receives between ∷ es) = between ++ event_calls es
event_calls (cancelled ∷ es) = event_calls es
event_calls (timed_out ∷ es) = event_calls es

-- Every value that a channel holds was sent by one of the calls.
abbrev pub Origin : List Call → Coordinator → Type 0
Origin sent d = (k : ℕ) (r : GroupResult) → d k ≡ full r → Memᴰ (k, r.failed, r.reason) sent

abbrev pub Among : List Call → List Call → Type 0
Among sent cs = All (λ c. Memᴰ c sent) cs

module _ (sent : List Call) where
  Origin-put : (k : ℕ) (d : Coordinator) → Origin sent d → Origin sent (put k empty d)
  Origin-put k d o x r h = elim (Bool-cases (x == k)) [
    | inl hit ↦ absurd (ground arith)
    | inr miss ↦ o x r (ground arith)
  ]

  signal-Origin :
      (g : ℕ) (failed : Bool) (reason : Option ℕ) (d : Coordinator)
      → Memᴰ (g, failed, reason) sent
      → Origin sent d
      → Origin sent (signal g failed reason d)
  unfolding signal
  signal-Origin g failed reason d m o = go (d g) refl
    where
      go : (c : Slot) → d g ≡ c → Origin sent (signal g failed reason d)
      go missing e x r h = o x r (rw (e, signal) at h)
      go (full q) e x r h = o x r (rw (e, signal) at h)
      go empty e x r h = elim (Bool-cases (x == g)) [
        | inl hit ↦
            let here : x ≡ g = ground arith in
            let same : record { failed = failed; reason = reason } ≡ r = ground arith in
            subst {A = GroupResult} (λ q. Memᴰ (x, q.failed, q.reason) sent) same (rw here m)
        | inr miss ↦ o x r (ground arith)
      ]

  signal_all-Origin :
      (cs : List Call) (d : Coordinator)
      → Among sent cs
      → Origin sent d
      → Origin sent (signal_all cs d)
  signal_all-Origin [] d m o = o
  signal_all-Origin ((g, failed, reason) ∷ cs) d m o =
      signal_all-Origin cs (signal g failed reason d) m.1 (signal-Origin g failed reason d m.0 o)

  republish-Origin :
      (dep : ℕ) (r : GroupResult) (between : List Call) (d : Coordinator)
      → Memᴰ (dep, r.failed, r.reason) sent
      → Among sent between
      → Origin sent d
      → Origin sent (republish dep r between d)
  republish-Origin dep r between d m bs o =
      signal-Origin dep r.failed r.reason _ m (signal_all-Origin between _ bs (Origin-put dep d o))

  -- What a result of `wait` claims of the calls that were made.
  abbrev pub Truthful : List ℕ → Waited → Type 0
  Truthful deps ready = All (λ dep. (reason : Option ℕ) × Memᴰ (dep, false, reason) sent) deps
  Truthful deps (group_failed dep reason) = Memᴰ dep deps × Memᴰ (dep, true, reason) sent
  Truthful deps (unknown_dep dep) = Memᴰ dep deps
  Truthful deps context_done = Unit
  Truthful deps dependency_timeout = Unit
  Truthful deps blocked = Unit

  Truthful-cons :
      (dep : ℕ) (deps : List ℕ) (w : Waited) {reason : Option ℕ}
      → Memᴰ (dep, false, reason) sent
      → Truthful deps w
      → Truthful (dep ∷ deps) w
  Truthful-cons dep deps ready {reason} m t = ((reason, m), t)
  Truthful-cons dep deps (unknown_dep k) m t = Memᴰ.tail t
  Truthful-cons dep deps (group_failed k reason) m t = (Memᴰ.tail t.0, t.1)
  Truthful-cons dep deps context_done m t = tt
  Truthful-cons dep deps dependency_timeout m t = tt
  Truthful-cons dep deps blocked m t = tt

  -- One round at a channel that is there and holds `r`, for the rest of the walk.
  received :
      (dep : ℕ) (deps : List ℕ) (failed : Bool) (reason : Option ℕ) (d : Coordinator)
      (rest : Waited × Coordinator)
      → Memᴰ (dep, failed, reason) sent
      → (failed ≡ false → Truthful deps rest.0)
      → Truthful (dep ∷ deps) (if failed then (group_failed dep reason, d) else rest).0
  received dep deps true reason d rest m t = (Memᴰ.head refl, m)
  received dep deps false reason d rest m t = Truthful-cons dep deps rest.0 m (t refl)

  wait-Truthful_from :
      (es : List Event) (deps : List ℕ) (d : Coordinator)
      → Among sent (event_calls es)
      → Origin sent d
      → Truthful deps (wait es deps d).0
  unfolding wait
  wait-Truthful_from [] [] d m o = tt
  wait-Truthful_from (e ∷ es) [] d m o = tt
  wait-Truthful_from [] (dep ∷ deps) d m o = go (d dep) refl
    where
      go : (c : Slot) → d dep ≡ c → Truthful (dep ∷ deps) (wait [] (dep ∷ deps) d).0
      go missing e = rw (e, wait) (Memᴰ.head refl)
      go empty e = rw (e, wait) tt
      go (full r) e = rw (e, wait) tt
  wait-Truthful_from (signals (g, failed, reason) ∷ es) (dep ∷ deps) d m o = go (d dep) refl (
      wait-Truthful_from es (dep ∷ deps) (signal g failed reason d) m.1
        (signal-Origin g failed reason d m.0 o))
    where
      go :
          (c : Slot)
          → d dep ≡ c
          → Truthful (dep ∷ deps) (wait es (dep ∷ deps) (signal g failed reason d)).0
          → Truthful (dep ∷ deps) (wait (signals (g, failed, reason) ∷ es) (dep ∷ deps) d).0
      go missing e t = rw (e, wait) (Memᴰ.head refl)
      go empty e t = rw (e, wait) t
      go (full r) e t = rw (e, wait) t
  wait-Truthful_from (receives between ∷ es) (dep ∷ deps) d m o =
      go (d dep) refl (wait-Truthful_from es (dep ∷ deps) d later o)
        (λ d' o'. wait-Truthful_from es deps d' later o')
    where
      later : Among sent (event_calls es)
      later = All-append_right (λ c. Memᴰ c sent) between (event_calls es) m

      go :
          (c : Slot)
          → d dep ≡ c
          → Truthful (dep ∷ deps) (wait es (dep ∷ deps) d).0
          → ((d' : Coordinator) → Origin sent d' → Truthful deps (wait es deps d').0)
          → Truthful (dep ∷ deps) (wait (receives between ∷ es) (dep ∷ deps) d).0
      go missing e again next = rw (e, wait) (Memᴰ.head refl)
      go empty e again next = rw (e, wait) again
      go (full r) e again next =
          rw (e, wait)
            (received dep deps r.failed r.reason _ _ (o dep r e) (λ _. next _ (
              republish-Origin dep r between d (o dep r e)
                (All-append_left (λ c. Memᴰ c sent) between (event_calls es) m) o)))
  wait-Truthful_from (cancelled ∷ es) (dep ∷ deps) d m o = go (d dep) refl
    where
      go : (c : Slot) → d dep ≡ c → Truthful (dep ∷ deps) (wait (cancelled ∷ es) (dep ∷ deps) d).0
      go missing e = rw (e, wait) (Memᴰ.head refl)
      go empty e = rw (e, wait) tt
      go (full r) e = rw (e, wait) tt
  wait-Truthful_from (timed_out ∷ es) (dep ∷ deps) d m o = go (d dep) refl
    where
      go : (c : Slot) → d dep ≡ c → Truthful (dep ∷ deps) (wait (timed_out ∷ es) (dep ∷ deps) d).0
      go missing e = rw (e, wait) (Memᴰ.head refl)
      go empty e = rw (e, wait) tt
      go (full r) e = rw (e, wait) tt

-- Whatever the scheduler does: if `wait` returns nil, every dependency was signalled as completed;
-- if it reports a failed dependency, that is one of its dependencies and it was signalled as failed
-- with that error; and an unknown one is one of its dependencies. Here `sent` lists the calls of
-- `signal` from which the held values stem, those during the wait included.
pub wait-Truthful :
    (sent : List Call) (es : List Event) (deps : List ℕ) (d : Coordinator)
    → All (λ c. Memᴰ c sent) (event_calls es)
    → Origin sent d
    → Truthful sent deps (wait es deps d).0
wait-Truthful sent es deps d m o = wait-Truthful_from sent es deps d m o

-- A coordinator that holds the success of each of the dependencies.
abbrev pub AllCompleted : List ℕ → Coordinator → Type 0
AllCompleted deps d = All (λ dep. (r : GroupResult) × (d dep ≡ full r) × (r.failed ≡ false)) deps

republish_same :
    (dep : ℕ) (r : GroupResult) (d : Coordinator) (x : ℕ)
    → d dep ≡ full r
    → republish dep r [] d x ≡ d x
unfolding signal
republish_same dep r d x h = ground arith

-- A completed dependency lets every waiter through: with the success of all its dependencies in
-- the channels, `wait` returns nil after one receive for each, and leaves the channels as they
-- were, so that the next waiter finds the same.
pub wait_broadcast :
    (deps : List ℕ) (d : Coordinator)
    → AllCompleted deps d
    → wait (replicate (length deps) (receives [])) deps d ≡ (ready, d)
unfolding wait
wait_broadcast [] d h = refl
wait_broadcast (dep ∷ deps) d ((r, held, succeeded), rest) =
    let kept : republish dep r [] d ≡ d = fun_ext (λ x. republish_same dep r d x held) in
    rw (held, wait) (rw kept (rw succeeded (wait_broadcast deps d rest)))
