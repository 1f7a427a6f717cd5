-- ===== src/EventStream.antt =====
-- internal/application/eventstream/stream.go: the fan-out of the events of a phase. A subscriber is
-- the number of its channel. What the locks make one step is one function; between the snapshot of
-- `Publish` and each of its sends other goroutines may act. The store's answer is given.
pub mod Publish
use sophia_orchestrator.Prelude.{
  ℕ, zero, suc, ◌+◌, ltb, ◌==◌, String, ℤ, pos, negsuc, Bool, true, false, ◌||◌, List, [], ◌∷◌,
  ◌++◌, Option, none, some, length, if◌then◌else◌,
}

pub record Event : Type 0 where
  pub event_type : String
  pub sequence : ℕ

pub record Channel : Type 0 where
  pub buffer : List Event
  pub closed : Bool

-- `drops` and `failures` count the calls of the two hooks.
pub record Stream : Type 0 where
  pub buf_size : ℕ
  pub topics : ℕ → List ℕ
  pub channels : ℕ → Channel
  pub drops : ℕ
  pub failures : ℕ

abbrev pub default_buffer_size : ℕ
default_buffer_size = 32

-- `if bufSize <= 0 { bufSize = DefaultBufferSize }`
abbrev pub positive_size : ℤ → ℕ
positive_size (pos zero) = default_buffer_size
positive_size (pos (suc n)) = suc n
positive_size (negsuc _) = default_buffer_size

unfoldable pub new : ℤ → Stream
new buf_size = record {
  buf_size = positive_size buf_size;
  topics = λ _. [];
  channels = λ _. record { buffer = []; closed = true };
  drops = 0;
  failures = 0;
}

abbrev pub put_topic : ℕ → List ℕ → Stream → Stream
put_topic phase subs s = record s { topics = λ p. if p == phase then subs else s.topics p }

abbrev pub put_channel : ℕ → Channel → Stream → Stream
put_channel sub c s = record s { channels = λ x. if x == sub then c else s.channels x }

-- A new channel has a number of its own.
unfoldable pub subscribe : ℕ → ℕ → Stream → Stream
subscribe phase sub s =
    put_channel sub (record { buffer = []; closed = false })
      (put_topic phase (s.topics phase ++ sub ∷ []) s)

abbrev pub is_in : ℕ → List ℕ → Bool
is_in x [] = false
is_in x (y ∷ ys) = (x == y) || is_in x ys

pub remove : ℕ → List ℕ → List ℕ
remove x [] = []
remove x (y ∷ ys) = let rest = remove x ys in if x == y then ys else y ∷ rest

-- A second call finds the subscriber gone, so that it does nothing.
unfoldable pub cancel : ℕ → ℕ → Stream → Stream
unfolding remove
cancel phase sub s =
    if is_in sub (s.topics phase)
    then put_channel sub (record { buffer = (s.channels sub).buffer; closed = true })
        (put_topic phase (remove sub (s.topics phase)) s)
    else s

-- A read by the client.
abbrev pub receive : ℕ → Stream → Stream
receive sub s = elim (s.channels sub).buffer [
  | [] ↦ s
  | e ∷ es ↦ put_channel sub (record { buffer = es; closed = (s.channels sub).closed }) s
]

pub data Action : Type 0 where
  subscribes cancels : ℕ → ℕ → Action
  receives : ℕ → Action

unfoldable pub act : Action → Stream → Stream
unfolding subscribe cancel
act (subscribes phase sub) s = subscribe phase sub s
act (cancels phase sub) s = cancel phase sub s
act (receives sub) s = receive sub s

unfoldable pub act_all : List Action → Stream → Stream
unfolding act
act_all [] s = s
act_all (a ∷ more) s = act_all more (act a s)

-- The `select` with a default: a send on a closed channel panics.
unfoldable pub send : Event → ℕ → Stream → Option Stream
send ev sub s =
    let c = s.channels sub in
    if c.closed
    then none
    else if ltb (length c.buffer) s.buf_size
    then some (put_channel sub (record { buffer = c.buffer ++ ev ∷ []; closed = false }) s)
    else some (record s { drops = s.drops + 1 })

-- The loop over the snapshot; `between n` is what other goroutines do before the `n`-th send.
-- `none` is the panic.
unfoldable pub broadcast : Event → (ℕ → List Action) → ℕ → List ℕ → Stream → Option Stream
unfolding send act_all
broadcast ev between n [] s = some s
broadcast ev between n (sub ∷ subs) s = elim (send ev sub (act_all (between n) s)) [
  | none ↦ none
  | some s' ↦ broadcast ev between (n + 1) subs s'
]

-- `appended` is the sequence that the store assigns, or none for its error, which is also returned.
unfoldable pub publish : ℕ → Event → Option ℕ → (ℕ → List Action) → Stream → Option Stream
unfolding broadcast
publish phase ev none between s =
    broadcast ev between 0 (s.topics phase) (record s { failures = s.failures + 1 })
publish phase ev (some seq) between s =
    broadcast (record ev { sequence = seq }) between 0 (s.topics phase) s
