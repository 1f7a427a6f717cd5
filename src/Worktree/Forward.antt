-- ===== src/Worktree/Forward.antt =====
-- The life of a working tree goes one way.
use sophia_orchestrator.Prelude.{
  ℕ, ◌≤◌, ◌≡◌, Bool, true, false, List, [], ◌∷◌, Option, none, some, arith,
}
use sophia_orchestrator.Worktree
use sophia_orchestrator.Worktree.{Worktree, Status, lock, release, clean, is_cleaned}

-- The place of a status in the life of a working tree.
abbrev pub rank : Status → ℕ
rank Status.created = 0
rank Status.locked = 1
rank Status.released = 2
rank (Status.unknown _) = 2
rank Status.cleaned = 3

pub data Call : Type 0 where
  lock_call release_call : Call
  clean_call : ℕ → Call

abbrev pub call : Call → Worktree → Worktree × Option Worktree.Error
call lock_call w = lock w
call release_call w = release w
call (clean_call at) w = clean at w

abbrev pub run : List Call → Worktree → Worktree
run [] w = w
run (c ∷ cs) w = run cs (call c w).0

abbrev is_some : Option ℕ → Bool
is_some none = false
is_some (some _) = true

-- The time of the cleaning stands in the record exactly when it is cleaned.
abbrev pub Stamped : Worktree → Type 0
Stamped w = (is_cleaned w.status ≡ is_some w.cleaned_at)

call_forward :
    (c : Call) (w : Worktree)
    → Stamped w
    → (rank w.status ≤ rank (call c w).0.status) × Stamped (call c w).0
unfolding lock release clean
call_forward lock_call w h = ground arith
call_forward release_call w h = ground arith
call_forward (clean_call at) w h = ground arith

-- Over any calls, refused ones included, a working tree never goes back to an earlier status, and it
-- keeps a time of cleaning exactly when it is cleaned.
pub run_forward :
    (cs : List Call) (w : Worktree)
    → Stamped w
    → (rank w.status ≤ rank (run cs w).status) × Stamped (run cs w)
run_forward [] w h = (omega arith, h)
run_forward (c ∷ cs) w h =
    let (up, s) = call_forward c w h in
    let (rest, s') = run_forward cs (call c w).0 s in (omega (arith, up, rest), s')
