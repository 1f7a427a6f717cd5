-- ===== src/Discipline/SpawnGovernor/Cap.antt =====
-- The counter of slots under any interleaving of acquires and releases.
use sophia_orchestrator.Prelude.{ℕ, suc, ◌+◌, ◌≤◌, ◌<◌, true, false, List, [], ◌∷◌, ◌≡◌, arith}
use sophia_orchestrator.Discipline.SpawnGovernor.{Row, repo_acquire, repo_release}

-- Any orchestrator process may acquire or release; the advisory lock makes each call one step.
pub data Call : Type 0 where
  acquires releases : Call

unfoldable pub step : ℕ → Call → Row → Row
unfolding repo_acquire repo_release
step max_concurrent acquires row = (repo_acquire max_concurrent row).0
step max_concurrent releases row = repo_release row

unfoldable pub run : ℕ → List Call → Row → Row
run m [] row = row
run m (c ∷ cs) row = run m cs (step m c row)

cap-step : (m : ℕ) (c : Call) (row : Row) → row.active_count ≤ m → (step m c row).active_count ≤ m
unfolding step
cap-step m acquires row h = ground arith
cap-step m releases row h = ground arith

-- However the acquires and releases of all processes interleave, the number of taken slots never
-- passes the maximum.
pub run_capped :
    (m : ℕ) (cs : List Call) (row : Row) → row.active_count ≤ m → (run m cs row).active_count ≤ m
unfolding run
run_capped m [] row h = h
run_capped m (c ∷ cs) row h = run_capped m cs (step m c row) (cap-step m c row h)

-- How many of the acquires got a slot.
unfoldable pub grants : ℕ → List Call → Row → ℕ
unfolding step
grants m [] row = 0
grants m (acquires ∷ cs) row =
    let rest = grants m cs (step m acquires row) in
    elim (repo_acquire m row).1 [ true ↦ suc rest | false ↦ rest ]
grants m (releases ∷ cs) row = grants m cs (step m releases row)

-- Each release answers a slot that was taken before it.
abbrev pub Matched : ℕ → List Call → Row → Type 0
unfolding step
Matched m [] row = Unit
Matched m (acquires ∷ cs) row = Matched m cs (step m acquires row)
Matched m (releases ∷ cs) row = (0 < row.active_count) × Matched m cs (step m releases row)

abbrev pub count_releases : List Call → ℕ
count_releases [] = 0
count_releases (acquires ∷ cs) = count_releases cs
count_releases (releases ∷ cs) = suc (count_releases cs)

-- If each release answers a taken slot, the counter is exact: no slot leaks and none is made up.
pub run_exact :
    (m : ℕ) (cs : List Call) (row : Row)
    → Matched m cs row
    → (run m cs row).active_count + count_releases cs ≡ row.active_count + grants m cs row
unfolding run grants step
run_exact m [] row h = omega arith
run_exact m (acquires ∷ cs) row h = ground (arith, run_exact m cs (step m acquires row) h)
run_exact m (releases ∷ cs) row h = ground (arith, run_exact m cs (step m releases row) h.1)
