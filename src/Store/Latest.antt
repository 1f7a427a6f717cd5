-- ===== src/Store/Latest.antt =====
-- The queries of the phases: the last attempt has the most attempts, and a live row is found.
use sophia_orchestrator.Prelude.{
  ℕ, ◌+◌, ◌≤◌, ◌==◌, Bool, true, false, List, [], ◌∷◌, Option, none, some, ◌≡◌, ◌≢◌, refl, arith,
  Bool-cases, Option-cases, inl, inr, ◌&&◌, ==_refl, subst, sym, ◌∙◌, false≢true,
}
use sophia_orchestrator.Phase.{Phase}
use sophia_orchestrator.Phase.Types.{same}
use sophia_orchestrator.Store.Phases.{
  same_key, has_key, of_slot, more_attempts, find_by_id, find_by_change_and_type, is_live,
  find_running_by_change, started_later,
}

-- The tests of the query and of the constraint, with the comparison of the types left as it is.
miss : (m n : ℕ) (t u : Bool) → ((n == m) && t) ≡ false → ((m == n) && t && u) ≡ false
miss m n t u h = ground arith

slot_miss : (p r : Phase) → of_slot p.change_id p.p_type r ≡ false → same_key p r ≡ false
slot_miss p r h = miss p.change_id r.change_id (same p.p_type r.p_type) (p.attempts == r.attempts) h

beyond : (m n : ℕ) (t u : Bool) → n + 1 ≤ m → (t && u && (m == n)) ≡ false
beyond m n t u h = ground arith

attempts_miss : (p r : Phase) → r.attempts + 1 ≤ p.attempts → same_key p r ≡ false
attempts_miss p r h =
    beyond p.attempts r.attempts (p.change_id == r.change_id) (same p.p_type r.p_type) h

pub no_row_no_key :
    (p : Phase) (rows : List Phase)
    → find_by_change_and_type p.change_id p.p_type rows ≡ none
    → has_key p rows ≡ false
unfolding find_by_change_and_type
no_row_no_key p [] h = refl
no_row_no_key p (r ∷ rs) h = elim (Bool-cases (of_slot p.change_id p.p_type r)) [
  | inl e ↦
      let found : some (more_attempts r (rest p rs)) ≡ none = rw e at h in
      absurd (some-none (more_attempts r (rest p rs)) found)
  | inr e ↦
      let none_left : rest p rs ≡ none = rw e at h in
      let rest_miss : has_key p rs ≡ false = no_row_no_key p rs none_left in
      rw (slot_miss p r e) rest_miss
]
  where
    rest : Phase → List Phase → Option Phase
    rest p rs = find_by_change_and_type p.change_id p.p_type rs

    some-none : (q : Phase) → some q ≡ none → ⊥
    some-none q h = ground arith

top : (r q : Phase) (o : Option Phase) → some (more_attempts r o) ≡ some q → r.attempts ≤ q.attempts
top r q none h = ground arith
top r q (some s) h = ground arith

below : (r q s : Phase) → some (more_attempts r (some s)) ≡ some q → s.attempts ≤ q.attempts
below r q s h = ground arith

-- No row of the slot has more attempts than the one that the query finds.
pub beyond_latest :
    (p : Phase) (rows : List Phase) {q : Phase}
    → find_by_change_and_type p.change_id p.p_type rows ≡ some q
    → q.attempts + 1 ≤ p.attempts
    → has_key p rows ≡ false
unfolding find_by_change_and_type
beyond_latest p [] h k = refl
beyond_latest p (r ∷ rs) {q} h k = elim (Bool-cases (of_slot p.change_id p.p_type r)) [
  | inl e ↦
      let best : some (more_attempts r (found p rs)) ≡ some q = rw e at h in
      let here : same_key p r ≡ false =
        attempts_miss p r (omega (arith, top r q (found p rs) best, k)) in
      elim (Option-cases (found p rs)) [
        | inl n ↦ rw here (no_row_no_key p rs n)
        | inr (s, f) ↦
            let best_of : some (more_attempts r (some s)) ≡ some q = rw f at best in
            let rest : has_key p rs ≡ false =
              beyond_latest p rs f (omega (arith, below r q s best_of, k)) in
            rw here rest
      ]
  | inr e ↦
      let later : found p rs ≡ some q = rw e at h in
      let rest : has_key p rs ≡ false = beyond_latest p rs later k in rw (slot_miss p r e) rest
]
  where
    found : Phase → List Phase → Option Phase
    found p rs = find_by_change_and_type p.change_id p.p_type rs

abbrev live_row : ℕ → Phase → Bool
live_row change_id r = r.change_id == change_id && is_live r.status

none_live :
    (change_id : ℕ) (r : Phase) (rs : List Phase)
    → find_running_by_change change_id (r ∷ rs) ≡ none
    → (live_row change_id r ≡ false) × (find_running_by_change change_id rs ≡ none)
unfolding find_running_by_change
none_live change_id r rs h = elim (Bool-cases (live_row change_id r)) [
  | inl e ↦
      let found : some (started_later r (find_running_by_change change_id rs)) ≡ none = rw e at h in
      absurd (cc)
  | inr e ↦ (e, rw e at h)
]

abbrev AllLive : ℕ → Option Phase → Type 0
AllLive change_id none = Unit
AllLive change_id (some r) = live_row change_id r ≡ true

live_self : (p : Phase) → is_live p.status ≡ true → live_row p.change_id p ≡ true
live_self p l = rw (==_refl p.change_id) l

-- A live row that is found under its id is also found by the query for the running phase.
pub live_found :
    (p : Phase) (rows : List Phase)
    → find_by_id p.id rows ≡ some p
    → is_live p.status ≡ true
    → find_running_by_change p.change_id rows ≢ none
unfolding find_by_id
live_found p [] f l e = ground arith
live_found p (r ∷ rs) f l e =
    let (dead, rest) = none_live p.change_id r rs e in
    elim (Bool-cases (r.id == p.id)) [
      | inl y ↦
          let same_row : some r ≡ some p = rw y at f in
          let live : live_row p.change_id r ≡ true =
            subst (AllLive p.change_id) (sym same_row) (live_self p l) in
          absurd (false≢true (sym dead ∙ live))
      | inr n ↦ live_found p rs (rw n at f) l rest
    ]
