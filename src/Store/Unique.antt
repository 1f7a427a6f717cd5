-- ===== src/Store/Unique.antt =====
-- The table of the phases under `PhaseRepo.Save`: its keys stay unique, and a row that is saved is
-- found again.
use sophia_orchestrator.Prelude.{
  ℕ, ◌==◌, true, false, List, [], ◌∷◌, Option, none, some, ◌≡◌, refl, arith, map, ==_refl,
  Bool-cases, inl, inr, ap, subst, sym, ◌⊎◌, false≢true, ◌∙◌, eq_refl,
}
use sophia_orchestrator.Phase.{Phase}
use sophia_orchestrator.Phase.Types.{PhaseType, same}
use sophia_orchestrator.Store.Phases.{same_key, has_key, find_by_id, inserted, update_row, save}

-- The primary key and the unique constraint hold.
pub Keyed : List Phase → Type 0
unfolding find_by_id
Keyed [] = Unit
Keyed (r ∷ rs) = (has_key r rs ≡ false) × (find_by_id r.id rs ≡ none) × Keyed rs

update_row_id : (p r : Phase) → (update_row p r).id ≡ r.id
update_row_id p r = ground arith

same_key-update_row : (q p r : Phase) → same_key q (update_row p r) ≡ same_key q r
same_key-update_row q p r = elim (Bool-cases (same_key p r)) [
  | inl e ↦ rw e refl
  | inr e ↦ rw e refl
]

key_of_update_row : (p r q : Phase) → same_key (update_row p r) q ≡ same_key r q
key_of_update_row p r q = elim (Bool-cases (same_key p r)) [ inl e ↦ rw e refl | inr e ↦ rw e refl ]

has_key-update :
    (q p : Phase) (rows : List Phase) → has_key q (map (update_row p) rows) ≡ has_key q rows
has_key-update q p [] = refl
has_key-update q p (r ∷ rs) = rw (same_key-update_row q p r, has_key-update q p rs) refl

pub find_by_id-update_none :
    (id : ℕ) (p : Phase) (rows : List Phase)
    → find_by_id id rows ≡ none
    → find_by_id id (map (update_row p) rows) ≡ none
unfolding find_by_id
find_by_id-update_none id p [] h = refl
find_by_id-update_none id p (r ∷ rs) h =
    ground (arith, update_row_id p r, find_by_id-update_none id p rs)

abbrev map_row : Phase → Option Phase → Option Phase
map_row p none = none
map_row p (some r) = some (update_row p r)

find_by_id-update :
    (id : ℕ) (p : Phase) (rows : List Phase) {q : Phase}
    → find_by_id id rows ≡ some q
    → find_by_id id (map (update_row p) rows) ≡ some (update_row p q)
unfolding find_by_id
find_by_id-update id p [] h = ground arith
find_by_id-update id p (r ∷ rs) {q} h = elim (Bool-cases (r.id == id)) [
  | inl e ↦
      let same_row : some r ≡ some q = rw e at h in
      rw (update_row_id p r, e) (ap (map_row p) same_row)
  | inr e ↦
      let later : find_by_id id rs ≡ some q = rw e at h in
      rw (update_row_id p r, e) (find_by_id-update id p rs later)
]

key_of_map : (r p : Phase) (rows : List Phase) → has_key (update_row p r) rows ≡ has_key r rows
key_of_map r p [] = refl
key_of_map r p (q ∷ rows) = rw (key_of_update_row p r q, key_of_map r p rows) refl

Keyed-update : (p : Phase) (rows : List Phase) → Keyed rows → Keyed (map (update_row p) rows)
unfolding Keyed find_by_id
Keyed-update p [] k = tt
Keyed-update p (r ∷ rs) (h, i, k) =
    let key : has_key (update_row p r) (map (update_row p) rs) ≡ false =
      rw (key_of_map r p (map (update_row p) rs), has_key-update r p rs) h in
    let id : find_by_id (update_row p r).id (map (update_row p) rs) ≡ none =
      rw (update_row_id p r) (find_by_id-update_none r.id p rs i) in
    (key, id, Keyed-update p rs k)

-- The two ways in which the statement succeeds.
pub save-cases :
    (p : Phase) (rows : List Phase) {rows' : List Phase}
    → save p rows ≡ some rows'
    → ((has_key p rows ≡ true) × (rows' ≡ map (update_row p) rows))
      ⊎ ((has_key p rows ≡ false) × (find_by_id p.id rows ≡ none) × (rows' ≡ inserted p ∷ rows))
unfolding save
save-cases p rows h = ground arith

pub save-Keyed :
    (p : Phase) (rows : List Phase) {rows' : List Phase}
    → save p rows ≡ some rows'
    → Keyed rows
    → Keyed rows'
unfolding Keyed
save-Keyed p rows h k = elim (save-cases p rows h) [
  | inl (_, e) ↦ subst Keyed (sym e) (Keyed-update p rows k)
  | inr (n, i, e) ↦ subst Keyed (sym e) (n, i, k)
]

-- A row that is inserted is found under its id.
pub save_found_new :
    (p : Phase) (rows : List Phase) {rows' : List Phase}
    → save p rows ≡ some rows'
    → has_key p rows ≡ false
    → find_by_id p.id rows' ≡ some (inserted p)
unfolding find_by_id
save_found_new p rows h n = elim (save-cases p rows h) [
  | inl (y, _) ↦ absurd (false≢true (sym n ∙ y))
  | inr (_, _, e) ↦ rw (e, ==_refl p.id) refl
]

pub found-has_key :
    (id : ℕ) (p : Phase) (rows : List Phase) {q : Phase}
    → find_by_id id rows ≡ some q
    → same_key p q ≡ true
    → has_key p rows ≡ true
unfolding find_by_id
found-has_key id p [] h k = ground arith
found-has_key id p (r ∷ rs) {q} h k = elim (Bool-cases (r.id == id)) [
  | inl e ↦
      let same_row : some r ≡ some q = rw e at h in
      let hit : same_key p r ≡ true = subst (hits p) (sym same_row) k in rw hit refl
  | inr e ↦
      let later : find_by_id id rs ≡ some q = rw e at h in
      let rest : has_key p rs ≡ true = found-has_key id p rs later k in
      elim (Bool-cases (same_key p r)) [ inl f ↦ rw f refl | inr f ↦ rw f rest ]
]
  where
    hits : Phase → Option Phase → Type 0
    hits p none = Unit
    hits p (some r) = same_key p r ≡ true

-- A row that is saved under its own key is found under its id with what was saved.
pub save_found_own :
    (p : Phase) (rows : List Phase) {q : Phase} {rows' : List Phase}
    → save p rows ≡ some rows'
    → find_by_id p.id rows ≡ some q
    → same_key p q ≡ true
    → find_by_id p.id rows' ≡ some (update_row p q)
save_found_own p rows h f k =
    let y : has_key p rows ≡ true = found-has_key p.id p rows f k in
    elim (save-cases p rows h) [
      | inl (_, e) ↦ rw e (find_by_id-update p.id p rows f)
      | inr (n, _, _) ↦ absurd (false≢true (sym n ∙ y))
    ]

-- A phase whose id stands in the table under another key cannot be saved.
pub save_refused :
    (p : Phase) (rows : List Phase) {q : Phase}
    → find_by_id p.id rows ≡ some q
    → has_key p rows ≡ false
    → save p rows ≡ none
unfolding save
save_refused p rows f n = rw (n, f) refl

same_refl : (t : PhaseType) → same t t ≡ true
same_refl PhaseType.init = refl
same_refl PhaseType.explore = refl
same_refl PhaseType.proposal = refl
same_refl PhaseType.spec = refl
same_refl PhaseType.design = refl
same_refl PhaseType.tasks = refl
same_refl PhaseType.apply = refl
same_refl PhaseType.verify = refl
same_refl PhaseType.archive = refl
same_refl (PhaseType.unknown s) = eq_refl s

pub same_key_refl : (p : Phase) → same_key p p ≡ true
same_key_refl p = rw (==_refl p.change_id, same_refl p.p_type, ==_refl p.attempts) refl

-- Phases with the same change, type and attempts have the same rows.
pub has_key_eq :
    (p q : Phase) (rows : List Phase)
    → p.change_id ≡ q.change_id
    → p.p_type ≡ q.p_type
    → p.attempts ≡ q.attempts
    → has_key p rows ≡ has_key q rows
has_key_eq p q [] c t n = refl
has_key_eq p q (r ∷ rs) c t n = rw (c, t, n, has_key_eq p q rs c t n) refl

-- A phase that is saved has its key in the table.
pub save-has_key :
    (p : Phase) (rows : List Phase) {rows' : List Phase}
    → save p rows ≡ some rows'
    → has_key p rows' ≡ true
save-has_key p rows h = elim (save-cases p rows h) [
  | inl (y, e) ↦
      let kept : has_key p (map (update_row p) rows) ≡ true = has_key-update p p rows ∙ y in
      rw e kept
  | inr (_, _, e) ↦ rw (e, same_key_refl p) refl
]

-- An id that stands in no row, and is not the saved phase's, stands in no row afterwards.
pub save-find_none :
    (id : ℕ) (p : Phase) (rows : List Phase) {rows' : List Phase}
    → save p rows ≡ some rows'
    → find_by_id id rows ≡ none
    → (p.id == id) ≡ false
    → find_by_id id rows' ≡ none
unfolding find_by_id
save-find_none id p rows h f n = elim (save-cases p rows h) [
  | inl (_, e) ↦ rw e (find_by_id-update_none id p rows f)
  | inr (_, _, e) ↦ rw (e, n) f
]
