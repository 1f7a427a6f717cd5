-- ===== src/Outbox/Delivery.antt =====
-- What a tick of the relay does to each row of the table.
use sophia_orchestrator.Prelude.{
  ℕ, zero, suc, ◌+◌, leb, ◌==◌, pos, Bool, true, false, not, List, [], ◌∷◌, some, ◌≡◌, refl, sym,
  ◌∙◌, ap, subst, fun_ext, ◌⊎◌, inl, inr, map, keep, All, All-mem, Memᴰ, arith, Bool-cases, ==_refl,
  if◌then◌else◌,
}
use sophia_orchestrator.Outbox.{
  Event, Status, is_due, place, order, take, claim_due, deliver_row, reschedule_row, process,
  process_all, tick, backoff,
}

-- The claim under a predicate on rows: what holds of all due rows holds of the claimed ones.
place-All : (P : Event → Type 0) (e : Event) (xs : List Event) → P e → All P xs → All P (place e xs)
unfolding place
place-All P e [] h hs = (h, tt)
place-All P e (x ∷ xs) h hs = elim (Bool-cases (leb e.next_attempt_at x.next_attempt_at)) [
  | inl first ↦ rw first (h, hs)
  | inr later ↦ rw later (hs.0, place-All P e xs h hs.1)
]

order-All : (P : Event → Type 0) (es : List Event) → All P es → All P (order es)
unfolding order
order-All P [] h = tt
order-All P (e ∷ es) h = place-All P e (order es) h.0 (order-All P es h.1)

take-All : (P : Event → Type 0) (n : ℕ) (es : List Event) → All P es → All P (take n es)
take-All P zero es h = tt
take-All P (suc n) [] h = tt
take-All P (suc n) (e ∷ es) h = (h.0, take-All P n es h.1)

keep-All :
    (P : Event → Type 0) (p : Event → Bool) (es : List Event)
    → ((e : Event) → Memᴰ e es → p e ≡ true → P e)
    → All P (keep p es)
keep-All P p [] h = tt
keep-All P p (e ∷ es) h = elim (Bool-cases (p e)) [
  | inl passed ↦
      rw (passed, All) (h e (Memᴰ.head refl) passed, keep-All P p es (λ x m. h x (Memᴰ.tail m)))
  | inr dropped ↦ rw (dropped, All) (keep-All P p es (λ x m. h x (Memᴰ.tail m)))
]

pub claim_due-All :
    (P : Event → Type 0) (limit now : ℕ) (rows : List Event)
    → ((e : Event) → Memᴰ e rows → is_due now e ≡ true → P e)
    → All P (claim_due limit now rows)
unfolding claim_due
claim_due-All P limit now rows h =
    take-All P limit _ (order-All P _ (keep-All P (is_due now) rows h))

module _ (deliver : List ℕ → Bool) (writes : ℕ → Bool) (now : ℕ) where
  -- One turn of the loop, seen from one row.
  unfoldable pub process_row : Event → Event → Event
  process_row e r =
      if not (writes e.id)
      then r
      else if deliver e.payload
      then deliver_row e.id now r
      else reschedule_row e.id (e.attempts + 1) (now + backoff (pos (e.attempts + 1))) r

  unfoldable pub process_rows : List Event → Event → Event
  process_rows [] r = r
  process_rows (e ∷ es) r = process_rows es (process_row e r)

  map_id : (rows : List Event) → map (λ r. r) rows ≡ rows
  map_id [] = refl
  map_id (r ∷ rows) = ap (λ rs. r ∷ rs) (map_id rows)

  process-map :
      (e : Event) (rows : List Event) → process deliver writes now e rows ≡ map (process_row e) rows
  unfolding process process_row
  process-map e rows = elim (Bool-cases (writes e.id)) [
    | inl w ↦ elim (Bool-cases (deliver e.payload)) [
      | inl d ↦ rw (w, d) (ap (λ f. map f rows) (fun_ext (λ r. rw (w, d))))
      | inr d ↦ rw (w, d) (ap (λ f. map f rows) (fun_ext (λ r. rw (w, d))))
    ]
    | inr w ↦ rw w (sym (map_id rows) ∙ ap (λ f. map f rows) (fun_ext (λ r. rw w)))
  ]

  map-map : (f g : Event → Event) (rows : List Event) → map g (map f rows) ≡ map (λ r. g (f r)) rows
  map-map f g [] = refl
  map-map f g (r ∷ rows) = ap (λ rs. g (f r) ∷ rs) (map-map f g rows)

  pub process_all-map :
      (es rows : List Event) → process_all deliver writes now es rows ≡ map (process_rows es) rows
  unfolding process_all process_rows
  process_all-map [] rows = sym (map_id rows)
  process_all-map (e ∷ es) rows =
      process_all-map es _
      ∙ (ap (map (process_rows es)) (process-map e rows)
          ∙ map-map (process_row e) (process_rows es) rows)

  -- What a claimed row becomes.
  unfoldable pub hit : Event → Event
  hit r = process_row r r

  pub hit-id : (r : Event) → (hit r).id ≡ r.id
  unfolding hit process_row
  hit-id r = ground arith

  -- The second of two turns for one row changes nothing.
  pub hit_again : (r : Event) → process_row r (hit r) ≡ hit r
  unfolding hit process_row
  hit_again r = ground arith

  pub miss : (e r : Event) → (r.id == e.id) ≡ false → process_row e r ≡ r
  unfolding process_row
  miss e r h = ground arith

  -- A claimed row is a row of the table that is due; only it has its id.
  abbrev pub Claims : Event → Event → Type 0
  Claims r e = ((r.id == e.id) ≡ true → e ≡ r) × (is_due now e ≡ true)

  abbrev pub Either : Event → Event → Type 0
  Either r c = (c ≡ r) ⊎ ((is_due now r ≡ true) × (c ≡ hit r))

  hit_lem : (r : Event) → process_row r r ≡ hit r
  unfolding hit
  hit_lem r = refl

  Either-id : (r c : Event) → Either r c → c.id ≡ r.id
  Either-id r c (inl e) = ap (λ x. x.id) e
  Either-id r c (inr (_, e)) = ap (λ x. x.id) e ∙ hit-id r

  due_again : (r e : Event) → e ≡ r → is_due now e ≡ true → is_due now r ≡ true
  due_again r e same h = subst (λ x. is_due now x ≡ true) same h

  process_row-Either : (r e c : Event) → Claims r e → Either r c → Either r (process_row e c)
  process_row-Either r e c claims h = elim (Bool-cases (r.id == e.id)) [
    | inl mine ↦
        let same = claims.0 mine in
        inr (
          due_again r e same claims.1,
          elim h [ inl fresh ↦ cc (hit_lem r) | inr (_, changed) ↦ cc (hit_again r) ],
        )
    | inr other ↦ let kept = miss e c (rw (Either-id r c h) other) in subst (Either r) (sym kept) h
  ]

  pub process_rows-Either :
      (r : Event) (es : List Event) (c : Event)
      → All (Claims r) es
      → Either r c
      → Either r (process_rows es c)
  unfolding process_rows
  process_rows-Either r [] c h e = e
  process_rows-Either r (x ∷ xs) c h e =
      process_rows-Either r xs (process_row x c) h.1 (process_row-Either r x c h.0 e)

  -- How a row `r` may stand in the table after the tick, as `r'`.
  pub data RowStep (r r' : Event) : Type 0 where
    untouched : r' ≡ r → RowStep r r'
    delivery :
        is_due now r ≡ true
        → deliver r.payload ≡ true
        → r' ≡ record r { status = Status.delivered; delivered_at = some now }
        → RowStep r r'
    retry :
        is_due now r ≡ true
        → deliver r.payload ≡ false
        → r' ≡ record r {
          attempts = r.attempts + 1;
          next_attempt_at = now + backoff (pos (r.attempts + 1));
        }
        → RowStep r r'

  hit-RowStep : (r : Event) → is_due now r ≡ true → RowStep r (hit r)
  unfolding hit process_row
  hit-RowStep r due = elim (Bool-cases (writes r.id)) [
    | inl w ↦ elim (Bool-cases (deliver r.payload)) [
      | inl d ↦ delivery due d (rw (w, d, ==_refl r.id))
      | inr d ↦ retry due d (rw (w, d, ==_refl r.id))
    ]
    | inr w ↦ untouched (rw w)
  ]

  Either-RowStep : (r c : Event) → Either r c → RowStep r c
  Either-RowStep r c (inl same) = untouched same
  Either-RowStep r c (inr (due, changed)) = subst (RowStep r) (sym changed) (hit-RowStep r due)

  -- The two tables have the same rows in the same places, each changed by a step at most.
  abbrev pub RowSteps : List Event → List Event → Type 0
  RowSteps [] [] = Unit
  RowSteps (r ∷ rows) (r' ∷ rows') = RowStep r r' × RowSteps rows rows'
  RowSteps _ _ = ⊥

  map-RowSteps :
      (f : Event → Event) (rows : List Event)
      → ((r : Event) → Memᴰ r rows → RowStep r (f r))
      → RowSteps rows (map f rows)
  map-RowSteps f [] h = tt
  map-RowSteps f (r ∷ rows) h =
      (h r (Memᴰ.head refl), map-RowSteps f rows (λ x m. h x (Memᴰ.tail m)))

-- The ids of the rows differ: `id` is the primary key.
abbrev pub Keyed : List Event → Type 0
Keyed [] = Unit
Keyed (r ∷ rows) = All (λ x. (r.id == x.id) ≡ false) rows × Keyed rows

pub Keyed-eq :
    (rows : List Event)
    → Keyed rows
    → (r e : Event) → Memᴰ r rows
    → Memᴰ e rows
    → (r.id == e.id) ≡ true
    → e ≡ r
Keyed-eq [] k r e m n h = elim m [ ]
Keyed-eq (x ∷ xs) k r e (Memᴰ.head p) (Memᴰ.head q) h = q ∙ sym p
Keyed-eq (x ∷ xs) k r e (Memᴰ.head p) (Memᴰ.tail n) h =
    absurd (cc (All-mem (λ y. (x.id == y.id) ≡ false) xs k.0 n))
Keyed-eq (x ∷ xs) k r e (Memᴰ.tail m) (Memᴰ.head q) h =
    absurd (ground (arith, All-mem (λ y. (x.id == y.id) ≡ false) xs k.0 m))
Keyed-eq (x ∷ xs) k r e (Memᴰ.tail m) (Memᴰ.tail n) h = Keyed-eq xs k.1 r e m n h

-- A tick drops no row and adds none. With distinct ids every row stays as it was, or it was due and
-- its payload was delivered and the row says so, or it was due, the delivery failed, and it is still
-- to be delivered, one attempt later and after the backoff.
pub tick-RowSteps :
    (deliver : List ℕ → Bool) (writes : ℕ → Bool) (limit now : ℕ) (rows : List Event)
    → Keyed rows
    → RowSteps deliver writes now rows (tick deliver writes limit now rows)
unfolding tick
tick-RowSteps deliver writes limit now rows keyed =
    let es = claim_due limit now rows in
    subst (RowSteps deliver writes now rows) (sym (process_all-map deliver writes now es rows)) (
      map-RowSteps deliver writes now (process_rows deliver writes now es) rows (λ r m.
        Either-RowStep deliver writes now r _ (
          process_rows-Either deliver writes now r es r
            (claim_due-All _ limit now rows (λ e n due. (Keyed-eq rows keyed r e m n, due)))
            (inl refl))))
