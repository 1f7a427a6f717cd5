-- ===== src/Outbox/Drain.antt =====
-- What a tick leaves to be done.
use sophia_orchestrator.Prelude.{
  ℕ, zero, suc, ◌+◌, ◌≤◌, ◌<◌, leb, ◌==◌, Bool, true, false, List, [], ◌∷◌, ◌≡◌, refl, sym, ◌∙◌, ap,
  subst, arith, Memᴰ, All, map, keep, length, length-keep-le, pos, Bool-cases, inl, inr, ==_refl,
  false≢true,
}
use sophia_orchestrator.Outbox.{Event, is_due, place, order, take, claim_due, backoff, tick}
use sophia_orchestrator.Outbox.Delivery.{
  Keyed, Keyed-eq, Claims, process_row, process_rows, process_all-map, hit, hit_again, hit-id, miss,
  claim_due-All, process_rows-Either,
}

mem-keep :
    (p : Event → Bool) (r : Event) (rows : List Event)
    → Memᴰ r rows
    → p r ≡ true
    → Memᴰ r (keep p rows)
mem-keep p r [] m h = elim m [ ]
mem-keep p r (x ∷ xs) (Memᴰ.head e) h = rw (sym (ap p e) ∙ h, keep) (Memᴰ.head e)
mem-keep p r (x ∷ xs) (Memᴰ.tail m) h =
    let ih = mem-keep p r xs m h in
    elim (Bool-cases (p x)) [
      | inl kept ↦ rw (kept, keep) (Memᴰ.tail ih)
      | inr gone ↦ rw (gone, keep) ih
    ]

mem-place_new : (e : Event) (xs : List Event) → Memᴰ e (place e xs)
unfolding place
mem-place_new e [] = Memᴰ.head refl
mem-place_new e (x ∷ xs) = elim (Bool-cases (leb e.next_attempt_at x.next_attempt_at)) [
  | inl before ↦ rw (before, place) (Memᴰ.head refl)
  | inr after ↦ let ih = mem-place_new e xs in rw (after, place) (Memᴰ.tail ih)
]

mem-behind :
    (e r x : Event) (xs : List Event)
    → Memᴰ r (x ∷ xs)
    → (Memᴰ r xs → Memᴰ r (place e xs))
    → Memᴰ r (x ∷ place e xs)
mem-behind e r x xs (Memᴰ.head h) f = Memᴰ.head h
mem-behind e r x xs (Memᴰ.tail m) f = Memᴰ.tail (f m)

mem-place : (e r : Event) (xs : List Event) → Memᴰ r xs → Memᴰ r (place e xs)
unfolding place
mem-place e r [] m = elim m [ ]
mem-place e r (x ∷ xs) m = elim (Bool-cases (leb e.next_attempt_at x.next_attempt_at)) [
  | inl before ↦ rw (before, place) (Memᴰ.tail m)
  | inr after ↦ rw (after, place) (mem-behind e r x xs m (λ n. mem-place e r xs n))
]

mem-order : (r : Event) (es : List Event) → Memᴰ r es → Memᴰ r (order es)
unfolding order
mem-order r [] m = m
mem-order r (e ∷ es) (Memᴰ.head h) =
    subst (λ x. Memᴰ x (place e (order es))) (sym h) (mem-place_new e (order es))
mem-order r (e ∷ es) (Memᴰ.tail m) = mem-place e r (order es) (mem-order r es m)

length-place : (e : Event) (xs : List Event) → length (place e xs) ≡ suc (length xs)
unfolding place
length-place e [] = refl
length-place e (x ∷ xs) = let ih = length-place e xs in ground arith

length-order : (es : List Event) → length (order es) ≡ length es
unfolding order
length-order [] = refl
length-order (e ∷ es) = length-place e (order es) ∙ ap suc (length-order es)

take_all : (n : ℕ) (es : List Event) → length es ≤ n → take n es ≡ es
take_all zero [] h = refl
take_all zero (e ∷ es) h = ground arith
take_all (suc n) [] h = refl
take_all (suc n) (e ∷ es) h = ap (λ xs. e ∷ xs) (take_all n es (omega arith))

-- Every due row is claimed, if the batch is large enough.
mem-claim_due :
    (limit now : ℕ) (rows : List Event) (r : Event)
    → length rows ≤ limit
    → Memᴰ r rows
    → is_due now r ≡ true
    → Memᴰ r (claim_due limit now rows)
unfolding claim_due
mem-claim_due limit now rows r enough m h =
    let few = length-keep-le (is_due now) rows in
    let same = length-order (keep (is_due now) rows) in
    subst (λ es. Memᴰ r es) (sym (take_all limit (order (keep (is_due now) rows)) (omega arith)))
      (mem-order r (keep (is_due now) rows) (mem-keep (is_due now) r rows m h))

backoff_positive : (n : ℕ) → 0 < backoff (pos n)
unfolding backoff
backoff_positive zero = omega arith
backoff_positive (suc zero) = omega arith
backoff_positive (suc (suc zero)) = omega arith
backoff_positive (suc (suc (suc zero))) = omega arith
backoff_positive (suc (suc (suc (suc zero)))) = omega arith
backoff_positive (suc (suc (suc (suc (suc zero))))) = omega arith
backoff_positive (suc (suc (suc (suc (suc (suc k)))))) = ground arith

All-map :
    (P : Event → Type 0) (f : Event → Event) (rows : List Event)
    → ((r : Event) → Memᴰ r rows → P (f r))
    → All P (map f rows)
All-map P f [] h = tt
All-map P f (r ∷ rows) h = (h r (Memᴰ.head refl), All-map P f rows (λ x m. h x (Memᴰ.tail m)))

module _ (deliver : List ℕ → Bool) (writes : ℕ → Bool) (now : ℕ)
    (all_written : (id : ℕ) → writes id ≡ true) where
  -- A row that had its turn is delivered, or due later only.
  hit-not_due : (r : Event) → is_due now (hit deliver writes now r) ≡ false
  unfolding hit process_row
  hit-not_due r =
      let w = all_written r.id in
      let self = ==_refl r.id in
      let ahead = backoff_positive (r.attempts + 1) in
      elim (Bool-cases (deliver r.payload)) [ inl d ↦ rw (w, d, self, hit) | inr d ↦ ground arith ]

  -- A row that had its turn stays as it is in the other turns.
  process_row-hit :
      (r e : Event)
      → Claims deliver writes now r e
      → process_row deliver writes now e (hit deliver writes now r) ≡ hit deliver writes now r
  process_row-hit r e claims = elim (Bool-cases (r.id == e.id)) [
    | inl mine ↦
        subst
          (λ x.
            process_row deliver writes now x (hit deliver writes now r) ≡ hit deliver writes now r)
          (sym (claims.0 mine)) (hit_again deliver writes now r)
    | inr other ↦
        miss deliver writes now e (hit deliver writes now r)
          (rw (hit-id deliver writes now r) other)
  ]

  process_rows-hit :
      (r : Event) (es : List Event)
      → All (Claims deliver writes now r) es
      → process_rows deliver writes now es (hit deliver writes now r) ≡ hit deliver writes now r
  unfolding process_rows
  process_rows-hit r [] h = refl
  process_rows-hit r (e ∷ es) h =
      ap (process_rows deliver writes now es) (process_row-hit r e h.0) ∙ process_rows-hit r es h.1

  first_turn : (r : Event) → process_row deliver writes now r r ≡ hit deliver writes now r
  unfolding hit
  first_turn r = refl

  elsewhere : (r e : Event) (es : List Event) → (r.id == e.id) ≡ false → Memᴰ r (e ∷ es) → Memᴰ r es
  elsewhere r e es other (Memᴰ.tail m) = m
  elsewhere r e es other (Memᴰ.head h) =
      let self = ==_refl r.id in
      let same : (r.id == r.id) ≡ (r.id == e.id) = ap (λ x. r.id == x.id) h in
      absurd (false≢true (sym other ∙ sym same ∙ self))

  -- A claimed row has its turn.
  process_rows-mem :
      (r : Event) (es : List Event)
      → All (Claims deliver writes now r) es
      → Memᴰ r es
      → process_rows deliver writes now es r ≡ hit deliver writes now r
  unfolding process_rows
  process_rows-mem r [] h m = elim m [ ]
  process_rows-mem r (e ∷ es) h m = elim (Bool-cases (r.id == e.id)) [
    | inl mine ↦
        ap (process_rows deliver writes now es)
          (ap (λ x. process_row deliver writes now x r) (h.0.0 mine) ∙ first_turn r)
        ∙ process_rows-hit r es h.1
    | inr other ↦
        ap (process_rows deliver writes now es) (miss deliver writes now e r other)
        ∙ process_rows-mem r es h.1 (elsewhere r e es other m)
  ]

  drained :
      (limit : ℕ) (rows : List Event)
      → Keyed rows
      → length rows ≤ limit
      → (r : Event) → Memᴰ r rows
      → is_due now (process_rows deliver writes now (claim_due limit now rows) r) ≡ false
  drained limit rows keyed enough r m =
      let es = claim_due limit now rows in
      let claims =
        claim_due-All (Claims deliver writes now r) limit now rows
          (λ e n due. (Keyed-eq rows keyed r e m n, due)) in
      elim (Bool-cases (is_due now r)) [
        | inl due ↦
            ap (is_due now)
              (process_rows-mem r es claims (mem-claim_due limit now rows r enough m due))
            ∙ hit-not_due r
        | inr early ↦ elim (process_rows-Either deliver writes now r es r claims (inl refl)) [
          | inl same ↦ ap (is_due now) same ∙ early
          | inr (due, _) ↦ absurd (false≢true (sym early ∙ due))
        ]
      ]

-- If every statement succeeds and the batch has room for the whole table, with distinct ids, then no
-- row is due after a tick: each row that was due had its turn.
pub tick_drains :
    (deliver : List ℕ → Bool) (writes : ℕ → Bool) (limit now : ℕ) (rows : List Event)
    → ((id : ℕ) → writes id ≡ true)
    → Keyed rows
    → length rows ≤ limit
    → All (λ r. is_due now r ≡ false) (tick deliver writes limit now rows)
unfolding tick
tick_drains deliver writes limit now rows all_written keyed enough =
    let es = claim_due limit now rows in
    subst (All (λ r. is_due now r ≡ false)) (sym (process_all-map deliver writes now es rows)) (
      All-map (λ r. is_due now r ≡ false) (process_rows deliver writes now es) rows
        (drained deliver writes now all_written limit rows keyed enough))
