-- ===== src/Apply/Saturation/Bounds.antt =====
-- How long the retries of a saturated governor take.
use sophia_orchestrator.Prelude.{
  ℕ, zero, suc, ◌+◌, ◌≤◌, ◌<◌, ◌≡◌, Bool, List, [], ◌∷◌, length, refl, sym, ap, ◌∙◌, ◌⊎◌, ◌==◌,
  ==→eq, arith, Bool-cases, inl, inr,
}
use sophia_orchestrator.Apply.Saturation.{
  saturation_retry_budget, saturation_backoff, Acquire, granted, saturated, refused, Acquired,
  err_saturated, Attempted, acquire_loop, acquire_with_saturation_retries,
}

abbrev pub total : List ℕ → ℕ
total [] = 0
total (d ∷ ds) = d + total ds

-- The wait after `attempt`, summed from `n` over `left` attempts.
abbrev schedule : ℕ → ℕ → ℕ
schedule zero n = 0
schedule (suc left) n = saturation_backoff n + schedule left (n + 1)

answer_cases : (x : Acquire) → (x ≡ granted) ⊎ (x ≡ saturated) ⊎ (x ≡ refused)
answer_cases granted = inl refl
answer_cases saturated = inr (inl refl)
answer_cases refused = inr (inr refl)

-- What the loop from attempt `n` on, with `left` to go, says of the answers.
record Reported (answers : ℕ → Acquire) (left n : ℕ) (r : Attempted) : Type 0 where
  within : total r.waits ≤ schedule left n
  slot : r.result ≡ Acquired.ok → answers (n + length r.waits) ≡ granted
  spent : r.result ≡ err_saturated → total r.waits ≡ schedule left n
  all : r.result ≡ err_saturated → (k : ℕ) → n ≤ k → k < n + left → answers k ≡ saturated

at_or_after : (n k : ℕ) → n ≤ k → (n ≡ k) ⊎ (n + 1 ≤ k)
at_or_after n k h = elim (Bool-cases (n == k)) [
  | inl e ↦ inl (==→eq n k e)
  | inr e ↦ inr (ground arith)
]

loop-Reported :
    (left : ℕ) (answers : ℕ → Acquire) (cancelled : ℕ → Bool) (n : ℕ)
    → Reported answers left n (acquire_loop left answers cancelled n)
unfolding acquire_loop
loop-Reported zero answers cancelled n = record {
  within = omega arith;
  slot = λ h. absurd (cc);
  spent = λ h. refl;
  all = λ h k lo hi. absurd (omega (arith, lo, hi));
}
loop-Reported (suc left) answers cancelled n =
    let rest = loop-Reported left answers cancelled (n + 1) in
    elim (answer_cases (answers n)) [
      | inl e ↦
          rw (acquire_loop, e)
            (record {
              within = omega arith;
              slot = λ h. let z : n + 0 ≡ n = omega arith in ap answers z ∙ e;
              spent = λ h. absurd (cc);
              all = λ h. absurd (cc);
            })
      | inr (inr e) ↦
          rw (acquire_loop, e)
            (record {
              within = omega arith;
              slot = λ h. absurd (cc);
              spent = λ h. absurd (cc);
              all = λ h. absurd (cc);
            })
      | inr (inl e) ↦ elim (Bool-cases (cancelled n)) [
        | inl f ↦
            rw (acquire_loop, e, f)
              (record {
                within = omega arith;
                slot = λ h. absurd (cc);
                spent = λ h. absurd (cc);
                all = λ h. absurd (cc);
              })
        | inr f ↦
            rw (acquire_loop, e, f)
              (record {
                within = omega (arith, rest.within);
                slot = λ h.
                    let waits = (acquire_loop left answers cancelled (n + 1)).waits in
                    let z : n + suc (length waits) ≡ (n + 1) + length waits = omega arith in
                    ap answers z ∙ rest.slot h;
                spent = λ h. omega (arith, rest.spent h);
                all = λ h k lo hi. elim (at_or_after n k lo) [
                  | inl same ↦ ap answers (sym same) ∙ e
                  | inr later ↦ rest.all h k later (omega (arith, hi))
                ];
              })
      ]
    ]

nine : schedule saturation_retry_budget 0 ≡ 121500
unfolding saturation_backoff
nine = refl

-- The waits come to 121.5 seconds at most. Nil is returned for a granted attempt; the error of a
-- saturated governor only after all nine attempts found it so, and after the full 121.5 seconds.
pub saturation_bounded :
    (answers : ℕ → Acquire) (cancelled : ℕ → Bool)
    → let r = acquire_with_saturation_retries answers cancelled in
      (total r.waits ≤ 121500)
      × (r.result ≡ Acquired.ok → answers (length r.waits) ≡ granted)
      × (r.result ≡ err_saturated
          → (total r.waits ≡ 121500)
            × ((k : ℕ) → k < saturation_retry_budget → answers k ≡ saturated))
unfolding acquire_with_saturation_retries
saturation_bounded answers cancelled =
    let r = loop-Reported saturation_retry_budget answers cancelled 0 in
    let waits = (acquire_loop saturation_retry_budget answers cancelled 0).waits in
    let z : length waits ≡ 0 + length waits = omega arith in
    (
      omega (arith, r.within, nine),
      λ h. ap answers z ∙ r.slot h,
      λ h. (r.spent h ∙ nine, λ k hi. r.all h k (omega arith) (omega (arith, hi))),
    )
