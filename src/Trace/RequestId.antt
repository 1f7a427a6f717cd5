-- ===== src/Trace/RequestId.antt =====
-- Trace ids made from random bytes and from request ids.
use sophia_orchestrator.Prelude.{
  ℕ, zero, suc, ◌+◌, ◌*◌, ◌/◌, ◌%◌, ◌<◌, Bool, true, false, not, ◌&&◌, List, [], ◌∷◌, ◌≡◌, refl,
  sym, ◌∙◌, ap, arith, ◌==◌, length, if◌then◌else◌, Bool-cases, inl, inr, subst,
}
use sophia_orchestrator.Trace.{
  all, is_hex, all_zeros, to_lower, hex_char, encode, strip, xor_at, spread, set_last, zeros, lower,
  validate_hex, normalise_request_id,
}
use sophia_orchestrator.Trace.Hex.{
  is_lower_hex, IsId, validate-IsId, IsId-validate, lower_hex-not_dash, to_lower_same,
}

hex_char-lower : (n : ℕ) → n < 16 → is_lower_hex (hex_char n) ≡ true
hex_char-lower n h = ground arith

encode-digits : (bs : List ℕ) → all is_lower_hex (encode bs) ≡ true
unfolding encode
encode-digits [] = refl
encode-digits (b ∷ bs) =
    let high = hex_char-lower (b / 16 % 16) (omega arith) in
    let low = hex_char-lower (b % 16) (omega arith) in rw (high, low, encode-digits bs)

length-encode : (bs : List ℕ) → length (encode bs) ≡ 2 * length bs
unfolding encode
length-encode [] = refl
length-encode (b ∷ bs) = omega (arith, length-encode bs)

length-xor_at : (i b : ℕ) (out : List ℕ) → length (xor_at i b out) ≡ length out
unfolding xor_at
length-xor_at i b [] = refl
length-xor_at zero b (x ∷ xs) = refl
length-xor_at (suc i) b (x ∷ xs) = omega (arith, length-xor_at i b xs)

length-spread : (i : ℕ) (bs out : List ℕ) → length (spread i bs out) ≡ length out
unfolding spread
length-spread i [] out = refl
length-spread i (b ∷ bs) out =
    length-spread (i + 1) bs (xor_at (i % 16) b out) ∙ length-xor_at (i % 16) b out

length-set_last : (xs : List ℕ) → length (set_last xs) ≡ length xs
unfolding set_last
length-set_last [] = refl
length-set_last (x ∷ []) = refl
length-set_last (x ∷ y ∷ ys) = omega (arith, length-set_last (y ∷ ys))

-- The byte 1 shows in the hexadecimal text.
set_last-nonzero : (x : ℕ) (xs : List ℕ) → all_zeros (encode (set_last (x ∷ xs))) ≡ false
unfolding set_last encode all_zeros
set_last-nonzero x [] = refl
set_last-nonzero x (y ∷ ys) = ground (arith, set_last-nonzero y ys)

nonzero-encode : (xs : List ℕ) → length xs ≡ 16 → all_zeros (encode (set_last xs)) ≡ false
nonzero-encode [] h = ground arith
nonzero-encode (x ∷ xs) h = set_last-nonzero x xs

encoded : (bs : List ℕ) → length bs ≡ 16 → all_zeros (encode bs) ≡ false → IsId 32 (encode bs)
encoded bs long nonzero = record {
  long = omega (arith, length-encode bs);
  digits = encode-digits bs;
  nonzero = nonzero;
}

lower-lower : (c : ℕ) → lower (lower c) ≡ lower c
lower-lower c = ground arith

lower_twice : (s : List ℕ) → to_lower (to_lower s) ≡ to_lower s
lower_twice [] = refl
lower_twice (c ∷ cs) = rw (lower-lower c, lower_twice cs)

stripped-IsId :
    (s : List ℕ)
    → ((length (to_lower s) == 32) && (is_hex (to_lower s) && not (all_zeros (to_lower s)))) ≡ true
    → IsId 32 (to_lower s)
unfolding validate_hex
stripped-IsId s h =
    let valid : validate_hex (to_lower s) 32 ≡ true = ground arith in
    let nonzero : all_zeros (to_lower s) ≡ false = ground arith in
    subst (IsId 32) (lower_twice s) (validate-IsId 32 (to_lower s) valid nonzero)

spread-IsId :
    (out : List ℕ)
    → length out ≡ 16
    → IsId 32 (if all_zeros (encode out) then encode (set_last out) else encode out)
spread-IsId out long = elim (Bool-cases (all_zeros (encode out))) [
  | inl is_zero ↦
      subst (λ b. IsId 32 (if b then encode (set_last out) else encode out)) (sym is_zero)
        (encoded (set_last out) (length-set_last out ∙ long) (nonzero-encode out long))
  | inr nonzero ↦
      subst (λ b. IsId 32 (if b then encode (set_last out) else encode out)) (sym nonzero)
        (encoded out long nonzero)
]

choose-IsId :
    (b : Bool) (s r : List ℕ) → (b ≡ true → IsId 32 s) → IsId 32 r → IsId 32 (if b then s else r)
choose-IsId true s r hs hr = hs refl
choose-IsId false s r hs hr = hr

-- A request id of any kind becomes a valid trace id: 32 lower-case hexadecimal digits, not all of
-- them zeros.
pub normalise_request_id-IsId : (id : List ℕ) → IsId 32 (normalise_request_id id)
unfolding normalise_request_id
normalise_request_id-IsId id =
    choose-IsId _ (to_lower (strip id)) _ (stripped-IsId (strip id))
      (spread-IsId (spread 0 id zeros) (length-spread 0 id zeros))

strip_same : (s : List ℕ) → all is_lower_hex s ≡ true → strip s ≡ s
unfolding strip
strip_same [] h = refl
strip_same (c ∷ cs) h = let no = lower_hex-not_dash c in let ih = strip_same cs in ground arith

id-valid : (s : List ℕ) → IsId 32 s → ((length s == 32) && (is_hex s && not (all_zeros s))) ≡ true
unfolding validate_hex
id-valid s h = let valid = IsId-validate 31 s h in let nonzero = h.nonzero in ground arith

-- A request id that is a valid trace id up to dashes and upper case, as a UUID is, becomes that id
-- without the dashes and in lower case.
pub normalise_uuid :
    (id : List ℕ) → IsId 32 (to_lower (strip id)) → normalise_request_id id ≡ to_lower (strip id)
unfolding normalise_request_id
normalise_uuid id h = rw (id-valid (to_lower (strip id)) h)

-- Normalising is idempotent, so that the id stays the same when it is passed on as a request id.
pub normalise_twice :
    (id : List ℕ) → normalise_request_id (normalise_request_id id) ≡ normalise_request_id id
normalise_twice id =
    let valid = normalise_request_id-IsId id in
    let digits = valid.digits in
    let same : to_lower (strip (normalise_request_id id)) ≡ normalise_request_id id =
      ap to_lower (strip_same (normalise_request_id id) digits)
      ∙ to_lower_same (normalise_request_id id) digits in
    normalise_uuid (normalise_request_id id) (subst (IsId 32) (sym same) valid) ∙ same
