-- ===== src/Trace/Hex.antt =====
-- Lower-case hexadecimal texts: what the two validations, the printer and the encoder share.
use sophia_orchestrator.Prelude.{
  ℕ, suc, leb, ◌==◌, Bool, true, false, ◌&&◌, ◌||◌, List, [], ◌∷◌, ◌≡◌, refl, ◌∙◌, arith, length,
}
use sophia_orchestrator.Trace.{
  dash, all, is_hex_digit, is_hex, all_zeros, lower, to_lower, validate_hex,
}

abbrev pub is_lower_hex : ℕ → Bool
is_lower_hex c = (leb b'0' c && leb c b'9') || (leb b'a' c && leb c b'f')

-- `n` lower-case hexadecimal digits, not all of them zeros.
pub record IsId (n : ℕ) (s : List ℕ) : Type 0 where
  pub long : length s ≡ n
  pub digits : all is_lower_hex s ≡ true
  pub nonzero : all_zeros s ≡ false

pub lower_hex-not_dash : (c : ℕ) → is_lower_hex c ≡ true → (c == dash) ≡ false
lower_hex-not_dash c h = ground arith

pub lower_hex-digit : (c : ℕ) → is_lower_hex c ≡ true → is_hex_digit c ≡ true
lower_hex-digit c h = ground arith

pub lower_hex-lower : (c : ℕ) → is_lower_hex c ≡ true → lower c ≡ c
lower_hex-lower c h = ground arith

pub lower-lower_hex : (c : ℕ) → is_hex_digit c ≡ true → is_lower_hex (lower c) ≡ true
lower-lower_hex c h = ground arith

pub zero-lower : (c : ℕ) → (lower c == b'0') ≡ (c == b'0')
zero-lower c = ground arith

pub all_hex : (s : List ℕ) → all is_lower_hex s ≡ true → all is_hex_digit s ≡ true
all_hex [] h = refl
all_hex (c ∷ cs) h = ground (arith, all_hex cs, lower_hex-digit c)

pub to_lower_same : (s : List ℕ) → all is_lower_hex s ≡ true → to_lower s ≡ s
to_lower_same [] h = refl
to_lower_same (c ∷ cs) h = ground (arith, to_lower_same cs, lower_hex-lower c)

pub to_lower_hex : (s : List ℕ) → all is_hex_digit s ≡ true → all is_lower_hex (to_lower s) ≡ true
to_lower_hex [] h = refl
to_lower_hex (c ∷ cs) h = ground (arith, to_lower_hex cs, lower-lower_hex c)

pub length-to_lower : (s : List ℕ) → length (to_lower s) ≡ length s
length-to_lower [] = refl
length-to_lower (c ∷ cs) = omega (arith, length-to_lower cs)

pub zeros-to_lower : (s : List ℕ) → all_zeros (to_lower s) ≡ all_zeros s
unfolding all_zeros
zeros-to_lower [] = refl
zeros-to_lower (c ∷ cs) = grind (arith, zeros-to_lower cs, zero-lower c)

pub IsId-validate : (n : ℕ) (s : List ℕ) → IsId (suc n) s → validate_hex s (suc n) ≡ true
unfolding validate_hex is_hex
IsId-validate n [] h = let long = h.long in ground arith
IsId-validate n (c ∷ cs) h =
    let long = h.long in let digits = all_hex (c ∷ cs) h.digits in ground arith

pub validate-IsId :
    (n : ℕ) (s : List ℕ) → validate_hex s n ≡ true → all_zeros s ≡ false → IsId n (to_lower s)
unfolding validate_hex is_hex
validate-IsId n s h nonzero =
    let digits : all is_hex_digit s ≡ true = ground arith in
    let long : length s ≡ n = ground arith in
    record {
      long = length-to_lower s ∙ long;
      digits = to_lower_hex s digits;
      nonzero = zeros-to_lower s ∙ nonzero;
    }
