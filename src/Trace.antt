-- ===== src/Trace.antt =====
-- internal/domain/trace/trace.go: W3C traceparent values. A text is the list of its bytes; the
-- random reader is the bytes that it yields. What reads runes is the same on bytes, since no byte of
-- a non-ASCII rune is a hexadecimal digit.
pub mod Hex
pub mod RoundTrip
pub mod RequestId
use Prim.Native.Nat.{bit_xor}
use sophia_orchestrator.Prelude.{
  ℕ, zero, suc, ◌+◌, ◌-◌, ◌*◌, ◌/◌, ◌%◌, leb, ltb, ◌==◌, Bool, true, false, ◌&&◌, ◌||◌, not, List,
  [], ◌∷◌, ◌++◌, map, Option, none, some, length, if◌then◌else◌,
}

pub record Trace : Type 0 where
  pub trace_id : List ℕ
  pub span_id : List ℕ
  pub sampled : Bool

pub data Error : Type 0 where
  invalid_traceparent : Error

pub data Parsed : Type 0 where
  ok : Trace → Parsed
  err : Error → Parsed

abbrev pub dash : ℕ
dash = b'-'

abbrev pub all : (ℕ → Bool) → List ℕ → Bool
all p [] = true
all p (c ∷ cs) = p c && all p cs

abbrev pub is_hex_digit : ℕ → Bool
is_hex_digit c =
    (leb b'0' c && leb c b'9') || ((leb b'a' c && leb c b'f') || (leb b'A' c && leb c b'F'))

-- `len(s) > 0`
abbrev pub is_nonempty : List ℕ → Bool
is_nonempty [] = false
is_nonempty (_ ∷ _) = true

unfoldable pub is_hex : List ℕ → Bool
is_hex s = all is_hex_digit s && is_nonempty s

unfoldable pub all_zeros : List ℕ → Bool
all_zeros s = all (λ c. c == b'0') s

-- `strings.ToLower` on a byte.
abbrev pub lower : ℕ → ℕ
lower c = if leb b'A' c && leb c b'Z' then c + 32 else c

abbrev pub to_lower : List ℕ → List ℕ
to_lower s = map lower s

abbrev pub extend : ℕ → List (List ℕ) → List (List ℕ)
extend c [] = (c ∷ []) ∷ []
extend c (x ∷ xs) = (c ∷ x) ∷ xs

-- `strings.Split(s, "-")`
unfoldable pub split : List ℕ → List (List ℕ)
split [] = [] ∷ []
split (c ∷ cs) = let rest = split cs in if c == dash then [] ∷ rest else extend c rest

-- `validateHex(s, n, _) == nil`
unfoldable pub validate_hex : List ℕ → ℕ → Bool
unfolding is_hex
validate_hex s n = (length s == n) && is_hex s

-- The value of a hexadecimal digit, as `hex.DecodeString` reads it.
abbrev pub hex_value : ℕ → ℕ
hex_value c = if leb c b'9' then c - 48 else if leb c b'F' then c - 55 else c - 87

abbrev pub is_version_00 : List ℕ → Bool
is_version_00 (a ∷ b ∷ []) = (a == b'0') && (b == b'0')
is_version_00 _ = false

-- The flags: two hexadecimal digits, of which the lowest bit counts.
abbrev pub read_flags : List ℕ → Option Bool
read_flags (a ∷ b ∷ []) =
    if is_hex_digit a && is_hex_digit b
    then some ((16 * hex_value a + hex_value b) % 2 == 1)
    else none
read_flags _ = none

abbrev pub parse_parts : List ℕ → List ℕ → List ℕ → List ℕ → Parsed
parse_parts version trace_id span_id flags =
    if not (is_version_00 version)
    then err invalid_traceparent
    else if not (validate_hex trace_id 32)
    then err invalid_traceparent
    else if all_zeros trace_id
    then err invalid_traceparent
    else if not (validate_hex span_id 16)
    then err invalid_traceparent
    else if all_zeros span_id
    then err invalid_traceparent
    else elim (read_flags flags) [
      | none ↦ err invalid_traceparent
      | some sampled ↦
          ok
            (record { trace_id = to_lower trace_id; span_id = to_lower span_id; sampled = sampled })
    ]

abbrev pub four_parts : List (List ℕ) → Parsed
four_parts (version ∷ trace_id ∷ span_id ∷ flags ∷ []) = parse_parts version trace_id span_id flags
four_parts _ = err invalid_traceparent

unfoldable pub parse : List ℕ → Parsed
parse s = four_parts (split s)

-- `String()`
unfoldable pub print : Trace → List ℕ
print t =
    b'0'
    ∷ b'0'
    ∷ dash
    ∷ (t.trace_id
        ++ dash ∷ (t.span_id ++ dash ∷ (if t.sampled then b'0' ∷ b'1' ∷ [] else b'0' ∷ b'0' ∷ [])))

abbrev pub hex_char : ℕ → ℕ
hex_char n = if ltb n 10 then 48 + n else 87 + n

-- `hex.EncodeToString`; a byte has two digits.
pub encode : List ℕ → List ℕ
encode [] = []
encode (b ∷ bs) = hex_char (b / 16 % 16) ∷ hex_char (b % 16) ∷ encode bs

-- `io.ReadFull` of `n` bytes: what was read and what is left, if the reader yields as many.
pub read_full : ℕ → List ℕ → Option (List ℕ × List ℕ)
read_full zero bs = some ([], bs)
read_full (suc n) [] = none
read_full (suc n) (b ∷ bs) = elim (read_full n bs) [
  | none ↦ none
  | some (got, left) ↦ some (b ∷ got, left)
]

-- `New`: 16 bytes for the trace and 8 for the span; `none` is a read error.
unfoldable pub new : List ℕ → Option Trace
unfolding encode read_full
new rand = elim (read_full 16 rand) [
  | none ↦ none
  | some (trace_bytes, rest) ↦ elim (read_full 8 rest) [
    | none ↦ none
    | some (span_bytes, _) ↦
        some (record { trace_id = encode trace_bytes; span_id = encode span_bytes; sampled = true })
  ]
]

unfoldable pub with_new_span : List ℕ → Trace → Option Trace
unfolding encode read_full
with_new_span rand t = elim (read_full 8 rand) [
  | none ↦ none
  | some (span_bytes, _) ↦ some (record t { span_id = encode span_bytes })
]

-- `strings.ReplaceAll(id, "-", "")`
pub strip : List ℕ → List ℕ
strip [] = []
strip (c ∷ cs) = let rest = strip cs in if c == dash then rest else c ∷ rest

-- `out[i] ^= b`
pub xor_at : ℕ → ℕ → List ℕ → List ℕ
xor_at i b [] = []
xor_at zero b (x ∷ xs) = bit_xor x b ∷ xs
xor_at (suc i) b (x ∷ xs) = x ∷ xor_at i b xs

pub spread : ℕ → List ℕ → List ℕ → List ℕ
unfolding xor_at
spread i [] out = out
spread i (b ∷ bs) out = spread (i + 1) bs (xor_at (i % 16) b out)

-- `out[15] = 0x01`, on a list of 16.
pub set_last : List ℕ → List ℕ
set_last [] = []
set_last (x ∷ []) = 1 ∷ []
set_last (x ∷ y ∷ ys) = x ∷ set_last (y ∷ ys)

abbrev pub zeros : List ℕ
zeros = 0 ∷ 0 ∷ 0 ∷ 0 ∷ 0 ∷ 0 ∷ 0 ∷ 0 ∷ 0 ∷ 0 ∷ 0 ∷ 0 ∷ 0 ∷ 0 ∷ 0 ∷ 0 ∷ []

unfoldable pub normalise_request_id : List ℕ → List ℕ
unfolding strip spread set_last encode is_hex all_zeros
normalise_request_id id =
    let stripped = to_lower (strip id) in
    if (length stripped == 32) && (is_hex stripped && not (all_zeros stripped))
    then stripped
    else let out = spread 0 id zeros in
      if all_zeros (encode out) then encode (set_last out) else encode out

unfoldable pub from_request_id : List ℕ → List ℕ → Option Trace
unfolding normalise_request_id read_full
from_request_id request_id rand = elim (read_full 8 rand) [
  | none ↦ none
  | some (span_bytes, _) ↦ some (record {
    trace_id = normalise_request_id request_id;
    span_id = encode span_bytes;
    sampled = true;
  })
]
