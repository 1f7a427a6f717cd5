-- ===== src/Trace/RoundTrip.antt =====
-- The printer against the parser.
use sophia_orchestrator.Prelude.{
  ℕ, Bool, true, false, List, [], ◌∷◌, ◌++◌, ◌≡◌, refl, arith, some, if◌then◌else◌, subst,
  Option-cases, inl, inr,
}
use sophia_orchestrator.Trace.{
  Trace, ok, dash, all, split, parse, four_parts, parse_parts, read_flags, print, validate_hex,
  all_zeros, to_lower,
}
use sophia_orchestrator.Trace.Hex.{
  is_lower_hex, IsId, lower_hex-not_dash, to_lower_same, IsId-validate, validate-IsId,
}

pub record WellFormed (t : Trace) : Type 0 where
  pub trace_id : IsId 32 t.trace_id
  pub span_id : IsId 16 t.span_id

split-segment :
    (s rest : List ℕ) → all is_lower_hex s ≡ true → split (s ++ dash ∷ rest) ≡ s ∷ split rest
unfolding split
split-segment [] rest h = refl
split-segment (c ∷ cs) rest h =
    let no = lower_hex-not_dash c in let ih = split-segment cs rest in ground arith

abbrev flags_text : Bool → List ℕ
flags_text b = if b then b'0' ∷ b'1' ∷ [] else b'0' ∷ b'0' ∷ []

split-flags : (b : Bool) → split (flags_text b) ≡ flags_text b ∷ []
unfolding split
split-flags true = refl
split-flags false = refl

split-print :
    (t : Trace)
    → WellFormed t
    → split (print t) ≡ (b'0' ∷ b'0' ∷ []) ∷ t.trace_id ∷ t.span_id ∷ flags_text t.sampled ∷ []
unfolding print split
split-print t w = rw (
  split-segment t.trace_id (t.span_id ++ dash ∷ flags_text t.sampled) w.trace_id.digits,
  split-segment t.span_id (flags_text t.sampled) w.span_id.digits,
  split-flags t.sampled,
)

read-flags_text : (b : Bool) → read_flags (flags_text b) ≡ some b
read-flags_text true = refl
read-flags_text false = refl

-- A well-formed trace is read back from its text.
pub parse-print : (t : Trace) → WellFormed t → parse (print t) ≡ ok t
unfolding parse
parse-print t w =
    let n1 = w.trace_id.nonzero in
    let n2 = w.span_id.nonzero in
    rw (
      split-print t w,
      IsId-validate 31 t.trace_id w.trace_id,
      IsId-validate 15 t.span_id w.span_id,
      n1,
      n2,
      read-flags_text t.sampled,
      to_lower_same t.trace_id w.trace_id.digits,
      to_lower_same t.span_id w.span_id.digits,
    )

ok_injective : (t t' : Trace) → ok t ≡ ok t' → t ≡ t'
ok_injective t t' h = cc

parse_parts-WellFormed :
    (version trace_id span_id flags : List ℕ) (t : Trace)
    → parse_parts version trace_id span_id flags ≡ ok t
    → WellFormed t
parse_parts-WellFormed version trace_id span_id flags t h = elim (Option-cases (read_flags flags)) [
  | inl e ↦ ground arith
  | inr (b, e) ↦
      let v1 : validate_hex trace_id 32 ≡ true = ground arith in
      let v2 : validate_hex span_id 16 ≡ true = ground arith in
      let n1 : all_zeros trace_id ≡ false = ground arith in
      let n2 : all_zeros span_id ≡ false = ground arith in
      let same : ok
            (record { trace_id = to_lower trace_id; span_id = to_lower span_id; sampled = b })
          ≡ ok t =
        ground arith in
      subst WellFormed
        (ok_injective
          (record { trace_id = to_lower trace_id; span_id = to_lower span_id; sampled = b }) t same)
        (record {
          trace_id = validate-IsId 32 trace_id v1 n1;
          span_id = validate-IsId 16 span_id v2 n2;
        })
]

-- What the parser accepts is well-formed.
pub parsed_trace-WellFormed : (s : List ℕ) (t : Trace) → parse s ≡ ok t → WellFormed t
unfolding parse
parsed_trace-WellFormed s t h = go (split s) h
  where
    go : (ps : List (List ℕ)) → four_parts ps ≡ ok t → WellFormed t
    go [] h = ground arith
    go (_ ∷ []) h = ground arith
    go (_ ∷ _ ∷ []) h = ground arith
    go (_ ∷ _ ∷ _ ∷ []) h = ground arith
    go (a ∷ b ∷ c ∷ d ∷ []) h = parse_parts-WellFormed a b c d t h
    go (_ ∷ _ ∷ _ ∷ _ ∷ _ ∷ _) h = ground arith
