-- ===== src/Examples/Traces.antt =====
-- internal/domain/trace at concrete texts.
use sophia_orchestrator.Prelude.{true, [], ◌∷◌, ◌≡◌, refl, replicate, ◌++◌}
use sophia_orchestrator.Trace
use sophia_orchestrator.Trace.{Trace, parse, print, normalise_request_id}
use sophia_orchestrator.Trace.RoundTrip.{WellFormed, parse-print}

abbrev sample : Trace
sample = record {
  trace_id = replicate 31 b'0' ++ b'a' ∷ [];
  span_id = replicate 15 b'0' ++ b'7' ∷ [];
  sampled = true;
}

sample-WellFormed : WellFormed sample
unfolding Trace.all_zeros
sample-WellFormed = record {
  trace_id = record { long = refl; digits = refl; nonzero = refl };
  span_id = record { long = refl; digits = refl; nonzero = refl };
}

parse-print_example : parse (print sample) ≡ Trace.ok sample
parse-print_example = parse-print sample sample-WellFormed
