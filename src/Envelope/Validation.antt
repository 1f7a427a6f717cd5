-- ===== src/Envelope/Validation.antt =====
-- envelope.Validate against a description of the envelopes that it accepts.
use sophia_orchestrator.Prelude.{
  ℕ, String, ℤ, pos, negsuc, ltb_ℤ, ◌≤◌, ◌≡◌, refl, ◌≢◌, ◌↔◌, Bool, true, false, ◌||◌, Option, none,
  some, arith, str_eq, eq_iff,
}
use sophia_orchestrator.Envelope.{
  Envelope, Status, one, schema_version_v1, is_valid, validate, ok, parse,
}

-- The four statuses of the contract.
pub data Known : Status → Type 0 where
  is_done : Known Status.done
  is_done_with_concerns : Known Status.done_with_concerns
  is_blocked : Known Status.blocked
  is_needs_context : Known Status.needs_context

-- 0 ≤ c ≤ 1
pub data UnitInterval : ℤ → Type 0 where
  within : (n : ℕ) → n ≤ 1_000_000 → UnitInterval (pos n)

pub record WellFormed (e : Envelope) : Type 0 where
  pub version : e.schema_version ≡ schema_version_v1
  pub phase : e.phase ≢ ""
  pub status : Known e.status
  pub confidence : UnitInterval e.confidence
  pub change_name : e.change_name ≢ ""
  pub project : e.project ≢ ""

-- The range test, as a statement about the integer behind it.
in_range : ℤ → Bool
in_range c = ltb_ℤ c (pos 0) || ltb_ℤ one c

in_range→UnitInterval : (c : ℤ) → in_range c ≡ false → UnitInterval c
unfolding in_range
in_range→UnitInterval (pos n) h = within n (ground arith)
in_range→UnitInterval (negsuc n) h = absurd (ground arith)

UnitInterval→in_range : (c : ℤ) → UnitInterval c → in_range c ≡ false
unfolding in_range
UnitInterval→in_range (pos n) (within _ h) = ground arith
UnitInterval→in_range (negsuc n) h = elim h [ ]

valid→Known : (s : Status) → is_valid s ≡ true → Known s
unfolding is_valid
valid→Known Status.done h = is_done
valid→Known Status.done_with_concerns h = is_done_with_concerns
valid→Known Status.blocked h = is_blocked
valid→Known Status.needs_context h = is_needs_context
valid→Known (Status.unknown s) h = absurd (cc)

pub Known→valid : (s : Status) → Known s → is_valid s ≡ true
unfolding is_valid
Known→valid _ is_done = refl
Known→valid _ is_done_with_concerns = refl
Known→valid _ is_blocked = refl
Known→valid _ is_needs_context = refl

-- The tests of `validate`, all passed.
record Checks (e : Envelope) : Type 0 where
  version : str_eq e.schema_version schema_version_v1 ≡ true
  phase : str_eq e.phase "" ≡ false
  status : is_valid e.status ≡ true
  confidence : in_range e.confidence ≡ false
  change_name : str_eq e.change_name "" ≡ false
  project : str_eq e.project "" ≡ false

validate→Checks : (e : Envelope) → validate e ≡ none → Checks e
unfolding validate in_range
validate→Checks e h = ground arith

Checks→validate : (e : Envelope) → Checks e → validate e ≡ none
unfolding validate in_range
Checks→validate e h = ground arith

ne_of_test : (s t : String) → str_eq s t ≡ false → s ≢ t
ne_of_test s t h = ground (arith, eq_iff s t)

test_of_ne : (s t : String) → s ≢ t → str_eq s t ≡ false
test_of_ne s t h = ground (arith, eq_iff s t)

pub validate→WellFormed : (e : Envelope) → validate e ≡ none → WellFormed e
validate→WellFormed e h =
    let c = validate→Checks e h in
    record {
      version = (eq_iff _ _).0 c.version;
      phase = ne_of_test _ _ c.phase;
      status = valid→Known e.status c.status;
      confidence = in_range→UnitInterval e.confidence c.confidence;
      change_name = ne_of_test _ _ c.change_name;
      project = ne_of_test _ _ c.project;
    }

-- `validate` returns nil for exactly the well-formed envelopes: schema version v1, phase, change
-- name and project not empty, one of the four statuses, and a confidence in [0, 1].
pub validate-WellFormed : (e : Envelope) → (validate e ≡ none) ↔ WellFormed e
validate-WellFormed e = (validate→WellFormed e, back)
  where
    back : WellFormed e → validate e ≡ none
    back w = Checks→validate e (record {
      version = (eq_iff _ _).1 w.version;
      phase = test_of_ne _ _ w.phase;
      status = Known→valid e.status w.status;
      confidence = UnitInterval→in_range e.confidence w.confidence;
      change_name = test_of_ne _ _ w.change_name;
      project = test_of_ne _ _ w.project;
    })

parse-ok :
    {Raw : Type 0} (unmarshal : Raw → Option Envelope) (raw : Raw) {e : Envelope}
    → parse unmarshal raw ≡ ok e
    → (unmarshal raw ≡ some e) × (validate e ≡ none)
unfolding parse
parse-ok unmarshal raw h = ground arith

-- What `parse` returns without an error is what the decoder read, and is well-formed.
pub parse-WellFormed :
    {Raw : Type 0} (unmarshal : Raw → Option Envelope) (raw : Raw) {e : Envelope}
    → parse unmarshal raw ≡ ok e
    → (unmarshal raw ≡ some e) × WellFormed e
parse-WellFormed unmarshal raw {e} h =
    let (decoded, checked) = parse-ok unmarshal raw h in (decoded, validate→WellFormed e checked)
