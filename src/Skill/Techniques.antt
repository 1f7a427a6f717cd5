-- ===== src/Skill/Techniques.antt =====
-- internal/domain/skill/technique.go.
pub mod Tags
use sophia_orchestrator.Prelude.{
  String, Bool, true, false, ◌||◌, not, List, [], ◌∷◌, str_eq, if◌then◌else◌,
}

-- `unknown s` is a text `s` that is none of the seven tags.
pub data Technique : Type 0 where
  constitutional_self_critique chain_of_verification extended_thinking skeleton_of_thought react
        step_back inline_why :
      Technique
  unknown : String → Technique

unfoldable pub is_valid : Technique → Bool
is_valid (Technique.unknown _) = false
is_valid _ = true

-- The test `t == u`.
abbrev pub same : Technique → Technique → Bool
same Technique.constitutional_self_critique Technique.constitutional_self_critique = true
same Technique.chain_of_verification Technique.chain_of_verification = true
same Technique.extended_thinking Technique.extended_thinking = true
same Technique.skeleton_of_thought Technique.skeleton_of_thought = true
same Technique.react Technique.react = true
same Technique.step_back Technique.step_back = true
same Technique.inline_why Technique.inline_why = true
same (Technique.unknown s) (Technique.unknown t) = str_eq s t
same _ _ = false

abbrev pub contains : List Technique → Technique → Bool
contains [] t = false
contains (u ∷ us) t = same u t || contains us t

-- `ValidateTechniques(tags) == nil`
unfoldable pub validate_techniques : List Technique → Bool
unfolding is_valid
validate_techniques [] = true
validate_techniques (t ∷ ts) =
    let rest = validate_techniques ts in if not (is_valid t) then false else rest

-- `dedupeTechniques` with the tags seen so far.
unfoldable pub dedupe : List Technique → List Technique → List Technique
dedupe seen [] = []
dedupe seen (t ∷ ts) =
    let again = dedupe seen ts in
    let fresh = dedupe (t ∷ seen) ts in if contains seen t then again else t ∷ fresh

unfoldable pub dedupe_techniques : List Technique → List Technique
unfolding dedupe
dedupe_techniques input = dedupe [] input
