-- ===== src/Skill/Techniques/Tags.antt =====
-- What `dedupeTechniques` makes of a list of tags.
use sophia_orchestrator.Prelude.{
  Bool, true, false, ◌&&◌, not, List, [], ◌∷◌, is_nil, ◌≡◌, refl, ap, arith, eq_iff, eq_refl,
}
use sophia_orchestrator.Skill.Techniques.{
  Technique, same, contains, validate_techniques, dedupe, dedupe_techniques,
}

abbrev pub distinct : List Technique → Bool
distinct [] = true
distinct (t ∷ ts) = not (contains ts t) && distinct ts

same-eq : (t u : Technique) → same t u ≡ true → t ≡ u
same-eq Technique.constitutional_self_critique Technique.constitutional_self_critique h = refl
same-eq Technique.chain_of_verification Technique.chain_of_verification h = refl
same-eq Technique.extended_thinking Technique.extended_thinking h = refl
same-eq Technique.skeleton_of_thought Technique.skeleton_of_thought h = refl
same-eq Technique.react Technique.react h = refl
same-eq Technique.step_back Technique.step_back h = refl
same-eq Technique.inline_why Technique.inline_why h = refl
same-eq (Technique.unknown s) (Technique.unknown t) h = ap Technique.unknown ((eq_iff s t).0 h)
same-eq _ _ h = ground arith

same_refl : (t : Technique) → same t t ≡ true
same_refl (Technique.unknown s) = eq_refl s
same_refl Technique.constitutional_self_critique = refl
same_refl Technique.chain_of_verification = refl
same_refl Technique.extended_thinking = refl
same_refl Technique.skeleton_of_thought = refl
same_refl Technique.react = refl
same_refl Technique.step_back = refl
same_refl Technique.inline_why = refl

dedupe-seen :
    (ts seen : List Technique) (t : Technique)
    → contains seen t ≡ true
    → contains (dedupe seen ts) t ≡ false
unfolding dedupe
dedupe-seen [] seen t h = refl
dedupe-seen (u ∷ us) seen t h =
    let again = dedupe-seen us seen t h in
    let later = dedupe-seen us (u ∷ seen) t (ground arith) in let same = same-eq u t in ground arith

dedupe-distinct : (ts seen : List Technique) → distinct (dedupe seen ts) ≡ true
unfolding dedupe
dedupe-distinct [] seen = refl
dedupe-distinct (u ∷ us) seen =
    let again = dedupe-distinct us seen in
    let later = dedupe-distinct us (u ∷ seen) in
    let once = dedupe-seen us (u ∷ seen) u (rw (same_refl u)) in ground arith

dedupe-valid :
    (ts seen : List Technique)
    → validate_techniques ts ≡ true
    → validate_techniques (dedupe seen ts) ≡ true
unfolding dedupe validate_techniques
dedupe-valid [] seen h = refl
dedupe-valid (u ∷ us) seen h =
    let again = dedupe-valid us seen in let later = dedupe-valid us (u ∷ seen) in ground arith

-- A list of valid tags that is not empty stays so, and the tags become distinct.
pub deduped :
    (ts : List Technique)
    → is_nil ts ≡ false
    → validate_techniques ts ≡ true
    → (is_nil (dedupe_techniques ts) ≡ false)
      × (validate_techniques (dedupe_techniques ts) ≡ true)
      × (distinct (dedupe_techniques ts) ≡ true)
unfolding dedupe_techniques dedupe
deduped [] h v = ground arith
deduped (t ∷ ts) h v = (refl, dedupe-valid (t ∷ ts) [] v, dedupe-distinct (t ∷ ts) [])
