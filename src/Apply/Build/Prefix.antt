-- ===== src/Apply/Build/Prefix.antt =====
-- The patterns of a group, before and after its name is cut off.
use sophia_orchestrator.Prelude.{String, ◌≡◌, false, List, [], ◌∷◌, map, All, refl}
use text.Mathlib.Text.{starts_with}
use text.Mathlib.TextPositions.{starts_with-append, slice-append_right, len-append}
use sophia_orchestrator.Apply.Build.{trim_prefix, strip_group_prefix}
use sophia_orchestrator.PhaseService.{text_append}

trim-append : (p s : String) → trim_prefix (text_append p s) p ≡ s
unfolding trim_prefix
trim-append p s = rw (trim_prefix, starts_with-append p s, len-append p s) (slice-append_right p s)

-- Patterns below the directory of the group come out relative to it, and patterns that do not start
-- with its name and a slash come out as they are.
pub strip_group_prefix_joined :
    (name : String) (ps qs : List String)
    → All (λ q. starts_with q (text_append name "/") ≡ false) qs
    → (strip_group_prefix name (map (λ p. text_append (text_append name "/") p) ps) ≡ ps)
      × (strip_group_prefix name qs ≡ qs)
unfolding strip_group_prefix
strip_group_prefix_joined name ps qs h = (inside ps, outside qs h)
  where
    inside :
        (ps : List String)
        → strip_group_prefix name (map (λ p. text_append (text_append name "/") p) ps) ≡ ps
    inside [] = refl
    inside (p ∷ ps) = rw (strip_group_prefix, trim-append (text_append name "/") p, inside ps) refl

    outside :
        (qs : List String)
        → All (λ q. starts_with q (text_append name "/") ≡ false) qs
        → strip_group_prefix name qs ≡ qs
    outside [] h = refl
    outside (q ∷ qs) (e, h) = rw (strip_group_prefix, trim_prefix, e, outside qs h) refl
