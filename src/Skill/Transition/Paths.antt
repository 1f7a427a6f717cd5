-- ===== src/Skill/Transition/Paths.antt =====
-- The search against the transition guard. The statuses are finitely many, so that what holds of
-- each is checked by running the model on a table.
use sophia_orchestrator.Prelude.{
  ℕ, suc, ◌≤◌, leb, Bool, true, false, not, ◌&&◌, ◌||◌, List, [], ◌∷◌, ◌≡◌, refl, sym, arith,
  length, ◌⊎◌, inl, inr, Bool-cases, String, subst, Option, some,
}
use sophia_orchestrator.Skill.Statuses.{Status, same, is_valid}
use sophia_orchestrator.Skill.Transition.{
  allowed_transitions, status_order, Search, path, no_path, out_of_fuel, transition_path,
  patch_status, found, Error,
}

-- Each status on the way is an allowed target of the one before it, and the last is `to`.
unfoldable pub is_chain : Status → List Status → Status → Bool
unfolding allowed_transitions
is_chain from [] to = same from to
is_chain from (s ∷ ss) to = allowed_transitions from s && is_chain s ss to

-- What a search has to answer.
pub data Answers (from to : Status) : Search → Type 0 where
  shortest :
      (p : List Status)
      → is_chain from p to ≡ true
      → ((q : List Status) → is_chain from q to ≡ true → length p ≤ length q)
      → Answers from to (path p)
  unreachable : ((q : List Status) → is_chain from q to ≡ false) → Answers from to no_path

abbrev all : (Status → Bool) → List Status → Bool
all p [] = true
all p (s ∷ ss) = p s && all p ss

known :
    (p : Status → Bool) → all p status_order ≡ true → (s : Status) → is_valid s ≡ true → p s ≡ true
unfolding is_valid
known p h Status.candidate v = ground arith
known p h Status.validated v = ground arith
known p h Status.active v = ground arith
known p h Status.deprecated v = ground arith
known p h Status.blocked v = ground arith
known p h Status.archived v = ground arith
known p h (Status.unknown x) v = ground arith

Status-cases : (s : Status) → (is_valid s ≡ true) ⊎ ((x : String) × (s ≡ Status.unknown x))
unfolding is_valid
Status-cases Status.candidate = inl refl
Status-cases Status.validated = inl refl
Status-cases Status.active = inl refl
Status-cases Status.deprecated = inl refl
Status-cases Status.blocked = inl refl
Status-cases Status.archived = inl refl
Status-cases (Status.unknown x) = inr (x, refl)

-- A path of at most `n` hops was found.
unfoldable reaches : Status → Status → ℕ → Bool
unfolding transition_path
reaches s t n = elim (transition_path s t) [ path q ↦ leb (length q) n | _ ↦ false ]

-- The answer is legal, and one hop more than it is enough from before it.
unfoldable legal : Status → Status → Bool
unfolding transition_path is_chain
legal s t = elim (transition_path s t) [
  | path q ↦ is_chain s q t
  | no_path ↦ true
  | out_of_fuel ↦ false
]

unfoldable one_more : Status → Status → Status → Bool
unfolding transition_path reaches allowed_transitions
one_more t s s' =
    not (allowed_transitions s s')
    || elim (transition_path s' t) [ path q ↦ reaches s t (suc (length q)) | _ ↦ true ]

legal_table : all (λ s. all (legal s) status_order) status_order ≡ true
unfolding legal
legal_table = refl

one_more_table :
    all (λ t. all (λ s. all (one_more t s) status_order) status_order) status_order ≡ true
unfolding one_more
one_more_table = refl

to_same : (s t : Status) → same s t ≡ true → transition_path s t ≡ path []
unfolding transition_path
to_same s t h = rw h

from_unknown :
    (x : String) (t : Status)
    → same (Status.unknown x) t ≡ false
    → transition_path (Status.unknown x) t ≡ no_path
unfolding transition_path
from_unknown x t h = rw h

to_unknown :
    (s : Status) (x : String) → is_valid s ≡ true → transition_path s (Status.unknown x) ≡ no_path
unfolding transition_path is_valid
to_unknown Status.candidate x v = refl
to_unknown Status.validated x v = refl
to_unknown Status.active x v = refl
to_unknown Status.deprecated x v = refl
to_unknown Status.blocked x v = refl
to_unknown Status.archived x v = refl
to_unknown (Status.unknown _) x v = ground arith

-- Only known statuses are linked.
allowed_to_unknown : (s : Status) (x : String) → allowed_transitions s (Status.unknown x) ≡ false
unfolding allowed_transitions
allowed_to_unknown Status.candidate x = refl
allowed_to_unknown Status.validated x = refl
allowed_to_unknown Status.active x = refl
allowed_to_unknown Status.deprecated x = refl
allowed_to_unknown Status.blocked x = refl
allowed_to_unknown Status.archived x = refl
allowed_to_unknown (Status.unknown _) x = refl

allowed_from_unknown : (x : String) (s : Status) → allowed_transitions (Status.unknown x) s ≡ false
unfolding allowed_transitions
allowed_from_unknown x s = refl

legal_from_unknown : (x : String) (t : Status) → legal (Status.unknown x) t ≡ true
unfolding legal is_chain
legal_from_unknown x t = elim (Bool-cases (same (Status.unknown x) t)) [
  | inl equal ↦ rw (to_same (Status.unknown x) t equal, legal) equal
  | inr differ ↦ rw (from_unknown x t differ, legal)
]

reaches-same : (s t : Status) → same s t ≡ true → reaches s t 0 ≡ true
unfolding reaches
reaches-same s t h = rw (to_same s t h, reaches)

legal_path : (s t : Status) → legal s t ≡ true
unfolding legal is_chain
legal_path s t = elim (Status-cases s) [
  | inl v ↦ elim (Status-cases t) [
    | inl w ↦ known (legal s) (known (λ s. all (legal s) status_order) legal_table s v) t w
    | inr (x, e) ↦ let none_found = to_unknown s x v in ground arith
  ]
  | inr (x, e) ↦ subst (λ s. legal s t ≡ true) (sym e) (legal_from_unknown x t)
]

one_more_all :
    (s s' t : Status)
    → is_valid s ≡ true
    → is_valid s' ≡ true
    → is_valid t ≡ true
    → one_more t s s' ≡ true
one_more_all s s' t v v' w =
    let row =
      known (λ t. all (λ s. all (one_more t s) status_order) status_order) one_more_table t w in
    known (one_more t s) (known (λ s. all (one_more t s) status_order) row s v) s' v'

reaches-unknown :
    (s : Status) (x : String) (n : ℕ) → is_valid s ≡ true → reaches s (Status.unknown x) n ≡ false
unfolding reaches
reaches-unknown s x n v = rw (to_unknown s x v, reaches)

reaches-one_more :
    (s s' t : Status) (n : ℕ)
    → allowed_transitions s s' ≡ true
    → one_more t s s' ≡ true
    → reaches s' t n ≡ true
    → reaches s t (suc n) ≡ true
unfolding reaches one_more
reaches-one_more s s' t n step more h = ground arith

reaches-allowed :
    (s s' t : Status) (n : ℕ)
    → allowed_transitions s s' ≡ true
    → reaches s' t n ≡ true
    → reaches s t (suc n) ≡ true
reaches-allowed s s' t n step h = elim (Status-cases s) [
  | inr (x, e) ↦ let never = allowed_from_unknown x s' in ground arith
  | inl v ↦ elim (Status-cases s') [
    | inr (x, e) ↦ let never = allowed_to_unknown s x in ground arith
    | inl v' ↦ elim (Status-cases t) [
      | inr (x, e) ↦ let never = reaches-unknown s' x n v' in ground arith
      | inl w ↦ reaches-one_more s s' t n step (one_more_all s s' t v v' w) h
    ]
  ]
]

chain-reaches :
    (p : List Status) (s t : Status) → is_chain s p t ≡ true → reaches s t (length p) ≡ true
unfolding is_chain
chain-reaches [] s t h = reaches-same s t h
chain-reaches (s' ∷ ss) s t h =
    reaches-allowed s s' t (length ss) (ground arith) (chain-reaches ss s' t (ground arith))

answers : (s t : Status) (r : Search) → transition_path s t ≡ r → Answers s t r
unfolding reaches legal
answers s t (path p) e =
    let good = legal_path s t in
    shortest p (ground arith) (λ q h. let enough = chain-reaches q s t h in ground arith)
answers s t no_path e = unreachable (λ q. elim (Bool-cases (is_chain s q t)) [
  | inl h ↦ let enough = chain-reaches q s t h in ground arith
  | inr h ↦ h
])
answers s t out_of_fuel e = let good = legal_path s t in ground arith

-- The search of a revert answers, for any two statuses, with a shortest sequence of allowed
-- transitions, or says that there is none exactly if there is none.
pub transition_path-Answers : (from to : Status) → Answers from to (transition_path from to)
transition_path-Answers from to = answers from to (transition_path from to) refl

-- What `PatchStatus` writes is one allowed transition away from the status that is stored.
pub patch_status-allowed :
    (parses : Bool) (current new_status written : Status) (saved : Option Error)
    → (patch_status parses (found current) new_status saved).0 ≡ some written
    → (written ≡ new_status) × (allowed_transitions current written ≡ true)
unfolding patch_status
patch_status-allowed parses current new_status written saved h = ground arith
