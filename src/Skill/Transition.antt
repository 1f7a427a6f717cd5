-- ===== src/Skill/Transition.antt =====
-- internal/application/skill: the transition guard of service.go and the search of
-- transition_path.go. A map is a list of its entries, with the newest first.
pub mod Paths
use sophia_orchestrator.Prelude.{
  ℕ, zero, suc, Bool, true, false, ◌||◌, not, List, [], ◌∷◌, ◌++◌, keep, reverse, Option, none,
  some, if◌then◌else◌,
}
use sophia_orchestrator.Skill.Statuses.{Status, same, is_valid}

-- `allowedTransitions[from][to]`
unfoldable pub allowed_transitions : Status → Status → Bool
allowed_transitions Status.candidate Status.validated = true
allowed_transitions Status.candidate Status.blocked = true
allowed_transitions Status.validated Status.active = true
allowed_transitions Status.validated Status.blocked = true
allowed_transitions Status.active Status.deprecated = true
allowed_transitions Status.active Status.blocked = true
allowed_transitions Status.deprecated Status.blocked = true
allowed_transitions Status.blocked Status.candidate = true
allowed_transitions _ _ = false

pub data Error : Type 0 where
  invalid_status forbidden_status_transition not_found : Error
  repo_error : ℕ → Error

pub data Found : Type 0 where
  found : Status → Found
  failed : Error → Found

-- `PatchStatus`: `parses` is whether the id is one, `stored` what FindByID answers and `saved` what
-- the write answers. The result is the status written, if any, and the error.
unfoldable pub patch_status : Bool → Found → Status → Option Error → Option Status × Option Error
unfolding is_valid allowed_transitions
patch_status parses stored new_status saved =
    if not parses
    then (none, some not_found)
    else if not (is_valid new_status)
    then (none, some invalid_status)
    else elim stored [
      | failed e ↦ (none, some e)
      | found current ↦
          if not (allowed_transitions current new_status)
          then (none, some forbidden_status_transition)
          else elim saved [ some e ↦ (none, some e) | none ↦ (some new_status, none) ]
    ]

abbrev pub status_order : List Status
status_order =
    Status.candidate ∷ Status.validated ∷ Status.active ∷ Status.deprecated ∷ Status.blocked
    ∷ Status.archived ∷ []

unfoldable pub ordered_targets : Status → List Status
unfolding allowed_transitions
ordered_targets cur = keep (allowed_transitions cur) status_order

abbrev pub is_in : Status → List Status → Bool
is_in s [] = false
is_in s (t ∷ ts) = same s t || is_in s ts

-- `prev[cur]`; a missing key gives the empty status.
abbrev pub look_up : List (Status × Status) → Status → Status
look_up [] cur = Status.unknown ""
look_up (e ∷ prev) cur = if same e.0 cur then e.1 else look_up prev cur

-- The walk from `cur` back to `from`, reversed as it goes; `none` if it does not arrive in `fuel`.
pub reconstruct : ℕ → List (Status × Status) → Status → Status → List Status → Option (List Status)
reconstruct zero prev from cur path = none
reconstruct (suc fuel) prev from cur path =
    let rest = reconstruct fuel prev from (look_up prev cur) (cur ∷ path) in
    if same cur from then some path else rest

pub data Search : Type 0 where
  path : List Status → Search
  no_path out_of_fuel : Search

pub record Frontier : Type 0 where
  pub visited : List Status
  pub prev : List (Status × Status)
  pub queue : List Status

pub data Scanned : Type 0 where
  arrived : List (Status × Status) → Scanned
  more : Frontier → Scanned

-- The inner loop over the targets of `cur`.
pub scan : Status → Status → List Status → Frontier → Scanned
scan to cur [] f = more f
scan to cur (next ∷ ns) f =
    let seen = scan to cur ns f in
    let rest = scan to cur ns (record {
      visited = next ∷ f.visited;
      prev = (next, cur) ∷ f.prev;
      queue = f.queue ++ next ∷ [];
    }) in
    if is_in next f.visited
    then seen
    else if same next to
    then arrived ((next, cur) ∷ f.prev)
    else rest

abbrev pub rebuilt : Option (List Status) → Search
rebuilt none = out_of_fuel
rebuilt (some p) = path p

-- The outer loop: a status enters the queue once, so that `fuel` for each of them and one more
-- is enough.
pub bfs : ℕ → Status → Status → Frontier → Search
unfolding scan ordered_targets reconstruct
bfs zero from to f = out_of_fuel
bfs (suc fuel) from to f = elim f.queue [
  | [] ↦ no_path
  | cur ∷ rest ↦ elim (scan to cur (ordered_targets cur) (record f { queue = rest })) [
    | arrived prev ↦ rebuilt (reconstruct 8 prev from to [])
    | more f' ↦ bfs fuel from to f'
  ]
]

unfoldable pub transition_path : Status → Status → Search
unfolding bfs
transition_path from to =
    if same from to
    then path []
    else bfs 8 from to (record { visited = from ∷ []; prev = []; queue = from ∷ [] })
