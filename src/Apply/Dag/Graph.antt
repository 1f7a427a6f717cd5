-- ===== src/Apply/Dag/Graph.antt =====
-- The dependency graph that the walk explores, and what `by_id` finds in it.
use sophia_orchestrator.Prelude.{
  ℕ, ◌==◌, false, List, [], ◌∷◌, none, some, ◌≡◌, refl, ◌∙◌, subst, inl, inr, Memᴰ, All, arith,
  Bool-cases,
}
use sophia_orchestrator.Apply.Group.{Group}
use sophia_orchestrator.Apply.Dag.{Index, insert, index_groups, by_id}

-- `a` depends on `b`, and both are known.
pub data Edge (ids : Index) (a b : ℕ) : Type 0 where
  edge : (g h : Group) → ids a ≡ some g → Memᴰ b g.depends_on → ids b ≡ some h → Edge ids a b

-- One dependency or more.
pub data Reaches (ids : Index) (a : ℕ) : ℕ → Type 0 where
  one : {b : ℕ} → Edge ids a b → Reaches ids a b
  more : {b c : ℕ} → Reaches ids a b → Edge ids b c → Reaches ids a c

-- No group depends on itself, directly or not.
abbrev pub Acyclic : List Group → Type 0
Acyclic gs = (a : ℕ) → ¬ Reaches (by_id gs) a a

-- What an index knows: the id of an entry is its key, and the entry is one of the groups.
pub record Indexes (gs : List Group) (ids : Index) : Type 0 where
  pub named : (k : ℕ) (g : Group) → ids k ≡ some g → g.id ≡ k
  pub member : (k : ℕ) (g : Group) → ids k ≡ some g → Memᴰ g gs

insert-Indexes :
    (gs : List Group) (g : Group) (ids : Index)
    → Memᴰ g gs
    → Indexes gs ids
    → Indexes gs (insert g ids)
insert-Indexes gs g ids m v = record { named = named; member = member }
  where
    named : (k : ℕ) (h : Group) → insert g ids k ≡ some h → h.id ≡ k
    named k h e = ground (arith, v.named k h)

    member : (k : ℕ) (h : Group) → insert g ids k ≡ some h → Memᴰ h gs
    member k h e = elim (Bool-cases (k == g.id)) [
      | inl hit ↦ subst (λ x. Memᴰ x gs) (ground arith) m
      | inr miss ↦ v.member k h (ground arith)
    ]

index_groups-Indexes :
    (all gs : List Group) (ids : Index)
    → ((g : Group) → Memᴰ g gs → Memᴰ g all)
    → Indexes all ids
    → Indexes all (index_groups gs ids)
unfolding index_groups
index_groups-Indexes all [] ids sub v = v
index_groups-Indexes all (g ∷ gs) ids sub v =
    index_groups-Indexes all gs (insert g ids) (λ h m. sub h (Memᴰ.tail m))
      (insert-Indexes all g ids (sub g (Memᴰ.head refl)) v)

pub by_id-Indexes : (gs : List Group) → Indexes gs (by_id gs)
unfolding by_id
by_id-Indexes gs =
    index_groups-Indexes gs gs (λ _. none) (λ g m. m)
      (record { named = λ k g e. absurd (cc); member = λ k g e. absurd (cc) })

-- The ids of the groups differ.
abbrev pub DistinctIds : List Group → Type 0
DistinctIds [] = Unit
DistinctIds (g ∷ gs) = All (λ h. (g.id == h.id) ≡ false) gs × DistinctIds gs

index_groups_other :
    (gs : List Group) (ids : Index) (k : ℕ)
    → All (λ h. (k == h.id) ≡ false) gs
    → index_groups gs ids k ≡ ids k
unfolding index_groups
index_groups_other [] ids k d = refl
index_groups_other (g ∷ gs) ids k d = index_groups_other gs (insert g ids) k d.1 ∙ ground arith

index_groups_hit :
    (gs : List Group) (ids : Index)
    → DistinctIds gs
    → (g : Group) → Memᴰ g gs
    → index_groups gs ids g.id ≡ some g
unfolding index_groups
index_groups_hit [] ids d g m = elim m [ ]
index_groups_hit (x ∷ xs) ids d g (Memᴰ.head e) =
    rw e (index_groups_other xs (insert x ids) x.id d.0 ∙ ground arith)
index_groups_hit (x ∷ xs) ids d g (Memᴰ.tail m) = index_groups_hit xs (insert x ids) d.1 g m

-- With distinct ids `by_id` finds every group by its id.
pub by_id_hit :
    (gs : List Group) → DistinctIds gs → (g : Group) → Memᴰ g gs → by_id gs g.id ≡ some g
unfolding by_id
by_id_hit gs = index_groups_hit gs (λ _. none)
