-- ===== src/RateGuard/Window.antt =====
-- The guard against the history of the calls that it let through.
use sophia_orchestrator.Prelude.{
  ℕ, ◌+◌, ◌≤◌, ◌<◌, subst, ◌⊎◌, ltb, leb, String, Bool, true, false, List, [], ◌∷◌, ◌++◌, ◌≡◌, refl,
  sym, ◌∙◌, ap, arith, str_eq, eq_refl, keep, length, length-append, length-keep-le, Bool-cases,
  inl, inr, if◌then◌else◌,
}
use sophia_orchestrator.RateGuard.{Guard, new, fresh, put, allow}

-- A call for one project does not touch another.
pub allow_other :
    (now : ℕ) (project other : String) (g : Guard)
    → str_eq other project ≡ false
    → (allow now project g).0.entries other ≡ g.entries other
unfolding allow
allow_other now project other g h = ground arith

-- The calls of a project, at the times `ts`, and the times at which they were let through, behind
-- those of `granted`.
unfoldable pub run : String → List ℕ → Guard → List ℕ → Guard × List ℕ
run project [] g granted = (g, granted)
run project (t ∷ ts) g granted =
    let (g', ok) = allow t project g in
    run project ts g' (if ok then granted ++ t ∷ [] else granted)

-- The clock does not go back.
abbrev pub Rising : ℕ → List ℕ → Type 0
Rising t [] = Unit
Rising t (u ∷ us) = (t ≤ u) × Rising u us

abbrev pub last_or : ℕ → List ℕ → ℕ
last_or t [] = t
last_or t (u ∷ us) = last_or u us

keep-append : (p : ℕ → Bool) (xs ys : List ℕ) → keep p (xs ++ ys) ≡ keep p xs ++ keep p ys
keep-append p [] ys = refl
keep-append p (x ∷ xs) ys = ground (arith, keep-append p xs ys)

-- A later window keeps what an earlier one and it keep.
keep-keep :
    (window t u : ℕ) (xs : List ℕ)
    → t ≤ u
    → keep (fresh window u) (keep (fresh window t) xs) ≡ keep (fresh window u) xs
keep-keep window t u [] h = refl
keep-keep window t u (x ∷ xs) h = ground (arith, keep-keep window t u xs h)

-- What the guard remembers of a project at time `t`: what is fresh of all that it let through.
record Remembers (project : String) (t : ℕ) (granted : List ℕ) (g : Guard) : Type 0 where
  exact : keep (fresh g.window t) (g.entries project) ≡ keep (fresh g.window t) granted
  bounded : length (keep (fresh g.window t) granted) ≤ g.limit

put-entries :
    (project : String) (calls : List ℕ) (g : Guard) → (put project calls g).entries project ≡ calls
put-entries project calls g = let same = eq_refl project in ground arith

-- What `allow` does: it keeps the fresh calls, and adds its own if they are below the limit.
record Refused (now : ℕ) (project : String) (g : Guard) : Type 0 where
  stays :
      allow now project g ≡ (put project (keep (fresh g.window now) (g.entries project)) g, false)

record Granted (now : ℕ) (project : String) (g : Guard) : Type 0 where
  room : length (keep (fresh g.window now) (g.entries project)) < g.limit
  grows :
      allow now project g
      ≡ (put project (keep (fresh g.window now) (g.entries project) ++ now ∷ []) g, true)

allow-cases :
    (now : ℕ) (project : String) (g : Guard) → Refused now project g ⊎ Granted now project g
unfolding allow
allow-cases now project g =
    elim (Bool-cases (leb g.limit (length (keep (fresh g.window now) (g.entries project))))) [
      | inl full ↦ inl (record { stays = rw full })
      | inr room ↦ inr (record { room = ground arith; grows = rw room })
    ]

module _ (project : String) (t u : ℕ) (granted : List ℕ) (g : Guard) (later : t ≤ u)
    (inv : Remembers project t granted g) where
  -- What the call at `u` finds fresh is what is fresh of the history.
  now_exact : keep (fresh g.window u) (g.entries project) ≡ keep (fresh g.window u) granted
  now_exact =
      sym (keep-keep g.window t u (g.entries project) later)
      ∙ ap (keep (fresh g.window u)) inv.exact
      ∙ keep-keep g.window t u granted later

  now_bounded : length (keep (fresh g.window u) granted) ≤ g.limit
  now_bounded =
      let shrinks = length-keep-le (fresh g.window u) (keep (fresh g.window t) granted) in
      let same = keep-keep g.window t u granted later in let before = inv.bounded in grind arith

  twice :
      keep (fresh g.window u) (keep (fresh g.window u) (g.entries project))
      ≡ keep (fresh g.window u) granted
  twice = keep-keep g.window u u (g.entries project) (omega arith) ∙ now_exact

  grows_by_one :
      length (keep (fresh g.window u) (granted ++ u ∷ []))
      ≤ length (keep (fresh g.window u) granted) + 1
  grows_by_one =
      let parts = keep-append (fresh g.window u) granted (u ∷ []) in
      let sum =
        length-append (keep (fresh g.window u) granted) (keep (fresh g.window u) (u ∷ [])) in
      let one = length-keep-le (fresh g.window u) (u ∷ []) in grind arith

  allow-Remembers :
      Remembers project u
        (if (allow u project g).1 then granted ++ u ∷ [] else granted)
        (allow u project g).0
  allow-Remembers = elim (allow-cases u project g) [
    | inl r ↦
        subst (λ r. Remembers project u (if r.1 then granted ++ u ∷ [] else granted) r.0)
          (sym r.stays)
          (record {
            exact =
                ap (keep (fresh g.window u))
                  (put-entries project (keep (fresh g.window u) (g.entries project)) g)
                ∙ twice;
            bounded = now_bounded;
          })
    | inr r ↦
        subst (λ r. Remembers project u (if r.1 then granted ++ u ∷ [] else granted) r.0)
          (sym r.grows)
          (record {
            exact =
                ap (keep (fresh g.window u))
                  (put-entries project (keep (fresh g.window u) (g.entries project) ++ u ∷ []) g)
                ∙ keep-append (fresh g.window u) (keep (fresh g.window u) (g.entries project))
                    (u ∷ [])
                ∙ ap (λ xs. xs ++ keep (fresh g.window u) (u ∷ [])) twice
                ∙ sym (keep-append (fresh g.window u) granted (u ∷ []));
            bounded = let room = r.room in ground (arith, now_exact, grows_by_one);
          })
  ]

allow-ltb :
    (now : ℕ) (project : String) (g : Guard)
    → (allow now project g).1 ≡ ltb (length (keep (fresh g.window now) (g.entries project))) g.limit
unfolding allow
allow-ltb now project g = ground arith

run-Remembers :
    (project : String) (t : ℕ) (ts granted : List ℕ) (g : Guard)
    → Rising t ts
    → Remembers project t granted g
    → Remembers project (last_or t ts) (run project ts g granted).1 (run project ts g granted).0
unfolding run
run-Remembers project t [] granted g rising inv = inv
run-Remembers project t (u ∷ us) granted g (later, rising) inv =
    run-Remembers project u us (if (allow u project g).1 then granted ++ u ∷ [] else granted)
      (allow u project g).0 rising (allow-Remembers project t u granted g later inv)

allow-config :
    (now : ℕ) (project : String) (g : Guard)
    → ((allow now project g).0.window ≡ g.window) × ((allow now project g).0.limit ≡ g.limit)
unfolding allow
allow-config now project g = ground arith

run-config :
    (project : String) (ts granted : List ℕ) (g : Guard)
    → ((run project ts g granted).0.window ≡ g.window)
      × ((run project ts g granted).0.limit ≡ g.limit)
unfolding run
run-config project [] granted g = (refl, refl)
run-config project (u ∷ us) granted g =
    let ih =
      run-config project us (if (allow u project g).1 then granted ++ u ∷ [] else granted)
        (allow u project g).0 in
    let here = allow-config u project g in (ih.0 ∙ here.0, ih.1 ∙ here.1)

new-Remembers : (project : String) (t limit window : ℕ) → Remembers project t [] (new limit window)
unfolding new
new-Remembers project t limit window = record { exact = refl; bounded = omega arith }

-- The calls for a project at rising times, from a new guard: at the last of them, at most `limit` of
-- the calls that were let through are within the window.
pub run_bounded :
    (project : String) (limit window t : ℕ) (ts : List ℕ)
    → Rising t ts
    → length (keep (fresh window (last_or t ts)) (run project ts (new limit window) []).1) ≤ limit
unfolding new
run_bounded project limit window t ts rising =
    let bounded =
      (run-Remembers project t ts [] (new limit window) rising
        (new-Remembers project t limit window)).bounded in
    let config = run-config project ts [] (new limit window) in
    let w : (run project ts (new limit window) []).0.window ≡ window = config.0 in
    let l : (run project ts (new limit window) []).0.limit ≡ limit = config.1 in grind arith

-- After the calls for a project at rising times, from a new guard, one at a later time `u` is let
-- through exactly if fewer than `limit` of the calls let through before are within its window.
pub allow_decides :
    (project : String) (limit window t u : ℕ) (ts : List ℕ)
    → Rising t ts
    → last_or t ts ≤ u
    → (allow u project (run project ts (new limit window) []).0).1
      ≡ ltb (length (keep (fresh window u) (run project ts (new limit window) []).1)) limit
unfolding new
allow_decides project limit window t u ts rising later =
    let s = run project ts (new limit window) [] in
    let inv =
      run-Remembers project t ts [] (new limit window) rising
        (new-Remembers project t limit window) in
    let exact = now_exact project (last_or t ts) u s.1 s.0 later inv in
    let config = run-config project ts [] (new limit window) in
    let w : s.0.window ≡ window = config.0 in
    let l : s.0.limit ≡ limit = config.1 in
    allow-ltb u project s.0
    ∙ ap (λ xs. ltb (length xs) s.0.limit) exact
    ∙ ap (λ v. ltb (length (keep (fresh v u) s.1)) s.0.limit) w
    ∙ ap (ltb (length (keep (fresh window u) s.1))) l
