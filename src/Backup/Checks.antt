-- ===== src/Backup/Checks.antt =====
-- What _ensureValidRelationships accepts, what it refuses, and what restore makes of a backup that
-- it accepts.
use termethis.Backup.{
  Backup, Problem, duplicate_profiles, duplicate_tabs, unknown_profile, profile_ids, tab_ids,
  to_set, search_restored, cycle_problem, ensure_valid_relationships,
}
use mathlib.Core.List.{Memᴰ}
use termethis.Base.{
  ℕ, ◌≡◌, ◌⊎◌, inl, inr, refl, sym, ◌∙◌, ◌==◌, ==_iff, true, false, not, Option, none, some, List,
  [], Text, Bool-cases, length,
}
use termethis.Routes.{Route, Outcome, passed, cyclic, out_of_fuel, graph_onto, ensure_acyclic}
use termethis.Routes.Graphs.{Walk, IsAcyclic, EndsInCycle-Walk}
use termethis.Routes.Cycles.{Verdict, acyclic, cycle, ensure_acyclic-Verdict}
use termethis.Backup.Searches.{erase, erase-ensure_acyclic}
use termethis.Backup.Names.{
  IsUnique, IsNamed, to_set-Memᴰ, length-IsUnique, length-profile_ids, length-tab_ids,
  has_unknown-cases,
}

-- The ids of the profiles of a backup.
abbrev pub known_ids : Backup → List Text
known_ids b = to_set (profile_ids b.profiles)

-- A right answer to a backup.
pub data Checked (b : Backup) : Option Problem → Type 0 where
  valid :
      IsUnique (profile_ids b.profiles)
      → IsUnique (tab_ids b.tabs)
      → ((x : Text) → IsNamed x b.routes → Memᴰ x (profile_ids b.profiles))
      → IsAcyclic (graph_onto [] b.routes)
      → Checked b none
  twice_a_profile : ¬ IsUnique (profile_ids b.profiles) → Checked b (some duplicate_profiles)
  twice_a_tab : ¬ IsUnique (tab_ids b.tabs) → Checked b (some duplicate_tabs)
  names_another :
      {x : Text}
      → IsNamed x b.routes
      → ¬ Memᴰ x (profile_ids b.profiles)
      → Checked b (some unknown_profile)
  has_cycle : {u : Text} → Walk (graph_onto [] b.routes) u u → Checked b (some Problem.cycle)

search_restored-cases :
    (routes : List Route)
    → ((cycle_problem (search_restored (graph_onto [] routes)) ≡ none)
        × IsAcyclic (graph_onto [] routes))
      ⊎ ((cycle_problem (search_restored (graph_onto [] routes)) ≡ some Problem.cycle)
          × ((u : Text) × Walk (graph_onto [] routes) u u))
search_restored-cases routes =
    rw (← erase-ensure_acyclic routes)
      (read (ensure_acyclic routes) (ensure_acyclic-Verdict routes))
  where
    read :
        (o : Outcome)
        → Verdict (graph_onto [] routes) o
        → ((cycle_problem (erase o) ≡ none) × IsAcyclic (graph_onto [] routes))
          ⊎ ((cycle_problem (erase o) ≡ some Problem.cycle)
              × ((u : Text) × Walk (graph_onto [] routes) u u))
    read (passed s) (acyclic a) = inl (refl, a)
    read (cyclic p) (cycle e) = inr (refl, (e.start, EndsInCycle-Walk (graph_onto [] routes) p e))
    read out_of_fuel v = elim v [ ]

-- The first two tests: as many different ids as there are elements.
sizes_agree :
    (xs : List Text) (n : ℕ)
    → length xs ≡ n
    → ((not (length (to_set xs) == n) ≡ false) × IsUnique xs)
      ⊎ ((not (length (to_set xs) == n) ≡ true) × (¬ IsUnique xs))
sizes_agree xs n h =
    let (one, two) = length-IsUnique xs in
    let (eq, same) = ==_iff (length (to_set xs)) n in
    elim (Bool-cases (length (to_set xs) == n)) [
      | inl e ↦ inl (rw e refl, one (eq e ∙ sym h))
      | inr e ↦ inr (rw e refl, λ u. let met = same (two u ∙ h) in cc)
    ]

-- For every backup, _ensureValidRelationships ends, and its answer is right: it accepts only if no
-- two profiles and no two tabs have one id, each profile that a route names is in the backup, and
-- no profile reaches itself along the jump hosts that the last route for each profile gives; each
-- of its four exceptions is thrown only where that part fails.
pub ensure_valid_relationships-Checked : (b : Backup) → Checked b (ensure_valid_relationships b)
unfolding ensure_valid_relationships
ensure_valid_relationships-Checked b =
    elim (sizes_agree (profile_ids b.profiles) (length b.profiles)
      (length-profile_ids b.profiles)) [
        | inr (e, n) ↦ rw e (twice_a_profile n)
        | inl (e, p) ↦ elim (sizes_agree (tab_ids b.tabs) (length b.tabs) (length-tab_ids b.tabs)) [
          | inr (f, n) ↦ rw (e, f) (twice_a_tab n)
          | inl (f, t) ↦ elim (has_unknown-cases (known_ids b) b.routes) [
            | inr (k, (x, m, n)) ↦
                rw (e, f, k)
                  (names_another m (λ l. n ((to_set-Memᴰ x (profile_ids b.profiles)).1 l)))
            | inl (k, h) ↦ elim (search_restored-cases b.routes) [
              | inl (s, a) ↦
                  rw (e, f, k, s)
                    (valid p t (λ x m. (to_set-Memᴰ x (profile_ids b.profiles)).0 (h x m)) a)
              | inr (s, (u, w)) ↦ rw (e, f, k, s) (has_cycle w)
            ]
          ]
        ]
      ]
