-- ===== src/Routes/Visits.antt =====
-- The recursive search of _ensureAcyclic: with enough depth it returns, what it has finished is in
-- the order of the edges, and what it reports is a cycle.
use mathlib.Core.List.{Memᴰ}
use mathlib.Core.List.Memᴰ
use mathlib.Core.Logic.{⊎_elim}
use mathlib.Core.Path.{subst}
use termethis.Base.{
  ℕ, suc, ◌≤◌, ◌<◌, ◌≡◌, ◌⊎◌, inl, inr, refl, sym, ap, ◌∙◌, true, false, List, [], ◌∷◌,
  if◌then◌else◌, Text, Bool-cases, arith, length,
}
use termethis.Routes.{
  Graph, Search, Outcome, passed, cyclic, out_of_fuel, contains, then_visit, visit_each,
}
use termethis.Routes.Graphs.{Edge, EndsInCycle, contains-Memᴰ}

-- Each id is in the list once, and behind it in the list are all ids that it has edges to.
abbrev pub IsOrdered : Graph → List Text → Type 0
IsOrdered g [] = Unit
IsOrdered g (u ∷ us) = (¬ Memᴰ u us) × ((v : Text) → Edge g u v → Memᴰ v us) × IsOrdered g us

-- The ids that have been met are the finished ones and those on the way.
pub record IsSearch (g : Graph) (s : Search) (finished : List Text) : Type 0 where
  pub ordered : IsOrdered g finished
  pub met : (u : Text) → Memᴰ u s.visited → Memᴰ u finished ⊎ Memᴰ u s.visiting
  pub finished_met : (u : Text) → Memᴰ u finished → Memᴰ u s.visited
  pub visiting_met : (u : Text) → Memᴰ u s.visiting → Memᴰ u s.visited
  pub apart : (u : Text) → Memᴰ u finished → ¬ Memᴰ u s.visiting

abbrev pub Includes : List Text → List Text → Type 0
Includes xs ys = (u : Text) → Memᴰ u xs → Memᴰ u ys

-- What a search from `s` on gives that was to finish `ids`. Running out of fuel is no such thing.
pub data Finds (g : Graph) (s : Search) (finished ids : List Text) : Outcome → Type 0 where
  finds :
      {t : Search}
      → (finished' : List Text) → IsSearch g t finished'
      → Includes finished finished'
      → t.visiting ≡ s.visiting
      → Includes s.visited t.visited
      → Includes ids finished'
      → Finds g s finished ids (passed t)
  meets_cycle : {p : List Text} → EndsInCycle g p → Finds g s finished ids (cyclic p)

module _ (g : Graph) where
  pub then-Finds :
      (s s' : Search) (F F' ids js : List Text) (f : Search → Outcome) (o : Outcome)
      → ((t : Search) (G : List Text)
          → IsSearch g t G
          → Includes F G
          → t.visiting ≡ s.visiting
          → Includes s.visited t.visited
          → Includes ids G
          → Finds g s' F' js (f t))
      → Finds g s F ids o
      → Finds g s' F' js (then_visit o f)
  then-Finds s s' F F' ids js f (passed t) next (finds G inv kept same grown all) =
      next t G inv kept same grown all
  then-Finds s s' F F' ids js f (cyclic p) next (meets_cycle c) = meets_cycle c
  then-Finds s s' F F' ids js f out_of_fuel next h = elim h [ ]

  -- A loop, if each round that starts with the same ids on the way finds its id.
  pub visit_each-Finds :
      (one : Text → Search → Outcome) (ids : List Text) (s : Search) (F : List Text)
      → ((id : Text) (t : Search) (G : List Text)
          → Memᴰ id ids
          → IsSearch g t G
          → t.visiting ≡ s.visiting
          → Includes s.visited t.visited
          → Finds g t G (id ∷ []) (one id t))
      → IsSearch g s F
      → Finds g s F ids (visit_each one ids s)
  unfolding visit_each
  visit_each-Finds one [] s F round inv =
      finds F inv (λ u m. m) refl (λ u m. m) (λ u m. absurd (Memᴰ.not-nil m))
  visit_each-Finds one (id ∷ ids) s F round inv =
      then-Finds s s F F (id ∷ []) (id ∷ ids) (visit_each one ids) (one id s)
        (λ t G inv_t kept same grown first.
          let rest =
            visit_each-Finds one ids t G
              (λ j u H m inv_u same_u grown_u.
                round j u H (Memᴰ.tail m) inv_u (same_u ∙ same) (λ x n. grown_u x (grown x n)))
              inv_t in
          after t G kept same grown first (visit_each one ids t) rest)
        (round id s F (Memᴰ.head refl) inv refl (λ u m. m))
    where
      after :
          (t : Search) (G : List Text)
          → Includes F G
          → t.visiting ≡ s.visiting
          → Includes s.visited t.visited
          → Includes (id ∷ []) G
          → (o : Outcome) → Finds g t G ids o
          → Finds g s F (id ∷ ids) o
      after t G kept same grown first (passed u) (finds H inv_u kept_u same_u grown_u all) =
          finds H inv_u (λ x m. kept_u x (kept x m)) (same_u ∙ same) (λ x m. grown_u x (grown x m))
            (λ x m. ⊎_elim (λ e. kept_u x (first x (Memᴰ.head e))) (all x) (Memᴰ.cases_cons m))
      after t G kept same grown first (cyclic p) (meets_cycle c) = meets_cycle c
      after t G kept same grown first out_of_fuel h = elim h [ ]

-- How many of some ids have not been met.
abbrev pub missing : List Text → List Text → ℕ
missing [] met = 0
missing (u ∷ us) met = if contains u met then missing us met else suc (missing us met)

pub missing-nil : (us : List Text) → missing us [] ≡ length us
missing-nil [] = refl
missing-nil (u ∷ us) = ap suc (missing-nil us)

contains_grown :
    (u : Text) (V W : List Text) → Includes V W → contains u V ≡ true → contains u W ≡ true
contains_grown u V W h e = (contains-Memᴰ u W).1 (h u ((contains-Memᴰ u V).0 e))

pub missing_falls : (us V W : List Text) → Includes V W → missing us W ≤ missing us V
missing_falls [] V W h = omega arith
missing_falls (u ∷ us) V W h =
    let ih = missing_falls us V W h in
    elim (Bool-cases (contains u V)) [
      | inl e ↦ rw (e, contains_grown u V W h e) ih
      | inr e ↦ elim (Bool-cases (contains u W)) [
        | inl w ↦ rw (e, w) (omega arith)
        | inr w ↦ rw (e, w) (omega arith)
      ]
    ]

-- An id that is met for the first time.
pub missing_less :
    (us V : List Text) (id : Text)
    → contains id V ≡ false
    → Memᴰ id us
    → missing us (id ∷ V) < missing us V
missing_less [] V id e m = absurd (Memᴰ.not-nil m)
missing_less (u ∷ us) V id e m = elim (Memᴰ.cases_cons m) [
  | inl p ↦
      let hit : contains u (id ∷ V) ≡ true = (contains-Memᴰ u (id ∷ V)).1 (Memᴰ.head (sym p)) in
      let absent : contains u V ≡ false = subst (λ (x : Text). contains x V ≡ false) p e in
      let rest = missing_falls us V (id ∷ V) (λ x n. Memᴰ.tail n) in rw (hit, absent) (omega arith)
  | inr n ↦
      let ih = missing_less us V id e n in
      elim (Bool-cases (contains u V)) [
        | inl v ↦ rw (contains_grown u V (id ∷ V) (λ x k. Memᴰ.tail k) v, v) ih
        | inr v ↦ elim (Bool-cases (contains u (id ∷ V))) [
          | inl w ↦ rw (w, v) (omega arith)
          | inr w ↦ rw (w, v) (omega arith)
        ]
      ]
]
