-- ===== src/Routes/Cycles.antt =====
-- What _ensureAcyclic answers for all routes.
use mathlib.Core.List.{Memᴰ}
use mathlib.Core.List.Memᴰ
use mathlib.Core.Logic.{⊎_elim}
use mathlib.Core.Path.{subst}
use termethis.Base.{suc, List, [], ◌∷◌, Text, arith, length}
use termethis.Routes.{
  Graph, Route, Search, Outcome, passed, cyclic, out_of_fuel, keys, nodes, graph_onto, visit,
  ensure_acyclic,
}
use termethis.Routes.Graphs.{Edge, Walk, one, more, IsAcyclic, EndsInCycle, Edge-keys, keys-nodes}
use termethis.Routes.Descent.{visit-Finds}
use termethis.Routes.Visits.{
  IsOrdered, IsSearch, Includes, Finds, finds, meets_cycle, missing-nil, missing_falls,
  visit_each-Finds,
}

edge_stays :
    (g : Graph) (us : List Text) (u v : Text) → IsOrdered g us → Memᴰ u us → Edge g u v → Memᴰ v us
edge_stays g [] u v o m e = absurd (Memᴰ.not-nil m)
edge_stays g (x ∷ us) u v o m e =
    ⊎_elim (λ p. Memᴰ.tail (o.1 v (subst (λ (y : Text). Edge g y v) p e)))
      (λ n. Memᴰ.tail (edge_stays g us u v o.2 n e)) (Memᴰ.cases_cons m)

-- A walk from the first id of an ordered list is behind that id for good.
walk_behind :
    (g : Graph) (x v : Text) (us : List Text) → IsOrdered g (x ∷ us) → Walk g x v → Memᴰ v us
walk_behind g x v us o (one e) = o.1 v e
walk_behind g x w us o (more {v} p e) = edge_stays g us v w o.2 (walk_behind g x v us o p) e

IsOrdered-Walk : (g : Graph) (us : List Text) (u : Text) → IsOrdered g us → Memᴰ u us → ¬ Walk g u u
IsOrdered-Walk g [] u o m w = absurd (Memᴰ.not-nil m)
IsOrdered-Walk g (x ∷ us) u o m w =
    ⊎_elim (λ p. o.0 (walk_behind g x x us o (subst (λ (y : Text). Walk g y y) p w)))
      (λ n. IsOrdered-Walk g us u o.2 n w) (Memᴰ.cases_cons m)

Walk-keys : (g : Graph) (u v : Text) → Walk g u v → Memᴰ u (keys g)
Walk-keys g u v (one e) = Edge-keys g u v e
Walk-keys g u w (more {v} p e) = Walk-keys g u v p

-- An answer of _ensureAcyclic that is right.
pub data Verdict (g : Graph) : Outcome → Type 0 where
  acyclic : {s : Search} → IsAcyclic g → Verdict g (passed s)
  cycle : {p : List Text} → EndsInCycle g p → Verdict g (cyclic p)

Finds-Verdict :
    (g : Graph) (s : Search) (F ids : List Text) (o : Outcome)
    → Includes (keys g) ids
    → Finds g s F ids o
    → Verdict g o
Finds-Verdict g s F ids (passed t) has (finds G inv kept same grown all) =
    acyclic (λ u w. IsOrdered-Walk g G u inv.ordered (all u (has u (Walk-keys g u u w))) w)
Finds-Verdict g s F ids (cyclic p) has (meets_cycle c) = cycle c
Finds-Verdict g s F ids out_of_fuel has h = elim h [ ]

abbrev fresh : Search
fresh = record { visiting = []; visited = [] }

-- For all routes, _ensureAcyclic ends within the depth of one call for each id and one more. If it
-- returns, no profile reaches itself along the jump hosts that the last route for each profile
-- gives; if it throws, the ids in its exception follow such jump hosts and end with a cycle: the
-- last one stands in the list before.
pub ensure_acyclic-Verdict :
    (routes : List Route) → Verdict (graph_onto [] routes) (ensure_acyclic routes)
unfolding ensure_acyclic
ensure_acyclic-Verdict routes =
    let g : Graph = graph_onto [] routes in
    let nothing : IsSearch g fresh [] = record {
      ordered = tt;
      met = λ u m. absurd (Memᴰ.not-nil m);
      finished_met = λ u m. absurd (Memᴰ.not-nil m);
      visiting_met = λ u m. absurd (Memᴰ.not-nil m);
      apart = λ u m n. Memᴰ.not-nil m;
    } in
    let all =
      visit_each-Finds g (visit g (suc (length (nodes g))) []) (keys g) fresh []
        (λ id t G key inv same grown.
          let falls = missing_falls (nodes g) [] t.visited (λ u m. absurd (Memᴰ.not-nil m)) in
          let most = missing-nil (nodes g) in
          visit-Finds g (suc (length (nodes g))) [] id t G inv (keys-nodes g id key)
            (λ u m. subst (Memᴰ u) same m) tt (omega arith))
        nothing in
    Finds-Verdict g fresh [] (keys g) (ensure_acyclic routes) (λ u m. m) all
