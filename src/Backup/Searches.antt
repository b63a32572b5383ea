-- ===== src/Backup/Searches.antt =====
-- The search of a backup's checks does what that of SshRoutesController does.
use mathlib.Core.Path.{subst}
use termethis.Base.{
  ℕ, zero, suc, ◌≡◌, refl, sym, ap, List, [], ◌∷◌, ◌++◌, Text, Bool-cases, length, inl, inr,
}
use termethis.Routes.{
  Route, Graph, Search, Outcome, passed, cyclic, out_of_fuel, contains, targets, keys, nodes,
  graph_onto, then_visit, visit_each, visit, enter, leave, ensure_acyclic,
}
use termethis.Routes.Graphs.{remove_entered}
use termethis.Backup.{visit_restored, search_restored}

-- An outcome without the ids of its exception.
abbrev pub erase : Outcome → Outcome
erase (passed s) = passed s
erase (cyclic ids) = cyclic []
erase out_of_fuel = out_of_fuel

erase-then_visit :
    (o o' : Outcome) (f f' : Search → Outcome)
    → erase o ≡ o'
    → ((s : Search) → erase (f s) ≡ f' s)
    → erase (then_visit o f) ≡ then_visit o' f'
erase-then_visit (passed s) o' f f' h k =
    subst (λ (x : Outcome). erase (f s) ≡ then_visit x f') h (k s)
erase-then_visit (cyclic ids) o' f f' h k = ap (λ x. then_visit x f') h
erase-then_visit out_of_fuel o' f f' h k = ap (λ x. then_visit x f') h

erase-visit_each :
    (one one' : Text → Search → Outcome) (ids : List Text) (s : Search)
    → ((id : Text) (t : Search) → erase (one id t) ≡ one' id t)
    → erase (visit_each one ids s) ≡ visit_each one' ids s
unfolding visit_each
erase-visit_each one one' [] s h = refl
erase-visit_each one one' (id ∷ ids) s h =
    erase-then_visit (one id s) (one' id s) (visit_each one ids) (visit_each one' ids) (h id s)
      (λ t. erase-visit_each one one' ids t h)

erase-visit :
    (g : Graph) (fuel : ℕ) (path : List Text) (id : Text) (s : Search)
    → erase (visit g fuel path id s) ≡ visit_restored g fuel id s
unfolding visit visit_restored
erase-visit g zero path id s = refl
erase-visit g (suc fuel) path id s = elim (Bool-cases (contains id s.visiting)) [
  | inl e ↦ rw e refl
  | inr e ↦ elim (Bool-cases (contains id s.visited)) [
    | inl v ↦
        let same = remove_entered id s.visiting e in
        rw (e, v) (ap (λ xs. passed (record s { visiting = xs })) (sym same))
    | inr v ↦
        rw (e, v)
          (erase-then_visit
            (visit_each (visit g fuel (path ++ id ∷ [])) (targets g id) (enter id s))
            (visit_each (visit_restored g fuel) (targets g id) (enter id s)) (leave id) (leave id)
            (erase-visit_each (visit g fuel (path ++ id ∷ [])) (visit_restored g fuel)
              (targets g id) (enter id s) (λ next t. erase-visit g fuel (path ++ id ∷ []) next t))
            (λ t. refl))
  ]
]

pub erase-ensure_acyclic :
    (routes : List Route) → erase (ensure_acyclic routes) ≡ search_restored (graph_onto [] routes)
unfolding ensure_acyclic search_restored
erase-ensure_acyclic routes =
    let g : Graph = graph_onto [] routes in
    erase-visit_each (visit g (suc (length (nodes g))) [])
      (visit_restored g (suc (length (nodes g)))) (keys g) (record { visiting = []; visited = [] })
      (λ id t. erase-visit g (suc (length (nodes g))) [] id t)
