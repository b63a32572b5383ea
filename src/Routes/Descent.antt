-- ===== src/Routes/Descent.antt =====
-- The recursive search of _ensureAcyclic from one id on.
use termethis.Routes.Visits.{then-Finds}
use termethis.Routes.Visits.{visit_each-Finds}
use termethis.Routes.Visits.{finds}
use termethis.Routes.Visits.{meets_cycle}
use mathlib.Core.List.{Memᴰ}
use mathlib.Core.List.Memᴰ
use mathlib.Core.Logic.{⊎_elim}
use mathlib.Core.Path.{subst}
use termethis.Base.{
  ℕ, zero, suc, ◌<◌, ◌≡◌, inl, inr, refl, sym, ap, ◌∙◌, false, List, [], ◌∷◌, ◌++◌, Text,
  Bool-cases, arith, append_assoc,
}
use termethis.Routes.{
  Graph, Search, contains, remove, targets, nodes, visit_each, visit, enter, leave,
}
use termethis.Routes.Graphs.{
  Chain, contains-Memᴰ, not_contains, remove_entered, Chain-append, closes-EndsInCycle,
  targets-nodes,
}
use termethis.Routes.Visits.{IsSearch, Includes, Finds, missing, missing_falls, missing_less}

module _ (g : Graph) where
  enter-IsSearch :
      (id : Text) (s : Search) (F : List Text)
      → contains id s.visited ≡ false
      → IsSearch g s F
      → IsSearch g (enter id s) F
  enter-IsSearch id s F new inv = record {
    ordered = inv.ordered;
    met = λ u m.
        ⊎_elim (λ p. inr (Memᴰ.head p))
          (λ n. ⊎_elim (λ f. inl f) (λ v. inr (Memᴰ.tail v)) (inv.met u n)) (Memᴰ.cases_cons m);
    finished_met = λ u m. Memᴰ.tail (inv.finished_met u m);
    visiting_met = λ u m.
        ⊎_elim (λ p. Memᴰ.head p) (λ n. Memᴰ.tail (inv.visiting_met u n)) (Memᴰ.cases_cons m);
    apart = λ u m v.
        ⊎_elim
          (λ p.
            not_contains id s.visited new
              (subst (λ (x : Text). Memᴰ x s.visited) p (inv.finished_met u m)))
          (inv.apart u m) (Memᴰ.cases_cons v);
  }

  -- An id is finished when all that it has edges to is.
  leave-Finds :
      (id : Text) (s t : Search) (F G : List Text)
      → contains id s.visiting ≡ false
      → IsSearch g s F
      → IsSearch g t G
      → Includes F G
      → t.visiting ≡ id ∷ s.visiting
      → Includes (id ∷ s.visited) t.visited
      → Includes (targets g id) G
      → Finds g s F (id ∷ []) (leave id t)
  leave-Finds id s t F G away inv_s inv kept same grown all =
      let left : remove id t.visiting ≡ s.visiting =
        ap (remove id) same ∙ remove_entered id s.visiting away in
      let on_way : (u : Text) → Memᴰ u (id ∷ s.visiting) → Memᴰ u t.visiting =
        λ u. subst (Memᴰ u) (sym same) in
      let off_way : (u : Text) → Memᴰ u (remove id t.visiting) → Memᴰ u s.visiting =
        λ u. subst (Memᴰ u) left in
      let unfinished : ¬ Memᴰ id G = λ m. inv.apart id m (on_way id (Memᴰ.head refl)) in
      finds (id ∷ G)
        record {
          ordered = (unfinished, all, inv.ordered);
          met = λ u m.
              ⊎_elim (λ f. inl (Memᴰ.tail f))
                (λ v.
                  ⊎_elim (λ p. inl (Memᴰ.head p)) (λ w. inr (subst (Memᴰ u) (sym left) w))
                    (Memᴰ.cases_cons (subst (Memᴰ u) same v)))
                (inv.met u m);
          finished_met =
              λ u m. ⊎_elim (λ p. grown u (Memᴰ.head p)) (inv.finished_met u) (Memᴰ.cases_cons m);
          visiting_met = λ u v. grown u (Memᴰ.tail (inv_s.visiting_met u (off_way u v)));
          apart = λ u m v.
              ⊎_elim
                (λ p.
                  not_contains id s.visiting away
                    (subst (λ (x : Text). Memᴰ x s.visiting) p (off_way u v)))
                (λ n. inv.apart u n (on_way u (Memᴰ.tail (off_way u v)))) (Memᴰ.cases_cons m);
        }
        (λ u m. Memᴰ.tail (kept u m)) left (λ u m. grown u (Memᴰ.tail m))
        (λ u m. ⊎_elim (λ p. Memᴰ.head p) (λ n. absurd (Memᴰ.not-nil n)) (Memᴰ.cases_cons m))

  -- The search from one id, with fuel for each id that has not been met.
  pub visit-Finds :
      (fuel : ℕ) (path : List Text) (id : Text) (s : Search) (F : List Text)
      → IsSearch g s F
      → Memᴰ id (nodes g)
      → Includes s.visiting path
      → Chain g (path ++ id ∷ [])
      → missing (nodes g) s.visited < fuel
      → Finds g s F (id ∷ []) (visit g fuel path id s)
  unfolding visit
  visit-Finds zero path id s F inv node way c enough = absurd (omega arith)
  visit-Finds (suc fuel) path id s F inv node way c enough =
      elim (Bool-cases (contains id s.visiting)) [
        | inl e ↦ rw e (
            meets_cycle
              (closes-EndsInCycle g path id (way id ((contains-Memᴰ id s.visiting).0 e)) c))
        | inr e ↦ elim (Bool-cases (contains id s.visited)) [
          | inl v ↦
              let done : Memᴰ id F =
                ⊎_elim (λ f. f) (λ n. absurd (not_contains id s.visiting e n))
                  (inv.met id ((contains-Memᴰ id s.visited).0 v)) in
              rw (e, v)
                (finds F inv (λ u m. m) refl (λ u m. m)
                  (λ u m.
                    ⊎_elim (λ p. subst (λ (x : Text). Memᴰ x F) (sym p) done)
                      (λ n. absurd (Memᴰ.not-nil n)) (Memᴰ.cases_cons m)))
          | inr v ↦
              let less = missing_less (nodes g) s.visited id v node in
              let deeper =
                visit_each-Finds g (visit g fuel (path ++ id ∷ [])) (targets g id) (enter id s) F
                  (λ next t G edge inv_t same grown.
                    let falls = missing_falls (nodes g) (id ∷ s.visited) t.visited grown in
                    visit-Finds fuel (path ++ id ∷ []) next t G inv_t (targets-nodes g id next edge)
                      (λ u m.
                        ⊎_elim (λ p. Memᴰ.append_right path (Memᴰ.head p))
                          (λ n. Memᴰ.append_left (id ∷ []) (way u n))
                          (Memᴰ.cases_cons (subst (Memᴰ u) same m)))
                      (subst (Chain g) (sym (append_assoc path (id ∷ []) (next ∷ [])))
                        (Chain-append g path id next c edge))
                      (omega arith))
                  (enter-IsSearch id s F v inv) in
              rw (e, v)
                (then-Finds g (enter id s) s F F (targets g id) (id ∷ []) (leave id)
                  (visit_each (visit g fuel (path ++ id ∷ [])) (targets g id) (enter id s))
                  (λ t G inv_t kept same grown all.
                    leave-Finds id s t F G e inv inv_t kept same grown all)
                  deeper)
        ]
      ]
