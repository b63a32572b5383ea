-- ===== src/Routes/Jumps.antt =====
-- The jump hosts of a list of routes, whatever the order of the routes.
use mathlib.Core.List.{Memᴰ}
use mathlib.Core.List.Memᴰ
use mathlib.Core.Path.{subst}
use termethis.Base.{
  ◌≡◌, ◌⊎◌, inl, inr, refl, sym, ◌∙◌, true, false, List, [], ◌∷◌, if◌then◌else◌, Text, text_eq,
  text_eq_iff, Bool-cases,
}
use termethis.Prompt.{is_empty}
use termethis.Routes.{Route, Graph, put, graph_onto, targets}
use termethis.Routes.Graphs.{Edge, Walk, one, more}

-- `v` is a jump host of `u` in one of the routes.
abbrev pub Jump : List Route → Text → Text → Type 0
Jump [] u v = ⊥
Jump (r ∷ rs) u v = ((r.profile_id ≡ u) × Memᴰ v r.jump_profile_ids) ⊎ Jump rs u v

abbrev pub ids : List Route → List Text
ids [] = []
ids (r ∷ rs) = r.profile_id ∷ ids rs

-- No two routes are for one profile.
abbrev pub IsDistinct : List Route → Type 0
IsDistinct [] = Unit
IsDistinct (r ∷ rs) = (¬ Memᴰ r.profile_id (ids rs)) × IsDistinct rs

-- No route is without a jump host.
abbrev pub IsFilled : List Route → Type 0
IsFilled [] = Unit
IsFilled (r ∷ rs) = (is_empty r.jump_profile_ids ≡ false) × IsFilled rs

pub Jump-ids : (rs : List Route) (u v : Text) → Jump rs u v → Memᴰ u (ids rs)
Jump-ids [] u v h = elim h [ ]
Jump-ids (r ∷ rs) u v (inl p) = Memᴰ.head (sym p.0)
Jump-ids (r ∷ rs) u v (inr h) = Memᴰ.tail (Jump-ids rs u v h)

pub targets-put :
    (k : Text) (vs : List Text) (g : Graph) (u : Text)
    → targets (put k vs g) u ≡ (if text_eq k u then vs else targets g u)
unfolding put
targets-put k vs [] u = refl
targets-put k vs ((j, ws) ∷ g) u =
    let (eq, same) = text_eq_iff j k in
    elim (Bool-cases (text_eq j k)) [
      | inl e ↦
          let p : j ≡ k = eq e in
          elim (Bool-cases (text_eq j u)) [
            | inl f ↦ rw (e, f, subst (λ (x : Text). text_eq x u ≡ true) p f) refl
            | inr f ↦ rw (e, f, subst (λ (x : Text). text_eq x u ≡ false) p f) refl
          ]
      | inr e ↦ elim (Bool-cases (text_eq j u)) [
        | inl f ↦
            let apart : text_eq k u ≡ false = elim (Bool-cases (text_eq k u)) [
              | inl q ↦
                  absurd
                    (let met = same ((text_eq_iff j u).0 f ∙ sym ((text_eq_iff k u).0 q)) in cc)
              | inr q ↦ q
            ] in
            rw (e, f, apart) refl
        | inr f ↦ rw (e, f, targets-put k vs g u) refl
      ]
    ]

-- An edge of the graph is a jump host of a route, or was there before.
Edge-graph_onto :
    (rs : List Route) (g : Graph) (u v : Text)
    → Edge (graph_onto g rs) u v
    → Jump rs u v ⊎ Edge g u v
unfolding graph_onto
Edge-graph_onto [] g u v m = inr m
Edge-graph_onto (r ∷ rs) g u v m =
    elim (Edge-graph_onto rs (put r.profile_id r.jump_profile_ids g) u v m) [
      | inl j ↦ inl (inr j)
      | inr e ↦
          let n : Memᴰ v (if text_eq r.profile_id u then r.jump_profile_ids else targets g u) =
            subst (Memᴰ v) (targets-put r.profile_id r.jump_profile_ids g u) e in
          elim (Bool-cases (text_eq r.profile_id u)) [
            | inl t ↦ inl (inl ((text_eq_iff r.profile_id u).0 t, rw t at n))
            | inr t ↦ inr (rw t at n)
          ]
    ]

-- What was there before stays, if no route is for that profile.
graph_onto-kept :
    (rs : List Route) (g : Graph) (u v : Text)
    → ¬ Memᴰ u (ids rs)
    → Edge g u v
    → Edge (graph_onto g rs) u v
unfolding graph_onto
graph_onto-kept [] g u v away e = e
graph_onto-kept (r ∷ rs) g u v away e =
    let other : text_eq r.profile_id u ≡ false = elim (Bool-cases (text_eq r.profile_id u)) [
      | inl t ↦ absurd (away (Memᴰ.head (sym ((text_eq_iff r.profile_id u).0 t))))
      | inr t ↦ t
    ] in
    let n : Memᴰ v (if text_eq r.profile_id u then r.jump_profile_ids else targets g u) =
      rw other e in
    graph_onto-kept rs (put r.profile_id r.jump_profile_ids g) u v (λ m. away (Memᴰ.tail m))
      (subst (Memᴰ v) (sym (targets-put r.profile_id r.jump_profile_ids g u)) n)

Jump-graph_onto :
    (rs : List Route) (g : Graph) (u v : Text)
    → IsDistinct rs
    → Jump rs u v
    → Edge (graph_onto g rs) u v
unfolding graph_onto
Jump-graph_onto [] g u v d j = elim j [ ]
Jump-graph_onto (r ∷ rs) g u v d (inr j) =
    Jump-graph_onto rs (put r.profile_id r.jump_profile_ids g) u v d.1 j
Jump-graph_onto (r ∷ rs) g u v d (inl (p, m)) =
    let here = (text_eq_iff r.profile_id u).1 p in
    let n : Memᴰ v (if text_eq r.profile_id u then r.jump_profile_ids else targets g u) =
      rw here m in
    graph_onto-kept rs (put r.profile_id r.jump_profile_ids g) u v
      (λ k. d.0 (subst (λ (x : Text). Memᴰ x (ids rs)) (sym p) k))
      (subst (Memᴰ v) (sym (targets-put r.profile_id r.jump_profile_ids g u)) n)

-- The edges of the graph are the jump hosts of the routes.
pub Edge-Jump : (rs : List Route) (u v : Text) → Edge (graph_onto [] rs) u v → Jump rs u v
Edge-Jump rs u v e = elim (Edge-graph_onto rs [] u v e) [
  | inl j ↦ j
  | inr n ↦ absurd (Memᴰ.not-nil n)
]

pub Jump-Edge :
    (rs : List Route) (u v : Text) → IsDistinct rs → Jump rs u v → Edge (graph_onto [] rs) u v
Jump-Edge rs u v d j = Jump-graph_onto rs [] u v d j

pub Walk-map :
    (g h : Graph) (u v : Text) → ((x y : Text) → Edge g x y → Edge h x y) → Walk g u v → Walk h u v
Walk-map g h u v f (one e) = one (f u v e)
Walk-map g h u w f (more {v} p e) = more (Walk-map g h u v f p) (f v w e)
