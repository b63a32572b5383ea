-- ===== src/Backup/Shadows.antt =====
-- The checks of a backup read the last route for each profile, routeFor the first.
use termethis.Base.{
  text_eq_refl, ◌≡◌, inl, inr, refl, sym, ap, ◌∙◌, true, false, Option, none, some, List, [], ◌∷◌,
  if◌then◌else◌, Text, text_eq, text_eq_iff, Bool-cases,
}
use mathlib.Core.List.{Memᴰ}
use mathlib.Core.List.Memᴰ
use mathlib.Core.Logic.{⊎_elim}
use mathlib.Core.Path.{subst}
use termethis.Routes.{Route, Graph, contains, put, graph_onto, targets, route_for}
use termethis.Routes.Graphs.{Edge, Walk, contains-Memᴰ, not_contains}
use termethis.Routes.Jumps.{ids, targets-put, Walk-map}
use termethis.Backup.{
  Backup, Problem, duplicate_profiles, duplicate_tabs, unknown_profile, ensure_valid_relationships,
  restored_routes,
}
use termethis.Backup.Names.{IsNamed}
use termethis.Backup.Restores.{restored_routes-all}
use termethis.Backup.Checks.{
  Checked, valid, twice_a_profile, twice_a_tab, names_another, has_cycle,
  ensure_valid_relationships-Checked,
}

targets-unnamed :
    (rs : List Route) (g : Graph) (u : Text)
    → ¬ Memᴰ u (ids rs)
    → targets (graph_onto g rs) u ≡ targets g u
unfolding graph_onto
targets-unnamed [] g u n = refl
targets-unnamed (r ∷ rs) g u n =
    let rest =
      targets-unnamed rs (put r.profile_id r.jump_profile_ids g) u (λ m. n (Memᴰ.tail m)) in
    let here = targets-put r.profile_id r.jump_profile_ids g u in
    let other : text_eq r.profile_id u ≡ false = elim (Bool-cases (text_eq r.profile_id u)) [
      | inl e ↦ absurd (n (Memᴰ.head (sym ((text_eq_iff r.profile_id u).0 e))))
      | inr e ↦ e
    ] in
    rest ∙ here ∙ ap (λ b. if b then r.jump_profile_ids else targets g u) other

-- What was in the graph for a profile is lost when a route for it comes.
targets-named :
    (rs : List Route) (g h : Graph) (u : Text)
    → Memᴰ u (ids rs)
    → targets (graph_onto g rs) u ≡ targets (graph_onto h rs) u
unfolding graph_onto
targets-named [] g h u m = absurd (Memᴰ.not-nil m)
targets-named (r ∷ rs) g h u m =
    let g' : Graph = put r.profile_id r.jump_profile_ids g in
    let h' : Graph = put r.profile_id r.jump_profile_ids h in
    elim (Bool-cases (contains u (ids rs))) [
      | inl e ↦ targets-named rs g' h' u ((contains-Memᴰ u (ids rs)).0 e)
      | inr e ↦
          let away = not_contains u (ids rs) e in
          let same : u ≡ r.profile_id =
            ⊎_elim (λ p. p) (λ k. absurd (away k)) (Memᴰ.cases_cons m) in
          let hit : text_eq r.profile_id u ≡ true = (text_eq_iff r.profile_id u).1 (sym same) in
          let left : targets g' u ≡ r.jump_profile_ids =
            targets-put r.profile_id r.jump_profile_ids g u
            ∙ ap (λ b. if b then r.jump_profile_ids else targets g u) hit in
          let right : targets h' u ≡ r.jump_profile_ids =
            targets-put r.profile_id r.jump_profile_ids h u
            ∙ ap (λ b. if b then r.jump_profile_ids else targets h u) hit in
          targets-unnamed rs g' u away ∙ left ∙ sym right ∙ sym (targets-unnamed rs h' u away)
    ]

Edge-shadowed :
    (rs : List Route) (k : Text) (vs : List Text) (u v : Text)
    → Memᴰ k (ids rs)
    → Edge (graph_onto (put k vs []) rs) u v
    → Edge (graph_onto [] rs) u v
Edge-shadowed rs k vs u v m e = elim (Bool-cases (contains u (ids rs))) [
  | inl c ↦ subst (Memᴰ v) (targets-named rs (put k vs []) [] u ((contains-Memᴰ u (ids rs)).0 c)) e
  | inr c ↦
      let away = not_contains u (ids rs) c in
      let other : text_eq k u ≡ false = elim (Bool-cases (text_eq k u)) [
        | inl f ↦ absurd (away (subst (λ (x : Text). Memᴰ x (ids rs)) ((text_eq_iff k u).0 f) m))
        | inr f ↦ f
      ] in
      let nothing : targets (graph_onto (put k vs []) rs) u ≡ [] =
        targets-unnamed rs (put k vs []) u away
        ∙ targets-put k vs [] u
        ∙ ap (λ b. if b then vs else []) other in
      absurd (Memᴰ.not-nil (subst (Memᴰ v) nothing e))
]

ids-IsNamed : (x : Text) (rs : List Route) → Memᴰ x (ids rs) → IsNamed x rs
ids-IsNamed x [] m = absurd (Memᴰ.not-nil m)
ids-IsNamed x (r ∷ rs) m =
    ⊎_elim (λ p. inl p) (λ n. inr (inr (ids-IsNamed x rs n))) (Memᴰ.cases_cons m)

-- A route by which a profile is its own jump host.
abbrev pub to_itself : Text → Route
to_itself u = record { profile_id = u; jump_profile_ids = u ∷ [] }

-- A backup with such a route in front of its routes.
abbrev pub with_first : Text → Backup → Backup
with_first u b = record b { routes = to_itself u ∷ b.routes }

route_for-first : (u : Text) (rs : List Route) → route_for u (to_itself u ∷ rs) ≡ some (to_itself u)
unfolding route_for
route_for-first u rs = rw (text_eq_refl u) refl

graph_onto-first :
    (u : Text) (rs : List Route)
    → graph_onto [] (to_itself u ∷ rs) ≡ graph_onto (put u (u ∷ []) []) rs
unfolding graph_onto
graph_onto-first u rs = refl

-- If a backup is accepted and has a route for a profile, then the backup that has, in front of its
-- routes, another one by which that profile is its own jump host is accepted as well, although what
-- is restored of it makes routeFor find the profile among its own jump hosts.
pub ensure_valid_relationships-with_first :
    (b : Backup) (u : Text)
    → ensure_valid_relationships b ≡ none
    → Memᴰ u (ids b.routes)
    → (ensure_valid_relationships (with_first u b) ≡ none)
      × (route_for u (restored_routes (with_first u b)) ≡ some (to_itself u))
ensure_valid_relationships-with_first b u e m =
    let accepted = still (ensure_valid_relationships b) e (ensure_valid_relationships-Checked b) in
    (
      accepted,
      ap (route_for u) (restored_routes-all (with_first u b) accepted) ∙ route_for-first u b.routes,
    )
  where
    refused : (o : Option Problem) → Checked b none → Checked (with_first u b) o → o ≡ none
    refused none c d = refl
    refused (some duplicate_profiles) (valid p t n a) (twice_a_profile d) = absurd (d p)
    refused (some duplicate_tabs) (valid p t n a) (twice_a_tab d) = absurd (d t)
    refused (some unknown_profile) (valid p t n a) (names_another {x} i d) =
        let named : IsNamed u b.routes = ids-IsNamed u b.routes m in
        let it : x ≡ u → ⊥ =
          λ q. d (n x (subst (λ (y : Text). IsNamed y b.routes) (sym q) named)) in
        absurd (
          ⊎_elim it
            (⊎_elim (λ k. ⊎_elim it (λ l. Memᴰ.not-nil l) (Memᴰ.cases_cons k)) (λ k. d (n x k))) i)
    refused (some Problem.cycle) (valid p t n a) (has_cycle {u = w} walk) = absurd (
        a w (
          Walk-map (graph_onto (put u (u ∷ []) []) b.routes) (graph_onto [] b.routes) w w
            (λ x y edge. Edge-shadowed b.routes u (u ∷ []) x y m edge)
            (subst (λ (g : Graph). Walk g w w) (graph_onto-first u b.routes) walk)))

    still :
        (o : Option Problem)
        → o ≡ none
        → Checked b o
        → ensure_valid_relationships (with_first u b) ≡ none
    still none q c =
        refused (ensure_valid_relationships (with_first u b)) c
          (ensure_valid_relationships-Checked (with_first u b))
    still (some x) q c = let no : some x ≡ none = q in cc
