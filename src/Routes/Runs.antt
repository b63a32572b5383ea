-- ===== src/Routes/Runs.antt =====
-- The operations of SshRoutesController in any order: what each changes, and what always holds.
use mathlib.Core.List.{Memᴰ}
use mathlib.Core.List.Memᴰ
use mathlib.Core.Logic.{⊎_elim}
use mathlib.Core.Path.{subst}
use termethis.Base.{
  ◌≡◌, ◌≢◌, ◌↔◌, ◌⊎◌, inl, inr, refl, sym, Option, none, some, List, [], ◌∷◌, Text, text_eq,
  text_eq_iff, Bool-cases,
}
use termethis.Routes.{
  Route, Routes, Outcome, passed, cyclic, out_of_fuel, RoutesAction, saves, removes, reloads,
  graph_onto, ensure_acyclic, route_for, with_route, without_profile, save_checked, save_route,
  remove_for, reload, routes_step, routes_run,
}
use termethis.Routes.Graphs.{IsAcyclic, EndsInCycle}
use termethis.Routes.Cycles.{Verdict, acyclic, cycle, ensure_acyclic-Verdict}
use termethis.Routes.Jumps.{
  Jump, ids, IsDistinct, IsFilled, Jump-ids, Edge-Jump, Jump-Edge, Walk-map,
}
use termethis.Routes.Changes.{Jump-with_route, Jump-without_profile}
use termethis.Routes.Shapes.{
  with_route-IsDistinct, with_route-IsFilled, without_profile-IsDistinct, without_profile-IsFilled,
}

-- One route for each profile, each with a jump host, and no cycle.
pub record IsSound (rs : List Route) : Type 0 where
  pub distinct : IsDistinct rs
  pub filled : IsFilled rs
  pub without_cycle : IsAcyclic (graph_onto [] rs)

-- The routes are sound, and the store has them.
pub record IsKept (c : Routes) : Type 0 where
  pub sound : IsSound c.value
  pub in_store : c.stored ≡ c.value

-- What saveRoute does: it saves the jump hosts of its route and leaves those of the other profiles,
-- or it throws and changes nothing.
pub data Saved (r : Route) (c : Routes) : Routes × Option (List Text) → Type 0 where
  saved :
      {d : Routes}
      → d.stored ≡ d.value
      → IsAcyclic (graph_onto [] d.value)
      → ((u v : Text)
          → Jump d.value u v ↔ (
              ((r.profile_id ≡ u) × Memᴰ v r.jump_profile_ids)
              ⊎ ((r.profile_id ≢ u) × Jump c.value u v)))
      → Saved r c (d, none)
  refused :
      {p : List Text} → EndsInCycle (graph_onto [] (with_route r c.value)) p → Saved r c (c, some p)

-- What removeFor does: the jump hosts left are those that the profile has no part in.
pub record Removed (id : Text) (c d : Routes) : Type 0 where
  pub in_store : d.stored ≡ d.value
  pub left : (u v : Text) → Jump d.value u v ↔ ((id ≢ u) × (id ≢ v) × Jump c.value u v)

save_checked-Saved :
    (r : Route) (c : Routes) (o : Outcome)
    → Verdict (graph_onto [] (with_route r c.value)) o
    → Saved r c (save_checked o (with_route r c.value) c)
save_checked-Saved r c (passed s) (acyclic a) = saved refl a (Jump-with_route r c.value)
save_checked-Saved r c (cyclic p) (cycle e) = refused e
save_checked-Saved r c out_of_fuel v = elim v [ ]

-- For every controller: saveRoute either throws, with ids that end in a cycle of the jump hosts as
-- they would be, and changes neither its value nor the store; or both then hold, without a cycle,
-- the jump hosts of the given route for its profile and those there were for every other profile.
-- removeFor leaves, in both, the jump hosts of other profiles that are not the removed one.
pub save_route-remove_for :
    (r : Route) (id : Text) (c : Routes)
    → Saved r c (save_route r c) × Removed id c (remove_for id c)
unfolding save_route remove_for
save_route-remove_for r id c = (
  save_checked-Saved r c (ensure_acyclic (with_route r c.value))
      (ensure_acyclic-Verdict (with_route r c.value)),
  record { in_store = refl; left = Jump-without_profile id c.value },
)

save_checked-IsKept :
    (r : Route) (c : Routes) (o : Outcome)
    → IsKept c
    → Verdict (graph_onto [] (with_route r c.value)) o
    → IsKept (save_checked o (with_route r c.value) c).0
save_checked-IsKept r c (passed s) k (acyclic a) = record {
  sound = record {
    distinct = with_route-IsDistinct r c.value k.sound.distinct;
    filled = with_route-IsFilled r c.value k.sound.filled;
    without_cycle = a;
  };
  in_store = refl;
}
save_checked-IsKept r c (cyclic p) k v = k
save_checked-IsKept r c out_of_fuel k v = k

without_profile-IsSound :
    (id : Text) (rs : List Route) → IsSound rs → IsSound (without_profile id rs)
without_profile-IsSound id rs s = record {
  distinct = without_profile-IsDistinct id rs s.distinct;
  filled = without_profile-IsFilled id rs;
  without_cycle = λ u w. s.without_cycle u (
      Walk-map (graph_onto [] (without_profile id rs)) (graph_onto [] rs) u u
        (λ x y e.
          let (n, m, j) =
            (Jump-without_profile id rs x y).0 (Edge-Jump (without_profile id rs) x y e) in
          Jump-Edge rs x y s.distinct j)
        w);
}

routes_step-IsKept : (a : RoutesAction) (c : Routes) → IsKept c → IsKept (routes_step a c)
unfolding routes_step save_route remove_for reload
routes_step-IsKept (saves r) c k =
    save_checked-IsKept r c (ensure_acyclic (with_route r c.value)) k
      (ensure_acyclic-Verdict (with_route r c.value))
routes_step-IsKept (removes id) c k = record {
  sound = without_profile-IsSound id c.value k.sound;
  in_store = refl;
}
routes_step-IsKept reloads c k = record {
  sound = subst IsSound (sym k.in_store) k.sound;
  in_store = refl;
}

run-IsKept : (actions : List RoutesAction) (c : Routes) → IsKept c → IsKept (routes_run actions c)
unfolding routes_run
run-IsKept [] c k = k
run-IsKept (a ∷ actions) c k = run-IsKept actions (routes_step a c) (routes_step-IsKept a c k)

-- The jump hosts of a profile, as routeFor finds them.
abbrev pub hosts_of : Option Route → List Text
hosts_of none = []
hosts_of (some r) = r.jump_profile_ids

pub route_for-Jump :
    (rs : List Route) (u v : Text)
    → IsDistinct rs
    → Memᴰ v (hosts_of (route_for u rs)) ↔ Jump rs u v
unfolding route_for
route_for-Jump [] u v d = (λ m. absurd (Memᴰ.not-nil m), λ j. elim j [ ])
route_for-Jump (r ∷ rs) u v d =
    let (found, back) = route_for-Jump rs u v d.1 in
    elim (Bool-cases (text_eq r.profile_id u)) [
      | inl e ↦
          let p : r.profile_id ≡ u = (text_eq_iff r.profile_id u).0 e in
          (
            λ m. inl (p, rw e at m),
            λ h. rw e (
                ⊎_elim (λ q. q.1)
                  (λ j.
                    absurd
                      (d.0 (subst (λ (x : Text). Memᴰ x (ids rs)) (sym p) (Jump-ids rs u v j))))
                  h),
          )
      | inr e ↦ (
        λ m. inr (found (rw e at m)),
        λ h.
            rw e
              (⊎_elim (λ q. absurd (let same = (text_eq_iff r.profile_id u).1 q.0 in cc)) back h),
      )
    ]

-- Through any sequence of saveRoute, removeFor and new loads, from a value that the store has too
-- and in which each profile has one route at most, each route has a jump host and no profile
-- reaches itself along jump hosts: the same holds at the end, and routeFor finds exactly the jump
-- hosts that the routes have for a profile.
pub routes_run-IsKept :
    (actions : List RoutesAction) (c : Routes)
    → IsKept c
    → IsKept (routes_run actions c)
      × ((u v : Text)
          → Memᴰ v (hosts_of (route_for u (routes_run actions c).value))
            ↔ Jump (routes_run actions c).value u v)
routes_run-IsKept actions c k =
    let kept = run-IsKept actions c k in
    (kept, λ u v. route_for-Jump (routes_run actions c).value u v kept.sound.distinct)
