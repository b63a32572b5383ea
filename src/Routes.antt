-- ===== src/Routes.antt =====
-- SshRoutesController of lib/features/connections/application/ssh_routes_controller.dart: the jump
-- hosts of each connection, and the search for cycles among them.
pub mod Graphs
pub mod Visits
pub mod Cycles
pub mod Jumps
pub mod Changes
pub mod Shapes
pub mod Descent
pub mod Runs
use mathlib.Core.List.{filter, foldl}
use termethis.Base.{
  ℕ, zero, suc, Bool, true, false, not, Option, none, some, List, [], ◌∷◌, ◌++◌, if◌then◌else◌,
  Text, text_eq, length, map, join,
}
use termethis.Prompt.{is_empty}

-- SshRouteConfiguration
pub record Route : Type 0 where
  pub profile_id : Text
  pub jump_profile_ids : List Text

abbrev pub contains : Text → List Text → Bool
contains id [] = false
contains id (x ∷ xs) = if text_eq x id then true else contains id xs

-- A set of ids loses one.
abbrev pub remove : Text → List Text → List Text
remove id [] = []
remove id (x ∷ xs) = if text_eq x id then remove id xs else x ∷ remove id xs

-- The map from each profile to its jump hosts, in the order of insertion.
abbrev pub Graph : Type 0
Graph = List (Text × List Text)

-- An entry of a map literal: it replaces the value of an equal key.
unfoldable pub put : Text → List Text → Graph → Graph
put id ids [] = (id, ids) ∷ []
put id ids ((k, v) ∷ g) = if text_eq k id then (k, ids) ∷ g else (k, v) ∷ put id ids g

unfoldable pub graph_onto : Graph → List Route → Graph
unfolding put
graph_onto g [] = g
graph_onto g (r ∷ rs) = graph_onto (put r.profile_id r.jump_profile_ids g) rs

abbrev pub keys : Graph → List Text
keys [] = []
keys ((k, v) ∷ g) = k ∷ keys g

-- `graph[profileId] ?? const []`
abbrev pub targets : Graph → Text → List Text
targets [] id = []
targets ((k, v) ∷ g) id = if text_eq k id then v else targets g id

-- The sets of _ensureAcyclic.
pub record Search : Type 0 where
  pub visiting : List Text
  pub visited : List Text

-- SshRouteCycleException, with its ids, is `cyclic`.
pub data Outcome : Type 0 where
  passed : Search → Outcome
  cyclic : List Text → Outcome
  out_of_fuel : Outcome

abbrev pub then_visit : Outcome → (Search → Outcome) → Outcome
then_visit (passed s) f = f s
then_visit (cyclic ids) f = cyclic ids
then_visit out_of_fuel f = out_of_fuel

-- A loop that visits one id after another.
unfoldable pub visit_each : (Text → Search → Outcome) → List Text → Search → Outcome
visit_each one [] s = passed s
visit_each one (id ∷ ids) s = then_visit (one id s) (visit_each one ids)

abbrev pub enter : Text → Search → Search
enter id s = record { visiting = id ∷ s.visiting; visited = id ∷ s.visited }

abbrev pub leave : Text → Search → Outcome
leave id s = passed (record s { visiting = remove id s.visiting })

-- The local function `visit`; the fuel is the depth.
unfoldable pub visit : Graph → ℕ → List Text → Text → Search → Outcome
unfolding visit_each
visit g zero path id s = out_of_fuel
visit g (suc fuel) path id s =
    let deeper = visit_each (visit g fuel (path ++ id ∷ [])) (targets g id) (enter id s) in
    if contains id s.visiting
    then cyclic (path ++ id ∷ [])
    else if contains id s.visited
    then passed s
    else then_visit deeper (leave id)

-- Every id that the search can meet.
abbrev pub nodes : Graph → List Text
nodes [] = []
nodes ((k, v) ∷ g) = k ∷ (v ++ nodes g)

-- _ensureAcyclic
unfoldable pub ensure_acyclic : List Route → Outcome
unfolding graph_onto visit
ensure_acyclic routes =
    let g = graph_onto [] routes in
    visit_each (visit g (suc (length (nodes g))) []) (keys g)
      (record { visiting = []; visited = [] })

-- The controller's value, and what is in its store.
pub record Routes : Type 0 where
  pub value : List Route
  pub stored : List Route

unfoldable pub route_for : Text → List Route → Option Route
route_for id [] = none
route_for id (r ∷ rs) = if text_eq r.profile_id id then some r else route_for id rs

-- `current` without the route of a profile
unfoldable pub others : Text → List Route → List Route
others id [] = []
others id (r ∷ rs) = if text_eq r.profile_id id then others id rs else r ∷ others id rs

unfoldable pub with_route : Route → List Route → List Route
unfolding others
with_route route current =
    others route.profile_id current ++ (if is_empty route.jump_profile_ids then [] else route ∷ [])

abbrev pub save : List Route → Routes → Routes
save routes c = record { value = routes; stored = routes }

abbrev pub save_checked : Outcome → List Route → Routes → Routes × Option (List Text)
save_checked (passed s) routes c = (save routes c, none)
save_checked (cyclic ids) routes c = (c, some ids)
save_checked out_of_fuel routes c = (c, some [])

-- saveRoute, and the exception that it throws
unfoldable pub save_route : Route → Routes → Routes × Option (List Text)
unfolding with_route ensure_acyclic
save_route route c =
    let updated = with_route route c.value in save_checked (ensure_acyclic updated) updated c

abbrev pub without_jump : Text → Route → Route
without_jump id r = record r { jump_profile_ids = remove id r.jump_profile_ids }

-- The chain of `where` and `map` in removeFor.
unfoldable pub without_profile : Text → List Route → List Route
without_profile id [] = []
without_profile id (r ∷ rs) =
    let rest = without_profile id rs in
    if text_eq r.profile_id id
    then rest
    else if is_empty (remove id r.jump_profile_ids)
    then rest
    else without_jump id r ∷ rest

-- removeFor
unfoldable pub remove_for : Text → Routes → Routes
unfolding without_profile
remove_for id c = save (without_profile id c.value) c

-- build, when the provider is made again
unfoldable pub reload : Routes → Routes
reload c = record c { value = c.stored }

pub data RoutesAction : Type 0 where
  saves : Route → RoutesAction
  removes : Text → RoutesAction
  reloads : RoutesAction

unfoldable pub routes_step : RoutesAction → Routes → Routes
unfolding save_route remove_for reload
routes_step (saves route) c = (save_route route c).0
routes_step (removes id) c = remove_for id c
routes_step reloads c = reload c

unfoldable pub routes_run : List RoutesAction → Routes → Routes
unfolding routes_step
routes_run [] c = c
routes_run (a ∷ actions) c = routes_run actions (routes_step a c)

unfoldable pub no_routes : Routes
no_routes = record { value = []; stored = [] }
