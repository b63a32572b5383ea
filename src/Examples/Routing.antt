-- ===== src/Examples/Routing.antt =====
-- Sample routes, tabs and backups.
use termethis.Base.{
  ◌<◌, ◌≢◌, ◌≤◌, All, arith, decimal, ℕ, ◌≡◌, ◌↔◌, refl, false, none, some, List, [], ◌∷◌, ◌++◌,
  Text, codes,
}
use termethis.Tabs.{tab_id, Tab, Profile, ConnectionType, Protocol, disconnected}
use termethis.Tabs.Ids.{same_id}
use termethis.Tabs.Clock.{tabs_run-Never}
use termethis.Tabs.Names.{tab_id_inj}
use termethis.Tabs.Invariant.{SelectsTabs, tabs_run-IsWell}
use mathlib.Core.List.{Memᴰ}
use mathlib.Core.List.Memᴰ
use termethis.Base.Int.{pos}
use termethis.Routes.{
  Route, Routes, cyclic, RoutesAction, saves, removes, reloads, graph_onto, ensure_acyclic,
  save_route, remove_for, routes_run, no_routes, route_for,
}
use termethis.Routes.Graphs.{Walk, one, more}
use termethis.Routes.Cycles.{Verdict, ensure_acyclic-Verdict}
use termethis.Routes.Jumps.{Jump, IsDistinct}
use termethis.Routes.Runs.{
  IsKept, Saved, Removed, hosts_of, save_route-remove_for, routes_run-IsKept,
}
use termethis.Tabs.Load.{build, without_duplicate_profiles}
use termethis.Tabs.Keeps.{KeepsNewest, without_duplicate_profiles-KeepsNewest}
use termethis.Tabs.Pairs.{Never, clash_stored}
use termethis.Tabs.Runs.{
  TabsAction, opens, opens_shizuku, closes, moves, restarts, rebuilds, tabs_run,
}
use termethis.Tabs.Opens.{IsWell}
use termethis.Backup.{Backup, ensure_valid_relationships, restored_routes, Stores, restore}
use termethis.Backup.Checks.{Checked, ensure_valid_relationships-Checked}
use termethis.Backup.Restores.{IsRestored, HostWalk, restore-IsRestored, restore-HostWalk}
use mathlib.Core.Logic.{⊎_elim}
use termethis.Backup.Shadows.{to_itself, with_first, ensure_valid_relationships-with_first}

abbrev route : Text → List Text → Route
route id hosts = record { profile_id = id; jump_profile_ids = hosts }

-- "a" behind "b", "b" behind "c"
abbrev two_routes : List Route
two_routes = route (codes "a") (codes "b" ∷ []) ∷ route (codes "b") (codes "c" ∷ []) ∷ []

-- and "c" behind "a"
abbrev round_trip : List Route
round_trip = two_routes ++ route (codes "c") (codes "a" ∷ []) ∷ []

-- The exception has the ids of the way round.
round_trip_test :
    ensure_acyclic round_trip ≡ cyclic (codes "a" ∷ codes "b" ∷ codes "c" ∷ codes "a" ∷ [])
unfolding ensure_acyclic
round_trip_test = refl

ensure_acyclic-Verdict_example : Verdict (graph_onto [] round_trip) (ensure_acyclic round_trip)
ensure_acyclic-Verdict_example = ensure_acyclic-Verdict round_trip

abbrev two_kept : Routes
two_kept = record { value = two_routes; stored = two_routes }

save_route-remove_for_example :
    Saved
      (route (codes "c") (codes "a" ∷ []))
      two_kept
      (save_route (route (codes "c") (codes "a" ∷ [])) two_kept)
    × Removed (codes "b") two_kept (remove_for (codes "b") two_kept)
save_route-remove_for_example =
    save_route-remove_for (route (codes "c") (codes "a" ∷ [])) (codes "b") two_kept

no-Walk : (u v : Text) → ¬ Walk [] u v
no-Walk u v (one e) = Memᴰ.not-nil e
no-Walk u w (more {v} p e) = no-Walk u v p

no_routes-IsKept : IsKept no_routes
unfolding no_routes graph_onto
no_routes-IsKept = record {
  sound = record { distinct = tt; filled = tt; without_cycle = λ u w. no-Walk u u w };
  in_store = refl;
}

-- Two routes, one that would close a cycle, the removal of a profile, and a new load.
abbrev route_actions : List RoutesAction
route_actions =
    saves (route (codes "a") (codes "b" ∷ codes "c" ∷ []))
    ∷ saves (route (codes "b") (codes "c" ∷ []))
    ∷ saves (route (codes "c") (codes "a" ∷ []))
    ∷ removes (codes "c")
    ∷ reloads
    ∷ []

route_actions_test :
    (routes_run route_actions no_routes).value ≡ route (codes "a") (codes "b" ∷ []) ∷ []
unfolding routes_run no_routes
route_actions_test = refl

routes_run-IsKept_example :
    IsKept (routes_run route_actions no_routes)
    × ((u v : Text)
        → Memᴰ v (hosts_of (route_for u (routes_run route_actions no_routes).value))
          ↔ Jump (routes_run route_actions no_routes).value u v)
routes_run-IsKept_example = routes_run-IsKept route_actions no_routes no_routes-IsKept

abbrev tab : Text → Text → ℕ → Tab
tab id profile now = record {
  id = id;
  profile_id = some profile;
  protocol = Protocol.ssh;
  title = profile;
  created_at = now;
  last_activated_at = now;
  connection_state = disconnected;
  restored = false;
}

abbrev profile : Text → Profile
profile id = record { id = id; name = id; connection_type = ConnectionType.ssh }

-- Two tabs of one profile, the first the newer, and one of another.
abbrev stored_tabs : List Tab
stored_tabs =
    tab (codes "9-1") (codes "a") 9
    ∷ tab (codes "5-1") (codes "a") 5
    ∷ tab (codes "7-1") (codes "b") 7
    ∷ []

abbrev tab_actions : List TabsAction
tab_actions =
    opens (profile (codes "b")) 20 21
    ∷ opens_shizuku 22 23
    ∷ moves (codes "23-2") (pos 0)
    ∷ closes (codes "23-2")
    ∷ restarts
    ∷ opens (profile (codes "c")) 30 31
    ∷ rebuilds
    ∷ []

stored_tabs_apart : Never clash_stored stored_tabs
stored_tabs_apart = ((refl, (refl, tt)), ((refl, tt), (tt, tt)))

tab_actions_test : (tabs_run tab_actions (build stored_tabs)).selected ≡ some (codes "31-1")
unfolding tabs_run build decimal
tab_actions_test = refl

tabs_run-IsWell_example :
    IsWell (tabs_run tab_actions (build stored_tabs))
    × SelectsTabs (tabs_run tab_actions (build stored_tabs))
tabs_run-IsWell_example = tabs_run-IsWell stored_tabs tab_actions stored_tabs_apart

stored_ids : All (λ t. (s q : ℕ) → 21 ≤ s → t.id ≢ tab_id s q) stored_tabs
unfolding decimal
stored_ids = (earlier 9 (omega arith), (earlier 5 (omega arith), (earlier 7 (omega arith), tt)))
  where
    earlier : (at : ℕ) → at < 21 → (s q : ℕ) → 21 ≤ s → tab_id at 1 ≢ tab_id s q
    earlier at h s q l e = let (a, b) = tab_id_inj at 1 s q e in absurd (omega arith)

tabs_run-Never_example : Never same_id (tabs_run tab_actions (build stored_tabs)).value
unfolding decimal
tabs_run-Never_example =
    tabs_run-Never stored_tabs tab_actions 21 ((refl, (refl, tt)), ((refl, tt), (tt, tt)))
      stored_ids (omega arith, (omega arith, (omega arith, tt)))

abbrev backup : Backup
backup = record {
  profiles = profile (codes "a") ∷ profile (codes "b") ∷ profile (codes "c") ∷ [];
  tabs = tab (codes "1-1") (codes "a") 1 ∷ tab (codes "2-2") (codes "z") 2 ∷ [];
  routes = two_routes;
}

backup_valid : ensure_valid_relationships backup ≡ none
unfolding ensure_valid_relationships
backup_valid = refl

ensure_valid_relationships-Checked_example : Checked backup (ensure_valid_relationships backup)
ensure_valid_relationships-Checked_example = ensure_valid_relationships-Checked backup

abbrev stores : Stores
stores = record { tabs = stored_tabs; routes = round_trip }

restore-IsRestored_example : IsRestored (codes "a" ∷ []) backup (restore backup stores)
restore-IsRestored_example = restore-IsRestored (codes "a" ∷ []) backup stores backup_valid

apart_ids : IsDistinct two_routes
apart_ids = (
  λ m. ⊎_elim (λ e. grind arith) (λ n. Memᴰ.not-nil n) (Memᴰ.cases_cons m),
  (λ m. Memᴰ.not-nil m, tt),
)

restore-HostWalk_example : ¬ HostWalk (restore backup stores).routes (codes "a") (codes "a")
restore-HostWalk_example = restore-HostWalk backup stores (codes "a") backup_valid apart_ids

ensure_valid_relationships-with_first_example :
    (ensure_valid_relationships (with_first (codes "a") backup) ≡ none)
    × (route_for (codes "a") (restored_routes (with_first (codes "a") backup))
        ≡ some (to_itself (codes "a")))
ensure_valid_relationships-with_first_example =
    ensure_valid_relationships-with_first backup (codes "a") backup_valid (Memᴰ.head refl)

without_duplicate_profiles-KeepsNewest_example :
    KeepsNewest stored_tabs (without_duplicate_profiles stored_tabs)
without_duplicate_profiles-KeepsNewest_example = without_duplicate_profiles-KeepsNewest stored_tabs
