-- ===== src/Backup.antt =====
-- AppBackupController of lib/features/data_management/application/app_backup_controller.dart: the
-- checks of a backup, its preview, and the tabs and routes that are restored.
pub mod Searches
pub mod Names
pub mod Restores
pub mod Shadows
pub mod Checks
use termethis.Base.{
  ℕ, zero, suc, ◌==◌, Bool, true, false, not, ◌&&◌, Option, none, some, List, [], ◌∷◌, ◌++◌,
  if◌then◌else◌, Text, length,
}
use termethis.Routes.{
  Route, Graph, Search, Outcome, passed, cyclic, out_of_fuel, contains, remove, targets, keys,
  nodes, graph_onto, visit_each, then_visit, enter, leave,
}
use termethis.Tabs.{Tab, Profile}

-- What the checks and the restoring of lists read of an AppBackup
pub record Backup : Type 0 where
  pub profiles : List Profile
  pub tabs : List Tab
  pub routes : List Route

-- The FormatExceptions of _ensureValidRelationships
pub data Problem : Type 0 where
  duplicate_profiles : Problem
  duplicate_tabs : Problem
  unknown_profile : Problem
  cycle : Problem

unfoldable pub profile_ids : List Profile → List Text
profile_ids [] = []
profile_ids (p ∷ ps) = p.id ∷ profile_ids ps

unfoldable pub tab_ids : List Tab → List Text
tab_ids [] = []
tab_ids (t ∷ ts) = t.id ∷ tab_ids ts

-- `toSet`: each id once
unfoldable pub to_set : List Text → List Text
to_set [] = []
to_set (x ∷ xs) = let rest = to_set xs in if contains x rest then rest else x ∷ rest

-- `any` with an id that the set has not
unfoldable pub any_unknown : List Text → List Text → Bool
any_unknown known [] = false
any_unknown known (x ∷ xs) =
    let rest = any_unknown known xs in if contains x known then rest else true

-- The loop over the routes throws; the map that it makes is `graph_onto []`.
unfoldable pub has_unknown : List Text → List Route → Bool
unfolding any_unknown
has_unknown known [] = false
has_unknown known (r ∷ rs) =
    let rest = has_unknown known rs in
    if contains r.profile_id known
    then (if any_unknown known r.jump_profile_ids then true else rest)
    else true

-- The local function `visit`. Its exception has no ids: it is `cyclic []`. The fuel is the depth.
unfoldable pub visit_restored : Graph → ℕ → Text → Search → Outcome
unfolding visit_each
visit_restored g zero id s = out_of_fuel
visit_restored g (suc fuel) id s =
    let deeper = visit_each (visit_restored g fuel) (targets g id) (enter id s) in
    if contains id s.visiting
    then cyclic []
    else if contains id s.visited
    then passed (record s { visiting = remove id (id ∷ s.visiting) })
    else then_visit deeper (leave id)

unfoldable pub search_restored : Graph → Outcome
unfolding visit_each visit_restored
search_restored g =
    visit_each (visit_restored g (suc (length (nodes g)))) (keys g)
      (record { visiting = []; visited = [] })

abbrev pub cycle_problem : Outcome → Option Problem
cycle_problem (passed s) = none
cycle_problem (cyclic ids) = some cycle
cycle_problem out_of_fuel = some cycle

-- _ensureValidRelationships
unfoldable pub ensure_valid_relationships : Backup → Option Problem
unfolding profile_ids tab_ids to_set has_unknown graph_onto search_restored
ensure_valid_relationships b =
    let ids = to_set (profile_ids b.profiles) in
    if not (length ids == length b.profiles)
    then some duplicate_profiles
    else if not (length (to_set (tab_ids b.tabs)) == length b.tabs)
    then some duplicate_tabs
    else if has_unknown ids b.routes
    then some unknown_profile
    else cycle_problem (search_restored (graph_onto [] b.routes))

unfoldable pub count_profiles : (Profile → Bool) → List Profile → ℕ
count_profiles p [] = 0
count_profiles p (x ∷ xs) = let rest = count_profiles p xs in if p x then suc rest else rest

-- A tab that is restored: it has no profile, or one of the backup.
abbrev pub is_kept : List Text → Option Text → Bool
is_kept known none = true
is_kept known (some p) = contains p known

unfoldable pub kept_tabs : List Text → List Tab → List Tab
kept_tabs known [] = []
kept_tabs known (t ∷ ts) =
    let rest = kept_tabs known ts in if is_kept known t.profile_id then t ∷ rest else rest

-- `tab.profileId != null && !restoredIds.contains(tab.profileId)`
abbrev pub is_skipped : List Text → Option Text → Bool
is_skipped known none = false
is_skipped known (some p) = not (contains p known)

unfoldable pub count_skipped : List Text → List Tab → ℕ
count_skipped known [] = 0
count_skipped known (t ∷ ts) =
    let rest = count_skipped known ts in if is_skipped known t.profile_id then suc rest else rest

-- The numbers of an AppBackupPreview
pub record Preview : Type 0 where
  pub new_profiles : ℕ
  pub updated_profiles : ℕ
  pub skipped_tabs : ℕ

-- preview, behind its checks, for the profiles that there are
unfoldable pub preview : List Text → Backup → Preview
unfolding profile_ids to_set count_profiles count_skipped
preview existing b = record {
  new_profiles = count_profiles (λ p. not (contains p.id (to_set existing))) b.profiles;
  updated_profiles = count_profiles (λ p. contains p.id (to_set existing)) b.profiles;
  skipped_tabs = count_skipped (to_set (profile_ids b.profiles)) b.tabs;
}

-- restore: the tabs that are saved
unfoldable pub restored_tabs : Backup → List Tab
unfolding profile_ids to_set kept_tabs
restored_tabs b = kept_tabs (to_set (profile_ids b.profiles)) b.tabs

-- `where(profileIds.contains)`
unfoldable pub kept_ids : List Text → List Text → List Text
kept_ids known [] = []
kept_ids known (x ∷ xs) =
    let rest = kept_ids known xs in if contains x known then x ∷ rest else rest

unfoldable pub kept_routes : List Text → List Route → List Route
unfolding kept_ids
kept_routes known [] = []
kept_routes known (r ∷ rs) =
    let rest = kept_routes known rs in
    if contains r.profile_id known
    then record r { jump_profile_ids = kept_ids known r.jump_profile_ids } ∷ rest
    else rest

-- restore: the routes that are saved
unfoldable pub restored_routes : Backup → List Route
unfolding profile_ids to_set kept_routes
restored_routes b = kept_routes (to_set (profile_ids b.profiles)) b.routes

-- The lists in the stores of tabs and of routes
pub record Stores : Type 0 where
  pub tabs : List Tab
  pub routes : List Route

-- restore, as far as these stores go: a save writes the whole list.
unfoldable pub restore : Backup → Stores → Stores
unfolding restored_tabs restored_routes
restore b s = record s { tabs = restored_tabs b; routes = restored_routes b }
