-- ===== src/Tabs/Invariant.antt =====
-- What holds of the tabs of ConnectionTabsController behind any sequence of operations.
use termethis.Tabs.{
  shizuku_id, opened_id, Profile, Tab, Tabs, is_tab_of, find, is_found, first_shizuku, latest_from,
  latest, id_of, update_tab, open_tab, open_shizuku_shell,
}
use termethis.Tabs.Latest.{
  open_shizuku_shell-selected, open_tab-selected, IsSelectedIn, IsTabOf, find_same, update_nil,
  moved_nil, latest_nil, latest_from-IsLatest, latest-IsSelectedIn, first_shizuku-All,
}
use mathlib.Core.Path.{subst}
use termethis.Base.{
  ℕ, ◌≡◌, inl, inr, refl, sym, ap, ◌∙◌, ◌==◌, ==_iff, Bool, true, false, ◌||◌, Option, none, some,
  List, [], ◌∷◌, if_elim, Text, text_eq_iff, Bool-cases, length, ltb,
}
use termethis.Base.Int.{ℤ, pos, negsuc}
use termethis.Prompt.{is_empty}
use termethis.Tabs.Edits.{
  rename, trim, move, move_to, moved, remove_at, index_from, or_latest, selected_tab,
}
use termethis.Tabs.Load.{load, without_duplicate_profiles, build}
use termethis.Tabs.Runs.{
  TabsAction, opens, opens_shizuku, closes, marks_active, renames, moves, restarts, rebuilds,
  tabs_step, tabs_run,
}
use termethis.Tabs.Pairs.{
  same_key, clash, clash_comm, clash_stored, Never, All-imp, Never-update_tab, Never-moved,
}
use termethis.Tabs.Searches.{find-update_tab, find-moved}
use termethis.Tabs.Newest.{
  without_duplicate_profiles-Never, without_duplicate_profiles-all, load-load, load-Never,
  Never-load,
}
use termethis.Tabs.Opens.{
  IsWell, mark_active-IsWell, open_existing-IsWell, shizuku_existing-IsWell, close-IsWell,
}

rename-IsWell : (id title : Text) (c : Tabs) → IsWell c → IsWell (rename id title c)
unfolding rename
rename-IsWell id title c w =
    if_elim IsWell (is_empty (trim title)) (λ e. w)
      (λ e. record {
        apart =
            Never-update_tab clash id (λ t. record t { title = trim title }) c.value (λ t u. refl)
              (λ t u. refl) w.apart;
        chosen =
            selected_renamed id (λ t. record t { title = trim title }) c.value c.selected
              (λ t. refl) w.chosen;
        in_store = refl;
      })
  where
    selected_renamed :
        (id : Text) (f : Tab → Tab) (ts : List Tab) (selected : Option Text)
        → ((t : Tab) → (f t).id ≡ t.id)
        → IsSelectedIn ts selected
        → IsSelectedIn (update_tab id f ts) selected
    selected_renamed id f ts none h k = rw k (update_nil id f)
    selected_renamed id f ts (some s) h k = find-update_tab s id f ts h ∙ k

move_to-IsWell :
    (source : Option ℕ) (target : ℤ) (c : Tabs) → IsWell c → IsWell (move_to source target c)
move_to-IsWell none target c w = w
move_to-IsWell (some source) (negsuc n) c w = w
move_to-IsWell (some source) (pos target) c w =
    if_elim IsWell (ltb target (length c.value))
      (λ e. record {
        apart = Never-moved clash clash_comm source target c.value w.apart;
        chosen = selected_moved c.value c.selected w.chosen;
        in_store = refl;
      })
      (λ e. w)
  where
    selected_moved :
        (ts : List Tab) (selected : Option Text)
        → IsSelectedIn ts selected
        → IsSelectedIn (moved target (remove_at source ts)) selected
    selected_moved ts none k = rw k (moved_nil source target)
    selected_moved ts (some s) k = find-moved s source target ts k

move-IsWell : (id : Text) (target : ℤ) (c : Tabs) → IsWell c → IsWell (move id target c)
unfolding move
move-IsWell id target c w = move_to-IsWell (index_from 0 id c.value) target c w

-- A new controller, from any store in which no two tabs are the ADB shell.
pub build-IsWell : (stored : List Tab) → Never clash_stored stored → IsWell (build stored)
unfolding build
build-IsWell stored a = record {
  apart =
      without_duplicate_profiles-Never (load stored)
        (load-Never clash_stored stored (λ t u. refl) a);
  chosen = latest-IsSelectedIn (without_duplicate_profiles (load stored));
  in_store =
      elim (Bool-cases
        (length (without_duplicate_profiles (load stored)) == length (load stored))) [
          | inl e ↦
              let same = without_duplicate_profiles-all (load stored) (
                (==_iff (length (without_duplicate_profiles (load stored)))
                    (length (load stored))).0
                  e) in
              rw e (sym (ap load same ∙ load-load stored))
          | inr e ↦ rw e refl
        ];
}

clash-stored : (t u : Tab) → clash t u ≡ false → clash_stored t u ≡ false
clash-stored t u h = first (clash_stored t u) (same_key t u) h
  where
    first : (a b : Bool) → (a || b) ≡ false → a ≡ false
    first true b h = h
    first false b h = refl

Never-clash_stored : (ts : List Tab) → Never clash ts → Never clash_stored ts
Never-clash_stored [] a = a
Never-clash_stored (t ∷ ts) a = (
  All-imp (λ u. clash t u ≡ false) (λ u. clash_stored t u ≡ false) ts (λ u h. clash-stored t u h)
      a.0,
  Never-clash_stored ts a.1,
)

restart-IsWell : (c : Tabs) → IsWell c → IsWell (build c.stored)
restart-IsWell c w =
    let kept : Never clash (load c.value) = load-Never clash c.value (λ t u. refl) w.apart in
    let in_store : Never clash (load c.stored) = subst (Never clash) (sym w.in_store) kept in
    build-IsWell c.stored
      (Never-clash_stored c.stored (Never-load clash c.stored (λ t u. refl) in_store))

tabs_step-IsWell : (a : TabsAction) (c : Tabs) → IsWell c → IsWell (tabs_step a c)
unfolding tabs_step open_tab open_shizuku_shell
tabs_step-IsWell (opens p now stamp) c w =
    open_existing-IsWell p now stamp (latest_from (is_tab_of p) none c.value) c
      (latest_from-IsLatest (is_tab_of p) none c.value) w
tabs_step-IsWell (opens_shizuku now stamp) c w =
    shizuku_existing-IsWell now stamp (first_shizuku c.value) c (first_shizuku-All c.value) w
tabs_step-IsWell (closes id) c w = close-IsWell id c w
tabs_step-IsWell (marks_active id now) c w = mark_active-IsWell id now c w
tabs_step-IsWell (renames id title) c w = rename-IsWell id title c w
tabs_step-IsWell (moves id target) c w = move-IsWell id target c w
tabs_step-IsWell restarts c w = restart-IsWell c w
tabs_step-IsWell rebuilds c w =
    let again = restart-IsWell c w in
    record { apart = again.apart; chosen = again.chosen; in_store = again.in_store }

run-IsWell : (actions : List TabsAction) (c : Tabs) → IsWell c → IsWell (tabs_run actions c)
unfolding tabs_run
run-IsWell [] c w = w
run-IsWell (a ∷ actions) c w = run-IsWell actions (tabs_step a c) (tabs_step-IsWell a c w)

-- The tab that selectedTab gives is that of the selected id.
selected_tab-chosen :
    (c : Tabs) → IsSelectedIn c.value c.selected → id_of (selected_tab c) ≡ c.selected
unfolding selected_tab
selected_tab-chosen c h = read c.value c.selected h
  where
    found_tab :
        (id : Text) (ts : List Tab) (o : Option Tab)
        → IsTabOf id o
        → is_found o ≡ true
        → id_of (or_latest o ts) ≡ some id
    found_tab id ts none k h = let no : false ≡ true = h in cc
    found_tab id ts (some t) k h = ap some ((text_eq_iff t.id id).0 k)

    found :
        (id : Text) (ts : List Tab)
        → is_found (find id ts) ≡ true
        → id_of (or_latest (find id ts) ts) ≡ some id
    found id ts h = found_tab id ts (find id ts) (find_same id ts) h

    read :
        (ts : List Tab) (selected : Option Text)
        → IsSelectedIn ts selected
        → id_of (elim selected [ none ↦ latest ts | some id ↦ or_latest (find id ts) ts ])
          ≡ selected
    read ts none h = rw h latest_nil
    read ts (some id) h = found id ts h

-- selectedTab gives the tab of the selected id, and open and openShizukuShell select the tab whose id
-- they return.
pub record SelectsTabs (c : Tabs) : Type 0 where
  pub shows : id_of (selected_tab c) ≡ c.selected
  pub opened :
      (p : Profile) (now stamp : ℕ) → (open_tab p now stamp c).selected ≡ some (opened_id p stamp c)
  pub shell_opened :
      (now stamp : ℕ) → (open_shizuku_shell now stamp c).selected ≡ some (shizuku_id stamp c)

-- On a controller that starts from a store in which no two tabs are the ADB shell, through any
-- sequence of open, openShizukuShell, close, markActive, rename, move and new builds: no two tabs
-- have one profile and one protocol, one at most is the ADB shell, a load of the store gives the
-- tabs; selectedTab gives the tab of the selected id, and none only if there are no tabs; and open
-- and openShizukuShell would select the id that they return.
pub tabs_run-IsWell :
    (stored : List Tab) (actions : List TabsAction)
    → Never clash_stored stored
    → IsWell (tabs_run actions (build stored)) × SelectsTabs (tabs_run actions (build stored))
tabs_run-IsWell stored actions a =
    let c : Tabs = tabs_run actions (build stored) in
    let well = run-IsWell actions (build stored) (build-IsWell stored a) in
    (
      well,
      record {
        shows = selected_tab-chosen c well.chosen;
        opened = λ p now stamp. open_tab-selected p now stamp c;
        shell_opened = λ now stamp. open_shizuku_shell-selected now stamp c;
      },
    )
