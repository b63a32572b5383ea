-- ===== src/Tabs/Edits.antt =====
-- close, rename, move and selectedTab of ConnectionTabsController
-- (lib/features/connections/application/connection_tabs_controller.dart).
use termethis.Base.{
  ℕ, zero, suc, ◌==◌, ltb, Bool, false, ◌&&◌, ◌||◌, Option, none, some, List, [], ◌∷◌,
  if◌then◌else◌, Text, text_eq, length,
}
use termethis.Base.Int.{ℤ, pos, negsuc}
use termethis.Prompt.{is_empty, is_space}
use termethis.Tabs.{Tab, Tabs, save, latest_from, latest, id_of, without_tab, update_tab, find}

abbrev pub is_selected : Text → Option Text → Bool
is_selected id none = false
is_selected id (some s) = text_eq s id

unfoldable pub close : Text → Tabs → Tabs
unfolding without_tab latest_from
close id c =
    let updated = without_tab id c.value in
    save updated
      (if is_selected id c.selected then record c { selected = id_of (latest updated) } else c)

-- Dart's `trim` takes what the page takes for white space, and U+0085.
abbrev pub trim_left : Text → Text
trim_left [] = []
trim_left (x ∷ xs) = let rest = trim_left xs in if is_space x || x == 0x85 then rest else x ∷ xs

abbrev pub trim_right : Text → Text
trim_right [] = []
trim_right (x ∷ xs) =
    let rest = trim_right xs in if (is_space x || x == 0x85) && is_empty rest then [] else x ∷ rest

abbrev pub trim : Text → Text
trim s = trim_right (trim_left s)

unfoldable pub rename : Text → Text → Tabs → Tabs
unfolding update_tab
rename id title c =
    let normalized = trim title in
    let renamed = update_tab id (λ t. record t { title = normalized }) c.value in
    if is_empty normalized then c else save renamed c

-- `indexWhere`, from an index on
unfoldable pub index_from : ℕ → Text → List Tab → Option ℕ
index_from i id [] = none
index_from i id (t ∷ ts) = if text_eq t.id id then some i else index_from (suc i) id ts

-- `removeAt`: the tab and the others
unfoldable pub remove_at : ℕ → List Tab → Option Tab × List Tab
remove_at i [] = (none, [])
remove_at zero (t ∷ ts) = (some t, ts)
remove_at (suc i) (t ∷ ts) = let (u, us) = remove_at i ts in (u, t ∷ us)

unfoldable pub insert_at : ℕ → Tab → List Tab → List Tab
insert_at zero u ts = u ∷ ts
insert_at (suc i) u [] = u ∷ []
insert_at (suc i) u (t ∷ ts) = t ∷ insert_at i u ts

abbrev pub moved : ℕ → Option Tab × List Tab → List Tab
moved target (none, us) = us
moved target (some u, us) = insert_at target u us

abbrev pub move_to : Option ℕ → ℤ → Tabs → Tabs
move_to none target c = c
move_to (some source) (negsuc n) c = c
move_to (some source) (pos target) c =
    let tabs = moved target (remove_at source c.value) in
    if ltb target (length c.value) then save tabs c else c

unfoldable pub move : Text → ℤ → Tabs → Tabs
unfolding index_from remove_at insert_at
move id target c = move_to (index_from 0 id c.value) target c

-- selectedTab
abbrev pub or_latest : Option Tab → List Tab → Option Tab
or_latest none ts = latest ts
or_latest (some t) ts = some t

unfoldable pub selected_tab : Tabs → Option Tab
unfolding find latest_from
selected_tab c = elim c.selected [
  | none ↦ latest c.value
  | some id ↦ or_latest (find id c.value) c.value
]
