-- ===== src/Tabs/Runs.antt =====
-- The operations of ConnectionTabsController in any order; its queue of mutations makes each one
-- whole.
use termethis.Base.{ℕ, List, [], ◌∷◌, Text}
use termethis.Base.Int.{ℤ}
use termethis.Tabs.{Tabs, Profile, open_tab, open_shizuku_shell, mark_active}
use termethis.Tabs.Edits.{close, rename, move}
use termethis.Tabs.Load.{build}

-- `restarts` is a new controller, `rebuilds` a new build of the same one.
pub data TabsAction : Type 0 where
  opens : Profile → ℕ → ℕ → TabsAction
  opens_shizuku : ℕ → ℕ → TabsAction
  closes : Text → TabsAction
  marks_active : Text → ℕ → TabsAction
  renames : Text → Text → TabsAction
  moves : Text → ℤ → TabsAction
  restarts : TabsAction
  rebuilds : TabsAction

unfoldable pub tabs_step : TabsAction → Tabs → Tabs
unfolding open_tab open_shizuku_shell close mark_active rename move build
tabs_step (opens p now stamp) c = open_tab p now stamp c
tabs_step (opens_shizuku now stamp) c = open_shizuku_shell now stamp c
tabs_step (closes id) c = close id c
tabs_step (marks_active id now) c = mark_active id now c
tabs_step (renames id title) c = rename id title c
tabs_step (moves id target) c = move id target c
tabs_step restarts c = build c.stored
tabs_step rebuilds c = record (build c.stored) { sequence = c.sequence }

unfoldable pub tabs_run : List TabsAction → Tabs → Tabs
unfolding tabs_step
tabs_run [] c = c
tabs_run (a ∷ actions) c = tabs_run actions (tabs_step a c)
