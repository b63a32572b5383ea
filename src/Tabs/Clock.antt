-- ===== src/Tabs/Clock.antt =====
-- Sequences of operations of ConnectionTabsController whose times of new ids do not go back.
use termethis.Base.{ℕ, suc, ◌≤◌, ◌≢◌, none, List, [], ◌∷◌, All, arith}
use termethis.Tabs.{
  Tab, Tabs, tab_id, is_tab_of, first_shizuku, latest_from, mark_active, open_tab,
  open_shizuku_shell,
}
use termethis.Tabs.Edits.{close, rename, move, index_from}
use termethis.Tabs.Load.{build}
use termethis.Tabs.Runs.{
  TabsAction, opens, opens_shizuku, closes, marks_active, renames, moves, restarts, rebuilds,
  tabs_step, tabs_run,
}
use termethis.Tabs.Pairs.{All-imp, Never}
use termethis.Tabs.Ids.{
  same_id, IsOld, HasIds, mark_active-HasIds, open_existing-HasIds, shizuku_existing-HasIds,
  close-HasIds, rename-HasIds, move_to-HasIds, build-HasIds,
}

-- Each new id is made at the time of the one before it or later, and one of a new controller later.
abbrev pub HasClock : List TabsAction → ℕ → Type 0
HasClock [] clock = Unit
HasClock (opens p now stamp ∷ actions) clock = (clock ≤ stamp) × HasClock actions stamp
HasClock (opens_shizuku now stamp ∷ actions) clock = (clock ≤ stamp) × HasClock actions stamp
HasClock (closes id ∷ actions) clock = HasClock actions clock
HasClock (marks_active id now ∷ actions) clock = HasClock actions clock
HasClock (renames id title ∷ actions) clock = HasClock actions clock
HasClock (moves id target ∷ actions) clock = HasClock actions clock
HasClock (restarts ∷ actions) clock = HasClock actions (suc clock)
HasClock (rebuilds ∷ actions) clock = HasClock actions clock

-- A new controller numbers its ids from 1 again.
restart-HasIds : (clock : ℕ) (c : Tabs) → HasIds clock c → HasIds (suc clock) (build c.stored)
unfolding build
restart-HasIds clock c i =
    let again =
      build-HasIds (suc clock) 0 c.stored
        (All-imp (λ t. IsOld clock c.sequence t.id) (λ t. IsOld (suc clock) 0 t.id) c.stored
          (λ t o. (λ s q l. o.0 s q (omega arith), λ s q l g. o.0 s q (omega arith))) i.old_stored)
        i.apart_stored in
    record {
      old = again.old;
      old_stored = again.old_stored;
      apart = again.apart;
      apart_stored = again.apart_stored;
    }

run-HasIds :
    (actions : List TabsAction) (clock : ℕ) (c : Tabs)
    → HasClock actions clock
    → HasIds clock c
    → Never same_id (tabs_run actions c).value
unfolding tabs_run tabs_step open_tab open_shizuku_shell move
run-HasIds [] clock c h i = i.apart
run-HasIds (opens p now stamp ∷ actions) clock c h i =
    run-HasIds actions stamp (open_tab p now stamp c) h.1
      (open_existing-HasIds clock p now stamp (latest_from (is_tab_of p) none c.value) c h.0 i)
run-HasIds (opens_shizuku now stamp ∷ actions) clock c h i =
    run-HasIds actions stamp (open_shizuku_shell now stamp c) h.1
      (shizuku_existing-HasIds clock now stamp (first_shizuku c.value) c h.0 i)
run-HasIds (closes id ∷ actions) clock c h i =
    run-HasIds actions clock (close id c) h (close-HasIds clock id c i)
run-HasIds (marks_active id now ∷ actions) clock c h i =
    run-HasIds actions clock (mark_active id now c) h (mark_active-HasIds clock id now c i)
run-HasIds (renames id title ∷ actions) clock c h i =
    run-HasIds actions clock (rename id title c) h (rename-HasIds clock id title c i)
run-HasIds (moves id target ∷ actions) clock c h i =
    run-HasIds actions clock (move id target c) h
      (move_to-HasIds clock (index_from 0 id c.value) target c i)
run-HasIds (restarts ∷ actions) clock c h i =
    run-HasIds actions (suc clock) (build c.stored) h (restart-HasIds clock c i)
run-HasIds (rebuilds ∷ actions) clock c h i =
    run-HasIds actions clock (record (build c.stored) { sequence = c.sequence }) h
      (build-HasIds clock c.sequence c.stored i.old_stored i.apart_stored)

-- No two tabs of a store have one id, and none has an id that _nextTabId makes at a time from `start`
-- on. Then, through any sequence of operations in which the times for new ids, at each open and
-- openShizukuShell, start at `start` or later and do not go back, and are later at a new controller
-- than those before it: no two tabs have one id, though a new controller numbers its ids from 1 again.
pub tabs_run-Never :
    (stored : List Tab) (actions : List TabsAction) (start : ℕ)
    → Never same_id stored
    → All (λ t. (s q : ℕ) → start ≤ s → t.id ≢ tab_id s q) stored
    → HasClock actions start
    → Never same_id (tabs_run actions (build stored)).value
unfolding build
tabs_run-Never stored actions start apart old h =
    let i =
      build-HasIds start 0 stored
        (All-imp (λ t. (s q : ℕ) → start ≤ s → t.id ≢ tab_id s q) (λ t. IsOld start 0 t.id) stored
          (λ t o. (λ s q l. o s q (omega arith), λ s q l g. o s q l)) old)
        apart in
    run-HasIds actions start (build stored) h (record {
      old = i.old;
      old_stored = i.old_stored;
      apart = i.apart;
      apart_stored = i.apart_stored;
    })
