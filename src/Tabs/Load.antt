-- ===== src/Tabs/Load.antt =====
-- build of ConnectionTabsController: the tabs that a store gives, without duplicates. Each tab is a
-- new object, so that `identical` compares positions.
use termethis.Base.{
  ℕ, suc, ◌==◌, ltb, Bool, true, false, ◌&&◌, Option, none, some, List, [], ◌∷◌, if◌then◌else◌,
  Text, text_eq, length,
}
use termethis.Tabs.{Tab, Tabs, Protocol, protocol_eq, latest, latest_from, id_of}

-- EphemeralConnectionTabStore: what load makes of a stored tab
abbrev pub as_restored : Tab → Tab
as_restored t = record t { restored = true }

unfoldable pub load : List Tab → List Tab
load [] = []
load (t ∷ ts) = as_restored t ∷ load ts

-- An entry of newestByProfile: its key, and the position and the tab that are its value.
pub record Newest : Type 0 where
  pub profile : Text
  pub protocol : Protocol
  pub position : ℕ
  pub tab : Tab

abbrev pub is_key : Text → Protocol → Newest → Bool
is_key p q e = text_eq e.profile p && protocol_eq e.protocol q

unfoldable pub newest_of : Text → Protocol → List Newest → Option Newest
newest_of p q [] = none
newest_of p q (e ∷ es) = if is_key p q e then some e else newest_of p q es

unfoldable pub set_newest : Newest → List Newest → List Newest
set_newest n [] = n ∷ []
set_newest n (e ∷ es) = if is_key n.profile n.protocol e then n ∷ es else e ∷ set_newest n es

abbrev pub replaces : Tab → Option Newest → Bool
replaces t none = true
replaces t (some e) = ltb e.tab.last_activated_at t.last_activated_at

-- A round of the loop for a tab with a profile.
abbrev pub note_newest : Text → ℕ → Tab → List Newest → List Newest
note_newest p i t es =
    if replaces t (newest_of p t.protocol es)
    then set_newest (record { profile = p; protocol = t.protocol; position = i; tab = t }) es
    else es

abbrev pub note_tab : Option Text → ℕ → Tab → List Newest → List Newest
note_tab none i t es = es
note_tab (some p) i t es = note_newest p i t es

unfoldable pub newest_from : ℕ → List Tab → List Newest → List Newest
unfolding newest_of set_newest
newest_from i [] es = es
newest_from i (t ∷ ts) es = newest_from (suc i) ts (note_tab t.profile_id i t es)

abbrev pub is_at : ℕ → Option Newest → Bool
is_at i none = false
is_at i (some e) = e.position == i

abbrev pub is_newest : Option Text → ℕ → Tab → List Newest → Bool
is_newest none i t es = true
is_newest (some p) i t es = is_at i (newest_of p t.protocol es)

unfoldable pub kept_from : ℕ → List Tab → List Newest → List Tab
unfolding newest_of
kept_from i [] es = []
kept_from i (t ∷ ts) es =
    let rest = kept_from (suc i) ts es in if is_newest t.profile_id i t es then t ∷ rest else rest

-- _withoutDuplicateProfiles
unfoldable pub without_duplicate_profiles : List Tab → List Tab
unfolding newest_from kept_from
without_duplicate_profiles ts = kept_from 0 ts (newest_from 0 ts [])

-- build, on a new controller: the store is written if a tab has been left out.
unfoldable pub build : List Tab → Tabs
unfolding load without_duplicate_profiles latest_from
build stored =
    let tabs = without_duplicate_profiles (load stored) in
    record {
      value = tabs;
      stored = if length tabs == length (load stored) then stored else tabs;
      sequence = 0;
      selected = id_of (latest tabs);
    }
