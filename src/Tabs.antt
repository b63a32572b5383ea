-- ===== src/Tabs.antt =====
-- ConnectionTabsController of lib/features/connections/application/connection_tabs_controller.dart:
-- the open tabs, the selected one, and what is in the store.
pub mod Load
pub mod Runs
pub mod Pairs
pub mod Searches
pub mod Newest
pub mod Names
pub mod Ids
pub mod Clock
pub mod Entries
pub mod Keeps
pub mod Opens
pub mod Invariant
pub mod Latest
pub mod Edits
use termethis.Base.{
  ℕ, zero, suc, ◌+◌, ◌==◌, ltb, Bool, true, false, ◌&&◌, ◌||◌, not, Option, none, some, List, [],
  ◌∷◌, ◌++◌, if◌then◌else◌, Text, codes, text_eq, decimal, length,
}
use termethis.Base.Int.{ℤ, pos, negsuc}
use termethis.Prompt.{is_empty, is_space}

-- ConnectionProtocol
pub data Protocol : Type 0 where
  ssh : Protocol
  mosh : Protocol
  rdp : Protocol
  vnc : Protocol
  opencode : Protocol
  shizuku_shell : Protocol

abbrev protocol_index : Protocol → ℕ
protocol_index ssh = 0
protocol_index mosh = 1
protocol_index rdp = 2
protocol_index vnc = 3
protocol_index opencode = 4
protocol_index shizuku_shell = 5

abbrev pub protocol_eq : Protocol → Protocol → Bool
protocol_eq p q = protocol_index p == protocol_index q

-- ConnectionType
pub data ConnectionType : Type 0 where
  ssh : ConnectionType
  mosh : ConnectionType
  rdp : ConnectionType
  vnc : ConnectionType
  opencode : ConnectionType

pub data TabState : Type 0 where
  disconnected : TabState
  connecting : TabState
  connected : TabState
  reconnecting : TabState
  failed : TabState

-- ConnectionTab; a time is its number of microseconds. Its restorePolicy has one value only.
pub record Tab : Type 0 where
  pub id : Text
  pub profile_id : Option Text
  pub protocol : Protocol
  pub title : Text
  pub created_at : ℕ
  pub last_activated_at : ℕ
  pub connection_state : TabState
  pub restored : Bool

-- What a tab takes from a ConnectionProfile.
pub record Profile : Type 0 where
  pub id : Text
  pub name : Text
  pub connection_type : ConnectionType

abbrev pub protocol_for : ConnectionType → Protocol
protocol_for ConnectionType.ssh = Protocol.ssh
protocol_for ConnectionType.mosh = Protocol.mosh
protocol_for ConnectionType.rdp = Protocol.rdp
protocol_for ConnectionType.vnc = Protocol.vnc
protocol_for ConnectionType.opencode = Protocol.opencode

-- The fields of the controller, its value, and the list in its store.
pub record Tabs : Type 0 where
  pub value : List Tab
  pub stored : List Tab
  pub sequence : ℕ
  pub selected : Option Text

abbrev pub is_profile : Text → Option Text → Bool
is_profile id none = false
is_profile id (some p) = text_eq p id

-- _nextTabId, at a time
abbrev pub tab_id : ℕ → ℕ → Text
tab_id now sequence = decimal now ++ codes "-" ++ decimal sequence

abbrev pub save : List Tab → Tabs → Tabs
save tabs c = record c { value = tabs; stored = tabs }

-- The later of the tabs; the earlier in the list, if both are as late.
abbrev pub later : Option Tab → Tab → Option Tab
later none t = some t
later (some u) t = if ltb u.last_activated_at t.last_activated_at then some t else some u

-- The fold in open, over the tabs that pass the test before it.
unfoldable pub latest_from : (Tab → Bool) → Option Tab → List Tab → Option Tab
latest_from p best [] = best
latest_from p best (t ∷ ts) = latest_from p (if p t then later best t else best) ts

-- _latest
abbrev pub latest : List Tab → Option Tab
latest ts = latest_from (λ t. true) none ts

abbrev pub id_of : Option Tab → Option Text
id_of none = none
id_of (some t) = some t.id

-- The tabs without that of an id.
unfoldable pub without_tab : Text → List Tab → List Tab
without_tab id [] = []
without_tab id (t ∷ ts) = let rest = without_tab id ts in if text_eq t.id id then rest else t ∷ rest

-- The tabs, that of an id changed.
unfoldable pub update_tab : Text → (Tab → Tab) → List Tab → List Tab
update_tab id f [] = []
update_tab id f (t ∷ ts) = (if text_eq t.id id then f t else t) ∷ update_tab id f ts

unfoldable pub find : Text → List Tab → Option Tab
find id [] = none
find id (t ∷ ts) = if text_eq t.id id then some t else find id ts

abbrev pub is_found : Option Tab → Bool
is_found none = false
is_found (some t) = true

abbrev pub activated : ℕ → Tab → Tab
activated now t = record t { last_activated_at = now; restored = false }

-- _markActive
unfoldable pub mark_active : Text → ℕ → Tabs → Tabs
unfolding find update_tab
mark_active id now c =
    let marked = update_tab id (activated now) c.value in
    if is_found (find id c.value) then save marked (record c { selected = some id }) else c

abbrev pub new_tab : Text → Option Text → Protocol → Text → ℕ → Tab
new_tab id profile_id protocol title now = record {
  id = id;
  profile_id = profile_id;
  protocol = protocol;
  title = title;
  created_at = now;
  last_activated_at = now;
  connection_state = disconnected;
  restored = false;
}

-- A tab with a new id is put behind some tabs, and selected.
abbrev pub add_tab : (Text → Tab) → ℕ → List Tab → Tabs → Tabs
add_tab make stamp tabs c =
    let id = tab_id stamp (c.sequence + 1) in
    save (tabs ++ make id ∷ []) (record c { sequence = c.sequence + 1; selected = some id })

abbrev pub is_tab_of : Profile → Tab → Bool
is_tab_of p t =
    is_profile p.id t.profile_id && protocol_eq t.protocol (protocol_for p.connection_type)

abbrev pub profile_tab : Profile → ℕ → Text → Tab
profile_tab p now id = new_tab id (some p.id) (protocol_for p.connection_type) p.name now

-- open, behind its search
abbrev pub open_existing : Profile → ℕ → ℕ → Option Tab → Tabs → Tabs
open_existing p now stamp none c = add_tab (profile_tab p now) stamp c.value c
open_existing p now stamp (some t) c =
    if t.restored
    then add_tab (profile_tab p now) stamp (without_tab t.id c.value) c
    else mark_active t.id now c

-- open: the state behind it. The clock is read once for the tab and once for its id.
unfoldable pub open_tab : Profile → ℕ → ℕ → Tabs → Tabs
unfolding latest_from without_tab mark_active
open_tab p now stamp c = open_existing p now stamp (latest_from (is_tab_of p) none c.value) c

abbrev pub shizuku_title : Text
shizuku_title = codes "ADB" ++ 0x30b7 ∷ 0x30a7 ∷ 0x30eb ∷ []

abbrev pub shizuku_tab : ℕ → Text → Tab
shizuku_tab now id = new_tab id none shizuku_shell shizuku_title now

abbrev pub is_shizuku : Tab → Bool
is_shizuku t = protocol_eq t.protocol shizuku_shell

unfoldable pub first_shizuku : List Tab → Option Tab
first_shizuku [] = none
first_shizuku (t ∷ ts) = if is_shizuku t then some t else first_shizuku ts

abbrev pub shizuku_existing : ℕ → ℕ → Option Tab → Tabs → Tabs
shizuku_existing now stamp none c = add_tab (shizuku_tab now) stamp c.value c
shizuku_existing now stamp (some t) c = mark_active t.id now c

-- openShizukuShell: the state behind it
unfoldable pub open_shizuku_shell : ℕ → ℕ → Tabs → Tabs
unfolding first_shizuku mark_active
open_shizuku_shell now stamp c = shizuku_existing now stamp (first_shizuku c.value) c

-- The id that open returns
abbrev pub existing_id : ℕ → Option Tab → Tabs → Text
existing_id stamp none c = tab_id stamp (c.sequence + 1)
existing_id stamp (some t) c = if t.restored then tab_id stamp (c.sequence + 1) else t.id

unfoldable pub opened_id : Profile → ℕ → Tabs → Text
unfolding latest_from
opened_id p stamp c = existing_id stamp (latest_from (is_tab_of p) none c.value) c

-- The id that openShizukuShell returns
abbrev pub existing_shell_id : ℕ → Option Tab → Tabs → Text
existing_shell_id stamp none c = tab_id stamp (c.sequence + 1)
existing_shell_id stamp (some t) c = t.id

unfoldable pub shizuku_id : ℕ → Tabs → Text
unfolding first_shizuku
shizuku_id stamp c = existing_shell_id stamp (first_shizuku c.value) c
