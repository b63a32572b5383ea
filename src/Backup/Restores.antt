-- ===== src/Backup/Restores.antt =====
-- What restore makes of a backup that _ensureValidRelationships accepts.
use termethis.Routes.Jumps.{Jump-Edge, IsDistinct}
use termethis.Routes.Graphs.{Edge, one, more, contains-Memᴰ, Walk, IsAcyclic}
use termethis.Routes.{route_for, Route, graph_onto}
use termethis.Backup.{
  restore, Stores, contains, Backup, Problem, profile_ids, to_set, ensure_valid_relationships,
  is_kept, preview, restored_tabs, restored_routes,
}
use mathlib.Core.List.{Memᴰ}
use mathlib.Core.Path.{subst}
use termethis.Routes.Runs.{hosts_of, route_for-Jump}
use termethis.Backup.Checks.{Checked, valid, known_ids, ensure_valid_relationships-Checked}
use termethis.Base.{◌+◌, ◌≡◌, ◌↔◌, refl, true, Option, none, some, List, [], Text, length}
use termethis.Tabs.{Tab}
use termethis.Backup.Names.{to_set-Memᴰ, kept_routes-all, skipped-kept, count-not, Memᴰ-kept_tabs}

-- A tab has no profile, or one with one of the ids.
abbrev pub IsOwned : List Text → Option Text → Type 0
IsOwned ids none = Unit
IsOwned ids (some p) = Memᴰ p ids

is_kept-IsOwned : (xs : List Text) (p : Option Text) → (is_kept (to_set xs) p ≡ true) ↔ IsOwned xs p
is_kept-IsOwned xs none = (λ h. tt, λ h. refl)
is_kept-IsOwned xs (some p) =
    let (found, has) = contains-Memᴰ p (to_set xs) in
    let (less, back) = to_set-Memᴰ p xs in (λ h. less (found h), λ m. has (back m))

-- What the stores are behind restore: the routes of the backup as they are, and the tabs of it that
-- have no profile or one of the backup; the preview counts the others, and each profile once.
pub record IsRestored (existing : List Text) (b : Backup) (s : Stores) : Type 0 where
  pub routes_same : s.routes ≡ b.routes
  pub tabs_kept :
      (t : Tab) → Memᴰ t s.tabs ↔ (Memᴰ t b.tabs × IsOwned (profile_ids b.profiles) t.profile_id)
  pub tabs_counted : (preview existing b).skipped_tabs + length s.tabs ≡ length b.tabs
  pub profiles_counted :
      (preview existing b).new_profiles + (preview existing b).updated_profiles ≡ length b.profiles

-- If a backup is accepted, then whatever tabs and routes were stored before, what is stored behind
-- restore is the routes of the backup as they are and exactly the tabs of the backup that have no
-- profile or one of the backup: nothing of what was stored before is kept besides. Their number and
-- the skipped tabs of the preview make up all tabs of the backup, and the profiles that the preview
-- counts as new or updated make up all its profiles.
pub restore-IsRestored :
    (existing : List Text) (b : Backup) (s : Stores)
    → ensure_valid_relationships b ≡ none
    → IsRestored existing b (restore b s)
unfolding preview restore restored_tabs restored_routes
restore-IsRestored existing b s e =
    restored (ensure_valid_relationships b) (ensure_valid_relationships-Checked b) e
  where
    restored : (o : Option Problem) → Checked b o → o ≡ none → IsRestored existing b (restore b s)
    restored none (valid p t n a) e = record {
      routes_same =
          kept_routes-all (known_ids b) b.routes
            (λ x m. (to_set-Memᴰ x (profile_ids b.profiles)).1 (n x m));
      tabs_kept = λ t.
          let (less, back) = Memᴰ-kept_tabs (known_ids b) b.tabs t in
          let (owned, kept) = is_kept-IsOwned (profile_ids b.profiles) t.profile_id in
          (λ m. let (n, k) = less m in (n, owned k), λ h. back (h.0, kept h.1));
      tabs_counted = skipped-kept (known_ids b) b.tabs;
      profiles_counted = count-not (λ p. contains p.id (to_set existing)) b.profiles;
    }
    restored (some x) c e = let no : some x ≡ none = e in cc

pub restored_routes-all :
    (b : Backup) → ensure_valid_relationships b ≡ none → restored_routes b ≡ b.routes
unfolding restore
restored_routes-all b e =
    (restore-IsRestored [] b (record { tabs = []; routes = [] }) e).routes_same

-- A walk along the jump hosts that routeFor finds.
pub data HostWalk (rs : List Route) (u : Text) : Text → Type 0 where
  one_host : {v : Text} → Memᴰ v (hosts_of (route_for u rs)) → HostWalk rs u v
  more_hosts : {v w : Text} → HostWalk rs u v → Memᴰ w (hosts_of (route_for v rs)) → HostWalk rs u w

host-Edge :
    (rs : List Route) (u v : Text)
    → IsDistinct rs
    → Memᴰ v (hosts_of (route_for u rs))
    → Edge (graph_onto [] rs) u v
host-Edge rs u v d m = Jump-Edge rs u v d ((route_for-Jump rs u v d).0 m)

HostWalk-Walk :
    (rs : List Route) (u v : Text) → IsDistinct rs → HostWalk rs u v → Walk (graph_onto [] rs) u v
HostWalk-Walk rs u v d (one_host m) = one (host-Edge rs u v d m)
HostWalk-Walk rs u w d (more_hosts {v} p m) = more (HostWalk-Walk rs u v d p) (host-Edge rs v w d m)

accepted-IsAcyclic :
    (b : Backup) → ensure_valid_relationships b ≡ none → IsAcyclic (graph_onto [] b.routes)
accepted-IsAcyclic b e =
    read (ensure_valid_relationships b) (ensure_valid_relationships-Checked b) e
  where
    read : (o : Option Problem) → Checked b o → o ≡ none → IsAcyclic (graph_onto [] b.routes)
    read none (valid p t n a) e = a
    read (some x) c e = let no : some x ≡ none = e in cc

-- If a backup is accepted and no two of its routes are for one profile, then behind restore no
-- profile reaches itself along the jump hosts that routeFor finds.
pub restore-HostWalk :
    (b : Backup) (s : Stores) (u : Text)
    → ensure_valid_relationships b ≡ none
    → IsDistinct b.routes
    → ¬ HostWalk (restore b s).routes u u
restore-HostWalk b s u e d w =
    let same = (restore-IsRestored [] b s e).routes_same in
    accepted-IsAcyclic b e u
      (HostWalk-Walk b.routes u u d (subst (λ (rs : List Route). HostWalk rs u u) same w))
