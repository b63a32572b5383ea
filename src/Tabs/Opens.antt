-- ===== src/Tabs/Opens.antt =====
-- What holds of the tabs of ConnectionTabsController behind open and openShizukuShell.
use termethis.Base.{
  text_eq_refl, and_both, ℕ, ◌+◌, ◌≡◌, inl, inr, refl, sym, ◌∙◌, ==_iff, Bool, true, false, ◌&&◌,
  ◌||◌, Option, none, some, List, [], ◌∷◌, if_elim, Text, text_eq, text_eq_iff, Bool-cases, All,
}
use mathlib.Core.Path.{subst}
use termethis.Tabs.{
  Tab, Tabs, Profile, Protocol, ConnectionType, is_profile, is_tab_of, is_shizuku, protocol_eq,
  protocol_for, protocol_index, tab_id, add_tab, profile_tab, shizuku_tab, find, is_found,
  without_tab, activated, mark_active, open_existing, shizuku_existing,
}
use termethis.Tabs.Edits.{close, is_selected}
use termethis.Tabs.Load.{load}
use termethis.Tabs.Pairs.{
  same_profile, same_key, clash, clash_stored, Never, Never-without_tab, others_differ,
  Never-update_tab, Never-append,
}
use termethis.Tabs.Searches.{find-append, find-update_tab, find-without_tab}
use termethis.Tabs.Latest.{IsSelectedIn, IsLatest, latest-IsSelectedIn}

-- No two tabs have one profile and protocol, or are both the ADB shell; the selected id is that of a
-- tab, unless there are none; a load of the store gives the tabs.
pub record IsWell (c : Tabs) : Type 0 where
  pub apart : Never clash c.value
  pub chosen : IsSelectedIn c.value c.selected
  pub in_store : load c.stored ≡ load c.value

add_tab-IsWell :
    (make : Text → Tab) (stamp : ℕ) (tabs : List Tab) (c : Tabs)
    → ((id : Text) → (make id).id ≡ id)
    → Never clash tabs
    → All (λ u. clash u (make (tab_id stamp (c.sequence + 1))) ≡ false) tabs
    → IsWell (add_tab make stamp tabs c)
add_tab-IsWell make stamp tabs c h a d =
    let id = tab_id stamp (c.sequence + 1) in
    record {
      apart = Never-append clash tabs (make id) a d;
      chosen =
          find-append id tabs (make id)
            (subst (λ (s : Text). text_eq s id ≡ true) (sym (h id)) (text_eq_refl id));
      in_store = refl;
    }

pub mark_active-IsWell : (id : Text) (now : ℕ) (c : Tabs) → IsWell c → IsWell (mark_active id now c)
unfolding mark_active
mark_active-IsWell id now c w =
    if_elim IsWell (is_found (find id c.value))
      (λ e. record {
        apart =
            Never-update_tab clash id (activated now) c.value (λ t u. refl) (λ t u. refl) w.apart;
        chosen = find-update_tab id id (activated now) c.value (λ t. refl) ∙ e;
        in_store = refl;
      })
      (λ e. w)

-- The tab of a profile clashes with none that is not for that profile and protocol.
profile_tab-clash :
    (p : Profile) (now : ℕ) (id : Text) (u : Tab)
    → is_tab_of p u ≡ false
    → clash u (profile_tab p now id) ≡ false
profile_tab-clash p now id u m =
    let other : protocol_eq (protocol_for p.connection_type) Protocol.shizuku_shell ≡ false =
      shell p.connection_type in
    let key : (same_profile u.profile_id (some p.id)
          && protocol_eq u.protocol (protocol_for p.connection_type))
        ≡ false =
      owner u.profile_id (protocol_eq u.protocol (protocol_for p.connection_type)) m in
    rw (other, key) (and_false (is_shizuku u))
  where
    shell : (k : ConnectionType) → protocol_eq (protocol_for k) Protocol.shizuku_shell ≡ false
    shell ConnectionType.ssh = refl
    shell ConnectionType.mosh = refl
    shell ConnectionType.rdp = refl
    shell ConnectionType.vnc = refl
    shell ConnectionType.opencode = refl

    owner :
        (q : Option Text) (b : Bool)
        → (is_profile p.id q && b) ≡ false
        → (same_profile q (some p.id) && b) ≡ false
    owner none b h = refl
    owner (some q) b h = h

    and_false : (a : Bool) → (a && false || false) ≡ false
    and_false true = refl
    and_false false = refl

-- A tab of the profile leaves no other of its kind among those that do not clash with it.
is_tab_of-clash :
    (p : Profile) (t u : Tab) → is_tab_of p t ≡ true → clash t u ≡ false → is_tab_of p u ≡ false
is_tab_of-clash p t u m d = elim (Bool-cases (is_tab_of p u)) [
  | inl e ↦
      let key = second_false (clash_stored t u) (same_key t u) d in
      let both : same_key t u ≡ true = meets t.profile_id u.profile_id m e in
      absurd (let no : true ≡ false = sym both ∙ key in cc)
  | inr e ↦ e
]
  where
    second_false : (a b : Bool) → (a || b) ≡ false → b ≡ false
    second_false true b h = let no : true ≡ false = h in cc
    second_false false b h = h

    meets :
        (q r : Option Text)
        → (is_profile p.id q && protocol_eq t.protocol (protocol_for p.connection_type)) ≡ true
        → (is_profile p.id r && protocol_eq u.protocol (protocol_for p.connection_type)) ≡ true
        → (same_profile q r && protocol_eq t.protocol u.protocol) ≡ true
    meets none r h k = let no : false ≡ true = h in cc
    meets (some q) none h k = let no : false ≡ true = k in cc
    meets (some q) (some r) h k =
        let (a, b) =
          and_both (text_eq q p.id) (protocol_eq t.protocol (protocol_for p.connection_type)) h in
        let (c, d) =
          and_both (text_eq r p.id) (protocol_eq u.protocol (protocol_for p.connection_type)) k in
        let first : text_eq q r ≡ true =
          (text_eq_iff q r).1 ((text_eq_iff q p.id).0 a ∙ sym ((text_eq_iff r p.id).0 c)) in
        let index =
          (==_iff (protocol_index t.protocol) (protocol_index (protocol_for p.connection_type))).0
            b in
        let index' =
          (==_iff (protocol_index u.protocol) (protocol_index (protocol_for p.connection_type))).0
            d in
        let second =
          (==_iff (protocol_index t.protocol) (protocol_index u.protocol)).1 (index ∙ sym index') in
        rw (first, second) refl

pub open_existing-IsWell :
    (p : Profile) (now stamp : ℕ) (o : Option Tab) (c : Tabs)
    → IsLatest (is_tab_of p) none c.value o
    → IsWell c
    → IsWell (open_existing p now stamp o c)
open_existing-IsWell p now stamp none c h w =
    add_tab-IsWell (profile_tab p now) stamp c.value c (λ id. refl) w.apart (differ c.value h.1)
  where
    differ :
        (ts : List Tab)
        → All (λ u. is_tab_of p u ≡ false) ts
        → All (λ u. clash u (profile_tab p now (tab_id stamp (c.sequence + 1))) ≡ false) ts
    differ [] m = tt
    differ (u ∷ ts) m =
        (profile_tab-clash p now (tab_id stamp (c.sequence + 1)) u m.0, differ ts m.1)
open_existing-IsWell p now stamp (some t) c (inl e) w = absurd (let no : none ≡ some t = e in cc)
open_existing-IsWell p now stamp (some t) c (inr (m, e)) w =
    if_elim IsWell t.restored
      (λ r.
        add_tab-IsWell (profile_tab p now) stamp (without_tab t.id c.value) c (λ id. refl)
          (Never-without_tab clash t.id c.value w.apart)
          (differ (without_tab t.id c.value) (others_differ t c.value w.apart m)))
      (λ r. mark_active-IsWell t.id now c w)
  where
    differ :
        (ts : List Tab)
        → All (λ u. clash t u ≡ false) ts
        → All (λ u. clash u (profile_tab p now (tab_id stamp (c.sequence + 1))) ≡ false) ts
    differ [] d = tt
    differ (u ∷ ts) d = (
      profile_tab-clash p now (tab_id stamp (c.sequence + 1)) u (is_tab_of-clash p t u e d.0),
      differ ts d.1,
    )

pub shizuku_existing-IsWell :
    (now stamp : ℕ) (o : Option Tab) (c : Tabs)
    → (o ≡ none → All (λ t. is_shizuku t ≡ false) c.value)
    → IsWell c
    → IsWell (shizuku_existing now stamp o c)
shizuku_existing-IsWell now stamp (some t) c h w = mark_active-IsWell t.id now c w
shizuku_existing-IsWell now stamp none c h w =
    add_tab-IsWell (shizuku_tab now) stamp c.value c (λ id. refl) w.apart (differ c.value (h refl))
  where
    no_owner : (q : Option Text) (b : Bool) → (same_profile q none && b) ≡ false
    no_owner none b = refl
    no_owner (some q) b = refl

    differ :
        (ts : List Tab)
        → All (λ u. is_shizuku u ≡ false) ts
        → All (λ u. clash u (shizuku_tab now (tab_id stamp (c.sequence + 1))) ≡ false) ts
    differ [] m = tt
    differ (u ∷ ts) m = (rw m.0 (no_owner u.profile_id false), differ ts m.1)

selected_without :
    (id : Text) (selected : Option Text) (ts : List Tab)
    → is_selected id selected ≡ false
    → IsSelectedIn ts selected
    → IsSelectedIn (without_tab id ts) selected
unfolding without_tab
selected_without id none ts n h = rw h refl
selected_without id (some s) ts n h = find-without_tab s id ts n h

pub close-IsWell : (id : Text) (c : Tabs) → IsWell c → IsWell (close id c)
unfolding close
close-IsWell id c w = record {
  apart = Never-without_tab clash id c.value w.apart;
  chosen = elim (Bool-cases (is_selected id c.selected)) [
    | inl e ↦ rw e (latest-IsSelectedIn (without_tab id c.value))
    | inr e ↦ rw e (selected_without id c.selected c.value e w.chosen)
  ];
  in_store = refl;
}
