-- ===== src/Tabs/Latest.antt =====
-- The latest of some tabs, and the selected id.
use termethis.Tabs.{
  existing_id, open_existing, existing_shell_id, is_tab_of, Profile, shizuku_existing, shizuku_id,
  opened_id, Tabs, open_tab, open_shizuku_shell, mark_active, Tab, find, is_found, is_shizuku,
  first_shizuku, later, latest, latest_from, id_of, update_tab,
}
use mathlib.Core.List.{Memᴰ}
use mathlib.Core.Path.{subst}
use termethis.Base.{
  ℕ, ◌≡◌, ◌⊎◌, inl, inr, refl, sym, ◌∙◌, Bool, true, false, Option, none, some, List, [], ◌∷◌,
  if_elim, Text, text_eq, Bool-cases, All, ltb,
}
use termethis.Tabs.Edits.{remove_at, moved}
use termethis.Tabs.Searches.{Memᴰ-find}

-- What the fold gives: a tab that passes the test, if there is one.
abbrev pub IsLatest : (Tab → Bool) → Option Tab → List Tab → Option Tab → Type 0
IsLatest p best ts none = (best ≡ none) × All (λ t. p t ≡ false) ts
IsLatest p best ts (some u) = (best ≡ some u) ⊎ (Memᴰ u ts × (p u ≡ true))

later_cases :
    (best : Option Tab) (t : Tab)
    → (later best t ≡ some t) ⊎ ((u : Tab) × (best ≡ some u) × (later best t ≡ some u))
later_cases none t = inl refl
later_cases (some u) t = elim (Bool-cases (ltb u.last_activated_at t.last_activated_at)) [
  | inl e ↦ inl (rw e refl)
  | inr e ↦ inr (u, refl, rw e refl)
]

after_match :
    (p : Tab → Bool) (best : Option Tab) (t : Tab) (ts : List Tab) (o : Option Tab)
    → p t ≡ true
    → IsLatest p (later best t) ts o
    → IsLatest p best (t ∷ ts) o
after_match p best t ts none e h = elim (later_cases best t) [
  | inl l ↦ absurd (let no : some t ≡ none = sym l ∙ h.0 in cc)
  | inr (u, b, l) ↦ absurd (let no : some u ≡ none = sym l ∙ h.0 in cc)
]
after_match p best t ts (some u) e (inr m) = inr (Memᴰ.tail m.0, m.1)
after_match p best t ts (some u) e (inl q) = elim (later_cases best t) [
  | inl l ↦
      let same : u ≡ t = let chain : some t ≡ some u = sym l ∙ q in cc in
      inr (Memᴰ.head same, subst (λ (x : Tab). p x ≡ true) (sym same) e)
  | inr (w, b, l) ↦ inl (b ∙ sym l ∙ q)
]

after_miss :
    (p : Tab → Bool) (best : Option Tab) (t : Tab) (ts : List Tab) (o : Option Tab)
    → p t ≡ false
    → IsLatest p best ts o
    → IsLatest p best (t ∷ ts) o
after_miss p best t ts none e h = (h.0, (e, h.1))
after_miss p best t ts (some u) e (inl q) = inl q
after_miss p best t ts (some u) e (inr m) = inr (Memᴰ.tail m.0, m.1)

pub latest_from-IsLatest :
    (p : Tab → Bool) (best : Option Tab) (ts : List Tab)
    → IsLatest p best ts (latest_from p best ts)
unfolding latest_from
latest_from-IsLatest p none [] = (refl, tt)
latest_from-IsLatest p (some u) [] = inl refl
latest_from-IsLatest p best (t ∷ ts) = elim (Bool-cases (p t)) [
  | inl e ↦ rw e (
      after_match p best t ts (latest_from p (later best t) ts) e
        (latest_from-IsLatest p (later best t) ts))
  | inr e ↦ rw e (after_miss p best t ts (latest_from p best ts) e (latest_from-IsLatest p best ts))
]

-- The selected id is that of a tab; there is none only without tabs.
abbrev pub IsSelectedIn : List Tab → Option Text → Type 0
IsSelectedIn ts none = ts ≡ []
IsSelectedIn ts (some id) = is_found (find id ts) ≡ true

pub latest-IsSelectedIn : (ts : List Tab) → IsSelectedIn ts (id_of (latest ts))
latest-IsSelectedIn ts = read ts (latest ts) (latest_from-IsLatest (λ t. true) none ts)
  where
    read :
        (ts : List Tab) (o : Option Tab)
        → IsLatest (λ t. true) none ts o
        → IsSelectedIn ts (id_of o)
    read [] none h = refl
    read (t ∷ ts) none h = let no : true ≡ false = h.1.0 in cc
    read ts (some u) (inl q) = let no : none ≡ some u = q in cc
    read ts (some u) (inr m) = Memᴰ-find u ts m.0

pub first_shizuku-All :
    (ts : List Tab) → first_shizuku ts ≡ none → All (λ t. is_shizuku t ≡ false) ts
unfolding first_shizuku
first_shizuku-All [] h = tt
first_shizuku-All (t ∷ ts) h = elim (Bool-cases (is_shizuku t)) [
  | inl e ↦ absurd (let no : some t ≡ none = rw e at h in cc)
  | inr e ↦ (e, first_shizuku-All ts (rw e at h))
]

pub update_nil : (id : Text) (f : Tab → Tab) → update_tab id f [] ≡ []
unfolding update_tab
update_nil id f = refl

pub moved_nil : (source target : ℕ) → moved target (remove_at source []) ≡ []
unfolding remove_at
moved_nil source target = refl

pub latest_nil : id_of (latest []) ≡ none
unfolding latest_from
latest_nil = refl

abbrev pub IsTabOf : Text → Option Tab → Type 0
IsTabOf id none = Unit
IsTabOf id (some t) = text_eq t.id id ≡ true

pub find_same : (id : Text) (ts : List Tab) → IsTabOf id (find id ts)
unfolding find
find_same id [] = tt
find_same id (t ∷ ts) = if_elim (IsTabOf id) (text_eq t.id id) (λ e. e) (λ e. find_same id ts)

first_shizuku-Memᴰ : (ts : List Tab) (t : Tab) → first_shizuku ts ≡ some t → Memᴰ t ts
unfolding first_shizuku
first_shizuku-Memᴰ [] t h = let no : none ≡ some t = h in cc
first_shizuku-Memᴰ (u ∷ ts) t h = elim (Bool-cases (is_shizuku u)) [
  | inl e ↦ let same : some u ≡ some t = rw e at h in Memᴰ.head (cc)
  | inr e ↦ Memᴰ.tail (first_shizuku-Memᴰ ts t (rw e at h))
]

mark_active-selected :
    (t : Tab) (now : ℕ) (c : Tabs) → Memᴰ t c.value → (mark_active t.id now c).selected ≡ some t.id
unfolding mark_active
mark_active-selected t now c m = rw (Memᴰ-find t c.value m) refl

-- open selects the tab whose id it returns.
pub open_tab-selected :
    (p : Profile) (now stamp : ℕ) (c : Tabs)
    → (open_tab p now stamp c).selected ≡ some (opened_id p stamp c)
unfolding open_tab opened_id
open_tab-selected p now stamp c =
    read (latest_from (is_tab_of p) none c.value) (latest_from-IsLatest (is_tab_of p) none c.value)
  where
    read :
        (o : Option Tab)
        → IsLatest (is_tab_of p) none c.value o
        → (open_existing p now stamp o c).selected ≡ some (existing_id stamp o c)
    read none h = refl
    read (some t) (inl q) = let no : none ≡ some t = q in cc
    read (some t) (inr m) = elim (Bool-cases t.restored) [
      | inl e ↦ rw e refl
      | inr e ↦ rw e (mark_active-selected t now c m.0)
    ]

pub open_shizuku_shell-selected :
    (now stamp : ℕ) (c : Tabs)
    → (open_shizuku_shell now stamp c).selected ≡ some (shizuku_id stamp c)
unfolding open_shizuku_shell shizuku_id
open_shizuku_shell-selected now stamp c = read (first_shizuku c.value) refl
  where
    read :
        (o : Option Tab)
        → first_shizuku c.value ≡ o
        → (shizuku_existing now stamp o c).selected ≡ some (existing_shell_id stamp o c)
    read none h = refl
    read (some t) h = mark_active-selected t now c (first_shizuku-Memᴰ c.value t h)
