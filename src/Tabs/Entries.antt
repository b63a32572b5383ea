-- ===== src/Tabs/Entries.antt =====
-- The entries of newestByProfile in _withoutDuplicateProfiles of ConnectionTabsController.
use termethis.Base.{
  text_eq_refl, and_both, ℕ, zero, suc, ◌≤◌, ◌≡◌, inl, inr, refl, sym, ap, ◌∙◌, ==_iff, true, false,
  Option, none, some, List, [], ◌∷◌, if◌then◌else◌, Text, text_eq, text_eq_iff, Bool-cases, arith,
  ltb→lt, ltb→le,
}
use mathlib.Core.Path.{subst}
use termethis.Tabs.{Tab, Protocol, protocol_eq, protocol_index}
use termethis.Tabs.Load.{Newest, is_key, newest_of, set_newest, replaces, note_newest, note_tab}
use termethis.Tabs.Newest.{newest_of-index}

is_key-same :
    (p : Text) (q : Protocol) (n e : Newest)
    → is_key n.profile n.protocol e ≡ true
    → is_key p q e ≡ is_key p q n
is_key-same p q n e h =
    let (one, two) = and_both (text_eq e.profile n.profile) (protocol_eq e.protocol n.protocol) h in
    let index = (==_iff (protocol_index e.protocol) (protocol_index n.protocol)).0 two in
    rw ((text_eq_iff e.profile n.profile).0 one, index) refl

newest_of-set :
    (p : Text) (q : Protocol) (n : Newest) (es : List Newest)
    → newest_of p q (set_newest n es) ≡ (if is_key p q n then some n else newest_of p q es)
unfolding newest_of set_newest
newest_of-set p q n [] = refl
newest_of-set p q n (e ∷ es) =
    let rest = newest_of-set p q n es in
    elim (Bool-cases (is_key n.profile n.protocol e)) [
      | inl h ↦ elim (Bool-cases (is_key p q n)) [
        | inl k ↦ rw (h, k) refl
        | inr k ↦ let other = is_key-same p q n e h ∙ k in rw (h, k, other) refl
      ]
      | inr h ↦ elim (Bool-cases (is_key p q e)) [
        | inl k ↦ elim (Bool-cases (is_key p q n)) [
          | inl l ↦
              let met : is_key n.profile n.protocol e ≡ true = keys_meet p q n e l k in
              absurd (let no : true ≡ false = sym met ∙ h in cc)
          | inr l ↦ rw (h, k, l) refl
        ]
        | inr k ↦ rw (h, k) rest
      ]
    ]
  where
    keys_meet :
        (p : Text) (q : Protocol) (n e : Newest)
        → is_key p q n ≡ true
        → is_key p q e ≡ true
        → is_key n.profile n.protocol e ≡ true
    keys_meet p q n e l k =
        let (a, b) = and_both (text_eq n.profile p) (protocol_eq n.protocol q) l in
        let (c, d) = and_both (text_eq e.profile p) (protocol_eq e.protocol q) k in
        let one =
          (text_eq_iff e.profile n.profile).1
            ((text_eq_iff e.profile p).0 c ∙ sym ((text_eq_iff n.profile p).0 a)) in
        let first = (==_iff (protocol_index n.protocol) (protocol_index q)).0 b in
        let second = (==_iff (protocol_index e.protocol) (protocol_index q)).0 d in
        let two =
          (==_iff (protocol_index e.protocol) (protocol_index n.protocol)).1 (second ∙ sym first) in
        rw (one, two) refl

abbrev pub get_at : ℕ → List Tab → Option Tab
get_at i [] = none
get_at zero (t ∷ ts) = some t
get_at (suc i) (t ∷ ts) = get_at i ts

-- Entries are right: the tab of each is at its position, and for its key.
abbrev pub IsRight : List Tab → List Newest → Type 0
IsRight all es =
    (p : Text) (q : Protocol) (e : Newest)
    → newest_of p q es ≡ some e
    → (get_at e.position all ≡ some e.tab)
      × (e.tab.profile_id ≡ some p)
      × (protocol_index e.tab.protocol ≡ protocol_index q)

-- There is an entry for the tab, if it has a profile, with a tab that is as late.
abbrev pub Covers : List Newest → Tab → Type 0
Covers es t =
    (p : Text)
    → t.profile_id ≡ some p
    → (e : Newest) × (newest_of p t.protocol es ≡ some e)
      × (t.last_activated_at ≤ e.tab.last_activated_at)

abbrev entry : Text → ℕ → Tab → Newest
entry p i t = record { profile = p; protocol = t.protocol; position = i; tab = t }

some_inj : (e e' : Newest) → some e ≡ some e' → e ≡ e'
some_inj e e' h = cc

set_newest-IsRight :
    (all : List Tab) (es : List Newest) (p : Text) (i : ℕ) (t : Tab)
    → get_at i all ≡ some t
    → t.profile_id ≡ some p
    → IsRight all es
    → IsRight all (set_newest (entry p i t) es)
set_newest-IsRight all es p i t at owner right p' q e found =
    elim (Bool-cases (is_key p' q (entry p i t))) [
      | inl k ↦
          let (a, b) = and_both (text_eq p p') (protocol_eq t.protocol q) k in
          let it : some (entry p i t) ≡ some e =
            rw k at (sym (newest_of-set p' q (entry p i t) es) ∙ found) in
          let same = some_inj (entry p i t) e it in
          let index = (==_iff (protocol_index t.protocol) (protocol_index q)).0 b in
          subst
            (λ (x : Newest).
              (get_at x.position all ≡ some x.tab)
              × (x.tab.profile_id ≡ some p')
              × (protocol_index x.tab.protocol ≡ protocol_index q))
            same (at, owner ∙ ap some ((text_eq_iff p p').0 a), index)
      | inr k ↦ right p' q e (rw k at (sym (newest_of-set p' q (entry p i t) es) ∙ found))
    ]

-- The loop puts a tab in the place of one that is no later.
set_newest-Covers :
    (es : List Newest) (p : Text) (i : ℕ) (t u : Tab)
    → replaces t (newest_of p t.protocol es) ≡ true
    → Covers es u
    → Covers (set_newest (entry p i t) es) u
set_newest-Covers es p i t u later c p' owner =
    let (e, found, le) = c p' owner in
    elim (Bool-cases (is_key p' u.protocol (entry p i t))) [
      | inl k ↦
          let (a, b) = and_both (text_eq p p') (protocol_eq t.protocol u.protocol) k in
          let index = (==_iff (protocol_index t.protocol) (protocol_index u.protocol)).0 b in
          let same : newest_of p t.protocol es ≡ some e =
            newest_of-index p t.protocol u.protocol es index
            ∙ ap (λ x. newest_of x u.protocol es) ((text_eq_iff p p').0 a)
            ∙ found in
          let less =
            ltb→lt e.tab.last_activated_at t.last_activated_at
              (sym (ap (replaces t) same) ∙ later) in
          (entry p i t, newest_of-set p' u.protocol (entry p i t) es ∙ rw k refl, omega arith)
      | inr k ↦ (e, newest_of-set p' u.protocol (entry p i t) es ∙ rw k found, le)
    ]

set_newest-here :
    (es : List Newest) (p : Text) (i : ℕ) (t : Tab)
    → newest_of p t.protocol (set_newest (entry p i t) es) ≡ some (entry p i t)
set_newest-here es p i t =
    let same = (==_iff (protocol_index t.protocol) (protocol_index t.protocol)).1 refl in
    newest_of-set p t.protocol (entry p i t) es ∙ rw (text_eq_refl p, same) refl

note_newest-Covers :
    (es : List Newest) (p : Text) (i : ℕ) (t u : Tab)
    → Covers es u
    → Covers (note_newest p i t es) u
note_newest-Covers es p i t u c = elim (Bool-cases (replaces t (newest_of p t.protocol es))) [
  | inl r ↦ rw r (set_newest-Covers es p i t u r c)
  | inr r ↦ rw r c
]

pub note_tab-Covers :
    (es : List Newest) (owner : Option Text) (i : ℕ) (t u : Tab)
    → Covers es u
    → Covers (note_tab owner i t es) u
note_tab-Covers es none i t u c = c
note_tab-Covers es (some p) i t u c = note_newest-Covers es p i t u c

-- The tab of a round is covered behind it.
pub note_tab-here :
    (es : List Newest) (owner : Option Text) (i : ℕ) (t : Tab)
    → t.profile_id ≡ owner
    → Covers (note_tab owner i t es) t
note_tab-here es none i t h p k = let no : none ≡ some p = sym h ∙ k in cc
note_tab-here es (some p) i t h p' k =
    let same : some p ≡ some p' = sym h ∙ k in
    let it : p ≡ p' = cc in
    subst
      (λ (x : Text).
        (e : Newest) × (newest_of x t.protocol (note_newest p i t es) ≡ some e)
        × (t.last_activated_at ≤ e.tab.last_activated_at))
      it
      (elim (Bool-cases (replaces t (newest_of p t.protocol es))) [
        | inl r ↦ rw r (entry p i t, set_newest-here es p i t, omega arith)
        | inr r ↦ rw r (there (newest_of p t.protocol es) r)
      ])
  where
    there :
        (o : Option Newest)
        → replaces t o ≡ false
        → (e : Newest) × (o ≡ some e) × (t.last_activated_at ≤ e.tab.last_activated_at)
    there none r = let no : true ≡ false = r in cc
    there (some e) r = (e, refl, ltb→le e.tab.last_activated_at t.last_activated_at r)

pub note_tab-IsRight :
    (all : List Tab) (es : List Newest) (owner : Option Text) (i : ℕ) (t : Tab)
    → get_at i all ≡ some t
    → t.profile_id ≡ owner
    → IsRight all es
    → IsRight all (note_tab owner i t es)
note_tab-IsRight all es none i t at h right = right
note_tab-IsRight all es (some p) i t at h right =
    elim (Bool-cases (replaces t (newest_of p t.protocol es))) [
      | inl r ↦ rw r (set_newest-IsRight all es p i t at h right)
      | inr r ↦ rw r right
    ]
