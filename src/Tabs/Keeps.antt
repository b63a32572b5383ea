-- ===== src/Tabs/Keeps.antt =====
-- _withoutDuplicateProfiles of ConnectionTabsController
-- (lib/features/connections/application/connection_tabs_controller.dart) keeps the newest tab for
-- each profile and protocol.
use mathlib.Core.List.{Memᴰ, Sublistᴰ}
use mathlib.Core.List.Memᴰ
use mathlib.Core.Logic.{⊎_elim}
use mathlib.Core.Path.{subst}
use termethis.Base.{
  ℕ, zero, suc, ◌+◌, ◌≤◌, ◌≡◌, inl, inr, refl, sym, ap, ◌∙◌, ==_iff, true, none, some, List, [],
  ◌∷◌, if_elim, Text, arith,
}
use termethis.Tabs.{Tab, protocol_eq, protocol_index}
use termethis.Tabs.Pairs.{same_key, Never}
use termethis.Tabs.Load.{
  Newest, newest_of, note_tab, is_at, is_newest, kept_from, newest_from, without_duplicate_profiles,
}
use termethis.Tabs.Newest.{newest_of-index, kept_from-keys}
use termethis.Tabs.Entries.{
  get_at, IsRight, Covers, note_tab-Covers, note_tab-here, note_tab-IsRight,
}

-- The loop, over tabs that stand in the whole list from position `i` on.
IsFrom : ℕ → List Tab → List Tab → Type 0
IsFrom i ts all = (k : ℕ) → get_at k ts ≡ get_at (i + k) all

newest_from-IsRight :
    (all : List Tab) (i : ℕ) (ts : List Tab) (es : List Newest)
    → IsFrom i ts all
    → IsRight all es
    → IsRight all (newest_from i ts es)
unfolding newest_from IsFrom
newest_from-IsRight all i [] es f right = right
newest_from-IsRight all i (t ∷ ts) es f right =
    let here : get_at i all ≡ some t =
      subst (λ (j : ℕ). get_at j all ≡ some t) (omega arith) (sym (f 0)) in
    newest_from-IsRight all (suc i) ts (note_tab t.profile_id i t es)
      (λ k. f (suc k) ∙ ap (λ (j : ℕ). get_at j all) (omega arith))
      (note_tab-IsRight all es t.profile_id i t here refl right)

newest_from-Covers :
    (i : ℕ) (ts : List Tab) (es : List Newest) (u : Tab)
    → Covers es u
    → Covers (newest_from i ts es) u
unfolding newest_from
newest_from-Covers i [] es u c = c
newest_from-Covers i (t ∷ ts) es u c =
    newest_from-Covers (suc i) ts (note_tab t.profile_id i t es) u
      (note_tab-Covers es t.profile_id i t u c)

newest_from-all :
    (i : ℕ) (ts : List Tab) (es : List Newest) (u : Tab)
    → Memᴰ u ts
    → Covers (newest_from i ts es) u
unfolding newest_from
newest_from-all i [] es u m = absurd (Memᴰ.not-nil m)
newest_from-all i (t ∷ ts) es u m =
    let noted : List Newest = note_tab t.profile_id i t es in
    ⊎_elim
      (λ e.
        newest_from-Covers (suc i) ts noted u
          (subst (λ (x : Tab). Covers noted x) (sym e) (note_tab-here es t.profile_id i t refl)))
      (newest_from-all (suc i) ts noted u) (Memᴰ.cases_cons m)

kept_from-at :
    (i k : ℕ) (ts : List Tab) (es : List Newest) (u : Tab)
    → get_at k ts ≡ some u
    → is_newest u.profile_id (i + k) u es ≡ true
    → Memᴰ u (kept_from i ts es)
unfolding kept_from
kept_from-at i k [] es u at n = let no : none ≡ some u = at in cc
kept_from-at i zero (t ∷ ts) es u at n =
    let same : t ≡ u = cc in
    let here : is_newest t.profile_id i t es ≡ true =
      subst (λ (j : ℕ). is_newest t.profile_id j t es ≡ true) (omega arith)
        (subst (λ (x : Tab). is_newest x.profile_id (i + 0) x es ≡ true) (sym same) n) in
    rw here (Memᴰ.head (sym same))
kept_from-at i (suc k) (t ∷ ts) es u at n =
    let rest =
      kept_from-at (suc i) k ts es u at
        (subst (λ (j : ℕ). is_newest u.profile_id j u es ≡ true) (omega arith) n) in
    if_elim (Memᴰ u) (is_newest t.profile_id i t es) (λ e. Memᴰ.tail rest) (λ e. rest)

kept_from-others :
    (i : ℕ) (ts : List Tab) (es : List Newest) (u : Tab)
    → Memᴰ u ts
    → u.profile_id ≡ none
    → Memᴰ u (kept_from i ts es)
unfolding kept_from
kept_from-others i [] es u m h = m
kept_from-others i (t ∷ ts) es u m h = elim (Memᴰ.cases_cons m) [
  | inl e ↦
      let always : is_newest t.profile_id i t es ≡ true =
        ap (λ p. is_newest p i t es) (sym (ap (λ (x : Tab). x.profile_id) e) ∙ h) in
      rw always (Memᴰ.head e)
  | inr n ↦
      let rest = kept_from-others (suc i) ts es u n h in
      if_elim (Memᴰ u) (is_newest t.profile_id i t es) (λ e. Memᴰ.tail rest) (λ e. rest)
]

kept_from-part : (i : ℕ) (ts : List Tab) (es : List Newest) → Sublistᴰ (kept_from i ts es) ts
unfolding kept_from
kept_from-part i [] es = Sublistᴰ.slnil
kept_from-part i (t ∷ ts) es =
    let rest = kept_from-part (suc i) ts es in
    if_elim (λ us. Sublistᴰ us (t ∷ ts)) (is_newest t.profile_id i t es)
      (λ e. Sublistᴰ.cons-cons refl rest) (λ e. Sublistᴰ.cons rest)

-- What is kept of some tabs.
pub record KeepsNewest (ts us : List Tab) : Type 0 where
  pub part : Sublistᴰ us ts
  pub single : Never same_key us
  pub others : (t : Tab) → Memᴰ t ts → t.profile_id ≡ none → Memᴰ t us
  pub newest :
      (t : Tab) (p : Text)
      → Memᴰ t ts
      → t.profile_id ≡ some p
      → (u : Tab) × Memᴰ u us
        × (u.profile_id ≡ some p)
        × (protocol_eq u.protocol t.protocol ≡ true)
        × (t.last_activated_at ≤ u.last_activated_at)

-- For all tabs, what _withoutDuplicateProfiles gives is a part of them in their order; no two of it
-- have one profile and one protocol, every tab without a profile is in it, and for every tab with a
-- profile it has one of the same profile and protocol that was activated as late or later.
pub without_duplicate_profiles-KeepsNewest :
    (ts : List Tab) → KeepsNewest ts (without_duplicate_profiles ts)
unfolding without_duplicate_profiles IsFrom
without_duplicate_profiles-KeepsNewest ts =
    let es : List Newest = newest_from 0 ts [] in
    let right : IsRight ts es =
      newest_from-IsRight ts 0 ts [] (λ k. ap (λ (j : ℕ). get_at j ts) (omega arith))
        nothing_right in
    record {
      part = kept_from-part 0 ts es;
      single = kept_from-keys 0 ts es;
      others = λ t m h. kept_from-others 0 ts es t m h;
      newest = λ t p m h.
          let (e, found, le) = newest_from-all 0 ts [] t m p h in
          let (at, owner, index) = right p t.protocol e found in
          let same : newest_of p e.tab.protocol es ≡ some e =
            newest_of-index p e.tab.protocol t.protocol es index ∙ found in
          let here : is_newest e.tab.profile_id e.position e.tab es ≡ true =
            ap (λ q. is_newest q e.position e.tab es) owner
            ∙ ap (is_at e.position) same
            ∙ (==_iff e.position e.position).1 refl in
          (
            e.tab,
            kept_from-at 0 e.position ts es e.tab at (
                subst (λ (j : ℕ). is_newest e.tab.profile_id j e.tab es ≡ true) (omega arith) here),
            owner,
            (==_iff (protocol_index e.tab.protocol) (protocol_index t.protocol)).1 index,
            le,
          );
    }
  where
    nothing_right : IsRight ts []
    nothing_right p q e found = let no : none ≡ some e = found in cc
