-- ===== src/Tabs/Searches.antt =====
-- What the searches in a list of tabs find, and what a change of the list leaves to be found.
use mathlib.Core.List.{Memᴰ}
use mathlib.Core.List.Memᴰ
use mathlib.Core.Logic.{⊎_elim}
use termethis.Base.{
  ℕ, zero, suc, ◌≡◌, ◌⊎◌, inl, inr, refl, sym, ap, ◌∙◌, true, false, Option, none, some, List, [],
  ◌∷◌, ◌++◌, if◌then◌else◌, if_elim, Text, text_eq, text_eq_iff, Bool-cases,
}
use termethis.Tabs.{Tab, find, is_found, without_tab, update_tab}
use termethis.Tabs.Edits.{remove_at, insert_at, moved}

pub find-append :
    (id : Text) (ts : List Tab) (u : Tab)
    → text_eq u.id id ≡ true
    → is_found (find id (ts ++ u ∷ [])) ≡ true
unfolding find
find-append id [] u e = rw e refl
find-append id (t ∷ ts) u e =
    if_elim (λ o. is_found o ≡ true) (text_eq t.id id) (λ f. refl) (λ f. find-append id ts u e)

pub find-update_tab :
    (id j : Text) (f : Tab → Tab) (ts : List Tab)
    → ((t : Tab) → (f t).id ≡ t.id)
    → is_found (find id (update_tab j f ts)) ≡ is_found (find id ts)
unfolding find update_tab
find-update_tab id j f [] h = refl
find-update_tab id j f (t ∷ ts) h =
    let rest = find-update_tab id j f ts h in
    let same : (if text_eq t.id j then f t else t).id ≡ t.id =
      if_elim (λ (x : Tab). x.id ≡ t.id) (text_eq t.id j) (λ e. h t) (λ e. refl) in
    elim (Bool-cases (text_eq t.id id)) [
      | inl e ↦
          let there : text_eq (if text_eq t.id j then f t else t).id id ≡ true =
            ap (λ x. text_eq x id) same ∙ e in
          rw (there, e) refl
      | inr e ↦
          let there : text_eq (if text_eq t.id j then f t else t).id id ≡ false =
            ap (λ x. text_eq x id) same ∙ e in
          rw (there, e) rest
    ]

pub find-without_tab :
    (s id : Text) (ts : List Tab)
    → text_eq s id ≡ false
    → is_found (find s ts) ≡ true
    → is_found (find s (without_tab id ts)) ≡ true
unfolding find without_tab
find-without_tab s id [] n h = h
find-without_tab s id (t ∷ ts) n h = elim (Bool-cases (text_eq t.id id)) [
  | inl e ↦
      let other : text_eq t.id s ≡ false = elim (Bool-cases (text_eq t.id s)) [
        | inl f ↦ absurd (
            let met =
              (text_eq_iff s id).1 (sym ((text_eq_iff t.id s).0 f) ∙ (text_eq_iff t.id id).0 e) in
            cc)
        | inr f ↦ f
      ] in
      rw e (find-without_tab s id ts n (rw other at h))
  | inr e ↦ elim (Bool-cases (text_eq t.id s)) [
    | inl f ↦ rw (e, f) refl
    | inr f ↦ rw (e, f) (find-without_tab s id ts n (rw f at h))
  ]
]

find-insert_at :
    (s : Text) (i : ℕ) (u : Tab) (ts : List Tab)
    → is_found (find s ts) ≡ true
    → is_found (find s (insert_at i u ts)) ≡ true
unfolding find insert_at
find-insert_at s zero u ts h =
    if_elim (λ o. is_found o ≡ true) (text_eq u.id s) (λ e. refl) (λ e. h)
find-insert_at s (suc i) u [] h = let no : false ≡ true = h in cc
find-insert_at s (suc i) u (t ∷ ts) h = elim (Bool-cases (text_eq t.id s)) [
  | inl e ↦ rw e refl
  | inr e ↦ rw e (find-insert_at s i u ts (rw e at h))
]

find-inserted :
    (s : Text) (i : ℕ) (u : Tab) (ts : List Tab)
    → text_eq u.id s ≡ true
    → is_found (find s (insert_at i u ts)) ≡ true
unfolding find insert_at
find-inserted s zero u ts e = rw e refl
find-inserted s (suc i) u [] e = rw e refl
find-inserted s (suc i) u (t ∷ ts) e =
    if_elim (λ o. is_found o ≡ true) (text_eq t.id s) (λ f. refl) (λ f. find-inserted s i u ts e)

-- The id is that of the tab taken out, or of one that is left.
abbrev IsSomewhere : Text → Option Tab → List Tab → Type 0
IsSomewhere s none us = is_found (find s us) ≡ true
IsSomewhere s (some u) us = (text_eq u.id s ≡ true) ⊎ (is_found (find s us) ≡ true)

find-remove_at :
    (s : Text) (i : ℕ) (ts : List Tab)
    → is_found (find s ts) ≡ true
    → IsSomewhere s (remove_at i ts).0 (remove_at i ts).1
unfolding find remove_at
find-remove_at s i [] h = h
find-remove_at s zero (t ∷ ts) h = elim (Bool-cases (text_eq t.id s)) [
  | inl e ↦ inl e
  | inr e ↦ inr (rw e at h)
]
find-remove_at s (suc i) (t ∷ ts) h = elim (Bool-cases (text_eq t.id s)) [
  | inl e ↦ first (remove_at i ts).0 (remove_at i ts).1 e
  | inr e ↦ later_on (remove_at i ts).0 (remove_at i ts).1 e (find-remove_at s i ts (rw e at h))
]
  where
    first : (o : Option Tab) (us : List Tab) → text_eq t.id s ≡ true → IsSomewhere s o (t ∷ us)
    first none us e = rw e refl
    first (some u) us e = inr (rw e refl)

    later_on :
        (o : Option Tab) (us : List Tab)
        → text_eq t.id s ≡ false
        → IsSomewhere s o us
        → IsSomewhere s o (t ∷ us)
    later_on none us e h = rw e h
    later_on (some u) us e h = ⊎_elim (λ n. inl n) (λ k. inr (rw e k)) h

IsSomewhere-moved :
    (s : Text) (target : ℕ) (o : Option Tab) (us : List Tab)
    → IsSomewhere s o us
    → is_found (find s (moved target (o, us))) ≡ true
IsSomewhere-moved s target none us h = h
IsSomewhere-moved s target (some u) us h =
    ⊎_elim (find-inserted s target u us) (find-insert_at s target u us) h

pub find-moved :
    (s : Text) (source target : ℕ) (ts : List Tab)
    → is_found (find s ts) ≡ true
    → is_found (find s (moved target (remove_at source ts))) ≡ true
find-moved s source target ts h =
    IsSomewhere-moved s target (remove_at source ts).0 (remove_at source ts).1
      (find-remove_at s source ts h)

pub Memᴰ-find : (t : Tab) (ts : List Tab) → Memᴰ t ts → is_found (find t.id ts) ≡ true
unfolding find
Memᴰ-find t [] m = absurd (Memᴰ.not-nil m)
Memᴰ-find t (u ∷ ts) m = elim (Memᴰ.cases_cons m) [
  | inl e ↦ let here = (text_eq_iff u.id t.id).1 (ap (λ (x : Tab). x.id) (sym e)) in rw here refl
  | inr n ↦ if_elim (λ o. is_found o ≡ true) (text_eq u.id t.id) (λ f. refl) (λ f. Memᴰ-find t ts n)
]
