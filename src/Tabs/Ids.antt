-- ===== src/Tabs/Ids.antt =====
-- The ids of the tabs of ConnectionTabsController, on a clock that does not go back.
use termethis.Base.{
  ℕ, ◌+◌, ◌≤◌, ◌<◌, ◌≡◌, ◌≢◌, inl, inr, refl, sym, ◌∙◌, Bool, false, Option, none, some, List, [],
  ◌∷◌, ◌++◌, ◌==◌, ap, All-append, if_elim, Text, text_eq, text_eq_iff, Bool-cases, All, length,
  ltb, arith,
}
use mathlib.Core.Path.{subst}
use termethis.Base.Int.{ℤ, pos, negsuc}
use termethis.Prompt.{is_empty}
use termethis.Tabs.{
  Tab, Tabs, Profile, tab_id, save, add_tab, profile_tab, shizuku_tab, find, is_found, without_tab,
  update_tab, id_of, latest, activated, mark_active, open_existing, shizuku_existing,
}
use termethis.Tabs.Edits.{close, is_selected, rename, trim, move_to, moved, remove_at}
use termethis.Tabs.Load.{load, newest_from, without_duplicate_profiles, build}
use termethis.Tabs.Pairs.{
  Never, All-imp, text_eq_comm, Never-without_tab, All-without_tab, Never-update_tab,
  All-update_tab, Never-append, Never-moved, All-moved,
}
use termethis.Tabs.Newest.{All-kept_from, Never-kept_from, load-Never}
use termethis.Tabs.Names.{tab_id_inj}

abbrev pub same_id : Tab → Tab → Bool
same_id t u = text_eq t.id u.id

same_id_comm : (t u : Tab) → same_id t u ≡ same_id u t
same_id_comm t u = text_eq_comm t.id u.id

-- An id that will not be made: not at a later time, and not at the time of the clock with a later
-- number.
abbrev pub IsOld : ℕ → ℕ → Text → Type 0
IsOld clock sequence id =
    ((s q : ℕ) → clock < s → id ≢ tab_id s q)
    × ((s q : ℕ) → clock ≤ s → sequence < q → id ≢ tab_id s q)

pub record HasIds (clock : ℕ) (c : Tabs) : Type 0 where
  pub old : All (λ t. IsOld clock c.sequence t.id) c.value
  pub old_stored : All (λ t. IsOld clock c.sequence t.id) c.stored
  pub apart : Never same_id c.value
  pub apart_stored : Never same_id c.stored

save-HasIds :
    (clock : ℕ) (ts : List Tab) (c : Tabs)
    → All (λ t. IsOld clock c.sequence t.id) ts
    → Never same_id ts
    → HasIds clock (save ts c)
save-HasIds clock ts c a n = record { old = a; old_stored = a; apart = n; apart_stored = n }

-- Time goes on.
IsOld-later :
    (clock clock' m n : ℕ) (id : Text)
    → clock ≤ clock'
    → m ≤ n
    → IsOld clock m id
    → IsOld clock' n id
IsOld-later clock clock' m n id h k o =
    (λ s q l. o.0 s q (omega arith), λ s q l g. o.1 s q (omega arith) (omega arith))

All-IsOld-later :
    (clock clock' m n : ℕ) (ts : List Tab)
    → clock ≤ clock'
    → m ≤ n
    → All (λ t. IsOld clock m t.id) ts
    → All (λ t. IsOld clock' n t.id) ts
All-IsOld-later clock clock' m n ts h k a =
    All-imp (λ t. IsOld clock m t.id) (λ t. IsOld clock' n t.id) ts
      (λ t o. IsOld-later clock clock' m n t.id h k o) a

pub HasIds-later : (clock clock' : ℕ) (c : Tabs) → clock ≤ clock' → HasIds clock c → HasIds clock' c
HasIds-later clock clock' c h i =
    let same : c.sequence ≤ c.sequence = omega arith in
    record {
      old = All-IsOld-later clock clock' c.sequence c.sequence c.value h same i.old;
      old_stored = All-IsOld-later clock clock' c.sequence c.sequence c.stored h same i.old_stored;
      apart = i.apart;
      apart_stored = i.apart_stored;
    }

-- The id of a new tab.
new-IsOld : (stamp n : ℕ) → IsOld stamp n (tab_id stamp n)
new-IsOld stamp n = (
  λ s q l e. let (a, b) = tab_id_inj stamp n s q e in absurd (omega arith),
  λ s q l g e. let (a, b) = tab_id_inj stamp n s q e in absurd (omega arith),
)

IsOld-differs :
    (clock stamp n : ℕ) (make : Text → Tab) (ts : List Tab)
    → ((id : Text) → (make id).id ≡ id)
    → clock ≤ stamp
    → All (λ t. IsOld clock n t.id) ts
    → All (λ t. same_id t (make (tab_id stamp (n + 1))) ≡ false) ts
IsOld-differs clock stamp n make ts h le a =
    All-imp (λ t. IsOld clock n t.id) (λ t. same_id t (make (tab_id stamp (n + 1))) ≡ false) ts
      (λ t o. elim (Bool-cases (text_eq t.id (make (tab_id stamp (n + 1))).id)) [
        | inl e ↦ absurd (
            o.1 stamp (n + 1) le (omega arith)
              ((text_eq_iff t.id (make (tab_id stamp (n + 1))).id).0 e ∙ h (tab_id stamp (n + 1))))
        | inr e ↦ e
      ])
      a

add_tab-HasIds :
    (clock stamp : ℕ) (make : Text → Tab) (ts : List Tab) (c : Tabs)
    → ((id : Text) → (make id).id ≡ id)
    → clock ≤ stamp
    → All (λ t. IsOld clock c.sequence t.id) ts
    → Never same_id ts
    → HasIds stamp (add_tab make stamp ts c)
add_tab-HasIds clock stamp make ts c h le a n =
    let new = tab_id stamp (c.sequence + 1) in
    let old = All-IsOld-later clock stamp c.sequence (c.sequence + 1) ts le (omega arith) a in
    save-HasIds stamp (ts ++ make new ∷ [])
      (record c { sequence = c.sequence + 1; selected = some new })
      (All-append (λ t. IsOld stamp (c.sequence + 1) t.id) ts (make new ∷ []) old
        (subst (IsOld stamp (c.sequence + 1)) (sym (h new)) (new-IsOld stamp (c.sequence + 1)), tt))
      (Never-append same_id ts (make new) n (IsOld-differs clock stamp c.sequence make ts h le a))

-- A change that keeps ids.
update_tab-HasIds :
    (clock : ℕ) (id : Text) (f : Tab → Tab) (c d : Tabs)
    → ((t : Tab) → (f t).id ≡ t.id)
    → d.sequence ≡ c.sequence
    → HasIds clock c
    → HasIds clock (save (update_tab id f c.value) d)
update_tab-HasIds clock id f c d h e i =
    save-HasIds clock (update_tab id f c.value) d
      (All-update_tab (λ t. IsOld clock d.sequence t.id) id f c.value
        (λ t o. subst (IsOld clock d.sequence) (sym (h t)) o)
        (subst (λ (n : ℕ). All (λ t. IsOld clock n t.id) c.value) (sym e) i.old))
      (Never-update_tab same_id id f c.value (λ t u. ap (λ s. text_eq s u.id) (h t))
        (λ t u. ap (text_eq t.id) (h u)) i.apart)

pub mark_active-HasIds :
    (clock : ℕ) (id : Text) (now : ℕ) (c : Tabs)
    → HasIds clock c
    → HasIds clock (mark_active id now c)
unfolding mark_active
mark_active-HasIds clock id now c i =
    if_elim (HasIds clock) (is_found (find id c.value))
      (λ e.
        update_tab-HasIds clock id (activated now) c (record c { selected = some id }) (λ t. refl)
          refl i)
      (λ e. i)

pub open_existing-HasIds :
    (clock : ℕ) (p : Profile) (now stamp : ℕ) (o : Option Tab) (c : Tabs)
    → clock ≤ stamp
    → HasIds clock c
    → HasIds stamp (open_existing p now stamp o c)
open_existing-HasIds clock p now stamp none c le i =
    add_tab-HasIds clock stamp (profile_tab p now) c.value c (λ id. refl) le i.old i.apart
open_existing-HasIds clock p now stamp (some t) c le i =
    if_elim (HasIds stamp) t.restored
      (λ e.
        add_tab-HasIds clock stamp (profile_tab p now) (without_tab t.id c.value) c (λ id. refl) le
          (All-without_tab (λ u. IsOld clock c.sequence u.id) t.id c.value i.old)
          (Never-without_tab same_id t.id c.value i.apart))
      (λ e.
        HasIds-later clock stamp (mark_active t.id now c) le
          (mark_active-HasIds clock t.id now c i))

pub shizuku_existing-HasIds :
    (clock now stamp : ℕ) (o : Option Tab) (c : Tabs)
    → clock ≤ stamp
    → HasIds clock c
    → HasIds stamp (shizuku_existing now stamp o c)
shizuku_existing-HasIds clock now stamp none c le i =
    add_tab-HasIds clock stamp (shizuku_tab now) c.value c (λ id. refl) le i.old i.apart
shizuku_existing-HasIds clock now stamp (some t) c le i =
    HasIds-later clock stamp (mark_active t.id now c) le (mark_active-HasIds clock t.id now c i)

pub close-HasIds : (clock : ℕ) (id : Text) (c : Tabs) → HasIds clock c → HasIds clock (close id c)
unfolding close
close-HasIds clock id c i =
    let a = All-without_tab (λ u. IsOld clock c.sequence u.id) id c.value i.old in
    let n = Never-without_tab same_id id c.value i.apart in
    if_elim (λ (d : Tabs). HasIds clock (save (without_tab id c.value) d))
      (is_selected id c.selected)
      (λ e.
        save-HasIds clock (without_tab id c.value)
          (record c { selected = id_of (latest (without_tab id c.value)) }) a n)
      (λ e. save-HasIds clock (without_tab id c.value) c a n)

pub rename-HasIds :
    (clock : ℕ) (id title : Text) (c : Tabs) → HasIds clock c → HasIds clock (rename id title c)
unfolding rename
rename-HasIds clock id title c i =
    if_elim (HasIds clock) (is_empty (trim title)) (λ e. i)
      (λ e.
        update_tab-HasIds clock id (λ t. record t { title = trim title }) c c (λ t. refl) refl i)

pub move_to-HasIds :
    (clock : ℕ) (source : Option ℕ) (target : ℤ) (c : Tabs)
    → HasIds clock c
    → HasIds clock (move_to source target c)
move_to-HasIds clock none target c i = i
move_to-HasIds clock (some source) (negsuc n) c i = i
move_to-HasIds clock (some source) (pos target) c i =
    if_elim (HasIds clock) (ltb target (length c.value))
      (λ e.
        save-HasIds clock (moved target (remove_at source c.value)) c
          (All-moved (λ t. IsOld clock c.sequence t.id) source target c.value i.old)
          (Never-moved same_id same_id_comm source target c.value i.apart))
      (λ e. i)

load-All : (P : Text → Type 0) (ts : List Tab) → All (λ t. P t.id) ts → All (λ t. P t.id) (load ts)
unfolding load
load-All P [] a = a
load-All P (t ∷ ts) a = (a.0, load-All P ts a.1)

-- A new build, whatever the number of its controller is.
pub build-HasIds :
    (clock n : ℕ) (stored : List Tab)
    → All (λ t. IsOld clock n t.id) stored
    → Never same_id stored
    → HasIds clock (record (build stored) { sequence = n })
unfolding build without_duplicate_profiles
build-HasIds clock n stored a d =
    let es = newest_from 0 (load stored) [] in
    let kept =
      All-kept_from (λ t. IsOld clock n t.id) 0 (load stored) es
        (load-All (IsOld clock n) stored a) in
    let kept_apart =
      Never-kept_from same_id 0 (load stored) es (load-Never same_id stored (λ t u. refl) d) in
    let b : Bool = length (without_duplicate_profiles (load stored)) == length (load stored) in
    record {
      old = kept;
      old_stored = if_elim (All (λ t. IsOld clock n t.id)) b (λ e. a) (λ e. kept);
      apart = kept_apart;
      apart_stored = if_elim (Never same_id) b (λ e. d) (λ e. kept_apart);
    }
