-- ===== src/Tabs/Newest.antt =====
-- What _withoutDuplicateProfiles keeps.
use termethis.Base.{
  and_both, ℕ, suc, ◌≤◌, ◌≡◌, inl, inr, refl, sym, ap, ◌∙◌, ==_iff, Bool, true, false, ◌&&◌, ◌||◌,
  Option, none, some, List, [], ◌∷◌, if_elim, Text, text_eq, text_eq_iff, Bool-cases, All, length,
  arith,
}
use termethis.Tabs.{Tab, Protocol, protocol_eq, protocol_index}
use termethis.Tabs.Pairs.{same_profile, same_key, clash_stored, clash, Never, All-imp}
use termethis.Tabs.Load.{
  Newest, newest_of, is_at, is_newest, kept_from, newest_from, without_duplicate_profiles, load,
  as_restored,
}

-- An entry for the profile and the protocol is at a position from some one on.
abbrev AtLeast : ℕ → Option Newest → Type 0
AtLeast i none = ⊥
AtLeast i (some e) = i ≤ e.position

-- So is the entry for a tab, if it has a profile.
abbrev IsBehind : ℕ → List Newest → Option Text → Protocol → Type 0
IsBehind i es none q = Unit
IsBehind i es (some p) q = AtLeast i (newest_of p q es)

AtLeast-less : (i : ℕ) (o : Option Newest) → AtLeast (suc i) o → AtLeast i o
AtLeast-less i none h = h
AtLeast-less i (some e) h = omega arith

IsBehind-less :
    (i : ℕ) (es : List Newest) (p : Option Text) (q : Protocol)
    → IsBehind (suc i) es p q
    → IsBehind i es p q
IsBehind-less i es none q h = h
IsBehind-less i es (some p) q h = AtLeast-less i (newest_of p q es) h

is_at-AtLeast : (i : ℕ) (o : Option Newest) → is_at i o ≡ true → AtLeast i o
is_at-AtLeast i none h = let no : false ≡ true = h in cc
is_at-AtLeast i (some e) h = let same = (==_iff e.position i).0 h in omega arith

is_newest-IsBehind :
    (i : ℕ) (es : List Newest) (t : Tab) (p : Option Text)
    → is_newest p i t es ≡ true
    → IsBehind i es p t.protocol
is_newest-IsBehind i es t none h = tt
is_newest-IsBehind i es t (some p) h = is_at-AtLeast i (newest_of p t.protocol es) h

pub All-kept_from :
    (P : Tab → Type 0) (i : ℕ) (ts : List Tab) (es : List Newest)
    → All P ts
    → All P (kept_from i ts es)
unfolding kept_from
All-kept_from P i [] es a = a
All-kept_from P i (t ∷ ts) es a =
    let rest = All-kept_from P (suc i) ts es a.1 in
    if_elim (All P) (is_newest t.profile_id i t es) (λ e. (a.0, rest)) (λ e. rest)

kept_from-IsBehind :
    (i : ℕ) (ts : List Tab) (es : List Newest)
    → All (λ u. IsBehind i es u.profile_id u.protocol) (kept_from i ts es)
unfolding kept_from
kept_from-IsBehind i [] es = tt
kept_from-IsBehind i (t ∷ ts) es =
    let rest =
      All-imp (λ u. IsBehind (suc i) es u.profile_id u.protocol)
        (λ u. IsBehind i es u.profile_id u.protocol) (kept_from (suc i) ts es)
        (λ u h. IsBehind-less i es u.profile_id u.protocol h) (kept_from-IsBehind (suc i) ts es) in
    if_elim (All (λ u. IsBehind i es u.profile_id u.protocol)) (is_newest t.profile_id i t es)
      (λ e. (is_newest-IsBehind i es t t.profile_id e, rest)) (λ e. rest)

-- The entry depends on the index of the protocol only.
pub newest_of-index :
    (p : Text) (q r : Protocol) (es : List Newest)
    → protocol_index q ≡ protocol_index r
    → newest_of p q es ≡ newest_of p r es
unfolding newest_of
newest_of-index p q r [] h = refl
newest_of-index p q r (e ∷ es) h = let rest = newest_of-index p q r es h in rw (h, rest) refl

at_and_behind : (i : ℕ) (o : Option Newest) → is_at i o ≡ true → AtLeast (suc i) o → ⊥
at_and_behind i none h b = b
at_and_behind i (some e) h b = let same = (==_iff e.position i).0 h in absurd (omega arith)

-- A tab that is kept has another key than those kept behind it.
keys_differ :
    (i : ℕ) (es : List Newest) (t u : Tab) (p q : Option Text)
    → is_newest p i t es ≡ true
    → IsBehind (suc i) es q u.protocol
    → (same_profile p q && protocol_eq t.protocol u.protocol) ≡ false
keys_differ i es t u none q h b = refl
keys_differ i es t u (some p) none h b = refl
keys_differ i es t u (some p) (some q) h b =
    elim (Bool-cases (text_eq p q && protocol_eq t.protocol u.protocol)) [
      | inl e ↦
          let (one, other) = and_both (text_eq p q) (protocol_eq t.protocol u.protocol) e in
          let same : p ≡ q = (text_eq_iff p q).0 one in
          let index = (==_iff (protocol_index t.protocol) (protocol_index u.protocol)).0 other in
          let here : newest_of p t.protocol es ≡ newest_of q u.protocol es =
            newest_of-index p t.protocol u.protocol es index
            ∙ ap (λ x. newest_of x u.protocol es) same in
          absurd (at_and_behind i (newest_of q u.protocol es) (sym (ap (is_at i) here) ∙ h) b)
      | inr e ↦ e
    ]

-- Whatever the map is, no two tabs that are kept have one key.
pub kept_from-keys : (i : ℕ) (ts : List Tab) (es : List Newest) → Never same_key (kept_from i ts es)
unfolding kept_from
kept_from-keys i [] es = tt
kept_from-keys i (t ∷ ts) es =
    let rest = kept_from-keys (suc i) ts es in
    if_elim (Never same_key) (is_newest t.profile_id i t es)
      (λ e. (
        All-imp (λ u. IsBehind (suc i) es u.profile_id u.protocol) (λ u. same_key t u ≡ false)
            (kept_from (suc i) ts es) (λ u h. keys_differ i es t u t.profile_id u.profile_id e h)
            (kept_from-IsBehind (suc i) ts es),
        rest,
      ))
      (λ e. rest)

pub Never-kept_from :
    (c : Tab → Tab → Bool) (i : ℕ) (ts : List Tab) (es : List Newest)
    → Never c ts
    → Never c (kept_from i ts es)
unfolding kept_from
Never-kept_from c i [] es a = tt
Never-kept_from c i (t ∷ ts) es a =
    let rest = Never-kept_from c (suc i) ts es a.1 in
    if_elim (Never c) (is_newest t.profile_id i t es)
      (λ e. (All-kept_from (λ u. c t u ≡ false) (suc i) ts es a.0, rest)) (λ e. rest)

-- Two tests that no two tabs pass.
Never-either : (ts : List Tab) → Never clash_stored ts → Never same_key ts → Never clash ts
Never-either [] a b = tt
Never-either (t ∷ ts) a b = (either_of ts a.0 b.0, Never-either ts a.1 b.1)
  where
    neither : (c d : Bool) → c ≡ false → d ≡ false → (c || d) ≡ false
    neither c d h k = rw (h, k) refl

    either_of :
        (us : List Tab)
        → All (λ u. clash_stored t u ≡ false) us
        → All (λ u. same_key t u ≡ false) us
        → All (λ u. clash t u ≡ false) us
    either_of [] h k = tt
    either_of (u ∷ us) h k =
        (neither (clash_stored t u) (same_key t u) h.0 k.0, either_of us h.1 k.1)

pub without_duplicate_profiles-Never :
    (ts : List Tab) → Never clash_stored ts → Never clash (without_duplicate_profiles ts)
unfolding without_duplicate_profiles
without_duplicate_profiles-Never ts a =
    let es = newest_from 0 ts [] in
    Never-either (kept_from 0 ts es) (Never-kept_from clash_stored 0 ts es a)
      (kept_from-keys 0 ts es)

length-kept_from :
    (i : ℕ) (ts : List Tab) (es : List Newest) → length (kept_from i ts es) ≤ length ts
unfolding kept_from
length-kept_from i [] es = omega arith
length-kept_from i (t ∷ ts) es =
    let rest = length-kept_from (suc i) ts es in
    elim (Bool-cases (is_newest t.profile_id i t es)) [
      | inl e ↦ rw e (omega arith)
      | inr e ↦ rw e (omega arith)
    ]

kept_from-all :
    (i : ℕ) (ts : List Tab) (es : List Newest)
    → length (kept_from i ts es) ≡ length ts
    → kept_from i ts es ≡ ts
unfolding kept_from
kept_from-all i [] es h = refl
kept_from-all i (t ∷ ts) es h = elim (Bool-cases (is_newest t.profile_id i t es)) [
  | inl e ↦
      let n : suc (length (kept_from (suc i) ts es)) ≡ suc (length ts) = rw e at h in
      rw e (ap (λ us. t ∷ us) (kept_from-all (suc i) ts es (omega arith)))
  | inr e ↦
      let n : length (kept_from (suc i) ts es) ≡ suc (length ts) = rw e at h in
      let few = length-kept_from (suc i) ts es in absurd (omega arith)
]

-- If none is left out, the list is as it was.
pub without_duplicate_profiles-all :
    (ts : List Tab)
    → length (without_duplicate_profiles ts) ≡ length ts
    → without_duplicate_profiles ts ≡ ts
unfolding without_duplicate_profiles
without_duplicate_profiles-all ts h = kept_from-all 0 ts (newest_from 0 ts []) h

pub load-load : (ts : List Tab) → load (load ts) ≡ load ts
unfolding load
load-load [] = refl
load-load (t ∷ ts) = ap (λ us. as_restored t ∷ us) (load-load ts)

-- Being restored changes nothing that a test of tabs looks at.
pub load-Never :
    (c : Tab → Tab → Bool) (ts : List Tab)
    → ((t u : Tab) → c (as_restored t) (as_restored u) ≡ c t u)
    → Never c ts
    → Never c (load ts)
unfolding load
load-Never c [] h a = a
load-Never c (t ∷ ts) h a = (all t ts a.0, load-Never c ts h a.1)
  where
    all :
        (t : Tab) (ts : List Tab)
        → All (λ u. c t u ≡ false) ts
        → All (λ u. c (as_restored t) u ≡ false) (load ts)
    all t [] a = a
    all t (u ∷ ts) a = (h t u ∙ a.0, all t ts a.1)

pub Never-load :
    (c : Tab → Tab → Bool) (ts : List Tab)
    → ((t u : Tab) → c (as_restored t) (as_restored u) ≡ c t u)
    → Never c (load ts)
    → Never c ts
unfolding load
Never-load c [] h a = a
Never-load c (t ∷ ts) h a = (all t ts a.0, Never-load c ts h a.1)
  where
    all :
        (t : Tab) (ts : List Tab)
        → All (λ u. c (as_restored t) u ≡ false) (load ts)
        → All (λ u. c t u ≡ false) ts
    all t [] a = a
    all t (u ∷ ts) a = (sym (h t u) ∙ a.0, all t ts a.1)
