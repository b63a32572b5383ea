-- ===== src/Tabs/Pairs.antt =====
-- Tabs that do not clash: what leaving out, changing, adding and moving keep of that.
use mathlib.Core.Path.{ap, subst}
use termethis.Base.{
  All-append, if_elim, ℕ, zero, suc, ◌≡◌, inl, inr, refl, sym, ◌∙◌, Bool, true, false, ◌&&◌, ◌||◌,
  ◌==◌, Option, none, some, List, [], ◌∷◌, ◌++◌, Text, text_eq, text_eq_iff, Bool-cases, All, arith,
}
use mathlib.Core.List.{Memᴰ}
use mathlib.Core.List.Memᴰ
use mathlib.Core.Logic.{⊎_elim}
use termethis.Tabs.{Tab, protocol_eq, protocol_index, is_shizuku, without_tab, update_tab}
use termethis.Tabs.Edits.{remove_at, insert_at, moved}

abbrev pub same_profile : Option Text → Option Text → Bool
same_profile none q = false
same_profile (some p) none = false
same_profile (some p) (some q) = text_eq p q

-- Both are for one profile and one protocol.
abbrev pub same_key : Tab → Tab → Bool
same_key t u = same_profile t.profile_id u.profile_id && protocol_eq t.protocol u.protocol

-- Both are the ADB shell.
abbrev pub clash_stored : Tab → Tab → Bool
clash_stored t u = is_shizuku t && is_shizuku u

abbrev pub clash : Tab → Tab → Bool
clash t u = clash_stored t u || same_key t u

-- No two of the tabs pass a test.
abbrev pub Never : (Tab → Tab → Bool) → List Tab → Type 0
Never c [] = Unit
Never c (t ∷ ts) = All (λ u. c t u ≡ false) ts × Never c ts

pub All-imp : (P Q : Tab → Type 0) (ts : List Tab) → ((t : Tab) → P t → Q t) → All P ts → All Q ts
All-imp P Q [] f a = a
All-imp P Q (t ∷ ts) f a = (f t a.0, All-imp P Q ts f a.1)

pub All-Memᴰ : (P : Tab → Type 0) (ts : List Tab) (t : Tab) → All P ts → Memᴰ t ts → P t
All-Memᴰ P [] t a m = absurd (Memᴰ.not-nil m)
All-Memᴰ P (u ∷ ts) t a m =
    ⊎_elim (λ e. subst P (sym e) a.0) (λ n. All-Memᴰ P ts t a.1 n) (Memᴰ.cases_cons m)

pub text_eq_comm : (p q : Text) → text_eq p q ≡ text_eq q p
text_eq_comm p q = elim (Bool-cases (text_eq p q)) [
  | inl e ↦ e ∙ sym ((text_eq_iff q p).1 (sym ((text_eq_iff p q).0 e)))
  | inr e ↦ elim (Bool-cases (text_eq q p)) [
    | inl f ↦ absurd (let back = (text_eq_iff p q).1 (sym ((text_eq_iff q p).0 f)) in cc)
    | inr f ↦ e ∙ sym f
  ]
]

same_profile_comm : (p q : Option Text) → same_profile p q ≡ same_profile q p
same_profile_comm none none = refl
same_profile_comm none (some q) = refl
same_profile_comm (some p) none = refl
same_profile_comm (some p) (some q) = text_eq_comm p q

==_comm : (m n : ℕ) → (m == n) ≡ (n == m)
==_comm m n = ground arith

and_comm : (a b : Bool) → (a && b) ≡ (b && a)
and_comm true true = refl
and_comm true false = refl
and_comm false true = refl
and_comm false false = refl

pub clash_comm : (t u : Tab) → clash t u ≡ clash u t
clash_comm t u =
    rw
      (
        and_comm (is_shizuku t) (is_shizuku u),
        same_profile_comm t.profile_id u.profile_id,
        ==_comm (protocol_index t.protocol) (protocol_index u.protocol),
      )
      refl

pub All-without_tab :
    (P : Tab → Type 0) (id : Text) (ts : List Tab) → All P ts → All P (without_tab id ts)
unfolding without_tab
All-without_tab P id [] a = a
All-without_tab P id (t ∷ ts) a =
    if_elim (All P) (text_eq t.id id) (λ e. All-without_tab P id ts a.1)
      (λ e. (a.0, All-without_tab P id ts a.1))

pub Never-without_tab :
    (c : Tab → Tab → Bool) (id : Text) (ts : List Tab) → Never c ts → Never c (without_tab id ts)
unfolding without_tab
Never-without_tab c id [] a = a
Never-without_tab c id (t ∷ ts) a =
    if_elim (Never c) (text_eq t.id id) (λ e. Never-without_tab c id ts a.1)
      (λ e. (All-without_tab (λ u. c t u ≡ false) id ts a.0, Never-without_tab c id ts a.1))

-- A tab in the list clashes with none of those with another id.
pub others_differ :
    (t : Tab) (ts : List Tab)
    → Never clash ts
    → Memᴰ t ts
    → All (λ u. clash t u ≡ false) (without_tab t.id ts)
unfolding without_tab
others_differ t [] a m = tt
others_differ t (u ∷ ts) a m = elim (Memᴰ.cases_cons m) [
  | inl e ↦
      let here : All (λ v. clash t v ≡ false) ts =
        subst (λ (x : Tab). All (λ v. clash x v ≡ false) ts) (sym e) a.0 in
      let same : text_eq u.id t.id ≡ true =
        (text_eq_iff u.id t.id).1 (ap (λ (x : Tab). x.id) (sym e)) in
      rw same (All-without_tab (λ v. clash t v ≡ false) t.id ts here)
  | inr n ↦
      if_elim (All (λ v. clash t v ≡ false)) (text_eq u.id t.id) (λ e. others_differ t ts a.1 n)
        (λ e.
          (clash_comm t u ∙ All-Memᴰ (λ v. clash u v ≡ false) ts t a.0 n, others_differ t ts a.1 n))
]

-- A change that no test sees.
pub Never-update_tab :
    (c : Tab → Tab → Bool) (id : Text) (f : Tab → Tab) (ts : List Tab)
    → ((t u : Tab) → c (f t) u ≡ c t u)
    → ((t u : Tab) → c t (f u) ≡ c t u)
    → Never c ts
    → Never c (update_tab id f ts)
unfolding update_tab
Never-update_tab c id f [] h k a = a
Never-update_tab c id f (t ∷ ts) h k a = (
  if_elim (λ x. All (λ u. c x u ≡ false) (update_tab id f ts)) (text_eq t.id id)
      (λ e.
        All-imp (λ u. c t u ≡ false) (λ u. c (f t) u ≡ false) (update_tab id f ts)
          (λ u n. h t u ∙ n) (differ_updated c id f ts t k a.0))
      (λ e. differ_updated c id f ts t k a.0),
  Never-update_tab c id f ts h k a.1,
)
  where
    differ_updated :
        (c : Tab → Tab → Bool) (id : Text) (f : Tab → Tab) (ts : List Tab) (x : Tab)
        → ((t u : Tab) → c t (f u) ≡ c t u)
        → All (λ u. c x u ≡ false) ts
        → All (λ u. c x u ≡ false) (update_tab id f ts)
    differ_updated c id f [] x k a = a
    differ_updated c id f (t ∷ ts) x k a = (
      if_elim (λ y. c x y ≡ false) (text_eq t.id id) (λ e. k x t ∙ a.0) (λ e. a.0),
      differ_updated c id f ts x k a.1,
    )

pub Never-append :
    (c : Tab → Tab → Bool) (ts : List Tab) (u : Tab)
    → Never c ts
    → All (λ t. c t u ≡ false) ts
    → Never c (ts ++ u ∷ [])
Never-append c [] u a d = (tt, tt)
Never-append c (t ∷ ts) u a d =
    (All-append (λ v. c t v ≡ false) ts (u ∷ []) a.0 (d.0, tt), Never-append c ts u a.1 d.1)

-- One tab is taken out, if there is one: it, and those left, have a property.
abbrev TakesOut : (Tab → Type 0) → Option Tab → List Tab → Type 0
TakesOut P none us = All P us
TakesOut P (some u) us = P u × All P us

TakesOut-All : (P : Tab → Type 0) (o : Option Tab) (us : List Tab) → TakesOut P o us → All P us
TakesOut-All P none us h = h
TakesOut-All P (some u) us h = h.1

TakesOut-keep :
    (P : Tab → Type 0) (o : Option Tab) (us : List Tab) (t : Tab)
    → P t
    → TakesOut P o us
    → TakesOut P o (t ∷ us)
TakesOut-keep P none us t p h = (p, h)
TakesOut-keep P (some u) us t p h = (h.0, (p, h.1))

All-remove_at :
    (P : Tab → Type 0) (i : ℕ) (ts : List Tab)
    → All P ts
    → TakesOut P (remove_at i ts).0 (remove_at i ts).1
unfolding remove_at
All-remove_at P i [] a = a
All-remove_at P zero (t ∷ ts) a = a
All-remove_at P (suc i) (t ∷ ts) a =
    TakesOut-keep P (remove_at i ts).0 (remove_at i ts).1 t a.0 (All-remove_at P i ts a.1)

-- It passes the test with none that is left, nor do these with each other.
abbrev IsTakenOut : (Tab → Tab → Bool) → Option Tab → List Tab → Type 0
IsTakenOut c none us = Never c us
IsTakenOut c (some u) us = All (λ v. c u v ≡ false) us × Never c us

IsTakenOut-keep :
    (c : Tab → Tab → Bool) (comm : (t u : Tab) → c t u ≡ c u t) (o : Option Tab) (us : List Tab)
    (t : Tab)
    → TakesOut (λ v. c t v ≡ false) o us
    → IsTakenOut c o us
    → IsTakenOut c o (t ∷ us)
IsTakenOut-keep c comm none us t d h = (d, h)
IsTakenOut-keep c comm (some u) us t d h = ((comm u t ∙ d.0, h.0), (d.1, h.1))

Never-remove_at :
    (c : Tab → Tab → Bool) (comm : (t u : Tab) → c t u ≡ c u t) (i : ℕ) (ts : List Tab)
    → Never c ts
    → IsTakenOut c (remove_at i ts).0 (remove_at i ts).1
unfolding remove_at
Never-remove_at c comm i [] a = a
Never-remove_at c comm zero (t ∷ ts) a = a
Never-remove_at c comm (suc i) (t ∷ ts) a =
    IsTakenOut-keep c comm (remove_at i ts).0 (remove_at i ts).1 t
      (All-remove_at (λ v. c t v ≡ false) i ts a.0) (Never-remove_at c comm i ts a.1)

All-insert_at :
    (P : Tab → Type 0) (i : ℕ) (u : Tab) (ts : List Tab) → P u → All P ts → All P (insert_at i u ts)
unfolding insert_at
All-insert_at P zero u ts p a = (p, a)
All-insert_at P (suc i) u [] p a = (p, tt)
All-insert_at P (suc i) u (t ∷ ts) p a = (a.0, All-insert_at P i u ts p a.1)

Never-insert_at :
    (c : Tab → Tab → Bool) (comm : (t u : Tab) → c t u ≡ c u t) (i : ℕ) (u : Tab) (ts : List Tab)
    → All (λ v. c u v ≡ false) ts
    → Never c ts
    → Never c (insert_at i u ts)
unfolding insert_at
Never-insert_at c comm zero u ts d a = (d, a)
Never-insert_at c comm (suc i) u [] d a = (tt, tt)
Never-insert_at c comm (suc i) u (t ∷ ts) d a = (
  All-insert_at (λ v. c t v ≡ false) i u ts (comm t u ∙ d.0) a.0,
  Never-insert_at c comm i u ts d.1 a.1,
)

Never-moved_out :
    (c : Tab → Tab → Bool) (comm : (t u : Tab) → c t u ≡ c u t) (target : ℕ) (o : Option Tab)
    (us : List Tab)
    → IsTakenOut c o us
    → Never c (moved target (o, us))
Never-moved_out c comm target none us h = h
Never-moved_out c comm target (some u) us h = Never-insert_at c comm target u us h.0 h.1

pub Never-moved :
    (c : Tab → Tab → Bool) (comm : (t u : Tab) → c t u ≡ c u t) (source target : ℕ) (ts : List Tab)
    → Never c ts
    → Never c (moved target (remove_at source ts))
Never-moved c comm source target ts a =
    Never-moved_out c comm target (remove_at source ts).0 (remove_at source ts).1
      (Never-remove_at c comm source ts a)

pub All-moved :
    (P : Tab → Type 0) (source target : ℕ) (ts : List Tab)
    → All P ts
    → All P (moved target (remove_at source ts))
All-moved P source target ts a =
    put_back (remove_at source ts).0 (remove_at source ts).1 (All-remove_at P source ts a)
  where
    put_back : (o : Option Tab) (us : List Tab) → TakesOut P o us → All P (moved target (o, us))
    put_back none us h = h
    put_back (some u) us h = All-insert_at P target u us h.0 h.1

pub All-update_tab :
    (P : Tab → Type 0) (id : Text) (f : Tab → Tab) (ts : List Tab)
    → ((t : Tab) → P t → P (f t))
    → All P ts
    → All P (update_tab id f ts)
unfolding update_tab
All-update_tab P id f [] h a = a
All-update_tab P id f (t ∷ ts) h a =
    (if_elim P (text_eq t.id id) (λ e. h t a.0) (λ e. a.0), All-update_tab P id f ts h a.1)
