-- ===== src/Backup/Names.antt =====
-- The ids of a backup: sets of them, and the profiles that its routes name.
use mathlib.Core.List.{Memᴰ}
use mathlib.Core.List.Memᴰ
use mathlib.Core.Logic.{⊎_elim}
use mathlib.Core.Path.{subst}
use termethis.Base.{
  suc, ◌+◌, ◌≤◌, ◌≡◌, ◌↔◌, ◌⊎◌, inl, inr, refl, sym, ap, Bool, true, false, not, Option, none, some,
  List, [], ◌∷◌, Text, Bool-cases, length, arith,
}
use termethis.Routes.{Route, contains}
use termethis.Routes.Graphs.{contains-Memᴰ, not_contains}
use termethis.Tabs.{Tab, Profile}
use termethis.Backup.{
  profile_ids, tab_ids, to_set, any_unknown, has_unknown, count_profiles, is_kept, kept_tabs,
  is_skipped, count_skipped, kept_ids, kept_routes,
}

-- No id is in the list twice.
abbrev pub IsUnique : List Text → Type 0
IsUnique [] = Unit
IsUnique (x ∷ xs) = (¬ Memᴰ x xs) × IsUnique xs

pub to_set-Memᴰ : (x : Text) (xs : List Text) → Memᴰ x (to_set xs) ↔ Memᴰ x xs
unfolding to_set
to_set-Memᴰ x [] = (λ m. m, λ m. m)
to_set-Memᴰ x (y ∷ xs) =
    let (less, back) = to_set-Memᴰ x xs in
    elim (Bool-cases (contains y (to_set xs))) [
      | inl e ↦
          let there : Memᴰ y (to_set xs) = (contains-Memᴰ y (to_set xs)).0 e in
          (
            λ m. Memᴰ.tail (less (rw e at m)),
            λ m. rw e (
                ⊎_elim (λ p. subst (λ (z : Text). Memᴰ z (to_set xs)) (sym p) there) back
                  (Memᴰ.cases_cons m)),
          )
      | inr e ↦ (
        λ m. ⊎_elim (λ p. Memᴰ.head p) (λ n. Memᴰ.tail (less n)) (Memᴰ.cases_cons (rw e at m)),
        λ m. rw e (⊎_elim (λ p. Memᴰ.head p) (λ n. Memᴰ.tail (back n)) (Memᴰ.cases_cons m)),
      )
    ]

length-to_set : (xs : List Text) → length (to_set xs) ≤ length xs
unfolding to_set
length-to_set [] = omega arith
length-to_set (x ∷ xs) =
    let less = length-to_set xs in
    elim (Bool-cases (contains x (to_set xs))) [
      | inl e ↦ rw e (omega arith)
      | inr e ↦ rw e (omega arith)
    ]

-- A set is as long as its list exactly where no id is in the list twice.
pub length-IsUnique : (xs : List Text) → (length (to_set xs) ≡ length xs) ↔ IsUnique xs
unfolding to_set
length-IsUnique [] = (λ h. tt, λ h. refl)
length-IsUnique (x ∷ xs) =
    let (one, two) = length-IsUnique xs in
    let less = length-to_set xs in
    elim (Bool-cases (contains x (to_set xs))) [
      | inl e ↦
          let twice : Memᴰ x xs = (to_set-Memᴰ x xs).0 ((contains-Memᴰ x (to_set xs)).0 e) in
          (
            λ h. let n : length (to_set xs) ≡ suc (length xs) = rw e at h in absurd (omega arith),
            λ h. absurd (h.0 twice),
          )
      | inr e ↦ (
        λ h.
            let n : suc (length (to_set xs)) ≡ suc (length xs) = rw e at h in
            (λ m. not_contains x (to_set xs) e ((to_set-Memᴰ x xs).1 m), one (omega arith)),
        λ h. let n = two h.1 in rw e (omega arith),
      )
    ]

pub length-profile_ids : (ps : List Profile) → length (profile_ids ps) ≡ length ps
unfolding profile_ids
length-profile_ids [] = refl
length-profile_ids (p ∷ ps) = ap suc (length-profile_ids ps)

pub length-tab_ids : (ts : List Tab) → length (tab_ids ts) ≡ length ts
unfolding tab_ids
length-tab_ids [] = refl
length-tab_ids (t ∷ ts) = ap suc (length-tab_ids ts)

-- A profile that a route is for, or that it has as a jump host.
abbrev pub IsNamed : Text → List Route → Type 0
IsNamed x [] = ⊥
IsNamed x (r ∷ rs) = (x ≡ r.profile_id) ⊎ Memᴰ x r.jump_profile_ids ⊎ IsNamed x rs

any_unknown-cases :
    (known xs : List Text)
    → ((any_unknown known xs ≡ false) × ((x : Text) → Memᴰ x xs → Memᴰ x known))
      ⊎ ((any_unknown known xs ≡ true) × ((x : Text) × Memᴰ x xs × (¬ Memᴰ x known)))
unfolding any_unknown
any_unknown-cases known [] = inl (refl, λ x m. absurd (Memᴰ.not-nil m))
any_unknown-cases known (x ∷ xs) = elim (Bool-cases (contains x known)) [
  | inr e ↦ inr (rw e refl, (x, Memᴰ.head refl, not_contains x known e))
  | inl e ↦
      let here : Memᴰ x known = (contains-Memᴰ x known).0 e in
      elim (any_unknown-cases known xs) [
        | inl (f, h) ↦ inl (
          rw e f,
          λ y m.
              ⊎_elim (λ p. subst (λ (z : Text). Memᴰ z known) (sym p) here) (h y)
                (Memᴰ.cases_cons m),
        )
        | inr (f, (y, m, n)) ↦ inr (rw e f, (y, Memᴰ.tail m, n))
      ]
]

-- The loop over the routes throws exactly where a route names a profile that is not known.
pub has_unknown-cases :
    (known : List Text) (rs : List Route)
    → ((has_unknown known rs ≡ false) × ((x : Text) → IsNamed x rs → Memᴰ x known))
      ⊎ ((has_unknown known rs ≡ true) × ((x : Text) × IsNamed x rs × (¬ Memᴰ x known)))
unfolding has_unknown
has_unknown-cases known [] = inl (refl, λ x n. elim n [ ])
has_unknown-cases known (r ∷ rs) = elim (Bool-cases (contains r.profile_id known)) [
  | inr e ↦ inr (rw e refl, (r.profile_id, inl refl, not_contains r.profile_id known e))
  | inl e ↦
      let here : Memᴰ r.profile_id known = (contains-Memᴰ r.profile_id known).0 e in
      elim (any_unknown-cases known r.jump_profile_ids) [
        | inr (f, (y, m, n)) ↦ inr (rw (e, f) refl, (y, inr (inl m), n))
        | inl (f, h) ↦ elim (has_unknown-cases known rs) [
          | inl (k, l) ↦ inl (
            rw (e, f) k,
            λ x n.
                ⊎_elim (λ p. subst (λ (z : Text). Memᴰ z known) (sym p) here) (⊎_elim (h x) (l x))
                  n,
          )
          | inr (k, (y, m, n)) ↦ inr (rw (e, f) k, (y, inr (inr m), n))
        ]
      ]
]

kept_ids-all :
    (known xs : List Text) → ((x : Text) → Memᴰ x xs → Memᴰ x known) → kept_ids known xs ≡ xs
unfolding kept_ids
kept_ids-all known [] h = refl
kept_ids-all known (x ∷ xs) h =
    let e = (contains-Memᴰ x known).1 (h x (Memᴰ.head refl)) in
    rw e (ap (λ ys. x ∷ ys) (kept_ids-all known xs (λ y m. h y (Memᴰ.tail m))))

-- Routes that name known profiles only are restored as they are.
pub kept_routes-all :
    (known : List Text) (rs : List Route)
    → ((x : Text) → IsNamed x rs → Memᴰ x known)
    → kept_routes known rs ≡ rs
unfolding kept_routes
kept_routes-all known [] h = refl
kept_routes-all known (r ∷ rs) h =
    let e = (contains-Memᴰ r.profile_id known).1 (h r.profile_id (inl refl)) in
    let same = kept_ids-all known r.jump_profile_ids (λ x m. h x (inr (inl m))) in
    let rest = kept_routes-all known rs (λ x n. h x (inr (inr n))) in
    rw e (λ i. (record r { jump_profile_ids = same i }) ∷ rest i)

-- A tab that is counted as skipped is not kept, and the other way round.
pub skipped-kept :
    (known : List Text) (ts : List Tab)
    → count_skipped known ts + length (kept_tabs known ts) ≡ length ts
unfolding count_skipped kept_tabs
skipped-kept known [] = refl
skipped-kept known (t ∷ ts) =
    let ih = skipped-kept known ts in
    elim (Bool-cases (is_kept known t.profile_id)) [
      | inl e ↦ let no = opposite t.profile_id true e in rw (e, no) (omega arith)
      | inr e ↦ let yes_it_is = opposite t.profile_id false e in rw (e, yes_it_is) (omega arith)
    ]
  where
    opposite : (p : Option Text) (b : Bool) → is_kept known p ≡ b → is_skipped known p ≡ not b
    opposite none b h = ap not h
    opposite (some p) b h = ap not h

pub count-not :
    (p : Profile → Bool) (xs : List Profile)
    → count_profiles (λ x. not (p x)) xs + count_profiles p xs ≡ length xs
unfolding count_profiles
count-not p [] = refl
count-not p (x ∷ xs) =
    let ih = count-not p xs in
    elim (Bool-cases (p x)) [ inl e ↦ rw e (omega arith) | inr e ↦ rw e (omega arith) ]

-- The tabs that are kept are those of known profiles, or of none.
pub Memᴰ-kept_tabs :
    (known : List Text) (ts : List Tab) (t : Tab)
    → Memᴰ t (kept_tabs known ts) ↔ (Memᴰ t ts × (is_kept known t.profile_id ≡ true))
unfolding kept_tabs
Memᴰ-kept_tabs known [] t = (λ m. absurd (Memᴰ.not-nil m), λ h. absurd (Memᴰ.not-nil h.0))
Memᴰ-kept_tabs known (u ∷ ts) t =
    let (less, back) = Memᴰ-kept_tabs known ts t in
    elim (Bool-cases (is_kept known u.profile_id)) [
      | inl e ↦ (
        λ m.
            ⊎_elim
              (λ (p : t ≡ u).
                (Memᴰ.head p, subst (λ (x : Tab). is_kept known x.profile_id ≡ true) (sym p) e))
              (λ n. let (k, l) = less n in (Memᴰ.tail k, l)) (Memᴰ.cases_cons (rw e at m)),
        λ h.
            rw e (⊎_elim (λ p. Memᴰ.head p) (λ n. Memᴰ.tail (back (n, h.1))) (Memᴰ.cases_cons h.0)),
      )
      | inr e ↦ (
        λ m. let (k, l) = less (rw e at m) in (Memᴰ.tail k, l),
        λ h. rw e (
            ⊎_elim
              (λ (p : t ≡ u). absurd (
                let met : is_kept known u.profile_id ≡ true =
                  subst (λ (x : Tab). is_kept known x.profile_id ≡ true) p h.1 in
                cc))
              (λ n. back (n, h.1)) (Memᴰ.cases_cons h.0)),
      )
    ]
