-- ===== src/Routes/Changes.antt =====
-- What saveRoute and removeFor make of the routes.
use mathlib.Core.List.{Memᴰ}
use mathlib.Core.List.Memᴰ
use mathlib.Core.Logic.{⊎_elim}
use termethis.Base.{
  ◌≡◌, ◌≢◌, ◌↔◌, ◌⊎◌, inl, inr, sym, ◌∙◌, true, false, List, [], ◌∷◌, ◌++◌, if◌then◌else◌, Text,
  text_eq, text_eq_iff, Bool-cases,
}
use termethis.Prompt.{is_empty}
use termethis.Routes.{Route, remove, others, with_route, without_profile}
use termethis.Routes.Jumps.{Jump}

pub text_differs : (x y : Text) → text_eq x y ≡ false → x ≢ y
text_differs x y e p = let same = (text_eq_iff x y).1 p in cc

text_eq_differs : (x y : Text) → x ≢ y → text_eq x y ≡ false
text_eq_differs x y n = elim (Bool-cases (text_eq x y)) [
  | inl e ↦ absurd (n ((text_eq_iff x y).0 e))
  | inr e ↦ e
]

is_empty-Memᴰ : (v : Text) (xs : List Text) → is_empty xs ≡ true → ¬ Memᴰ v xs
is_empty-Memᴰ v [] e m = Memᴰ.not-nil m
is_empty-Memᴰ v (x ∷ xs) e m = let no : false ≡ true = e in cc

Memᴰ-remove : (id v : Text) (xs : List Text) → Memᴰ v (remove id xs) ↔ ((id ≢ v) × Memᴰ v xs)
Memᴰ-remove id v [] = (λ m. absurd (Memᴰ.not-nil m), λ h. absurd (Memᴰ.not-nil h.1))
Memᴰ-remove id v (x ∷ xs) =
    let (fewer, back) = Memᴰ-remove id v xs in
    elim (Bool-cases (text_eq x id)) [
      | inl e ↦
          let p : x ≡ id = (text_eq_iff x id).0 e in
          (
            λ m. let (n, k) = fewer (rw e at m) in (n, Memᴰ.tail k),
            λ h. rw e (
                ⊎_elim (λ q. absurd (h.0 (sym (q ∙ p)))) (λ k. back (h.0, k))
                  (Memᴰ.cases_cons h.1)),
          )
      | inr e ↦ (
        λ m.
            ⊎_elim (λ (q : v ≡ x). (λ (s : id ≡ v). text_differs x id e (sym (s ∙ q)), Memᴰ.head q))
              (λ k. let (n, l) = fewer k in (n, Memᴰ.tail l)) (Memᴰ.cases_cons (rw e at m)),
        λ h.
            rw e (⊎_elim (λ q. Memᴰ.head q) (λ k. Memᴰ.tail (back (h.0, k))) (Memᴰ.cases_cons h.1)),
      )
    ]

Jump-append : (xs ys : List Route) (u v : Text) → Jump (xs ++ ys) u v ↔ (Jump xs u v ⊎ Jump ys u v)
Jump-append [] ys u v = (λ j. inr j, λ h. elim h [ inl j ↦ elim j [ ] | inr j ↦ j ])
Jump-append (r ∷ xs) ys u v =
    let (apart, together) = Jump-append xs ys u v in
    (
      λ j. elim j [
        | inl p ↦ inl (inl p)
        | inr k ↦ elim (apart k) [ inl a ↦ inl (inr a) | inr b ↦ inr b ]
      ],
      λ h. elim h [
        | inl a ↦ elim a [ inl p ↦ inl p | inr k ↦ inr (together (inl k)) ]
        | inr b ↦ inr (together (inr b))
      ],
    )

Jump-others :
    (id : Text) (rs : List Route) (u v : Text) → Jump (others id rs) u v ↔ ((id ≢ u) × Jump rs u v)
unfolding others
Jump-others id [] u v = (λ j. elim j [ ], λ h. elim h.1 [ ])
Jump-others id (r ∷ rs) u v =
    let (fewer, back) = Jump-others id rs u v in
    elim (Bool-cases (text_eq r.profile_id id)) [
      | inl e ↦
          let p : r.profile_id ≡ id = (text_eq_iff r.profile_id id).0 e in
          (
            λ j. let (n, k) = fewer (rw e at j) in (n, inr k),
            λ h. rw e (⊎_elim (λ q. absurd (h.0 (sym p ∙ q.0))) (λ k. back (h.0, k)) h.1),
          )
      | inr e ↦ (
        λ j.
            ⊎_elim
              (λ (q : (r.profile_id ≡ u) × Memᴰ v r.jump_profile_ids).
                (λ (s : id ≡ u). text_differs r.profile_id id e (q.0 ∙ sym s), inl q))
              (λ k. let (n, l) = fewer k in (n, inr l)) (rw e at j),
        λ h. rw e (⊎_elim (λ q. inl q) (λ k. inr (back (h.0, k))) h.1),
      )
    ]

-- The jump hosts behind saveRoute: those of its route, and those of the other profiles.
pub Jump-with_route :
    (r : Route) (rs : List Route) (u v : Text)
    → Jump (with_route r rs) u v
      ↔ (((r.profile_id ≡ u) × Memᴰ v r.jump_profile_ids) ⊎ ((r.profile_id ≢ u) × Jump rs u v))
unfolding with_route
Jump-with_route r rs u v =
    let (apart, together) =
      Jump-append (others r.profile_id rs) (if is_empty r.jump_profile_ids then [] else r ∷ []) u
        v in
    let (fewer, back) = Jump-others r.profile_id rs u v in
    (
      λ j. elim (apart j) [ inl a ↦ inr (fewer a) | inr b ↦ inl (only r u v b) ],
      λ h. elim h [ inl p ↦ together (inr (added r u v p)) | inr n ↦ together (inl (back n)) ],
    )
  where
    only :
        (r : Route) (u v : Text)
        → Jump (if is_empty r.jump_profile_ids then [] else r ∷ []) u v
        → (r.profile_id ≡ u) × Memᴰ v r.jump_profile_ids
    only r u v j = elim (Bool-cases (is_empty r.jump_profile_ids)) [
      | inl e ↦ let none_left : ⊥ = rw e at j in elim none_left [ ]
      | inr e ↦ ⊎_elim (λ p. p) (λ k. elim k [ ]) (rw e at j)
    ]

    added :
        (r : Route) (u v : Text)
        → (r.profile_id ≡ u) × Memᴰ v r.jump_profile_ids
        → Jump (if is_empty r.jump_profile_ids then [] else r ∷ []) u v
    added r u v p = elim (Bool-cases (is_empty r.jump_profile_ids)) [
      | inl e ↦ absurd (is_empty-Memᴰ v r.jump_profile_ids e p.1)
      | inr e ↦ rw e (inl p)
    ]

-- The jump hosts behind removeFor: those that the profile has no part in.
pub Jump-without_profile :
    (id : Text) (rs : List Route) (u v : Text)
    → Jump (without_profile id rs) u v ↔ ((id ≢ u) × (id ≢ v) × Jump rs u v)
unfolding without_profile
Jump-without_profile id [] u v = (λ j. elim j [ ], λ h. elim h.2 [ ])
Jump-without_profile id (r ∷ rs) u v =
    let (fewer, back) = Jump-without_profile id rs u v in
    let (loses, keeps) = Memᴰ-remove id v r.jump_profile_ids in
    elim (Bool-cases (text_eq r.profile_id id)) [
      | inl e ↦
          let p : r.profile_id ≡ id = (text_eq_iff r.profile_id id).0 e in
          (
            λ j. let (n, m, k) = fewer (rw e at j) in (n, m, inr k),
            λ h. rw e (⊎_elim (λ q. absurd (h.0 (sym p ∙ q.0))) (λ k. back (h.0, h.1, k)) h.2),
          )
      | inr e ↦ elim (Bool-cases (is_empty (remove id r.jump_profile_ids))) [
        | inl b ↦ (
          λ j. let (n, m, k) = fewer (rw (e, b) at j) in (n, m, inr k),
          λ h.
              rw (e, b)
                (⊎_elim
                  (λ q.
                    absurd (is_empty-Memᴰ v (remove id r.jump_profile_ids) b (keeps (h.1, q.1))))
                  (λ k. back (h.0, h.1, k)) h.2),
        )
        | inr b ↦ (
          λ j.
              ⊎_elim
                (λ (q : (r.profile_id ≡ u) × Memᴰ v (remove id r.jump_profile_ids)).
                  let (n, m) = loses q.1 in
                  (λ (s : id ≡ u). text_differs r.profile_id id e (q.0 ∙ sym s), n, inl (q.0, m)))
                (λ k. let (n, m, l) = fewer k in (n, m, inr l)) (rw (e, b) at j),
          λ h.
              rw (e, b)
                (⊎_elim (λ q. inl (q.0, keeps (h.1, q.1))) (λ k. inr (back (h.0, h.1, k))) h.2),
        )
      ]
    ]
