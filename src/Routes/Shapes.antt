-- ===== src/Routes/Shapes.antt =====
-- The routes behind saveRoute and removeFor of
-- lib/features/connections/application/ssh_routes_controller.dart: one for a profile,
-- each with a jump host.
use mathlib.Core.List.{append-nil, Memᴰ}
use mathlib.Core.List.Memᴰ
use mathlib.Core.Logic.{⊎_elim}
use termethis.Base.{
  ◌≡◌, ◌≢◌, ◌⊎◌, inl, inr, refl, sym, ◌∙◌, false, List, [], ◌∷◌, ◌++◌, Text, text_eq, Bool-cases,
}
use termethis.Prompt.{is_empty}
use termethis.Routes.{Route, remove, others, with_route, without_profile}
use termethis.Routes.Jumps.{ids, IsDistinct, IsFilled}
use termethis.Routes.Changes.{text_differs}

ids-others :
    (id : Text) (rs : List Route) (u : Text)
    → Memᴰ u (ids (others id rs))
    → (id ≢ u) × Memᴰ u (ids rs)
unfolding others
ids-others id [] u m = absurd (Memᴰ.not-nil m)
ids-others id (r ∷ rs) u m = elim (Bool-cases (text_eq r.profile_id id)) [
  | inl e ↦ let (n, k) = ids-others id rs u (rw e at m) in (n, Memᴰ.tail k)
  | inr e ↦
      ⊎_elim
        (λ (q : u ≡ r.profile_id).
          (λ (s : id ≡ u). text_differs r.profile_id id e (sym (s ∙ q)), Memᴰ.head q))
        (λ k. let (n, l) = ids-others id rs u k in (n, Memᴰ.tail l)) (Memᴰ.cases_cons (rw e at m))
]

others-IsDistinct : (id : Text) (rs : List Route) → IsDistinct rs → IsDistinct (others id rs)
unfolding others
others-IsDistinct id [] d = d
others-IsDistinct id (r ∷ rs) d = elim (Bool-cases (text_eq r.profile_id id)) [
  | inl e ↦ rw e (others-IsDistinct id rs d.1)
  | inr e ↦ rw e (λ m. d.0 (ids-others id rs r.profile_id m).1, others-IsDistinct id rs d.1)
]

others-IsFilled : (id : Text) (rs : List Route) → IsFilled rs → IsFilled (others id rs)
unfolding others
others-IsFilled id [] f = f
others-IsFilled id (r ∷ rs) f = elim (Bool-cases (text_eq r.profile_id id)) [
  | inl e ↦ rw e (others-IsFilled id rs f.1)
  | inr e ↦ rw e (f.0, others-IsFilled id rs f.1)
]

-- A route behind others, none of them for its profile.
added-IsDistinct :
    (r : Route) (rs : List Route)
    → IsDistinct rs
    → ¬ Memᴰ r.profile_id (ids rs)
    → IsDistinct (rs ++ r ∷ [])
added-IsDistinct r [] d n = (Memᴰ.not-nil, tt)
added-IsDistinct r (x ∷ rs) d n = (
  λ m.
      ⊎_elim d.0 (λ (p : x.profile_id ≡ r.profile_id). n (Memᴰ.head (sym p)))
        (ids-added r rs x.profile_id m),
  added-IsDistinct r rs d.1 (λ m. n (Memᴰ.tail m)),
)
  where
    ids-added :
        (r : Route) (rs : List Route) (u : Text)
        → Memᴰ u (ids (rs ++ r ∷ []))
        → Memᴰ u (ids rs) ⊎ (u ≡ r.profile_id)
    ids-added r [] u m = ⊎_elim (λ p. inr p) (λ k. absurd (Memᴰ.not-nil k)) (Memᴰ.cases_cons m)
    ids-added r (x ∷ rs) u m =
        ⊎_elim (λ p. inl (Memᴰ.head p))
          (λ k. ⊎_elim (λ n. inl (Memᴰ.tail n)) (λ p. inr p) (ids-added r rs u k))
          (Memᴰ.cases_cons m)

added-IsFilled :
    (r : Route) (rs : List Route)
    → IsFilled rs
    → is_empty r.jump_profile_ids ≡ false
    → IsFilled (rs ++ r ∷ [])
added-IsFilled r [] f e = (e, tt)
added-IsFilled r (x ∷ rs) f e = (f.0, added-IsFilled r rs f.1 e)

pub with_route-IsDistinct :
    (r : Route) (rs : List Route) → IsDistinct rs → IsDistinct (with_route r rs)
unfolding with_route
with_route-IsDistinct r rs d =
    let kept = others-IsDistinct r.profile_id rs d in
    elim (Bool-cases (is_empty r.jump_profile_ids)) [
      | inl e ↦ rw (e, append-nil (others r.profile_id rs)) kept
      | inr e ↦ rw e (
          added-IsDistinct r (others r.profile_id rs) kept
            (λ m. (ids-others r.profile_id rs r.profile_id m).0 refl))
    ]

pub with_route-IsFilled : (r : Route) (rs : List Route) → IsFilled rs → IsFilled (with_route r rs)
unfolding with_route
with_route-IsFilled r rs f =
    let kept = others-IsFilled r.profile_id rs f in
    elim (Bool-cases (is_empty r.jump_profile_ids)) [
      | inl e ↦ rw (e, append-nil (others r.profile_id rs)) kept
      | inr e ↦ rw e (added-IsFilled r (others r.profile_id rs) kept e)
    ]

ids-without_profile :
    (id : Text) (rs : List Route) (u : Text)
    → Memᴰ u (ids (without_profile id rs))
    → Memᴰ u (ids rs)
unfolding without_profile
ids-without_profile id [] u m = m
ids-without_profile id (r ∷ rs) u m = elim (Bool-cases (text_eq r.profile_id id)) [
  | inl e ↦ Memᴰ.tail (ids-without_profile id rs u (rw e at m))
  | inr e ↦ elim (Bool-cases (is_empty (remove id r.jump_profile_ids))) [
    | inl b ↦ Memᴰ.tail (ids-without_profile id rs u (rw (e, b) at m))
    | inr b ↦
        ⊎_elim (λ p. Memᴰ.head p) (λ k. Memᴰ.tail (ids-without_profile id rs u k))
          (Memᴰ.cases_cons (rw (e, b) at m))
  ]
]

pub without_profile-IsDistinct :
    (id : Text) (rs : List Route) → IsDistinct rs → IsDistinct (without_profile id rs)
unfolding without_profile
without_profile-IsDistinct id [] d = d
without_profile-IsDistinct id (r ∷ rs) d =
    let rest = without_profile-IsDistinct id rs d.1 in
    elim (Bool-cases (text_eq r.profile_id id)) [
      | inl e ↦ rw e rest
      | inr e ↦ elim (Bool-cases (is_empty (remove id r.jump_profile_ids))) [
        | inl b ↦ rw (e, b) rest
        | inr b ↦ rw (e, b) (λ m. d.0 (ids-without_profile id rs r.profile_id m), rest)
      ]
    ]

pub without_profile-IsFilled : (id : Text) (rs : List Route) → IsFilled (without_profile id rs)
unfolding without_profile
without_profile-IsFilled id [] = tt
without_profile-IsFilled id (r ∷ rs) =
    let rest = without_profile-IsFilled id rs in
    elim (Bool-cases (text_eq r.profile_id id)) [
      | inl e ↦ rw e rest
      | inr e ↦ elim (Bool-cases (is_empty (remove id r.jump_profile_ids))) [
        | inl b ↦ rw (e, b) rest
        | inr b ↦ rw (e, b) (b, rest)
      ]
    ]
