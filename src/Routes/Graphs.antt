-- ===== src/Routes/Graphs.antt =====
-- Sets of ids, walks along jump hosts, and cycles.
use termethis.Base.{text_eq_refl}
use mathlib.Core.List.{Memᴰ}
use mathlib.Core.List.Memᴰ
use mathlib.Core.Logic.{⊎_elim}
use mathlib.Core.Path.{subst}
use termethis.Base.{
  ◌≡◌, ◌↔◌, inl, inr, refl, sym, ap, ◌∙◌, true, false, List, [], ◌∷◌, ◌++◌, Text, text_eq,
  text_eq_iff, Bool-cases, append_assoc,
}
use termethis.Routes.{Graph, contains, remove, targets, keys, nodes}

pub contains-Memᴰ : (id : Text) (xs : List Text) → (contains id xs ≡ true) ↔ Memᴰ id xs
contains-Memᴰ id [] = (λ h. cc, λ m. absurd (Memᴰ.not-nil m))
contains-Memᴰ id (x ∷ xs) =
    let (found, has) = contains-Memᴰ id xs in
    let (eq, same) = text_eq_iff x id in
    elim (Bool-cases (text_eq x id)) [
      | inl e ↦ (λ _. Memᴰ.head (sym (eq e)), λ _. rw e)
      | inr e ↦ (
        λ h. Memᴰ.tail (found (rw e at h)),
        λ m. rw e (⊎_elim (λ p. absurd (let q = same (sym p) in cc)) has (Memᴰ.cases_cons m)),
      )
    ]

pub not_contains : (id : Text) (xs : List Text) → contains id xs ≡ false → ¬ Memᴰ id xs
not_contains id xs h m = let yes_it_does = (contains-Memᴰ id xs).1 m in cc

-- An id that is not in a set is not lost.
pub remove_absent : (id : Text) (xs : List Text) → contains id xs ≡ false → remove id xs ≡ xs
remove_absent id [] h = refl
remove_absent id (x ∷ xs) h = elim (Bool-cases (text_eq x id)) [
  | inl e ↦ absurd (let met : true ≡ false = rw e at h in cc)
  | inr e ↦ rw e (ap (λ ys. x ∷ ys) (remove_absent id xs (rw e at h)))
]

pub remove_entered :
    (id : Text) (xs : List Text) → contains id xs ≡ false → remove id (id ∷ xs) ≡ xs
remove_entered id xs h = rw (text_eq_refl id) (remove_absent id xs h)

-- `v` is a jump host of `u`.
abbrev pub Edge : Graph → Text → Text → Type 0
Edge g u v = Memᴰ v (targets g u)

-- A walk of one or more steps.
pub data Walk (g : Graph) (u : Text) : Text → Type 0 where
  one : {v : Text} → Edge g u v → Walk g u v
  more : {v w : Text} → Walk g u v → Edge g v w → Walk g u w

abbrev pub IsAcyclic : Graph → Type 0
IsAcyclic g = (u : Text) → ¬ Walk g u u

-- Consecutive ids are joined by edges.
abbrev pub Chain : Graph → List Text → Type 0
Chain g [] = Unit
Chain g (u ∷ []) = Unit
Chain g (u ∷ v ∷ rest) = Edge g u v × Chain g (v ∷ rest)

-- A list of ids that follows edges, and ends with a cycle: it comes back to an id that it has met.
pub record EndsInCycle (g : Graph) (ids : List Text) : Type 0 where
  pub before : List Text
  pub start : Text
  pub inside : List Text
  pub shape : ids ≡ before ++ start ∷ (inside ++ start ∷ [])
  pub follows : Chain g ids

pub Chain-append :
    (g : Graph) (xs : List Text) (u v : Text)
    → Chain g (xs ++ u ∷ [])
    → Edge g u v
    → Chain g (xs ++ u ∷ v ∷ [])
Chain-append g [] u v c e = (e, tt)
Chain-append g (x ∷ []) u v c e = (c.0, (e, tt))
Chain-append g (x ∷ y ∷ xs) u v c e = (c.0, Chain-append g (y ∷ xs) u v c.1 e)

Chain-suffix :
    (g : Graph) (xs : List Text) (u : Text) (ys : List Text)
    → Chain g (xs ++ u ∷ ys)
    → Chain g (u ∷ ys)
Chain-suffix g [] u ys c = c
Chain-suffix g (x ∷ []) u ys c = c.1
Chain-suffix g (x ∷ y ∷ xs) u ys c = Chain-suffix g (y ∷ xs) u ys c.1

-- Two walks, one behind the other.
join_walks : {g : Graph} {u v w : Text} → Walk g u v → Walk g v w → Walk g u w
join_walks p (one e) = more p e
join_walks p (more q e) = more (join_walks p q) e

Chain-Walk : (g : Graph) (u v : Text) (xs : List Text) → Chain g (u ∷ (xs ++ v ∷ [])) → Walk g u v
Chain-Walk g u v [] c = one c.0
Chain-Walk g u v (x ∷ xs) c = join_walks (one c.0) (Chain-Walk g x v xs c.1)

-- What such a list shows: the graph has a cycle.
pub EndsInCycle-Walk :
    (g : Graph) (ids : List Text) → (h : EndsInCycle g ids) → Walk g h.start h.start
EndsInCycle-Walk g ids h =
    Chain-Walk g h.start h.start h.inside (
      Chain-suffix g h.before h.start (h.inside ++ h.start ∷ [])
        (subst (Chain g) h.shape h.follows))

split_at_mem :
    (id : Text) (xs : List Text)
    → Memᴰ id xs
    → (before : List Text) × (after : List Text) × (xs ≡ before ++ id ∷ after)
split_at_mem id [] m = absurd (Memᴰ.not-nil m)
split_at_mem id (x ∷ xs) m = elim (Memᴰ.cases_cons m) [
  | inl e ↦ ([], xs, ap (λ y. y ∷ xs) (sym e))
  | inr n ↦
      let (before, after, e) = split_at_mem id xs n in (x ∷ before, after, ap (λ ys. x ∷ ys) e)
]

-- A chain that goes on to one of its own ids.
pub closes-EndsInCycle :
    (g : Graph) (path : List Text) (id : Text)
    → Memᴰ id path
    → Chain g (path ++ id ∷ [])
    → EndsInCycle g (path ++ id ∷ [])
closes-EndsInCycle g path id m c =
    let (before, after, e) = split_at_mem id path m in
    record {
      before = before;
      start = id;
      inside = after;
      shape = ap (λ xs. xs ++ id ∷ []) e ∙ append_assoc before (id ∷ after) (id ∷ []);
      follows = c;
    }

-- The targets of an id, and the keys, are nodes.
pub targets-nodes : (g : Graph) (u v : Text) → Edge g u v → Memᴰ v (nodes g)
targets-nodes [] u v m = absurd (Memᴰ.not-nil m)
targets-nodes ((k, vs) ∷ g) u v m = elim (Bool-cases (text_eq k u)) [
  | inl e ↦ Memᴰ.tail (Memᴰ.append_left (nodes g) (rw e at m))
  | inr e ↦ Memᴰ.tail (Memᴰ.append_right vs (targets-nodes g u v (rw e at m)))
]

pub keys-nodes : (g : Graph) (u : Text) → Memᴰ u (keys g) → Memᴰ u (nodes g)
keys-nodes [] u m = absurd (Memᴰ.not-nil m)
keys-nodes ((k, vs) ∷ g) u m =
    ⊎_elim Memᴰ.head (λ n. Memᴰ.tail (Memᴰ.append_right vs (keys-nodes g u n))) (Memᴰ.cases_cons m)

-- An id with a target is a key.
pub Edge-keys : (g : Graph) (u v : Text) → Edge g u v → Memᴰ u (keys g)
Edge-keys [] u v m = absurd (Memᴰ.not-nil m)
Edge-keys ((k, vs) ∷ g) u v m = elim (Bool-cases (text_eq k u)) [
  | inl e ↦ Memᴰ.head (sym ((text_eq_iff k u).0 e))
  | inr e ↦ Memᴰ.tail (Edge-keys g u v (rw e at m))
]
