-- ===== src/Scrollback/Loops.antt =====
-- The loops over the chunks: what they remove and how they count.
use termethis.Base.{
  ℕ, suc, ◌+◌, ◌-◌, ◌≤◌, ◌≡◌, refl, ap, ◌∙◌, Bool, true, false, List, [], ◌∷◌, ◌++◌, ltb, leb,
  length, All, arith, Bool-cases, inl, inr, drop, length-drop,
}
use termethis.Scrollback.{
  Chunk, trim_delta, drop_through, maximum_delta_bytes, skip_continuation, kept_bytes, bytes_after,
  misses,
}

abbrev pub total_length : List Chunk → ℕ
total_length [] = 0
total_length (c ∷ cs) = length c.bytes + total_length cs

pub total_length-append :
    (cs ds : List Chunk) → total_length (cs ++ ds) ≡ total_length cs + total_length ds
total_length-append [] ds = omega arith
total_length-append (c ∷ cs) ds = omega (arith, total_length-append cs ds)

-- Chunks with successive numbers, the first behind `n`.
abbrev pub Numbered : ℕ → List Chunk → Type 0
Numbered n [] = Unit
Numbered n (c ∷ cs) = (c.sequence ≡ suc n) × Numbered (suc n) cs

pub Numbered-append :
    (n : ℕ) (cs ds : List Chunk)
    → Numbered n (cs ++ ds)
    → (m : ℕ) × (m ≡ n + length cs) × Numbered m ds × Numbered n cs
Numbered-append n [] ds h = (n, omega arith, h, tt)
Numbered-append n (c ∷ cs) ds h =
    let (m, e, rest, first) = Numbered-append (suc n) cs ds h.1 in
    (m, omega arith, rest, (h.0, first))

pub Numbered-snoc :
    (n m : ℕ) (cs : List Chunk) (c : Chunk)
    → Numbered n cs
    → m ≡ n + length cs
    → c.sequence ≡ suc m
    → Numbered n (cs ++ c ∷ [])
Numbered-snoc n m [] c h e k = (k ∙ omega arith, tt)
Numbered-snoc n m (d ∷ cs) c h e k = (h.0, Numbered-snoc (suc n) m cs c h.1 (omega arith) k)

-- What the loop that makes room removes stands in front, and it sets the flag.
pub trim_delta_lem :
    (cs : List Chunk) (n : ℕ) (t : Bool)
    → (dropped : List Chunk) × (cs ≡ dropped ++ (trim_delta cs n t).0)
      × ((trim_delta cs n t).2 ≡ false → (t ≡ false) × (dropped ≡ []))
unfolding trim_delta
trim_delta_lem [] n t = ([], refl, λ h. (h, refl))
trim_delta_lem (c ∷ cs) n t = elim (Bool-cases (ltb maximum_delta_bytes n)) [
  | inl over ↦
      let (dropped, e, flag) = trim_delta_lem cs (n - length c.bytes) true in
      (c ∷ dropped, rw over (ap (λ r. c ∷ r) e), rw over (λ h. let bad = (flag h).0 in cc))
  | inr fits ↦ ([], rw fits, rw fits (λ h. (h, refl)))
]

-- The count stays that of the chunks, and what is left fits.
pub trim_delta-total_length :
    (cs : List Chunk) (n : ℕ) (t : Bool)
    → n ≡ total_length cs
    → ((trim_delta cs n t).1 ≡ total_length (trim_delta cs n t).0)
      × ((trim_delta cs n t).1 ≤ maximum_delta_bytes)
unfolding trim_delta
trim_delta-total_length [] n t h = (h, omega arith)
trim_delta-total_length (c ∷ cs) n t h =
    ground (arith, trim_delta-total_length cs (n - length c.bytes) true)

-- What a snapshot removes stands in front, and is covered by it.
pub drop_through_lem :
    (n : ℕ) (cs : List Chunk) (len : ℕ)
    → (dropped : List Chunk) × (cs ≡ dropped ++ (drop_through n cs len).0)
      × All (λ (c : Chunk). c.sequence ≤ n) dropped
unfolding drop_through
drop_through_lem n [] len = ([], refl, tt)
drop_through_lem n (c ∷ cs) len = elim (Bool-cases (leb c.sequence n)) [
  | inl covered ↦
      let (dropped, e, all) = drop_through_lem n cs (len - length c.bytes) in
      (c ∷ dropped, rw covered (ap (λ r. c ∷ r) e), (ground arith, all))
  | inr newer ↦ ([], rw newer, tt)
]

pub drop_through-total_length :
    (n : ℕ) (cs : List Chunk) (len : ℕ)
    → len ≡ total_length cs
    → ((drop_through n cs len).1 ≡ total_length (drop_through n cs len).0)
      × ((drop_through n cs len).1 ≤ len)
unfolding drop_through
drop_through-total_length n [] len h = (h, omega arith)
drop_through-total_length n (c ∷ cs) len h =
    ground (arith, drop_through-total_length n cs (len - length c.bytes))

-- The last of successive numbers that are all covered.
pub length-le-Numbered :
    (n m : ℕ) (cs : List Chunk)
    → m ≤ n
    → Numbered m cs
    → All (λ (c : Chunk). c.sequence ≤ n) cs
    → m + length cs ≤ n
length-le-Numbered n m [] h k a = omega arith
length-le-Numbered n m (c ∷ cs) h k a =
    let rest = length-le-Numbered n (suc m) cs (omega (arith, k.0, a.0)) k.1 a.1 in omega arith

length-skip_continuation : (xs : List ℕ) → length (skip_continuation xs) ≤ length xs
unfolding skip_continuation
length-skip_continuation [] = omega arith
length-skip_continuation (x ∷ xs) = ground (arith, length-skip_continuation xs)

pub length-kept_bytes : (xs : List ℕ) → length (kept_bytes xs) ≤ maximum_delta_bytes
unfolding kept_bytes
length-kept_bytes xs = ground (
  arith,
  length-skip_continuation (drop (length xs - maximum_delta_bytes) xs),
  length-drop (length xs - maximum_delta_bytes) xs,
)

-- Chunks that the sequence number covers add nothing.
pub bytes_after-append :
    (n m : ℕ) (cs ds : List Chunk)
    → Numbered m cs
    → m + length cs ≤ n
    → bytes_after n (cs ++ ds) ≡ bytes_after n ds
unfolding bytes_after
bytes_after-append n m [] ds h k = refl
bytes_after-append n m (c ∷ cs) ds h k =
    let older : ltb n c.sequence ≡ false = ground (arith, h.0) in
    rw older (bytes_after-append n (suc m) cs ds h.1 (omega arith))

-- No chunk is missing behind a number that the first chunk follows.
pub misses-le : (n m : ℕ) (ds : List Chunk) → Numbered m ds → misses n ds ≡ false → m ≤ n
unfolding misses
misses-le n m [] h k = cc
misses-le n m (d ∷ ds) h k = ground (arith, h.0)
