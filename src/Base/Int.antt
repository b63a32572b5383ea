-- ===== src/Base/Int.antt =====
-- Signed integers over the native numbers, and what `Math.floor` and `Math.ceil` give: an integer,
-- an infinity, or NaN, with the comparisons and `Math.min`, `Math.max` of JavaScript.
use termethis.Base.{
  ℕ, suc, ◌+◌, ◌-◌, Bool, true, false, ◌++◌, ltb, leb, ◌==◌, if◌then◌else◌, Text, codes, decimal,
}

-- `negsuc n` is -(n + 1).
pub data ℤ : Type 0 where
  pos : ℕ → ℤ
  negsuc : ℕ → ℤ

abbrev pub pos_part : ℤ → ℕ
pos_part (pos n) = n
pos_part (negsuc n) = 0

abbrev pub neg_part : ℤ → ℕ
neg_part (pos n) = 0
neg_part (negsuc n) = suc n

-- a - b, as an integer.
abbrev pub sub_ℕ : ℕ → ℕ → ℤ
sub_ℕ a b = if leb b a then pos (a - b) else negsuc (b - a - 1)

abbrev pub ltb_ℤ : ℤ → ℤ → Bool
ltb_ℤ a b = ltb (pos_part a + neg_part b) (pos_part b + neg_part a)

-- What a rounded double can be.
pub data Whole : Type 0 where
  fin : ℤ → Whole
  pos_inf : Whole
  neg_inf : Whole
  nan : Whole

-- `a < b`, false as soon as one side is NaN.
abbrev pub ltb_whole : Whole → Whole → Bool
ltb_whole nan b = false
ltb_whole neg_inf nan = false
ltb_whole neg_inf neg_inf = false
ltb_whole neg_inf (fin y) = true
ltb_whole neg_inf pos_inf = true
ltb_whole pos_inf b = false
ltb_whole (fin x) nan = false
ltb_whole (fin x) neg_inf = false
ltb_whole (fin x) (fin y) = ltb_ℤ x y
ltb_whole (fin x) pos_inf = true

-- `Math.min` and `Math.max` against a finite number: NaN is contagious.
abbrev pub min_whole : ℤ → Whole → Whole
min_whole m nan = nan
min_whole m neg_inf = neg_inf
min_whole m pos_inf = fin m
min_whole m (fin x) = if ltb_ℤ x m then fin x else fin m

abbrev pub max_whole : ℤ → Whole → Whole
max_whole m nan = nan
max_whole m pos_inf = pos_inf
max_whole m neg_inf = fin m
max_whole m (fin x) = if ltb_ℤ m x then fin x else fin m

-- `w === n` for a number `n` that is a non-negative integer.
abbrev pub whole_eq : Whole → ℕ → Bool
whole_eq (fin (pos m)) n = m == n
whole_eq (fin (negsuc m)) n = false
whole_eq pos_inf n = false
whole_eq neg_inf n = false
whole_eq nan n = false

-- The text of a number in a template literal.
unfoldable pub whole_text : Whole → Text
whole_text (fin (pos n)) = decimal n
whole_text (fin (negsuc n)) = codes "-" ++ decimal (suc n)
whole_text pos_inf = codes "Infinity"
whole_text neg_inf = codes "-Infinity"
whole_text nan = codes "NaN"
