-- ===== src/Prompt/Output.antt =====
-- What the handler of OSC 133 keeps of a command's output.
use termethis.Base.{
  ◌<◌, Option-cases, ◌≤◌, suc, Option, append_assoc, and_both, ℕ, zero, ◌+◌, ◌-◌, ◌≡◌, ◌≢◌, refl,
  ap, ◌∙◌, inl, inr, true, false, none, some, List, [], ◌∷◌, ◌++◌, ◌&&◌, Text, codes, text_eq_iff,
  arith, All, Bool-cases,
}
use mathlib.Core.Path.{sym, subst}
use termethis.Browser.{Buffer}
use termethis.Prompt.{Prompt, marker, lines_from, join_lines, is_space, is_empty, trim_end, osc133}

-- The fields after the first are ignored: the marker ends before the first semicolon.
pub marker-append_fields :
    (m fields : Text) → All (λ c. c ≢ b';') m → marker (m ++ b';' ∷ fields) ≡ m
unfolding marker
marker-append_fields [] fields h = refl
marker-append_fields (c ∷ cs) fields h = ground (arith, marker-append_fields cs fields h.1)

-- No trailing white space.
abbrev pub IsTrimmed : Text → Type 0
IsTrimmed [] = Unit
IsTrimmed (c ∷ []) = is_space c ≡ false
IsTrimmed (c ∷ d ∷ cs) = IsTrimmed (d ∷ cs)

IsTrimmed-cons :
    (c : ℕ) (t : Text) → (is_empty t ≡ true → is_space c ≡ false) → IsTrimmed t → IsTrimmed (c ∷ t)
IsTrimmed-cons c [] h i = h refl
IsTrimmed-cons c (d ∷ t) h i = i

nil_of_is_empty : (t : Text) → is_empty t ≡ true → t ≡ []
nil_of_is_empty [] h = refl
nil_of_is_empty (c ∷ t) h = cc

-- A text is what `trim_end` keeps followed by white space, and what it keeps ends in no white
-- space.
trim_end_lem :
    (t : Text)
    → (spaces : Text) × (t ≡ trim_end t ++ spaces)
      × All (λ c. is_space c ≡ true) spaces
      × IsTrimmed (trim_end t)
unfolding trim_end
trim_end_lem [] = ([], refl, tt, tt)
trim_end_lem (c ∷ cs) =
    let (spaces, e, h, i) = trim_end_lem cs in
    elim (Bool-cases (is_space c && is_empty (trim_end cs))) [
      | inl both ↦
          let (space, empty) = and_both (is_space c) (is_empty (trim_end cs)) both in
          let none_kept = nil_of_is_empty (trim_end cs) empty in
          (c ∷ spaces, rw both (ap (λ r. c ∷ r) (rw none_kept at e)), (space, h), rw both tt)
      | inr keep ↦ (
        spaces,
        rw keep (ap (λ r. c ∷ r) e),
        h,
        rw keep (IsTrimmed-cons c (trim_end cs) (λ empty. ground arith) i),
      )
    ]

-- A mark of the shell that neither starts nor ends an output.
abbrev pub IsNeutral : Text × Buffer → Type 0
IsNeutral (d, buffer) = (marker d ≢ codes "C") × (marker d ≢ codes "D")

abbrev pub run_marks : List (Text × Buffer) → Prompt → Prompt
run_marks [] p = p
run_marks ((d, buffer) ∷ ms) p = run_marks ms (osc133 d buffer p)

abbrev pub row_of : Buffer → ℕ
row_of buffer = buffer.base_y + buffer.cursor_y

osc133_neutral :
    (d : Text) (buffer : Buffer) (p : Prompt)
    → IsNeutral (d, buffer)
    → ((osc133 d buffer p).output_start ≡ p.output_start)
      × ((osc133 d buffer p).last_output ≡ p.last_output)
unfolding osc133
osc133_neutral d buffer p (c, e) =
    ground (arith, text_eq_iff (marker d) (codes "C"), text_eq_iff (marker d) (codes "D"))

run_marks_neutral :
    (ms : List (Text × Buffer)) (p : Prompt)
    → All IsNeutral ms
    → ((run_marks ms p).output_start ≡ p.output_start)
      × ((run_marks ms p).last_output ≡ p.last_output)
run_marks_neutral [] p h = (refl, refl)
run_marks_neutral ((d, buffer) ∷ ms) p h =
    let (s, o) = osc133_neutral d buffer p h.0 in
    let (s', o') = run_marks_neutral ms (osc133 d buffer p) h.1 in (s' ∙ s, o' ∙ o)

osc133_start :
    (c : Text) (start : Buffer) (p : Prompt)
    → marker c ≡ codes "C"
    → (osc133 c start p).output_start ≡ some (row_of start + 1)
unfolding osc133
osc133_start c start p h = rw h

osc133_stop :
    (d : Text) (stop : Buffer) (p : Prompt) (first : ℕ)
    → marker d ≡ codes "D"
    → p.output_start ≡ some first
    → ((osc133 d stop p).last_output
        ≡ trim_end (join_lines (lines_from stop.get_line (row_of stop - first) first)))
      × ((osc133 d stop p).output_start ≡ none)
unfolding osc133
osc133_stop d stop p first h e = (rw (h, e, osc133), rw (h, e, osc133))

-- The rows of a buffer from one index up to another, in order, those that are missing left out.
pub data RowsOf (get_line : ℕ → Option Text) (end : ℕ) : ℕ → List Text → Type 0 where
  at_end : {i : ℕ} → end ≤ i → RowsOf get_line end i []
  missing :
      {i : ℕ} {ls : List Text}
      → i < end
      → get_line i ≡ none
      → RowsOf get_line end (i + 1) ls
      → RowsOf get_line end i ls
  present :
      {i : ℕ} {ls : List Text} {l : Text}
      → i < end
      → get_line i ≡ some l
      → RowsOf get_line end (i + 1) ls
      → RowsOf get_line end i (l ∷ ls)

lines_from-RowsOf :
    (get_line : ℕ → Option Text) (end count i : ℕ)
    → count ≡ end - i
    → RowsOf get_line end i (lines_from get_line count i)
unfolding lines_from
lines_from-RowsOf get_line end zero i h = at_end (omega arith)
lines_from-RowsOf get_line end (suc count) i h =
    let rest = lines_from-RowsOf get_line end count (i + 1) (omega arith) in
    elim (Option-cases (get_line i)) [
      | inl e ↦ rw (e, lines_from) (missing (omega arith) e rest)
      | inr (l, e) ↦ rw (e, lines_from) (present (omega arith) e rest)
    ]

-- Each row with a line feed behind it.
abbrev pub with_feeds : List Text → Text
with_feeds [] = []
with_feeds (l ∷ ls) = l ++ 0x0a ∷ with_feeds ls

-- The rows with line feeds between them: the last line feed is left out.
abbrev pub IsJoined : List Text → Text → Type 0
IsJoined [] t = t ≡ []
IsJoined (l ∷ ls) t = t ++ 0x0a ∷ [] ≡ with_feeds (l ∷ ls)

join_lines-IsJoined : (ls : List Text) → IsJoined ls (join_lines ls)
unfolding join_lines
join_lines-IsJoined [] = refl
join_lines-IsJoined (l ∷ []) = refl
join_lines-IsJoined (l ∷ m ∷ ls) =
    append_assoc l (0x0a ∷ join_lines (m ∷ ls)) (0x0a ∷ [])
    ∙ ap (λ t. l ++ 0x0a ∷ t) (join_lines-IsJoined (m ∷ ls))

-- A text is the rows from one index up to another, joined by line feeds, without the white space at
-- the end: what is left out is white space, and what is kept ends in none.
pub record IsOutput (get_line : ℕ → Option Text) (first end : ℕ) (output : Text) : Type 0 where
  pub rows : List Text
  pub spaces : Text
  pub are_rows : RowsOf get_line end first rows
  pub joined : IsJoined rows (output ++ spaces)
  pub only_spaces : All (λ c. is_space c ≡ true) spaces
  pub trimmed : IsTrimmed output

trim_end-IsOutput :
    (get_line : ℕ → Option Text) (first end : ℕ)
    → IsOutput get_line first end (trim_end (join_lines (lines_from get_line (end - first) first)))
trim_end-IsOutput get_line first end =
    let ls = lines_from get_line (end - first) first in
    let (spaces, e, all, trimmed) = trim_end_lem (join_lines ls) in
    record {
      rows = ls;
      spaces = spaces;
      are_rows = lines_from-RowsOf get_line end (end - first) first refl;
      joined = subst (IsJoined ls) e (join_lines-IsJoined ls);
      only_spaces = all;
      trimmed = trimmed;
    }

-- Behind a mark C, any marks that are neither C nor D, and a mark D, the page has no start of an
-- output any more, and keeps as the last output the rows below the first mark and above the last
-- that the buffer has, in order, with line feeds between them and without the white space at the
-- end: what is left out there is white space only, and what is kept does not end in white space.
pub osc133_command :
    (c d : Text) (start stop : Buffer) (between : List (Text × Buffer)) (p : Prompt)
    → marker c ≡ codes "C"
    → marker d ≡ codes "D"
    → All IsNeutral between
    → let q = osc133 d stop (run_marks between (osc133 c start p)) in
      IsOutput stop.get_line (row_of start + 1) (row_of stop) q.last_output
      × (q.output_start ≡ none)
osc133_command c d start stop between p hc hd hb =
    let opened = osc133_start c start p hc in
    let (s, o) = run_marks_neutral between (osc133 c start p) hb in
    let (output, closed) = osc133_stop d stop _ (row_of start + 1) hd (s ∙ opened) in
    (
      subst (IsOutput stop.get_line (row_of start + 1) (row_of stop)) (sym output)
          (trim_end-IsOutput stop.get_line (row_of start + 1) (row_of stop)),
      closed,
    )

-- A mark D on a page with no start of an output changes nothing of the prompt.
osc133_unopened :
    (d : Text) (stop : Buffer) (p : Prompt)
    → marker d ≡ codes "D"
    → p.output_start ≡ none
    → osc133 d stop p ≡ p
unfolding osc133
osc133_unopened d stop p hd h = simp (hd, h)
