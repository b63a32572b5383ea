-- ===== src/Prompt.antt =====
-- The handler of OSC 133 in tool/web_terminal/src/terminal.js: the shell marks its prompt (A), the
-- start of a command's output (C) and its end (D), and the page keeps the last output.
pub mod Output
use termethis.Base.{
  ℕ, zero, suc, ◌+◌, ◌-◌, Bool, true, false, Option, none, some, List, [], ◌∷◌, ◌++◌, ◌==◌, ◌&&◌,
  ◌||◌, leb, if◌then◌else◌, Text, codes, text_eq,
}
use termethis.Browser.{Buffer}

pub record Prompt : Type 0 where
  -- promptActive
  pub prompt_active : Bool
  -- commandOutputStart
  pub output_start : Option ℕ
  -- lastCommandOutput
  pub last_output : Text

-- `data.split(';', 1)[0]`
unfoldable pub marker : Text → Text
marker [] = []
marker (c ∷ cs) = if c == b';' then [] else c ∷ marker cs

-- The loop over the rows of the output: `count` rows from `index` on.
unfoldable pub lines_from : (ℕ → Option Text) → ℕ → ℕ → List Text
lines_from get_line zero index = []
lines_from get_line (suc count) index =
    let rest = lines_from get_line count (index + 1) in
    elim (get_line index) [ none ↦ rest | some line ↦ line ∷ rest ]

-- `lines.join('\n')`
unfoldable pub join_lines : List Text → Text
join_lines [] = []
join_lines (l ∷ []) = l
join_lines (l ∷ m ∷ ls) = l ++ (0x0a ∷ join_lines (m ∷ ls))

-- What `\s` matches.
abbrev pub is_space : ℕ → Bool
is_space c =
    leb 9 c && leb c 13
    || c == 0x20
    || c == 0xa0
    || c == 0x1680
    || leb 0x2000 c && leb c 0x200a
    || c == 0x2028
    || c == 0x2029
    || c == 0x202f
    || c == 0x205f
    || c == 0x3000
    || c == 0xfeff

abbrev pub is_empty {ℓ} : {A : Type ℓ} → List A → Bool
is_empty [] = true
is_empty (_ ∷ _) = false

-- `.replace(/\s+$/, '')`
unfoldable pub trim_end : Text → Text
trim_end [] = []
trim_end (c ∷ cs) = let rest = trim_end cs in if is_space c && is_empty rest then [] else c ∷ rest

unfoldable pub osc133 : Text → Buffer → Prompt → Prompt
osc133 data_text buffer p =
    let m = marker data_text in
    let row = buffer.base_y + buffer.cursor_y in
    if text_eq m (codes "A")
    then record p { prompt_active = true }
    else if text_eq m (codes "C")
    then record p { prompt_active = false; output_start = some (row + 1) }
    else if text_eq m (codes "D")
    then elim p.output_start [
      | none ↦ p
      | some start ↦ record p {
        last_output = trim_end (join_lines (lines_from buffer.get_line (row - start) start));
        output_start = none;
      }
    ]
    else p
