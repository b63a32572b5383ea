-- ===== src/Key.antt =====
-- specialKeySequence of tool/web_terminal/src/terminal.js: the bytes that a key of the on-screen
-- key row sends.
pub mod Sequences
use termethis.Base.{
  ℕ, ◌+◌, ◌≡◌, Bool, true, false, Option, none, some, List, [], ◌∷◌, ◌++◌, ◌==◌, not, bit_or,
  if◌then◌else◌, Text, codes, text_eq, decimal,
}
use termethis.Browser.{Browser}

abbrev pub esc : ℕ
esc = 0x1b

module _ ⦃b : Browser⦄ where
  -- `{ arrowUp: 'A', … }[key]`: a property that the literal lacks is looked up in Object.prototype.
  arrow_final : Text → Option Text
  arrow_final key =
      if text_eq key (codes "arrowUp")
      then some (codes "A")
      else if text_eq key (codes "arrowDown")
      then some (codes "B")
      else if text_eq key (codes "arrowRight")
      then some (codes "C")
      else if text_eq key (codes "arrowLeft")
      then some (codes "D")
      else b.object_prototype key

  -- `{ escape: '\x1b', tab: '\t', enter: '\r' }[key]`, as the code unit of the literal. It is
  -- read only where the first table and Object.prototype have no such property.
  literal : Text → Option ℕ
  literal key =
      if text_eq key (codes "escape")
      then some 0x1b
      else if text_eq key (codes "tab")
      then some 0x09
      else if text_eq key (codes "enter")
      then some 0x0d
      else none

  unfoldable pub special_key_sequence : Text → Bool → Bool → b.Screen → Option Text
  unfolding arrow_final literal
  special_key_sequence key control alt screen =
      let modifiers = bit_or (if alt then 2 else 0) (if control then 4 else 0) in
      let modifier_parameter = modifiers + 1 in
      elim (arrow_final key) [
        | some final ↦
            if not (modifiers == 0)
            then some (esc ∷ codes "[1;" ++ decimal modifier_parameter ++ final)
            else if b.application_cursor_keys screen
            then some (esc ∷ codes "O" ++ final)
            else some (esc ∷ codes "[" ++ final)
        | none ↦ elim (literal key) [
          | none ↦ none
          | some c ↦
              if control
              then some (
                  esc ∷ codes "["
                  ++ (decimal c ++ (codes ";" ++ (decimal modifier_parameter ++ codes "u"))))
              else if alt
              then some (esc ∷ c ∷ [])
              else some (c ∷ [])
        ]
      ]
