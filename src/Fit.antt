-- ===== src/Fit.antt =====
-- `fit` and the resize observer of tool/web_terminal/src/terminal.js.
use termethis.Base.{
  ℕ, ◌+◌, Bool, false, Option, none, some, List, [], ◌∷◌, ◌++◌, ◌==◌, ◌&&◌, ◌||◌, not,
  if◌then◌else◌, Text, codes,
}
use termethis.Base.Int.{pos, fin, ltb_whole, whole_text}
use termethis.Browser.{Browser, Call, of_whole}
use termethis.Page.{Page, Layout, Op, done, perform, ◌>>◌}

abbrev pub wide_terminal_columns : ℕ
wide_terminal_columns = 160

-- cancelAnimationFrame: an id that is not pending is ignored.
unfoldable pub cancel_frame : Option ℕ → List ℕ → List ℕ
cancel_frame none frames = frames
cancel_frame (some n) [] = []
cancel_frame (some n) (m ∷ frames) =
    let rest = cancel_frame (some n) frames in if m == n then rest else m ∷ rest

unfoldable pub is_pending : ℕ → List ℕ → Bool
is_pending n [] = false
is_pending n (m ∷ frames) = m == n || is_pending n frames

-- `cancelAnimationFrame(resizeFrame); resizeFrame = requestAnimationFrame(fit);`
abbrev pub request_frame : Layout → Layout
request_frame l = record l {
  resize_frame = some l.next_frame;
  frames = l.next_frame ∷ cancel_frame l.resize_frame l.frames;
  next_frame = l.next_frame + 1;
}

-- A frame that fires is pending no more.
abbrev pub take_frame : ℕ → Layout → Layout
take_frame n l = record l { frames = cancel_frame (some n) l.frames }

-- `resizeObserver.disconnect(); cancelAnimationFrame(resizeFrame);`
abbrev pub disconnect : Layout → Layout
disconnect l = record l { observing = false; frames = cancel_frame l.resize_frame l.frames }

module _ ⦃b : Browser⦄ where
  -- The test of the second `if` of `fit`, and the width that it sets.
  unfoldable pub wide_width : Page b → Option Text
  wide_width p = elim (b.propose_cols p.screen) [
    | none ↦ none
    | some cols ↦
        if not p.agent_mode
          && (ltb_whole (fin (pos 0)) cols && ltb_whole cols (fin (pos wide_terminal_columns)))
        then some (
            whole_text (
              b.ceil (
                b.mul (b.div (b.of_nat (b.client_width p.screen)) (of_whole b cols))
                  (b.of_nat wide_terminal_columns)))
            ++ codes "px")
        else none
  ]

  unfoldable pub widen : Op b
  widen p = elim (wide_width p) [ none ↦ done p | some w ↦ perform (Call.set_host_width w) p ]

  unfoldable pub is_hidden : Page b → Bool
  is_hidden p = not p.active || b.client_width p.screen == 0 || b.client_height p.screen == 0

  unfoldable pub fit : Op b
  unfolding wide_width widen is_hidden
  fit p =
      if is_hidden p
      then done p
      else (perform (Call.set_host_width (codes "100%")) >> widen >> perform Call.fit_addon) p

  -- The callback of the ResizeObserver.
  unfoldable pub observe_resize : Page b → Page b
  observe_resize p = if p.layout.observing then record p { layout = request_frame p.layout } else p

  -- An animation frame that was requested for `fit`.
  unfoldable pub resize_frame_fires : ℕ → Op b
  resize_frame_fires n p =
      if is_pending n p.layout.frames
      then fit (record p { layout = take_frame n p.layout })
      else done p
