-- ===== src/Pointer.antt =====
-- The pointer handlers of tool/web_terminal/src/terminal.js: taps, long presses and the tap that
-- moves the cursor of a prompt.
pub mod Taps
pub mod LongPress
use termethis.Base.{
  ℕ, ◌+◌, ◌-◌, ◌^◌, Bool, true, false, Option, none, some, List, [], ◌∷◌, ◌++◌, ◌==◌, ◌&&◌, ◌||◌,
  not, if◌then◌else◌, Text, codes, Result, ok, throws, replicate, join,
}
use termethis.Base.Int.{
  ℤ, pos, negsuc, pos_part, neg_part, sub_ℕ, Whole, fin, pos_inf, neg_inf, nan, ltb_whole,
  min_whole, max_whole, whole_eq,
}
use termethis.Browser.{Browser, Call}
use termethis.Page.{Page, PointerEvent, Gesture, Op, Outcome, done, pure, perform, ◌>>◌}

-- `x - n` for a rounded number.
abbrev pub sub_whole : Whole → ℕ → Whole
sub_whole (fin z) n = fin (sub_ℕ (pos_part z) (neg_part z + n))
sub_whole pos_inf n = pos_inf
sub_whole neg_inf n = neg_inf
sub_whole nan n = nan

-- `Math.abs(delta)` as the count of `repeat`: NaN counts as 0, an infinity is a RangeError.
abbrev pub repeat_count : Whole → Result ℕ
repeat_count (fin z) = ok (pos_part z + neg_part z)
repeat_count nan = ok 0
repeat_count pos_inf = throws (codes "RangeError")
repeat_count neg_inf = throws (codes "RangeError")

-- clearTimeout: an id that is not pending is ignored.
unfoldable pub remove_timer {ℓ} : {A : Type ℓ} → ℕ → List (ℕ × A) → List (ℕ × A)
remove_timer n [] = []
remove_timer n ((m, a) ∷ ts) =
    let rest = remove_timer n ts in if m == n then rest else (m, a) ∷ rest

unfoldable pub find_timer {ℓ} : {A : Type ℓ} → ℕ → List (ℕ × A) → Option A
find_timer n [] = none
find_timer n ((m, a) ∷ ts) = if m == n then some a else find_timer n ts

abbrev pub cancel_timer {ℓ} : {A : Type ℓ} → Option ℕ → List (ℕ × A) → List (ℕ × A)
cancel_timer none ts = ts
cancel_timer (some n) ts = remove_timer n ts

abbrev pub left_key : Text
left_key = 0x1b ∷ codes "[D"

abbrev pub right_key : Text
right_key = 0x1b ∷ codes "[C"

module _ ⦃b : Browser⦄ where
  unfoldable pub dispatch_mouse : PointerEvent b.F → ℕ → Op b
  dispatch_mouse event button =
      perform (Call.mouse true event.client_x event.client_y button (2 ^ button))
      >> perform (Call.mouse false event.client_x event.client_y button 0)

  abbrev pub clear_long_press : Page b → Page b
  clear_long_press p = record p {
    gesture = record (p.gesture) {
      timers = cancel_timer p.gesture.long_press_timer p.gesture.timers;
    };
  }

  -- The test of movePromptCursor, and `delta` where it passes.
  unfoldable pub prompt_delta : PointerEvent b.F → Page b → Option Whole
  prompt_delta event p =
      let s = p.screen in
      let cell_width = b.div (b.rect_width s) (b.of_nat (b.cols s)) in
      let cell_height = b.div (b.rect_height s) (b.of_nat (b.rows s)) in
      let row = b.floor (b.div (b.sub event.client_y (b.rect_top s)) cell_height) in
      let column = b.floor (b.div (b.sub event.client_x (b.rect_left s)) cell_width) in
      let target_column = max_whole (pos 0) (min_whole (sub_ℕ (b.cols s) 1) column) in
      if not p.interaction.tap_to_move_prompt_cursor || not p.prompt.prompt_active
      then none
      else if not (whole_eq row (b.cursor_y s))
      then none
      else some (sub_whole target_column (b.cursor_x s))

  -- The keys that movePromptCursor types for `delta`.
  unfoldable pub move_by : Whole → Op b
  move_by delta p = if whole_eq delta 0 then done p else elim (repeat_count delta) [
    | throws e ↦ record { page = p; thrown = some e }
    | ok n ↦
        perform
          (Call.input
            (join (replicate n (if ltb_whole delta (fin (pos 0)) then left_key else right_key)))
            true)
          p
  ]

  -- What pointerdown does behind `terminal.focus()`.
  unfoldable pub start_press : PointerEvent b.F → Op b
  start_press event p =
      let g = p.gesture in
      let pressed = record g {
        pointer_start = some (event.client_x, event.client_y);
        long_press_sent = false;
      } in
      if not event.is_touch
      then done p
      else if p.interaction.mouse_input && p.interaction.long_press_right_click
      then done (record p {
        gesture = record pressed {
          long_press_timer = some g.next_timer;
          timers = (g.next_timer, event) ∷ g.timers;
          next_timer = g.next_timer + 1;
        };
      })
      else done (record p { gesture = pressed })

  unfoldable pub pointer_down : PointerEvent b.F → Op b
  pointer_down event = perform Call.focus >> start_press event

  -- `Math.hypot(…) > 12` from the point where the press began.
  unfoldable pub has_moved : PointerEvent b.F → Page b → Bool
  has_moved event p = elim p.gesture.pointer_start [
    | none ↦ false
    | some (x, y) ↦ b.lt (b.of_nat 12) (b.hypot (b.sub event.client_x x) (b.sub event.client_y y))
  ]

  -- `if (movePromptCursor(event)) return; if (interaction.mouseInput) dispatchMouse(event, 0);`
  unfoldable pub tap : PointerEvent b.F → Op b
  tap event p = elim (prompt_delta event p) [
    | some delta ↦ move_by delta p
    | none ↦ if p.interaction.mouse_input then dispatch_mouse event 0 p else done p
  ]

  unfoldable pub pointer_up : PointerEvent b.F → Op b
  pointer_up event q =
      let p = clear_long_press q in
      if not event.is_touch || p.gesture.long_press_sent
      then done p
      else if has_moved event p
      then done p
      else tap event p

  unfoldable pub pointer_cancel : Page b → Page b
  pointer_cancel p = clear_long_press p

  -- The callback of the long press timer.
  unfoldable pub timer_fires : ℕ → Op b
  timer_fires n p = elim (find_timer n p.gesture.timers) [
    | none ↦ done p
    | some event ↦
        (dispatch_mouse event 2
            >> pure (λ q. record q { gesture = record (q.gesture) { long_press_sent = true } }))
          (record p { gesture = record (p.gesture) { timers = remove_timer n p.gesture.timers } })
  ]

  -- Whether `contextmenu` is prevented.
  abbrev pub context_menu_prevented : Page b → Bool
  context_menu_prevented p = p.interaction.long_press_right_click
