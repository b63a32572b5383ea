-- ===== src/Step.antt =====
-- One step of the page: a call of the application, a callback of xterm.js or an event of the
-- browser. Steps of one thread do not overlap: each runs to its end or to its next wait.
pub mod Frame
pub mod Unseen
pub mod Whole
pub mod Input
pub mod Direct
pub mod Accounts
pub mod Writes
pub mod Drain
pub mod Resize
use termethis.Base.{ℕ, Bool, List, [], ◌∷◌, Text}
use termethis.Browser.{Browser, Event}
use termethis.Page.{Page, PointerEvent, Op, Outcome, handle_all}
use termethis.Fit.{fit, observe_resize, resize_frame_fires}
use termethis.Writer.{start_next, write_parsed, write_frame}
use termethis.Pointer.{pointer_down, pointer_up, pointer_cancel, timer_fires}
use termethis.Startup.{callback, context_lost, fonts_ready, report_error}
use termethis.Api.{
  JsValue, Options, send_key, paste_base64, set_options, focus, set_active, write_base64,
  request_snapshot, dispose,
}

pub data Action (b : Browser) : Type 0 where
  -- the methods of window.termethisTerminal
  calls_write : Text → Bool → ℕ → Action b
  calls_paste : Text → Action b
  calls_send_key : Text → Bool → Bool → Action b
  calls_set_options : Options b.F → Action b
  calls_fit : Action b
  calls_focus : Action b
  calls_set_active : JsValue b.F → Action b
  calls_request_snapshot : ℕ → ℕ → ℕ → Action b
  calls_dispose : Action b
  -- xterm.js: a new state of the emulator, and the callbacks that it makes
  emulator : b.Screen → List (Event b.F) → Action b
  context_loss : Action b
  -- the write chain, with the clock
  next_job : b.F → Action b
  parsed : b.F → Action b
  frame : b.F → Action b
  -- the observer, its frames, the fonts
  resized : Action b
  resize_frame : ℕ → Action b
  fonts : Action b
  -- pointers and timers
  press : PointerEvent b.F → Action b
  release : PointerEvent b.F → Action b
  cancel : Action b
  timer : ℕ → Action b
  -- an error event of the window
  window_error : Text → Action b

module _ ⦃b : Browser⦄ where
  -- What a method throws goes back to the application.
  abbrev pub method : Op b → Page b → Page b
  method m p = (m p).page

  unfoldable pub step : Action b → Page b → Page b
  step (calls_write value reset id) = method (write_base64 value reset id)
  step (calls_paste value) = method (paste_base64 value)
  step (calls_send_key key control alt) = method (send_key key control alt)
  step (calls_set_options options) = method (set_options options)
  step calls_fit = method fit
  step calls_focus = method focus
  step (calls_set_active value) = method (set_active value)
  step (calls_request_snapshot id sequence scrollback) =
      method (request_snapshot id sequence scrollback)
  step calls_dispose = method dispose
  step (emulator screen events) = λ p. handle_all events (record p { screen = screen })
  step context_loss = callback context_lost
  step (next_job now) = start_next now
  step (parsed now) = write_parsed now
  step (frame now) = write_frame now
  step resized = observe_resize
  step (resize_frame n) = callback (resize_frame_fires n)
  step fonts = fonts_ready
  step (press event) = callback (pointer_down event)
  step (release event) = callback (pointer_up event)
  step cancel = pointer_cancel
  step (timer n) = callback (timer_fires n)
  step (window_error e) = report_error e

  unfoldable pub run : List (Action b) → Page b → Page b
  run [] p = p
  run (a ∷ rest) p = run rest (step a p)
