-- ===== src/Widget/Runs.antt =====
-- Runs of XtermWebTerminalState of xterm_web_terminal.dart: what the page, the session and the
-- application do, and its own waits, in any order.
use termethis.Base.{ℕ, Bool, if◌then◌else◌, Option, List, [], ◌∷◌, Text}
use termethis.Page.{Message}
use termethis.Scrollback.{Chunk, Scrollback}
use termethis.Widget.{Widget, report_fatal}
use termethis.Widget.Actions.{
  TerminalKey, send_key, focus, paste, configure, handle_message, handle_terminal_data,
  script_returned, acknowledgement_ended, acknowledgement_timeout, drain_completed,
}
use termethis.Widget.Suspensions.{suspend, resume, suspend_drained, suspend_answered, dispose}

-- The scrollback of an action is that of the session at that time.
pub data WidgetAction : Type 0 where
  posts : Message → WidgetAction
  outputs : Scrollback → Chunk → WidgetAction
  returns : Bool → WidgetAction
  ends_wait : WidgetAction
  times_out : WidgetAction
  completes_drain : WidgetAction
  sends_key : TerminalKey → Bool → Bool → WidgetAction
  focuses : WidgetAction
  pastes : Text → WidgetAction
  updates_settings : WidgetAction
  ready_timeout : WidgetAction
  fails_resource : WidgetAction
  suspends : WidgetAction
  resumes : Scrollback → WidgetAction
  drains_for_suspension : ℕ → Scrollback → WidgetAction
  answers : Option (List ℕ × ℕ) → Scrollback → WidgetAction
  disposes : WidgetAction

-- The timer of initState, which `ready` cancels.
abbrev pub ready_times_out : Widget → Widget
ready_times_out w = if w.is_ready then w else report_fatal w

-- didUpdateWidget, with other settings and the same session
abbrev pub update_settings : Widget → Widget
update_settings w = if w.is_ready then configure w else w

unfoldable pub widget_step : WidgetAction → Widget → Widget
widget_step (posts m) w = handle_message m w
widget_step (outputs session event) w =
    if w.has_listener then handle_terminal_data session event w else w
widget_step (returns ok) w = script_returned ok w.drain w
widget_step ends_wait w = acknowledgement_ended w.drain w
widget_step times_out w = acknowledgement_timeout w.drain w
widget_step completes_drain w = drain_completed w.drain w
widget_step (sends_key key control alt) w = (send_key key control alt w).0
widget_step focuses w = focus w
widget_step (pastes text) w = paste text w
widget_step updates_settings w = update_settings w
widget_step ready_timeout w = ready_times_out w
widget_step fails_resource w = report_fatal w
widget_step suspends w = suspend w
widget_step (resumes session) w = resume session w
widget_step (drains_for_suspension lines session) w = suspend_drained lines session w.suspension w
widget_step (answers result session) w = suspend_answered result session w.suspension w
widget_step disposes w = dispose w

unfoldable pub widget_run : List WidgetAction → Widget → Widget
widget_run [] w = w
widget_run (a ∷ rest) w = widget_run rest (widget_step a w)
