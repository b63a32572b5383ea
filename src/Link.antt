-- ===== src/Link.antt =====
-- SshSessionController and XtermWebTerminalState of lib/features/terminal together: the events of the
-- session go to the widget that listens to it, and what the page will show is a replay of the
-- session and every event since, in order.
pub mod Follows
pub mod Runs
use mathlib.Core.Path.{subst}
use termethis.Base.{
  ℕ, suc, ◌≤◌, ◌<◌, ◌≡◌, ◌⊎◌, inl, inr, refl, sym, ap, ◌∙◌, Bool, true, false, List, [], ◌∷◌, ◌++◌,
  ◌||◌, leb, ltb, not, Text, length, drop, All, All-append, if_elim, append_assoc, append-nil,
  arith, if◌then◌else◌,
}
use termethis.Scrollback.{Chunk, Scrollback, replay, bytes_after}
use termethis.Scrollback.Stale.{bytes_after_split}
use termethis.Session.{Session, new}
use termethis.Session.Run.{SessionAction, session_step, session_run}
use termethis.Session.Emits.{Emits, Quiet, EmitsOne, numbered, step-Emits}
use termethis.Widget.{Widget, created}
use termethis.Widget.Drains.{queue_output}
use termethis.Widget.Actions.{initialize, synchronize, handle_terminal_data}
use termethis.Widget.Runs.{WidgetAction, outputs, widget_step}
use termethis.Widget.Steady.{is_steady}
use termethis.Widget.Shown.{shown, put}
use termethis.Widget.Shows.{Shows, steady-Shows}
use termethis.Widget.Queued.{queue_output-Shows}

pub record Linked : Type 0 where
  pub session : Session
  pub widget : Widget

-- What happens to the session, the calls of the widget included, and what happens to the widget, the
-- events of the session excluded.
pub data LinkAction : Type 0 where
  session_acts : SessionAction → LinkAction
  widget_acts : WidgetAction → LinkAction

-- The loop over the listeners in _flushTerminalWrites, for the listener of the widget.
unfoldable pub deliver : Scrollback → List Chunk → Widget → Widget
deliver session [] w = w
deliver session (event ∷ events) w = deliver session events (widget_step (outputs session event) w)

-- The events that an action has added.
abbrev pub new_events : Scrollback → Scrollback → List Chunk
new_events before after = drop (length before.emitted) after.emitted

abbrev pub IsSteady : LinkAction → Type 0
IsSteady (session_acts a) = Unit
IsSteady (widget_acts a) = is_steady a ≡ true

module _ (encode : Text → List ℕ) where
  unfoldable pub link_step : LinkAction → Linked → Linked
  link_step (session_acts a) l =
      let s = session_step encode a l.session in
      record {
        session = s;
        widget = deliver s.scrollback (new_events l.session.scrollback s.scrollback) l.widget;
      }
  link_step (widget_acts a) l = record l { widget = widget_step a l.widget }

  unfoldable pub link_run : List LinkAction → Linked → Linked
  link_run [] l = l
  link_run (a ∷ rest) l = link_run rest (link_step a l)

  -- A widget that is made for a session that has run before.
  abbrev pub opened : List SessionAction → Linked
  opened before =
      let s = session_run encode before new in
      record { session = s; widget = initialize s.scrollback created }
