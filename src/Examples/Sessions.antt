-- ===== src/Examples/Sessions.antt =====
-- Sample runs of a session, of the terminal widget, and of both.
use termethis.Widget.Runs.{
  completes_drain, widget_step, WidgetAction, posts, returns, outputs, ends_wait, widget_run,
}
use termethis.Session.Run.{
  session_step, SessionAction, opens_connection, receives, write_timer, session_run, sends_input,
}
use termethis.Session.{Session, send_input, write_timer_fires, receive, new}
use termethis.Session.Connection.{connection_opened}
use termethis.Scrollback.{
  replay, Chunk, Scrollback, empty, replay_after, bytes_after, save_snapshot,
  maximum_buffered_bytes, maximum_delta_bytes, maximum_snapshot_bytes,
}
use termethis.Widget.{
  Widget, created, chunks_for, total_bytes, at_rest, snapshotting, pause_output_at_bytes,
}
use termethis.Widget.Drains.{queue_output, enqueue_script, is_at_rest}
use termethis.Widget.Actions.{
  drain_completed, acknowledgement_ended, handle_message, script_returned, synchronize,
  handle_terminal_data, initialize,
}
use termethis.Scrollback.Loops.{total_length}
use termethis.Link.{LinkAction, session_acts, widget_acts, link_run, opened}
use termethis.Link.Runs.{shown-link_run}
use termethis.Widget.Shown.{shown}
use termethis.Base.{
  ℕ, ◌≤◌, ◌<◌, ◌≡◌, ◌⊎◌, refl, ap, ◌∙◌, true, false, none, List, [], ◌∷◌, ◌++◌, ◌&&◌, not, Text,
  codes, length, replicate, length-replicate, append-nil, arith,
}
use termethis.Prompt.{is_empty}
use termethis.Page.{ready, write_ack}
use termethis.Scrollback.History.{IsComplete}
use termethis.Scrollback.Stale.{replay_after-save_snapshot}
use termethis.Session.Replays.{session_run-bounds, replay_after-session_run}
use termethis.Widget.Suspensions.{suspend_answered, dispose}
use termethis.Widget.Chunks.{IsCut, chunks_for-IsCut, queued_bytes}
use termethis.Widget.Held.{widget_run-held}
use termethis.Widget.Wakes.{widget_run-idle}
use termethis.Widget.Flow.{IsOpen, answers_left, answered, written}
use termethis.Widget.Settled.{widget_run-answered}
use termethis.Widget.Gone.{suspend_answered-dispose}

abbrev shell : List SessionAction
shell = opens_connection ∷ receives (codes "hi") ∷ write_timer ∷ sends_input (codes "ls") ∷ []

abbrev same_codes : Text → List ℕ
same_codes text = text

session_run-bounds_example :
    let s = (session_run same_codes shell new).scrollback in
    (s.pending_length ≡ length s.pending)
    × (s.pending_length < maximum_buffered_bytes)
    × (s.delta_length ≡ total_length s.delta)
    × (s.delta_length ≤ maximum_delta_bytes)
    × (length s.snapshot ≤ maximum_snapshot_bytes)
session_run-bounds_example = session_run-bounds same_codes shell

unfoldable after_shell : Session
unfolding session_run session_step send_input write_timer_fires receive connection_opened
after_shell = session_run same_codes shell new

shell_live : (session_run same_codes shell new).disposed ≡ false
unfolding after_shell
shell_live = refl

replay_after-session_run_example :
    let s = (session_run same_codes shell new).scrollback in
    ((replay_after 0 s).reset_required ≡ true)
    ⊎ ((replay_after 0 s).bytes ≡ bytes_after 0 s.emitted)
replay_after-session_run_example =
    replay_after-session_run same_codes shell 0 (tt, (omega arith, (tt, (tt, tt)))) shell_live

abbrev piece : ℕ → Text → Chunk
piece n text = record { sequence = n; bytes = text }

-- The first of two events has been dropped.
abbrev dropped : Scrollback
dropped = record empty {
  sequence = 2;
  truncated = true;
  delta = piece 2 (codes "b") ∷ [];
  delta_length = 1;
  emitted = piece 1 (codes "a") ∷ piece 2 (codes "b") ∷ [];
}

abbrev dropped_history : IsComplete dropped
dropped_history = record {
  earlier = piece 1 (codes "a") ∷ [];
  whole = refl;
  numbered = (refl, (refl, tt));
  counted = refl;
  covered = λ h. absurd (cc);
}

replay_after-save_snapshot_example :
    let r = replay_after 0 (save_snapshot [] 0 dropped).0 in
    (r.reset_required ≡ false)
    × (bytes_after 0 dropped.emitted ≡ bytes_after 0 (piece 1 (codes "a") ∷ []) ++ r.bytes)
replay_after-save_snapshot_example =
    replay_after-save_snapshot [] 0 dropped dropped_history (omega arith) (omega arith)
      (omega arith)

chunks_for-IsCut_example : IsCut (codes "hi") 7 true (chunks_for (codes "hi") 7 true)
chunks_for-IsCut_example = chunks_for-IsCut (codes "hi") 7 true refl

abbrev first : Chunk
first = piece 1 (codes "hello")

abbrev one_event : Scrollback
one_event = record empty {
  sequence = 1;
  delta = first ∷ [];
  delta_length = 5;
  emitted = first ∷ [];
}

-- The page is ready, and its two scripts return.
abbrev opening : List WidgetAction
opening =
    completes_drain
    ∷ posts (ready (codes "webgl") 80 24)
    ∷ outputs one_event first
    ∷ returns true
    ∷ returns true
    ∷ []

widget_run-held_example :
    let w = widget_run opening (initialize empty created) in
    (w.output_bytes ≡ total_bytes w.output) × (w.backpressured && is_empty w.output ≡ false)
widget_run-held_example = widget_run-held empty opening

-- The reset and the first event are acknowledged, and the drain completes.
abbrev served : List WidgetAction
served =
    completes_drain
    ∷ posts (ready (codes "webgl") 80 24)
    ∷ outputs one_event first
    ∷ returns true
    ∷ returns true
    ∷ returns true
    ∷ posts (write_ack 1)
    ∷ ends_wait
    ∷ returns true
    ∷ posts (write_ack 2)
    ∷ ends_wait
    ∷ completes_drain
    ∷ []

unfoldable after : List WidgetAction → Widget
unfolding widget_run widget_step drain_completed acknowledgement_ended handle_message
    script_returned synchronize queue_output replay enqueue_script handle_terminal_data
after actions = widget_run actions (initialize empty created)

served_live : (widget_run served (initialize empty created)).disposed ≡ false
unfolding after
served_live = refl

served_rests : is_at_rest (widget_run served (initialize empty created)).drain ≡ true
unfolding after
served_rests = refl

widget_run-idle_example :
    let w = widget_run served (initialize empty created) in
    (is_empty w.scripts ≡ true) × (w.is_ready && w.active && not (is_empty w.output) ≡ false)
widget_run-idle_example = widget_run-idle empty served served_live served_rests

opening-IsOpen : IsOpen (widget_run opening (initialize empty created))
unfolding after
opening-IsOpen = record { is_ready = refl; active = refl; live = refl }

opening_left : answers_left (widget_run opening (initialize empty created)) ≤ 20
unfolding after
opening_left = omega arith

widget_run-answered_example :
    let w = widget_run opening (initialize empty created) in
    let v = answered 20 w in
    (v.drain ≡ at_rest)
    × (v.output ≡ [])
    × (v.backpressured ≡ false)
    × (written v.sent ≡ written w.sent ++ queued_bytes w.output)
widget_run-answered_example = widget_run-answered empty opening 20 opening-IsOpen opening_left

-- An event of 1 MiB, and a widget that waits for its snapshot and has been asked to resume.
unfoldable fill : ℕ → List ℕ
fill n = replicate n 65

length-fill : (n : ℕ) → length (fill n) ≡ n
unfolding fill
length-fill n = length-replicate n 65

abbrev huge : List ℕ
huge = fill pause_output_at_bytes

abbrev huge_event : Scrollback
huge_event = record empty {
  sequence = 1;
  delta = piece 1 huge ∷ [];
  delta_length = pause_output_at_bytes;
  emitted = piece 1 huge ∷ [];
}

abbrev asked : Widget
asked = record created { is_ready = true; suspension = snapshotting; resume_requested = true }

huge_left : (replay_after 0 huge_event).bytes ≡ huge ++ []
unfolding replay_after
huge_left = refl

huge_waits : pause_output_at_bytes ≤ length (replay_after 0 huge_event).bytes
huge_waits =
    omega (arith, ap length (huge_left ∙ append-nil huge), length-fill pause_output_at_bytes)

suspend_answered-dispose_example :
    let v = suspend_answered none huge_event (dispose asked).suspension (dispose asked) in
    (v.disposed ≡ true) × (v.backpressured ≡ true) × (v.has_listener ≡ true)
suspend_answered-dispose_example = suspend_answered-dispose huge_event asked refl refl huge_waits

-- The session prints once more, and the page gets ready.
abbrev further : List LinkAction
further =
    session_acts (receives (codes "x"))
    ∷ session_acts write_timer
    ∷ widget_acts (posts (ready (codes "webgl") 80 24))
    ∷ []

shown-link_run_example :
    let l = link_run same_codes further (opened same_codes shell) in
    (xs : List LinkAction) × (ys : List LinkAction) × (further ≡ xs ++ ys)
    × (let moment = (link_run same_codes xs (opened same_codes shell)).session.scrollback in
        shown l.widget
        ≡ (replay moment).bytes ++ bytes_after moment.sequence l.session.scrollback.emitted)
shown-link_run_example = shown-link_run same_codes shell further (tt, (tt, (refl, tt)))
