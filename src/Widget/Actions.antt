-- ===== src/Widget/Actions.antt =====
-- What happens to XtermWebTerminalState of
-- lib/features/terminal/presentation/widgets/xterm_web_terminal.dart: messages of the page, output of
-- the session, the calls of the application, and the ends of its own waits.
use termethis.Base.{
  ℕ, Bool, true, false, Option, none, some, ◌==◌, ◌&&◌, ◌||◌, not, ltb, leb, if◌then◌else◌, Text,
  codes,
}
use termethis.Prompt.{is_empty}
use termethis.Page.{Message, fatal, input, direct_input, resize, write_ack, ready}
use termethis.Scrollback.{Chunk, Scrollback, replay, replay_after}
use termethis.Session.Run.{sends_input, sends_input_direct, resizes}
use termethis.Widget.{
  Widget, Script, Drain, at_rest, in_script, in_write, ended, waiting, acknowledged, broken, Script,
  call_session, report_fatal,
}
use termethis.Widget.Drains.{drain_operations, schedule_drain, enqueue_script, queue_output}

-- The keys of sendKey, of the enumeration TerminalKey.
pub data TerminalKey : Type 0 where
  escape tab enter arrow_up arrow_down arrow_left arrow_right other_key : TerminalKey

abbrev pub key_name : TerminalKey → Option Text
key_name escape = some (codes "escape")
key_name tab = some (codes "tab")
key_name enter = some (codes "enter")
key_name arrow_up = some (codes "arrowUp")
key_name arrow_down = some (codes "arrowDown")
key_name arrow_left = some (codes "arrowLeft")
key_name arrow_right = some (codes "arrowRight")
key_name other_key = none

abbrev pub enqueue_key : Option Text → Bool → Bool → Widget → Widget × Bool
enqueue_key none control alt w = (w, false)
enqueue_key (some name) control alt w = (enqueue_script (Script.send_key name control alt) w, true)

-- sendKey
unfoldable pub send_key : TerminalKey → Bool → Bool → Widget → Widget × Bool
send_key key control alt w =
    if not w.is_ready || not w.active || w.disposed
    then (w, false)
    else enqueue_key (key_name key) control alt w

unfoldable pub focus : Widget → Widget
focus w = if w.is_ready && w.active then enqueue_script Script.focus w else w

-- paste, on the UTF-16 of the text; its encoding is undone by the page.
unfoldable pub paste : Text → Widget → Widget
paste text w =
    if not w.is_ready || not w.active || is_empty text
    then w
    else enqueue_script (Script.paste text) w

-- _configure
abbrev pub configure : Widget → Widget
configure w = enqueue_script Script.set_options w

abbrev pub acknowledge : ℕ → Drain → Drain
acknowledge id (in_write i sequence has_run waiting) =
    if id == i
    then in_write i sequence has_run acknowledged
    else in_write i sequence has_run waiting
acknowledge id d = d

abbrev pub receive_ready : Widget → Widget
receive_ready w =
    let u = configure (record w { is_ready = true }) in
    schedule_drain (enqueue_script (Script.set_active u.active) u)

-- _handleJavaScriptMessage: the messages on the renderer and the snapshots change nothing here.
unfoldable pub handle_message : Message → Widget → Widget
handle_message (ready kind columns rows) w = if w.disposed then w else receive_ready w
handle_message (input text) w =
    if not w.disposed && w.active then call_session (sends_input text) w else w
handle_message (direct_input text) w =
    if not w.disposed && w.active then call_session (sends_input_direct text) w else w
handle_message (resize columns rows) w =
    if not w.disposed && ltb 0 columns && ltb 0 rows
    then call_session (resizes columns rows) w
    else w
handle_message (write_ack id) w =
    if w.disposed then w else record w { drain = acknowledge id w.drain }
handle_message (fatal text) w = report_fatal w
handle_message m w = w

-- _handleTerminalData; the arguments are the session behind the event, and the event.
unfoldable pub handle_terminal_data : Scrollback → Chunk → Widget → Widget
handle_terminal_data session event w =
    if w.disposed || not w.active || leb event.sequence w.last_queued
    then w
    else queue_output (replay session) event.bytes event.sequence false w

-- _synchronizeFromSession
unfoldable pub synchronize : Scrollback → Bool → Widget → Widget
synchronize session reset w =
    let r = if reset then replay session else replay_after w.last_sent session in
    queue_output (replay session) r.bytes r.through_sequence (reset || r.reset_required) w

-- initState
abbrev pub initialize : Scrollback → Widget → Widget
initialize session w = record (synchronize session true w) { has_listener = true }

-- runJavaScript has returned, or has thrown.
unfoldable pub script_returned : Bool → Drain → Widget → Widget
script_returned true in_script w = drain_operations w
script_returned false in_script w = report_fatal (record w { drain = ended })
script_returned true (in_write id sequence false a) w = record w {
  drain = in_write id sequence true a;
}
script_returned false (in_write id sequence false a) w = report_fatal (record w { drain = ended })
script_returned ok d w = w

-- The wait for the acknowledgement has ended: by it, by an error, or by the timeout.
unfoldable pub acknowledgement_ended : Drain → Widget → Widget
acknowledgement_ended (in_write id sequence true acknowledged) w =
    drain_operations
      (record w { last_sent = if ltb w.last_sent sequence then sequence else w.last_sent })
acknowledgement_ended (in_write id sequence true broken) w =
    report_fatal (record w { drain = ended })
acknowledgement_ended d w = w

unfoldable pub acknowledgement_timeout : Drain → Widget → Widget
acknowledgement_timeout (in_write id sequence true waiting) w =
    report_fatal (record w { drain = ended })
acknowledgement_timeout d w = w

-- The callback of whenComplete in _scheduleDrain.
unfoldable pub drain_completed : Drain → Widget → Widget
drain_completed ended w =
    let v = record w { drain = at_rest } in
    if not w.disposed
      && (not (is_empty w.scripts) || w.is_ready && w.active && not (is_empty w.output))
    then schedule_drain v
    else v
drain_completed d w = w
