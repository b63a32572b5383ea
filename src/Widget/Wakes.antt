-- ===== src/Widget/Wakes.antt =====
-- The wakes of XtermWebTerminalState of xterm_web_terminal.dart over any run.
use termethis.Base.{
  ℕ, ◌≡◌, true, false, List, [], ◌∷◌, ◌&&◌, ◌||◌, not, leb, if_elim, Option, some, none, arith,
}
use termethis.Prompt.{is_empty}
use termethis.Scrollback.{Scrollback, replay, replay_after}
use termethis.Widget.{
  Widget, Script, created, set_output_backpressure, Suspension, not_suspending, draining,
  snapshotting, deactivating,
}
use termethis.Widget.Drains.{is_at_rest}
use termethis.Widget.Actions.{focus, paste, handle_terminal_data, synchronize, initialize}
use termethis.Widget.Suspensions.{
  behind_snapshot, suspended, suspend, resume, resume_after_suspension, suspend_drained,
  suspend_answered, dispose, is_not_suspending,
}
use termethis.Widget.Runs.{
  WidgetAction, posts, outputs, returns, ends_wait, times_out, completes_drain, sends_key, focuses,
  pastes, updates_settings, ready_timeout, fails_resource, suspends, resumes, drains_for_suspension,
  answers, disposes, widget_step, widget_run,
}
use termethis.Widget.Awake.{
  IsAwake, gone-IsAwake, schedule_drain-IsAwake, enqueue_script-IsAwake, queue_output-IsAwake,
  report_fatal-IsAwake, handle_message-IsAwake, script_returned-IsAwake,
  acknowledgement_ended-IsAwake, acknowledgement_timeout-IsAwake, drain_completed-IsAwake,
  send_key-IsAwake,
}

resume_after_suspension-IsAwake :
    (session : Scrollback) (w : Widget) → IsAwake w → IsAwake (resume_after_suspension session w)
unfolding resume_after_suspension
resume_after_suspension-IsAwake session w h =
    if_elim IsAwake (w.disposed || not w.resume_requested) (λ _. h)
      (λ _.
        if_elim IsAwake w.active (λ _. record { awake = h.awake }) (λ _. schedule_drain-IsAwake _))

suspend-IsAwake : (w : Widget) → IsAwake w → IsAwake (suspend w)
unfolding suspend
suspend-IsAwake w h =
    if_elim IsAwake (w.disposed || not w.active || not (is_not_suspending w.suspension))
      (λ _. record { awake = h.awake }) (λ _. schedule_drain-IsAwake _)

resume-IsAwake : (session : Scrollback) (w : Widget) → IsAwake w → IsAwake (resume session w)
unfolding resume
resume-IsAwake session w h =
    let v = record w { resume_requested = true } in
    let k : IsAwake v = record { awake = h.awake } in
    if_elim IsAwake w.disposed (λ _. h)
      (λ _.
        if_elim IsAwake (is_not_suspending w.suspension)
          (λ _. resume_after_suspension-IsAwake session v k) (λ _. k))

hidden-IsAwake :
    (w : Widget) → IsAwake w → IsAwake (record w { active = false; suspension = not_suspending })
hidden-IsAwake w h = record { awake = λ live rest. let quiet = h.awake live rest in ground arith }

suspended-IsAwake :
    (session : Scrollback) (w : Widget)
    → IsAwake w
    → IsAwake (suspended session (record w { active = false }))
suspended-IsAwake session w h = resume_after_suspension-IsAwake session _ (hidden-IsAwake w h)

suspend_drained-IsAwake :
    (lines : ℕ) (session : Scrollback) (p : Suspension) (w : Widget)
    → IsAwake w
    → IsAwake (suspend_drained lines session p w)
unfolding suspend_drained
suspend_drained-IsAwake lines session draining w h =
    if_elim IsAwake (is_at_rest w.drain)
      (λ _.
        if_elim IsAwake (w.is_ready && not w.fatal_reported) (λ _. enqueue_script-IsAwake _ _)
          (λ _. suspended-IsAwake session w h))
      (λ _. h)
suspend_drained-IsAwake lines session deactivating w h =
    if_elim IsAwake (is_at_rest w.drain) (λ _. suspended-IsAwake session w h) (λ _. h)
suspend_drained-IsAwake lines session not_suspending w h = h
suspend_drained-IsAwake lines session snapshotting w h = h

behind_snapshot-IsAwake : (session : Scrollback) (w : Widget) → IsAwake (behind_snapshot session w)
unfolding synchronize
behind_snapshot-IsAwake session w =
    let r = replay_after w.last_sent session in
    if_elim IsAwake w.resume_requested
      (λ _. record {
        awake =
            (queue_output-IsAwake (replay session) r.bytes r.through_sequence
              (false || r.reset_required) w).awake;
      })
      (λ _. enqueue_script-IsAwake (Script.set_active false) _)

suspend_answered-IsAwake :
    (result : Option (List ℕ × ℕ)) (session : Scrollback) (p : Suspension) (w : Widget)
    → IsAwake w
    → IsAwake (suspend_answered result session p w)
unfolding suspend_answered
suspend_answered-IsAwake (some (encoded, n)) session snapshotting w h =
    behind_snapshot-IsAwake session _
suspend_answered-IsAwake none session snapshotting w h = behind_snapshot-IsAwake session w
suspend_answered-IsAwake (some r) session not_suspending w h = h
suspend_answered-IsAwake (some r) session draining w h = h
suspend_answered-IsAwake (some r) session deactivating w h = h
suspend_answered-IsAwake none session not_suspending w h = h
suspend_answered-IsAwake none session draining w h = h
suspend_answered-IsAwake none session deactivating w h = h

dispose_disposed : (w : Widget) → (dispose w).disposed ≡ true
unfolding dispose set_output_backpressure
dispose_disposed w = ground arith

pub step-IsAwake : (a : WidgetAction) (w : Widget) → IsAwake w → IsAwake (widget_step a w)
unfolding widget_step focus paste handle_terminal_data
step-IsAwake (posts m) w h = handle_message-IsAwake m w h
step-IsAwake (outputs session event) w h =
    if_elim IsAwake w.has_listener
      (λ _.
        if_elim IsAwake (w.disposed || not w.active || leb event.sequence w.last_queued) (λ _. h)
          (λ _. queue_output-IsAwake (replay session) event.bytes event.sequence false w))
      (λ _. h)
step-IsAwake (returns ok) w h = script_returned-IsAwake ok w.drain w h
step-IsAwake ends_wait w h = acknowledgement_ended-IsAwake w.drain w h
step-IsAwake times_out w h = acknowledgement_timeout-IsAwake w.drain w h
step-IsAwake completes_drain w h = drain_completed-IsAwake w.drain w h
step-IsAwake (sends_key key control alt) w h = send_key-IsAwake key control alt w h
step-IsAwake focuses w h =
    if_elim IsAwake (w.is_ready && w.active) (λ _. enqueue_script-IsAwake Script.focus w) (λ _. h)
step-IsAwake (pastes text) w h =
    if_elim IsAwake (not w.is_ready || not w.active || is_empty text) (λ _. h)
      (λ _. enqueue_script-IsAwake (Script.paste text) w)
step-IsAwake updates_settings w h =
    if_elim IsAwake w.is_ready (λ _. enqueue_script-IsAwake Script.set_options w) (λ _. h)
step-IsAwake ready_timeout w h = if_elim IsAwake w.is_ready (λ _. h) (λ _. report_fatal-IsAwake w h)
step-IsAwake fails_resource w h = report_fatal-IsAwake w h
step-IsAwake suspends w h = suspend-IsAwake w h
step-IsAwake (resumes session) w h = resume-IsAwake session w h
step-IsAwake (drains_for_suspension lines session) w h =
    suspend_drained-IsAwake lines session w.suspension w h
step-IsAwake (answers result session) w h = suspend_answered-IsAwake result session w.suspension w h
step-IsAwake disposes w h = gone-IsAwake _ (dispose_disposed w)

run-IsAwake :
    (actions : List WidgetAction) (w : Widget) → IsAwake w → IsAwake (widget_run actions w)
unfolding widget_run
run-IsAwake [] w h = h
run-IsAwake (a ∷ rest) w h = run-IsAwake rest (widget_step a w) (step-IsAwake a w h)

initialize-IsAwake : (session : Scrollback) → IsAwake (initialize session created)
unfolding synchronize
initialize-IsAwake session = record {
  awake =
      (let r = replay session in
        queue_output-IsAwake (replay session) r.bytes r.through_sequence (true || r.reset_required)
          created).awake;
}

pub widget_run-IsAwake :
    (session : Scrollback) (actions : List WidgetAction)
    → IsAwake (widget_run actions (initialize session created))
widget_run-IsAwake session actions =
    run-IsAwake actions (initialize session created) (initialize-IsAwake session)

-- No wake is lost: over any run of the widget, while it is not disposed and its drain rests, no
-- script is queued, and no output is queued either if the page is ready and shown.
pub widget_run-idle :
    (session : Scrollback) (actions : List WidgetAction)
    → (widget_run actions (initialize session created)).disposed ≡ false
    → is_at_rest (widget_run actions (initialize session created)).drain ≡ true
    → let w = widget_run actions (initialize session created) in
      (is_empty w.scripts ≡ true) × (w.is_ready && w.active && not (is_empty w.output) ≡ false)
widget_run-idle session actions live rest =
    let quiet = (widget_run-IsAwake session actions).awake live rest in (ground arith, ground arith)
