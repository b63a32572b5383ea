-- ===== src/Widget/Held.antt =====
-- The queue of XtermWebTerminalState of xterm_web_terminal.dart over any run: it is counted, and the
-- session is held back only while something is queued.
use termethis.Base.{
  ℕ, ◌≡◌, refl, Bool, true, false, List, [], ◌∷◌, ◌&&◌, ◌||◌, not, if◌then◌else◌, if_elim, Option,
  some, none, sym, ap, ◌∙◌, leb,
}
use termethis.Prompt.{is_empty}
use termethis.Scrollback.{Scrollback, Chunk, replay, replay_after}
use termethis.Session.Run.{saves_snapshot, SessionAction}
use termethis.Widget.{
  Widget, Script, created, set_output_backpressure, break_write, total_bytes, clear_output,
  Suspension, not_suspending, draining, snapshotting, deactivating, call_session,
}
use termethis.Widget.Drains.{is_at_rest, enqueue_script}
use termethis.Widget.Paced.{
  IsPaced, release-IsPaced, report_fatal-IsPaced, schedule_drain-IsPaced, enqueue_script-IsPaced,
  drain_operations-IsPaced, queue_output-IsPaced,
}
use termethis.Widget.Actions.{synchronize, initialize, handle_terminal_data}
use termethis.Widget.Suspensions.{
  suspend, resume, resume_after_suspension, suspend_drained, suspend_answered, dispose,
  is_not_suspending, behind_snapshot, suspended,
}
use termethis.Widget.Runs.{
  WidgetAction, outputs, suspends, resumes, drains_for_suspension, answers, disposes, widget_step,
  widget_run,
}
use termethis.Widget.Steady.{core, steady-keeps}

-- Other fields may change.
other_fields :
    (w v : Widget)
    → IsPaced w
    → v.output ≡ w.output
    → v.output_bytes ≡ w.output_bytes
    → v.backpressured ≡ w.backpressured
    → IsPaced v
other_fields w v h e b p = record {
  counted = b ∙ h.counted ∙ ap total_bytes (sym e);
  held = λ k. ap is_empty e ∙ h.held (sym p ∙ k);
}

synchronize-IsPaced :
    (session : Scrollback) (reset : Bool) (w : Widget)
    → IsPaced w
    → IsPaced (synchronize session reset w)
unfolding synchronize
synchronize-IsPaced session reset w h =
    let r = if reset then replay session else replay_after w.last_sent session in
    queue_output-IsPaced (replay session) r.bytes r.through_sequence (reset || r.reset_required) w h

handle_terminal_data-IsPaced :
    (session : Scrollback) (event : Chunk) (w : Widget)
    → IsPaced w
    → IsPaced (handle_terminal_data session event w)
unfolding handle_terminal_data
handle_terminal_data-IsPaced session event w h =
    if_elim IsPaced (w.disposed || not w.active || leb event.sequence w.last_queued) (λ _. h)
      (λ _. queue_output-IsPaced (replay session) event.bytes event.sequence false w h)

core-IsPaced : (w v : Widget) → core v ≡ core w → IsPaced w → IsPaced v
core-IsPaced w v e h = other_fields w v h (ap (λ c. c.0) e) (ap (λ c. c.1) e) (ap (λ c. c.2) e)

call_session-IsPaced : (a : SessionAction) (w : Widget) → IsPaced w → IsPaced (call_session a w)
call_session-IsPaced a w h = other_fields w _ h refl refl refl

resume_after_suspension-IsPaced :
    (session : Scrollback) (w : Widget) → IsPaced w → IsPaced (resume_after_suspension session w)
unfolding resume_after_suspension
resume_after_suspension-IsPaced session w h =
    let u = record w { active = true } in
    let v = if w.is_ready then enqueue_script (Script.set_active true) u else u in
    let hu = other_fields w u h refl refl refl in
    let hv : IsPaced v =
      if_elim IsPaced w.is_ready (λ _. enqueue_script-IsPaced (Script.set_active true) u hu)
        (λ _. hu) in
    let t = synchronize session v.reset_on_resume v in
    if_elim IsPaced (w.disposed || not w.resume_requested) (λ _. h)
      (λ _.
        if_elim IsPaced w.active (λ _. other_fields w _ h refl refl refl)
          (λ _.
            schedule_drain-IsPaced _ (
              other_fields t _ (synchronize-IsPaced session v.reset_on_resume v hv) refl refl
                refl)))

suspend-IsPaced : (w : Widget) → IsPaced w → IsPaced (suspend w)
unfolding suspend
suspend-IsPaced w h =
    if_elim IsPaced (w.disposed || not w.active || not (is_not_suspending w.suspension))
      (λ _. other_fields w _ h refl refl refl)
      (λ _. schedule_drain-IsPaced _ (other_fields w _ h refl refl refl))

resume-IsPaced : (session : Scrollback) (w : Widget) → IsPaced w → IsPaced (resume session w)
unfolding resume
resume-IsPaced session w h =
    let v = record w { resume_requested = true } in
    let k = other_fields w v h refl refl refl in
    if_elim IsPaced w.disposed (λ _. h)
      (λ _.
        if_elim IsPaced (is_not_suspending w.suspension)
          (λ _. resume_after_suspension-IsPaced session v k) (λ _. k))

suspended-IsPaced :
    (session : Scrollback) (w : Widget)
    → IsPaced w
    → IsPaced (suspended session (record w { active = false }))
suspended-IsPaced session w h =
    resume_after_suspension-IsPaced session _ (other_fields w _ h refl refl refl)

suspend_drained-IsPaced :
    (lines : ℕ) (session : Scrollback) (p : Suspension) (w : Widget)
    → IsPaced w
    → IsPaced (suspend_drained lines session p w)
unfolding suspend_drained
suspend_drained-IsPaced lines session draining w h =
    if_elim IsPaced (is_at_rest w.drain)
      (λ _.
        if_elim IsPaced (w.is_ready && not w.fatal_reported)
          (λ _. enqueue_script-IsPaced _ _ (other_fields w _ h refl refl refl))
          (λ _. suspended-IsPaced session w h))
      (λ _. h)
suspend_drained-IsPaced lines session deactivating w h =
    if_elim IsPaced (is_at_rest w.drain) (λ _. suspended-IsPaced session w h) (λ _. h)
suspend_drained-IsPaced lines session not_suspending w h = h
suspend_drained-IsPaced lines session snapshotting w h = h

behind_snapshot-IsPaced :
    (session : Scrollback) (w : Widget) → IsPaced w → IsPaced (behind_snapshot session w)
behind_snapshot-IsPaced session w h =
    if_elim IsPaced w.resume_requested
      (λ _.
        other_fields (synchronize session false w) _ (synchronize-IsPaced session false w h) refl
          refl refl)
      (λ _. enqueue_script-IsPaced (Script.set_active false) _ (other_fields w _ h refl refl refl))

suspend_answered-IsPaced :
    (result : Option (List ℕ × ℕ)) (session : Scrollback) (p : Suspension) (w : Widget)
    → IsPaced w
    → IsPaced (suspend_answered result session p w)
unfolding suspend_answered
suspend_answered-IsPaced (some (encoded, n)) session snapshotting w h =
    behind_snapshot-IsPaced session _ (call_session-IsPaced (saves_snapshot encoded n) w h)
suspend_answered-IsPaced none session snapshotting w h = behind_snapshot-IsPaced session w h
suspend_answered-IsPaced (some r) session not_suspending w h = h
suspend_answered-IsPaced (some r) session draining w h = h
suspend_answered-IsPaced (some r) session deactivating w h = h
suspend_answered-IsPaced none session not_suspending w h = h
suspend_answered-IsPaced none session draining w h = h
suspend_answered-IsPaced none session deactivating w h = h

dispose-IsPaced : (w : Widget) → IsPaced (dispose w)
unfolding dispose
dispose-IsPaced w =
    let v =
      clear_output
        (record w { disposed = true; has_listener = false; drain = break_write w.drain }) in
    other_fields (set_output_backpressure false v) _
      (release-IsPaced v (unfold total_bytes in refl)) refl refl refl

pub step-IsPaced : (a : WidgetAction) (w : Widget) → IsPaced w → IsPaced (widget_step a w)
unfolding widget_step
step-IsPaced (outputs session event) w h =
    if_elim IsPaced w.has_listener (λ _. handle_terminal_data-IsPaced session event w h) (λ _. h)
step-IsPaced suspends w h = suspend-IsPaced w h
step-IsPaced (resumes session) w h = resume-IsPaced session w h
step-IsPaced (drains_for_suspension lines session) w h =
    suspend_drained-IsPaced lines session w.suspension w h
step-IsPaced (answers result session) w h = suspend_answered-IsPaced result session w.suspension w h
step-IsPaced disposes w h = dispose-IsPaced w
step-IsPaced a w h =
    steady-keeps IsPaced core-IsPaced drain_operations-IsPaced report_fatal-IsPaced a w refl h

pub run-IsPaced :
    (actions : List WidgetAction) (w : Widget) → IsPaced w → IsPaced (widget_run actions w)
unfolding widget_run
run-IsPaced [] w h = h
run-IsPaced (a ∷ rest) w h = run-IsPaced rest (widget_step a w) (step-IsPaced a w h)

pub widget_run-IsPaced :
    (session : Scrollback) (actions : List WidgetAction)
    → IsPaced (widget_run actions (initialize session created))
widget_run-IsPaced session actions =
    let start : IsPaced created = record {
      counted = unfold total_bytes in refl;
      held = λ k. absurd (cc);
    } in
    let first = synchronize-IsPaced session true created start in
    run-IsPaced actions (initialize session created) (other_fields _ _ first refl refl refl)

-- Over any run of the widget, whatever fails, is suspended or is disposed in it: the count of the
-- queued bytes is that of the chunks in the queue, and while the widget holds the output of the
-- session back, the queue is not empty.
pub widget_run-held :
    (session : Scrollback) (actions : List WidgetAction)
    → let w = widget_run actions (initialize session created) in
      (w.output_bytes ≡ total_bytes w.output) × (w.backpressured && is_empty w.output ≡ false)
widget_run-held session actions =
    let h = widget_run-IsPaced session actions in (h.counted, held_test _ _ h.held)
  where
    held_test : (p e : Bool) → (p ≡ true → e ≡ false) → p && e ≡ false
    held_test true e h = h refl
    held_test false e h = refl
