-- ===== src/Widget/Suspensions.antt =====
-- suspend, resume and dispose of XtermWebTerminalState of
-- lib/features/terminal/presentation/widgets/xterm_web_terminal.dart.
use termethis.Base.{
  ℕ, suc, Bool, true, false, Option, none, some, List, [], ◌∷◌, ◌++◌, ◌&&◌, ◌||◌, not,
  if◌then◌else◌,
}
use termethis.Scrollback.{Scrollback}
use termethis.Session.Run.{saves_snapshot}
use termethis.Widget.{
  Widget, Script, Suspension, not_suspending, draining, snapshotting, deactivating, Script, ran,
  call_session, break_write, clear_output, set_output_backpressure,
}
use termethis.Widget.Drains.{is_at_rest, schedule_drain, enqueue_script}
use termethis.Widget.Actions.{synchronize}

-- suspend, up to the first wait of _performSuspend.
abbrev pub is_not_suspending : Suspension → Bool
is_not_suspending not_suspending = true
is_not_suspending _ = false

unfoldable pub suspend : Widget → Widget
suspend w =
    let v = record w { resume_requested = false } in
    if w.disposed || not w.active || not (is_not_suspending w.suspension)
    then v
    else schedule_drain (record v { suspension = draining; has_listener = false })

-- _resumeAfterSuspension
unfoldable pub resume_after_suspension : Scrollback → Widget → Widget
resume_after_suspension session w =
    let u = record w { active = true } in
    let v = if w.is_ready then enqueue_script (Script.set_active true) u else u in
    let t = synchronize session v.reset_on_resume v in
    if w.disposed || not w.resume_requested
    then w
    else if w.active
    then record w { has_listener = true }
    else schedule_drain (record t { reset_on_resume = false; has_listener = true })

-- resume
unfoldable pub resume : Scrollback → Widget → Widget
resume session w =
    let v = record w { resume_requested = true } in
    if w.disposed
    then w
    else if is_not_suspending w.suspension
    then resume_after_suspension session v
    else v

-- The end of _performSuspend, with what `resume` has put behind it.
abbrev pub suspended : Scrollback → Widget → Widget
suspended session w = resume_after_suspension session (record w { suspension = not_suspending })

abbrev pub request_or_end : ℕ → Scrollback → Widget → Widget
request_or_end lines session w =
    if w.is_ready && not w.fatal_reported
    then enqueue_script (Script.request_snapshot (suc w.snapshot_id) w.last_sent lines)
        (record w { snapshot_id = suc w.snapshot_id; suspension = snapshotting })
    else suspended session (record w { active = false })

-- _performSuspend behind a wait for the drain; `lines` is the length of the scrollback to keep.
unfoldable pub suspend_drained : ℕ → Scrollback → Suspension → Widget → Widget
suspend_drained lines session draining w =
    if is_at_rest w.drain then request_or_end lines session w else w
suspend_drained lines session deactivating w =
    if is_at_rest w.drain then suspended session (record w { active = false }) else w
suspend_drained lines session p w = w

abbrev pub behind_snapshot : Scrollback → Widget → Widget
behind_snapshot session w =
    if w.resume_requested
    then record (synchronize session false w) { suspension = not_suspending; has_listener = true }
    else enqueue_script (Script.set_active false) (record w { suspension = deactivating })

-- _performSuspend behind its snapshot, which `result` holds if there is one.
unfoldable pub suspend_answered : Option (List ℕ × ℕ) → Scrollback → Suspension → Widget → Widget
suspend_answered (some (encoded, n)) session snapshotting w =
    behind_snapshot session (call_session (saves_snapshot encoded n) w)
suspend_answered none session snapshotting w = behind_snapshot session w
suspend_answered result session p w = w

-- dispose
unfoldable pub dispose : Widget → Widget
dispose w =
    let t = set_output_backpressure false (
      clear_output
        (record w { disposed = true; has_listener = false; drain = break_write w.drain })) in
    record t { scripts = []; sent = t.sent ++ ran Script.dispose_page ∷ [] }
