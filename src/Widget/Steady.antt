-- ===== src/Widget/Steady.antt =====
-- The steps of XtermWebTerminalState of xterm_web_terminal.dart that neither queue output nor
-- suspend, resume or dispose it.
use termethis.Base.{
  ◌≡◌, refl, Bool, true, false, ◌&&◌, ◌||◌, not, ltb, Text, List, ℕ, ◌++◌, ◌∷◌, [], if_elim, Option,
  some, none,
}
use termethis.Prompt.{is_empty}
use termethis.Page.{
  Message, fatal, unicode_fallback, renderer, renderer_error, input, direct_input, resize, title,
  write_ack, snapshot, snapshot_error, ready,
}
use termethis.Session.Run.{SessionAction, sends_input, sends_input_direct, resizes}
use termethis.Widget.{
  Widget, QueuedChunk, Sent, Script, Drain, at_rest, in_script, in_write, ended, waiting,
  acknowledged, broken, call_session, report_fatal,
}
use termethis.Widget.Drains.{drain_operations, schedule_drain, enqueue_script, is_at_rest}
use termethis.Widget.Actions.{
  TerminalKey, key_name, send_key, configure, handle_message, focus, paste, script_returned,
  acknowledgement_ended, acknowledgement_timeout, drain_completed, enqueue_key, receive_ready,
}
use termethis.Widget.Runs.{
  WidgetAction, posts, outputs, returns, ends_wait, times_out, completes_drain, sends_key, focuses,
  pastes, updates_settings, ready_timeout, fails_resource, suspends, resumes, drains_for_suspension,
  answers, disposes, widget_step,
}

-- The steps that this file is about.
abbrev pub is_steady : WidgetAction → Bool
is_steady (outputs session event) = false
is_steady suspends = false
is_steady (resumes session) = false
is_steady (drains_for_suspension lines session) = false
is_steady (answers result session) = false
is_steady disposes = false
is_steady _ = true

-- The fields that hold the output and its way.
abbrev pub core : Widget → List QueuedChunk × ℕ × Bool × List Sent × ℕ × Bool × Bool × Bool
core w = (
  w.output, w.output_bytes, w.backpressured, w.sent, w.last_queued, w.has_listener, w.active,
  w.disposed,
)

-- A property of these fields, which a drain and a failure keep.
module _ (P : Widget → Type 0) (other : (w v : Widget) → core v ≡ core w → P w → P v)
    (drains : (w : Widget) → P w → P (drain_operations w))
    (fails : (w : Widget) → P w → P (report_fatal w)) where
  schedule_drain-keeps : (w : Widget) → P w → P (schedule_drain w)
  unfolding schedule_drain
  schedule_drain-keeps w h =
      if_elim P (w.disposed || not (is_at_rest w.drain)) (λ _. h) (λ _. drains w h)

  pub enqueue_script-keeps : (s : Script) (w : Widget) → P w → P (enqueue_script s w)
  unfolding enqueue_script
  enqueue_script-keeps s w h =
      if_elim P w.disposed (λ _. h)
        (λ _. schedule_drain-keeps (record w { scripts = w.scripts ++ s ∷ [] }) (other w _ refl h))

  call_session-keeps : (a : SessionAction) (w : Widget) → P w → P (call_session a w)
  call_session-keeps a w h = other w _ refl h

  receive_ready-keeps : (w : Widget) → P w → P (receive_ready w)
  receive_ready-keeps w h =
      let v = record w { is_ready = true } in
      let u = configure v in
      schedule_drain-keeps _ (
        enqueue_script-keeps (Script.set_active u.active) u
          (enqueue_script-keeps Script.set_options v (other w v refl h)))

  handle_message-keeps : (m : Message) (w : Widget) → P w → P (handle_message m w)
  unfolding handle_message
  handle_message-keeps (ready kind columns rows) w h =
      if_elim P w.disposed (λ _. h) (λ _. receive_ready-keeps w h)
  handle_message-keeps (input text) w h =
      if_elim P (not w.disposed && w.active) (λ _. call_session-keeps (sends_input text) w h)
        (λ _. h)
  handle_message-keeps (direct_input text) w h =
      if_elim P (not w.disposed && w.active) (λ _. call_session-keeps (sends_input_direct text) w h)
        (λ _. h)
  handle_message-keeps (resize columns rows) w h =
      if_elim P (not w.disposed && ltb 0 columns && ltb 0 rows)
        (λ _. call_session-keeps (resizes columns rows) w h) (λ _. h)
  handle_message-keeps (write_ack id) w h = if_elim P w.disposed (λ _. h) (λ _. other w _ refl h)
  handle_message-keeps (fatal text) w h = fails w h
  handle_message-keeps (unicode_fallback text) w h = h
  handle_message-keeps (renderer kind) w h = h
  handle_message-keeps (renderer_error text) w h = h
  handle_message-keeps (title text) w h = h
  handle_message-keeps (snapshot id n text) w h = h
  handle_message-keeps (snapshot_error id text) w h = h

  -- The end of the drain by an error.
  failed-keeps : (w : Widget) → P w → P (report_fatal (record w { drain = ended }))
  failed-keeps w h = fails (record w { drain = ended }) (other w _ refl h)

  script_returned-keeps : (ok : Bool) (d : Drain) (w : Widget) → P w → P (script_returned ok d w)
  unfolding script_returned
  script_returned-keeps true in_script w h = drains w h
  script_returned-keeps false in_script w h = failed-keeps w h
  script_returned-keeps true (in_write id n false a) w h = other w _ refl h
  script_returned-keeps false (in_write id n false a) w h = failed-keeps w h
  script_returned-keeps true (in_write id n true a) w h = h
  script_returned-keeps false (in_write id n true a) w h = h
  script_returned-keeps true at_rest w h = h
  script_returned-keeps false at_rest w h = h
  script_returned-keeps true ended w h = h
  script_returned-keeps false ended w h = h

  acknowledgement_ended-keeps : (d : Drain) (w : Widget) → P w → P (acknowledgement_ended d w)
  unfolding acknowledgement_ended
  acknowledgement_ended-keeps (in_write id n true acknowledged) w h = drains _ (other w _ refl h)
  acknowledgement_ended-keeps (in_write id n true broken) w h = failed-keeps w h
  acknowledgement_ended-keeps (in_write id n true waiting) w h = h
  acknowledgement_ended-keeps (in_write id n false a) w h = h
  acknowledgement_ended-keeps in_script w h = h
  acknowledgement_ended-keeps at_rest w h = h
  acknowledgement_ended-keeps ended w h = h

  acknowledgement_timeout-keeps : (d : Drain) (w : Widget) → P w → P (acknowledgement_timeout d w)
  unfolding acknowledgement_timeout
  acknowledgement_timeout-keeps (in_write id n true waiting) w h = failed-keeps w h
  acknowledgement_timeout-keeps (in_write id n true acknowledged) w h = h
  acknowledgement_timeout-keeps (in_write id n true broken) w h = h
  acknowledgement_timeout-keeps (in_write id n false a) w h = h
  acknowledgement_timeout-keeps in_script w h = h
  acknowledgement_timeout-keeps at_rest w h = h
  acknowledgement_timeout-keeps ended w h = h

  drain_completed-keeps : (d : Drain) (w : Widget) → P w → P (drain_completed d w)
  unfolding drain_completed
  drain_completed-keeps ended w h =
      let v = record w { drain = at_rest } in
      let k = other w v refl h in
      if_elim P
        (not w.disposed
          && (not (is_empty w.scripts) || w.is_ready && w.active && not (is_empty w.output)))
        (λ _. schedule_drain-keeps v k) (λ _. k)
  drain_completed-keeps at_rest w h = h
  drain_completed-keeps in_script w h = h
  drain_completed-keeps (in_write id n r a) w h = h

  send_key-keeps :
      (key : TerminalKey) (control alt : Bool) (w : Widget) → P w → P (send_key key control alt w).0
  unfolding send_key
  send_key-keeps key control alt w h =
      if_elim (λ (r : Widget × Bool). P r.0) (not w.is_ready || not w.active || w.disposed) (λ _. h)
        (λ _. enqueue_key-keeps (key_name key) control alt w h)
    where
      enqueue_key-keeps :
          (name : Option Text) (control alt : Bool) (w : Widget)
          → P w
          → P (enqueue_key name control alt w).0
      enqueue_key-keeps none control alt w h = h
      enqueue_key-keeps (some name) control alt w h =
          enqueue_script-keeps (Script.send_key name control alt) w h

  pub steady-keeps :
      (a : WidgetAction) (w : Widget) → is_steady a ≡ true → P w → P (widget_step a w)
  unfolding widget_step focus paste
  steady-keeps (posts m) w steady h = handle_message-keeps m w h
  steady-keeps (outputs session event) w steady h = cc
  steady-keeps (returns ok) w steady h = script_returned-keeps ok w.drain w h
  steady-keeps ends_wait w steady h = acknowledgement_ended-keeps w.drain w h
  steady-keeps times_out w steady h = acknowledgement_timeout-keeps w.drain w h
  steady-keeps completes_drain w steady h = drain_completed-keeps w.drain w h
  steady-keeps (sends_key key control alt) w steady h = send_key-keeps key control alt w h
  steady-keeps focuses w steady h =
      if_elim P (w.is_ready && w.active) (λ _. enqueue_script-keeps Script.focus w h) (λ _. h)
  steady-keeps (pastes text) w steady h =
      if_elim P (not w.is_ready || not w.active || is_empty text) (λ _. h)
        (λ _. enqueue_script-keeps (Script.paste text) w h)
  steady-keeps updates_settings w steady h =
      if_elim P w.is_ready (λ _. enqueue_script-keeps Script.set_options w h) (λ _. h)
  steady-keeps ready_timeout w steady h = if_elim P w.is_ready (λ _. h) (λ _. fails w h)
  steady-keeps fails_resource w steady h = fails w h
  steady-keeps suspends w steady h = cc
  steady-keeps (resumes session) w steady h = cc
  steady-keeps (drains_for_suspension lines session) w steady h = cc
  steady-keeps (answers result session) w steady h = cc
  steady-keeps disposes w steady h = cc
