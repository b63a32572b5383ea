-- ===== src/Widget/Awake.antt =====
-- The wakes of XtermWebTerminalState of xterm_web_terminal.dart: while its drain rests, there is
-- nothing that it could send.
use termethis.Base.{
  ℕ, ◌≡◌, refl, sym, ◌∙◌, Bool, true, false, List, [], ◌∷◌, ◌++◌, ◌==◌, ◌&&◌, ◌||◌, not, ltb, leb,
  if◌then◌else◌, if_elim, Option, some, none, arith, Text,
}
use termethis.Prompt.{is_empty}
use termethis.Page.{
  Message, fatal, unicode_fallback, renderer, renderer_error, input, direct_input, resize, title,
  write_ack, snapshot, snapshot_error, ready,
}
use termethis.Scrollback.{Replay}
use termethis.Widget.{
  Widget, QueuedChunk, Script, Drain, at_rest, in_script, in_write, ended, waiting, acknowledged,
  broken, set_output_backpressure, break_write, report_fatal, append_output_chunks, clear_output,
  pause_output_at_bytes, maximum_pending_bytes,
}
use termethis.Widget.Drains.{
  is_at_rest, enqueue_script, schedule_drain, drain_operations, drain_from, drain_output,
  send_chunk, queue_output,
}
use termethis.Widget.Actions.{
  TerminalKey, key_name, enqueue_key, acknowledge, send_key, handle_message, script_returned,
  acknowledgement_ended, acknowledgement_timeout, drain_completed,
}

-- A script, or output for a page that is ready and shown.
abbrev pub has_work : Widget → Bool
has_work w = not (is_empty w.scripts) || w.is_ready && w.active && not (is_empty w.output)

pub record IsAwake (w : Widget) : Type 0 where
  pub awake : w.disposed ≡ false → is_at_rest w.drain ≡ true → has_work w ≡ false

busy-IsAwake : (w : Widget) → is_at_rest w.drain ≡ false → IsAwake w
busy-IsAwake w busy = record { awake = λ live rest. absurd (cc) }

drain_output_rest :
    (cs : List QueuedChunk) (w : Widget) → is_at_rest (drain_output cs w).drain ≡ false
unfolding drain_output send_chunk
drain_output_rest [] w = refl
drain_output_rest (c ∷ cs) w = refl

drain_from_rest : (ss : List Script) (w : Widget) → is_at_rest (drain_from ss w).drain ≡ false
unfolding drain_from
drain_from_rest (s ∷ ss) w = refl
drain_from_rest [] w =
    if_elim (λ (v : Widget). is_at_rest v.drain ≡ false) (w.is_ready && w.active)
      (λ _. drain_output_rest w.output w) (λ _. refl)

-- The drain does not rest behind a call of _drainOperations.
drain_operations_rest : (w : Widget) → is_at_rest (drain_operations w).drain ≡ false
unfolding drain_operations
drain_operations_rest w =
    if_elim (λ (v : Widget). is_at_rest v.drain ≡ false) w.disposed (λ _. refl)
      (λ _. drain_from_rest w.scripts w)

drain_operations-IsAwake : (w : Widget) → IsAwake (drain_operations w)
drain_operations-IsAwake w = busy-IsAwake (drain_operations w) (drain_operations_rest w)

pub gone-IsAwake : (w : Widget) → w.disposed ≡ true → IsAwake w
gone-IsAwake w h = record { awake = λ live rest. absurd (cc) }

pub schedule_drain-IsAwake : (w : Widget) → IsAwake (schedule_drain w)
unfolding schedule_drain
schedule_drain-IsAwake w =
    if_elim IsAwake (w.disposed || not (is_at_rest w.drain))
      (λ busy. record { awake = λ live rest. ground arith }) (λ _. drain_operations-IsAwake w)

pub enqueue_script-IsAwake : (s : Script) (w : Widget) → IsAwake (enqueue_script s w)
unfolding enqueue_script
enqueue_script-IsAwake s w =
    if_elim IsAwake w.disposed (λ gone. gone-IsAwake w gone)
      (λ _. schedule_drain-IsAwake (record w { scripts = w.scripts ++ s ∷ [] }))

pub queue_output-IsAwake :
    (r : Replay) (bytes : List ℕ) (n : ℕ) (reset : Bool) (w : Widget)
    → IsAwake (queue_output r bytes n reset w)
unfolding queue_output
queue_output-IsAwake r bytes n reset w =
    let v = record w { last_queued = n } in
    let t = append_output_chunks bytes n reset (if reset then clear_output v else v) in
    let u =
      if leb pause_output_at_bytes t.output_bytes then set_output_backpressure true t else t in
    schedule_drain-IsAwake (
      if ltb maximum_pending_bytes u.output_bytes
      then record (append_output_chunks r.bytes r.through_sequence true (clear_output u)) {
        last_queued = r.through_sequence;
      }
      else u)

break_write_rest : (d : Drain) → is_at_rest (break_write d) ≡ is_at_rest d
break_write_rest at_rest = refl
break_write_rest in_script = refl
break_write_rest (in_write id n r waiting) = refl
break_write_rest (in_write id n r acknowledged) = refl
break_write_rest (in_write id n r broken) = refl
break_write_rest ended = refl

acknowledge_rest : (id : ℕ) (d : Drain) → is_at_rest (acknowledge id d) ≡ is_at_rest d
acknowledge_rest id at_rest = refl
acknowledge_rest id in_script = refl
acknowledge_rest id (in_write i n r waiting) =
    if_elim (λ (d : Drain). is_at_rest d ≡ false) (id == i) (λ _. refl) (λ _. refl)
acknowledge_rest id (in_write i n r acknowledged) = refl
acknowledge_rest id (in_write i n r broken) = refl
acknowledge_rest id ended = refl

pub report_fatal-IsAwake : (w : Widget) → IsAwake w → IsAwake (report_fatal w)
unfolding report_fatal set_output_backpressure
report_fatal-IsAwake w h =
    if_elim IsAwake (w.disposed || w.fatal_reported) (λ _. h)
      (λ _.
        let e = break_write_rest w.drain in
        let t = record w { fatal_reported = true; drain = break_write w.drain } in
        if_elim IsAwake (false && t.backpressured || not false && not t.backpressured)
          (λ _. record { awake = λ live rest. h.awake live (sym e ∙ rest) })
          (λ _. record { awake = λ live rest. h.awake live (sym e ∙ rest) }))

pub handle_message-IsAwake : (m : Message) (w : Widget) → IsAwake w → IsAwake (handle_message m w)
unfolding handle_message
handle_message-IsAwake (ready kind columns rows) w h =
    if_elim IsAwake w.disposed (λ _. h) (λ _. schedule_drain-IsAwake _)
handle_message-IsAwake (input text) w h =
    if_elim IsAwake (not w.disposed && w.active) (λ _. record { awake = h.awake }) (λ _. h)
handle_message-IsAwake (direct_input text) w h =
    if_elim IsAwake (not w.disposed && w.active) (λ _. record { awake = h.awake }) (λ _. h)
handle_message-IsAwake (resize columns rows) w h =
    if_elim IsAwake (not w.disposed && ltb 0 columns && ltb 0 rows)
      (λ _. record { awake = h.awake }) (λ _. h)
handle_message-IsAwake (write_ack id) w h =
    if_elim IsAwake w.disposed (λ _. h)
      (λ _. record { awake = λ live rest. h.awake live (sym (acknowledge_rest id w.drain) ∙ rest) })
handle_message-IsAwake (fatal text) w h = report_fatal-IsAwake w h
handle_message-IsAwake (unicode_fallback text) w h = h
handle_message-IsAwake (renderer kind) w h = h
handle_message-IsAwake (renderer_error text) w h = h
handle_message-IsAwake (title text) w h = h
handle_message-IsAwake (snapshot id n text) w h = h
handle_message-IsAwake (snapshot_error id text) w h = h

failed-IsAwake : (w : Widget) → IsAwake (report_fatal (record w { drain = ended }))
failed-IsAwake w = report_fatal-IsAwake (record w { drain = ended }) (busy-IsAwake _ refl)

pub script_returned-IsAwake :
    (ok : Bool) (d : Drain) (w : Widget) → IsAwake w → IsAwake (script_returned ok d w)
unfolding script_returned
script_returned-IsAwake true in_script w h = drain_operations-IsAwake w
script_returned-IsAwake false in_script w h = failed-IsAwake w
script_returned-IsAwake true (in_write id n false a) w h = busy-IsAwake _ refl
script_returned-IsAwake false (in_write id n false a) w h = failed-IsAwake w
script_returned-IsAwake true (in_write id n true a) w h = h
script_returned-IsAwake false (in_write id n true a) w h = h
script_returned-IsAwake true at_rest w h = h
script_returned-IsAwake false at_rest w h = h
script_returned-IsAwake true ended w h = h
script_returned-IsAwake false ended w h = h

pub acknowledgement_ended-IsAwake :
    (d : Drain) (w : Widget) → IsAwake w → IsAwake (acknowledgement_ended d w)
unfolding acknowledgement_ended
acknowledgement_ended-IsAwake (in_write id n true acknowledged) w h = drain_operations-IsAwake _
acknowledgement_ended-IsAwake (in_write id n true broken) w h = failed-IsAwake w
acknowledgement_ended-IsAwake (in_write id n true waiting) w h = h
acknowledgement_ended-IsAwake (in_write id n false a) w h = h
acknowledgement_ended-IsAwake in_script w h = h
acknowledgement_ended-IsAwake at_rest w h = h
acknowledgement_ended-IsAwake ended w h = h

pub acknowledgement_timeout-IsAwake :
    (d : Drain) (w : Widget) → IsAwake w → IsAwake (acknowledgement_timeout d w)
unfolding acknowledgement_timeout
acknowledgement_timeout-IsAwake (in_write id n true waiting) w h = failed-IsAwake w
acknowledgement_timeout-IsAwake (in_write id n true acknowledged) w h = h
acknowledgement_timeout-IsAwake (in_write id n true broken) w h = h
acknowledgement_timeout-IsAwake (in_write id n false a) w h = h
acknowledgement_timeout-IsAwake in_script w h = h
acknowledgement_timeout-IsAwake at_rest w h = h
acknowledgement_timeout-IsAwake ended w h = h

pub drain_completed-IsAwake : (d : Drain) (w : Widget) → IsAwake w → IsAwake (drain_completed d w)
unfolding drain_completed
drain_completed-IsAwake ended w h =
    if_elim IsAwake
      (not w.disposed
        && (not (is_empty w.scripts) || w.is_ready && w.active && not (is_empty w.output)))
      (λ _. schedule_drain-IsAwake _) (λ idle. record { awake = λ live rest. ground arith })
drain_completed-IsAwake at_rest w h = h
drain_completed-IsAwake in_script w h = h
drain_completed-IsAwake (in_write id n r a) w h = h

pub send_key-IsAwake :
    (key : TerminalKey) (control alt : Bool) (w : Widget)
    → IsAwake w
    → IsAwake (send_key key control alt w).0
unfolding send_key
send_key-IsAwake key control alt w h =
    if_elim (λ (r : Widget × Bool). IsAwake r.0) (not w.is_ready || not w.active || w.disposed)
      (λ _. h) (λ _. enqueue_key-IsAwake (key_name key) control alt w h)
  where
    enqueue_key-IsAwake :
        (name : Option Text) (control alt : Bool) (w : Widget)
        → IsAwake w
        → IsAwake (enqueue_key name control alt w).0
    enqueue_key-IsAwake none control alt w h = h
    enqueue_key-IsAwake (some name) control alt w h =
        enqueue_script-IsAwake (Script.send_key name control alt) w
