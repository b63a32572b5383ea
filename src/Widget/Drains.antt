-- ===== src/Widget/Drains.antt =====
-- The drain of XtermWebTerminalState of
-- lib/features/terminal/presentation/widgets/xterm_web_terminal.dart, from one wait to the next, and
-- what schedules it.
use termethis.Widget.{
  at_rest, in_script, in_write, ended, waiting, wrote, ran, maximum_pending_bytes,
  pause_output_at_bytes, resume_output_at_bytes, QueuedChunk, Script, Drain, Widget,
  set_output_backpressure, append_output_chunks, clear_output,
}
use termethis.Base.{
  ℕ, suc, ◌-◌, Bool, true, false, List, [], ◌∷◌, ◌++◌, ◌&&◌, ◌||◌, not, ltb, leb, if◌then◌else◌,
  length,
}
use termethis.Scrollback.{Replay}

-- _drainOperations from the head of its loop to its next wait: a chunk is taken from the queue.
unfoldable pub send_chunk : QueuedChunk → List QueuedChunk → Widget → Widget
unfolding set_output_backpressure
send_chunk c cs w =
    let left = w.output_bytes - length c.bytes in
    let taken = record w { output = cs; output_bytes = left } in
    let t =
      if leb left resume_output_at_bytes then set_output_backpressure false taken else taken in
    record t {
      write_id = suc t.write_id;
      drain = in_write (suc t.write_id) c.through_sequence false waiting;
      sent = t.sent ++ wrote c.bytes c.reset (suc t.write_id) ∷ [];
    }

unfoldable pub drain_output : List QueuedChunk → Widget → Widget
unfolding send_chunk
drain_output [] w = record w { drain = ended }
drain_output (c ∷ cs) w = send_chunk c cs w

unfoldable pub drain_from : List Script → Widget → Widget
unfolding drain_output
drain_from (s ∷ ss) w = record w { scripts = ss; drain = in_script; sent = w.sent ++ ran s ∷ [] }
drain_from [] w =
    if w.is_ready && w.active then drain_output w.output w else record w { drain = ended }

unfoldable pub drain_operations : Widget → Widget
unfolding drain_from
drain_operations w = if w.disposed then record w { drain = ended } else drain_from w.scripts w

abbrev pub is_at_rest : Drain → Bool
is_at_rest at_rest = true
is_at_rest _ = false

-- _scheduleDrain
unfoldable pub schedule_drain : Widget → Widget
unfolding drain_operations
schedule_drain w = if w.disposed || not (is_at_rest w.drain) then w else drain_operations w

-- _enqueueScript
unfoldable pub enqueue_script : Script → Widget → Widget
unfolding schedule_drain
enqueue_script s w =
    if w.disposed then w else schedule_drain (record w { scripts = w.scripts ++ s ∷ [] })

-- _queueOutput, where `replay` is webTerminalReplay of the session.
unfoldable pub queue_output : Replay → List ℕ → ℕ → Bool → Widget → Widget
unfolding append_output_chunks set_output_backpressure schedule_drain
queue_output replay bytes through_sequence reset w =
    let v = record w { last_queued = through_sequence } in
    let t =
      append_output_chunks bytes through_sequence reset (if reset then clear_output v else v) in
    let u =
      if leb pause_output_at_bytes t.output_bytes then set_output_backpressure true t else t in
    schedule_drain (
      if ltb maximum_pending_bytes u.output_bytes
      then record (append_output_chunks replay.bytes replay.through_sequence true
          (clear_output u)) { last_queued = replay.through_sequence }
      else u)
