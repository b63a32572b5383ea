-- ===== src/Widget/Gone.antt =====
-- XtermWebTerminalState of xterm_web_terminal.dart, disposed while _performSuspend waits for its
-- snapshot.
use mathlib.Core.Path.{subst}
use termethis.Base.{
  ℕ, ◌+◌, ◌≤◌, ◌≡◌, refl, sym, ap, ◌∙◌, Bool, true, false, none, List, [], ◌∷◌, ◌||◌, not, leb, ltb,
  if◌then◌else◌, if_elim, length, length-append, arith,
}
use termethis.Prompt.{is_empty}
use termethis.Scrollback.{Scrollback, Replay, replay, replay_after}
use termethis.Widget.{
  Widget, QueuedChunk, Suspension, snapshotting, chunks_for, total_bytes, append_output_chunks,
  clear_output, set_output_backpressure, pause_output_at_bytes, maximum_pending_bytes,
}
use termethis.Widget.Drains.{queue_output, schedule_drain, is_at_rest}
use termethis.Widget.Actions.{synchronize}
use termethis.Widget.Suspensions.{dispose, behind_snapshot, suspend_answered}
use termethis.Widget.Chunks.{queued_bytes, chunks_for-IsCut}
use termethis.Widget.Paced.{set_output_backpressure_sets}

total_bytes_lem : (cs : List QueuedChunk) → total_bytes cs ≡ length (queued_bytes cs)
unfolding total_bytes
total_bytes_lem [] = refl
total_bytes_lem (c ∷ cs) =
    ap (λ x. length c.bytes + x) (total_bytes_lem cs)
    ∙ sym (length-append c.bytes (queued_bytes cs))

total_bytes-chunks_for :
    (bytes : List ℕ) (n : ℕ) (reset : Bool)
    → is_empty bytes ≡ false
    → total_bytes (chunks_for bytes n reset) ≡ length bytes
total_bytes-chunks_for bytes n reset h =
    total_bytes_lem (chunks_for bytes n reset) ∙ ap length (chunks_for-IsCut bytes n reset h).whole

is_empty_long : (bytes : List ℕ) → pause_output_at_bytes ≤ length bytes → is_empty bytes ≡ false
is_empty_long [] h = absurd (omega arith)
is_empty_long (x ∷ xs) h = refl

-- Disposed, and yet holding the session back.
pub record IsStuck (w : Widget) : Type 0 where
  pub gone : w.disposed ≡ true
  pub held : w.backpressured ≡ true

schedule_drain_gone : (w : Widget) → w.disposed ≡ true → schedule_drain w ≡ w
unfolding schedule_drain
schedule_drain_gone w gone =
    if_elim (λ (v : Widget). v ≡ w) (w.disposed || not (is_at_rest w.drain)) (λ _. refl)
      (λ live. absurd (ground arith))

set_output_backpressure_disposed :
    (p : Bool) (w : Widget) → (set_output_backpressure p w).disposed ≡ w.disposed
unfolding set_output_backpressure
set_output_backpressure_disposed p w = ground arith

append_output_chunks-length :
    (bytes : List ℕ) (n : ℕ) (reset : Bool) (w : Widget)
    → is_empty bytes ≡ false
    → length bytes ≤ (append_output_chunks bytes n reset w).output_bytes
unfolding append_output_chunks
append_output_chunks-length bytes n reset w h =
    omega (arith, total_bytes-chunks_for bytes n reset h)

append_output_chunks_disposed :
    (bytes : List ℕ) (n : ℕ) (reset : Bool) (w : Widget)
    → (append_output_chunks bytes n reset w).disposed ≡ w.disposed
unfolding append_output_chunks
append_output_chunks_disposed bytes n reset w = refl

append_output_chunks-IsStuck :
    (bytes : List ℕ) (n k : ℕ) (reset : Bool) (w : Widget)
    → IsStuck w
    → IsStuck (record (append_output_chunks bytes n reset (clear_output w)) { last_queued = k })
unfolding append_output_chunks
append_output_chunks-IsStuck bytes n k reset w h = record { gone = h.gone; held = h.held }

pause-IsStuck :
    (w : Widget)
    → w.disposed ≡ true
    → pause_output_at_bytes ≤ w.output_bytes
    → IsStuck
        (if leb pause_output_at_bytes w.output_bytes then set_output_backpressure true w else w)
pause-IsStuck w gone much =
    if_elim IsStuck (leb pause_output_at_bytes w.output_bytes)
      (λ _. record {
        gone = set_output_backpressure_disposed true w ∙ gone;
        held = set_output_backpressure_sets true w;
      })
      (λ few. absurd (ground arith))

queue_output-IsStuck :
    (r : Replay) (bytes : List ℕ) (n : ℕ) (reset : Bool) (w : Widget)
    → w.disposed ≡ true
    → pause_output_at_bytes ≤ length bytes
    → IsStuck (queue_output r bytes n reset w)
unfolding queue_output
queue_output-IsStuck r bytes n reset w gone long =
    let v = record w { last_queued = n } in
    let filled = if reset then clear_output v else v in
    let t = append_output_chunks bytes n reset filled in
    let u =
      if leb pause_output_at_bytes t.output_bytes then set_output_backpressure true t else t in
    let z =
      if ltb maximum_pending_bytes u.output_bytes
      then record (append_output_chunks r.bytes r.through_sequence true (clear_output u)) {
        last_queued = r.through_sequence;
      }
      else u in
    let still_gone : filled.disposed ≡ true =
      if_elim (λ (x : Widget). x.disposed ≡ true) reset (λ _. gone) (λ _. gone) in
    let size = append_output_chunks-length bytes n reset filled (is_empty_long bytes long) in
    let stuck : IsStuck u =
      pause-IsStuck t (append_output_chunks_disposed bytes n reset filled ∙ still_gone)
        (omega arith) in
    let stays : IsStuck z =
      if_elim IsStuck (ltb maximum_pending_bytes u.output_bytes)
        (λ _.
          append_output_chunks-IsStuck r.bytes r.through_sequence r.through_sequence true u stuck)
        (λ _. stuck) in
    subst IsStuck (sym (schedule_drain_gone z stays.gone)) stays

disposed_lem :
    (w : Widget)
    → ((dispose w).disposed ≡ true)
      × ((dispose w).resume_requested ≡ w.resume_requested)
      × ((dispose w).suspension ≡ w.suspension)
      × ((dispose w).last_sent ≡ w.last_sent)
unfolding dispose set_output_backpressure
disposed_lem w = ground arith

behind_snapshot-IsStuck :
    (session : Scrollback) (w : Widget)
    → w.disposed ≡ true
    → w.resume_requested ≡ true
    → pause_output_at_bytes ≤ length (replay_after w.last_sent session).bytes
    → IsStuck (behind_snapshot session w) × ((behind_snapshot session w).has_listener ≡ true)
unfolding synchronize
behind_snapshot-IsStuck session w gone asked long =
    let r = replay_after w.last_sent session in
    let stuck =
      queue_output-IsStuck (replay session) r.bytes r.through_sequence (false || r.reset_required) w
        gone long in
    if_elim (λ (v : Widget). IsStuck v × (v.has_listener ≡ true)) w.resume_requested
      (λ _. (record { gone = stuck.gone; held = stuck.held }, refl)) (λ not_asked. absurd (cc))

-- If a widget is disposed while it waits for the snapshot of its suspension, and `resume` has been
-- called meanwhile, and the session then has at least 1 MiB that has not been sent: behind the wait
-- the disposed widget listens to the session again and holds its output back.
pub suspend_answered-dispose :
    (session : Scrollback) (w : Widget)
    → w.suspension ≡ snapshotting
    → w.resume_requested ≡ true
    → pause_output_at_bytes ≤ length (replay_after w.last_sent session).bytes
    → let v = suspend_answered none session (dispose w).suspension (dispose w) in
      (v.disposed ≡ true) × (v.backpressured ≡ true) × (v.has_listener ≡ true)
unfolding suspend_answered
suspend_answered-dispose session w waits asked long =
    let (gone, asks, phase, sent) = disposed_lem w in
    let e : suspend_answered none session (dispose w).suspension (dispose w)
        ≡ behind_snapshot session (dispose w) =
      ap (λ (p : Suspension). suspend_answered none session p (dispose w)) (phase ∙ waits) in
    let (stuck, listens) = behind_snapshot-IsStuck session (dispose w) gone (asks ∙ asked) (
      subst (λ (n : ℕ). pause_output_at_bytes ≤ length (replay_after n session).bytes) (sym sent)
        long) in
    subst (λ (v : Widget). (v.disposed ≡ true) × (v.backpressured ≡ true) × (v.has_listener ≡ true))
      (sym e) (stuck.gone, stuck.held, listens)
