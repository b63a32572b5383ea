-- ===== src/Session/Replays.antt =====
-- Over any run of a session: what is kept stays small, and a replay that asks for no reset is
-- complete.
use termethis.Base.{
  some, ℕ, ◌-◌, ◌⊎◌, ◌≤◌, ◌<◌, ◌≡◌, refl, sym, ◌∙◌, true, false, List, [], ◌∷◌, ◌++◌, ◌&&◌, ◌||◌,
  leb, Text, length, length-append, arith, if_elim, Bool-cases, inl, inr,
}
use mathlib.Core.Path.{subst}
use termethis.Prompt.{is_empty}
use termethis.Scrollback.{
  Scrollback, maximum_buffered_bytes, maximum_delta_bytes, maximum_snapshot_bytes, add_pending,
  misses, replay_after, bytes_after,
}
use termethis.Scrollback.Loops.{total_length}
use termethis.Scrollback.History.{
  IsComplete, empty-IsComplete, emit_pending-IsComplete, save_snapshot-IsComplete,
  bytes-replay_after,
}
use termethis.Scrollback.Bounds.{empty-IsBounded}
use termethis.Session.{
  Session, new, flush, receive, write_timer_fires, reconnect_prompt, remote_closed,
}
use termethis.Session.Connection.{release_finished, remote_done, dispose}
use termethis.Session.Run.{
  SessionAction, receives, write_timer, saves_snapshot, finishes_release, finishes_remote, disposes,
  session_step, session_run,
}
use termethis.Session.Output.{
  plain-Untouched, flush_elim, flush_disposed, remote_done-scrollback, set_status-Untouched,
  IsSmall, step-IsSmall,
}

-- The largest piece that fits behind the bytes that may wait.
abbrev pub maximum_piece : ℕ
maximum_piece = maximum_delta_bytes - maximum_buffered_bytes

-- A piece of output is not larger than that; a snapshot covers what has been dropped.
abbrev pub IsOrderly : SessionAction → Session → Type 0
IsOrderly (receives bytes) s = length bytes ≤ maximum_piece
IsOrderly (saves_snapshot encoded n) s =
    s.scrollback.truncated ≡ true → misses n s.scrollback.delta ≡ false
IsOrderly _ s = Unit

-- A session that is not disposed has its history.
abbrev HasHistory : Session → Type 0
HasHistory s = s.disposed ≡ false → IsComplete s.scrollback

add_pending-IsComplete :
    (bytes : List ℕ) (s : Scrollback) → IsComplete s → IsComplete (add_pending bytes s)
add_pending-IsComplete bytes s h = record {
  earlier = h.earlier;
  whole = h.whole;
  numbered = h.numbered;
  counted = h.counted;
  covered = h.covered;
}

flush-IsComplete :
    (s : Session)
    → length s.scrollback.pending ≤ maximum_delta_bytes
    → IsComplete s.scrollback
    → IsComplete (flush s).scrollback
flush-IsComplete s fits h =
    flush_elim IsComplete s (λ _. h) (λ _. emit_pending-IsComplete s.scrollback fits h)

fits_waiting :
    (s : Session) → IsSmall s.scrollback → length s.scrollback.pending ≤ maximum_delta_bytes
fits_waiting s small = omega (arith, small.0.pending_counted, small.1)

receive-IsComplete :
    (bytes : List ℕ) (s : Session)
    → IsSmall s.scrollback
    → length bytes ≤ maximum_piece
    → IsComplete s.scrollback
    → IsComplete (receive bytes s).scrollback
unfolding receive
receive-IsComplete bytes s small piece h =
    let t = record s { scrollback = add_pending bytes s.scrollback } in
    let k = add_pending-IsComplete bytes s.scrollback h in
    let fits : length (s.scrollback.pending ++ bytes) ≤ maximum_delta_bytes =
      omega (arith, length-append s.scrollback.pending bytes, small.0.pending_counted, small.1) in
    if_elim (λ (u : Session). IsComplete u.scrollback) (is_empty bytes || s.disposed) (λ _. h)
      (λ _.
        if_elim (λ (u : Session). IsComplete u.scrollback)
          (s.viewport_visible && s.awaiting_response)
          (λ _. flush-IsComplete (record t { awaiting_response = false }) fits k)
          (λ _.
            if_elim (λ (u : Session). IsComplete u.scrollback)
              (leb maximum_buffered_bytes t.scrollback.pending_length)
              (λ _. flush-IsComplete t fits k) (λ _. k)))

write_timer_disposed : (s : Session) → (write_timer_fires s).disposed ≡ s.disposed
unfolding write_timer_fires
write_timer_disposed s = ground (arith, flush_disposed s)

receive_disposed : (bytes : List ℕ) (s : Session) → (receive bytes s).disposed ≡ s.disposed
unfolding receive
receive_disposed bytes s =
    let t = record s { scrollback = add_pending bytes s.scrollback } in
    ground (arith, flush_disposed t, flush_disposed (record t { awaiting_response = false }))

remote_done_disposed : (s : Session) → (remote_done s).disposed ≡ s.disposed
unfolding remote_done
remote_done_disposed s =
    let t = record (flush s) { failure = some remote_closed } in
    ground (arith, flush_disposed s, set_status-Untouched reconnect_prompt t)

-- A disposed session is not live.
dispose_disposed : (s : Session) → (dispose s).disposed ≡ true
unfolding dispose
dispose_disposed s = ground arith

module _ (encode : Text → List ℕ) where
  -- A disposed session stays so.
  step_live :
      (a : SessionAction) (s : Session)
      → (session_step encode a s).disposed ≡ false
      → s.disposed ≡ false
  unfolding session_step write_timer_fires release_finished
  step_live (receives bytes) s live = sym (receive_disposed bytes s) ∙ live
  step_live write_timer s live = sym (write_timer_disposed s) ∙ live
  step_live (saves_snapshot encoded n) s live = live
  step_live finishes_release s live =
      sym (flush_disposed (record s { has_subscriptions = false; subscriptions_paused = false }))
      ∙ live
  step_live finishes_remote s live = sym (remote_done_disposed s) ∙ live
  step_live disposes s live = let gone = dispose_disposed s in cc
  step_live a s live = sym (plain-Untouched encode a s refl).same_disposed ∙ live

  step-HasHistory :
      (a : SessionAction) (s : Session)
      → IsSmall s.scrollback
      → IsOrderly a s
      → HasHistory s
      → HasHistory (session_step encode a s)
  unfolding session_step write_timer_fires release_finished
  step-HasHistory (receives bytes) s small piece h live =
      receive-IsComplete bytes s small piece (h (step_live (receives bytes) s live))
  step-HasHistory write_timer s small o h live =
      let k = h (step_live write_timer s live) in
      if_elim (λ (u : Session). IsComplete u.scrollback) s.has_write_timer
        (λ _. flush-IsComplete s (fits_waiting s small) k) (λ _. k)
  step-HasHistory (saves_snapshot encoded n) s small covers h live =
      save_snapshot-IsComplete encoded n s.scrollback covers (h live)
  step-HasHistory finishes_release s small o h live =
      flush-IsComplete (record s { has_subscriptions = false; subscriptions_paused = false })
        (fits_waiting s small) (h (step_live finishes_release s live))
  step-HasHistory finishes_remote s small o h live =
      let k = h (step_live finishes_remote s live) in
      remote_done-scrollback IsComplete s k (flush-IsComplete s (fits_waiting s small) k)
  step-HasHistory disposes s small o h live = let gone = dispose_disposed s in cc
  step-HasHistory a s small o h live =
      subst IsComplete (sym (plain-Untouched encode a s refl).same_scrollback)
        (h (step_live a s live))

  -- Every action of a run is orderly.
  abbrev pub IsOrderlyRun : List SessionAction → Session → Type 0
  IsOrderlyRun [] s = Unit
  IsOrderlyRun (a ∷ rest) s = IsOrderly a s × IsOrderlyRun rest (session_step encode a s)

  run-IsSmall :
      (actions : List SessionAction) (s : Session)
      → IsSmall s.scrollback
      → IsSmall (session_run encode actions s).scrollback
  unfolding session_run
  run-IsSmall [] s h = h
  run-IsSmall (a ∷ rest) s h =
      run-IsSmall rest (session_step encode a s) (step-IsSmall encode a s h)

  run-HasHistory :
      (actions : List SessionAction) (s : Session)
      → IsSmall s.scrollback
      → IsOrderlyRun actions s
      → HasHistory s
      → HasHistory (session_run encode actions s)
  unfolding session_run
  run-HasHistory [] s small o h = h
  run-HasHistory (a ∷ rest) s small o h =
      run-HasHistory rest (session_step encode a s) (step-IsSmall encode a s small) o.1
        (step-HasHistory a s small o.0 h)

  -- After any run of a session, the counters are those of the bytes that they count, less than
  -- 128 KiB wait to be flushed, and the kept chunks take at most 2 MiB and the snapshot 8 MiB.
  pub session_run-bounds :
      (actions : List SessionAction)
      → let s = (session_run encode actions new).scrollback in
        (s.pending_length ≡ length s.pending)
        × (s.pending_length < maximum_buffered_bytes)
        × (s.delta_length ≡ total_length s.delta)
        × (s.delta_length ≤ maximum_delta_bytes)
        × (length s.snapshot ≤ maximum_snapshot_bytes)
  session_run-bounds actions =
      let h = run-IsSmall actions new (empty-IsBounded, omega arith) in
      (h.0.pending_counted, h.1, h.0.delta_counted, h.0.delta_fits, h.0.snapshot_fits)

  -- After any run of a session that does not dispose it, in which no piece of output is larger than
  -- 1920 KiB and a snapshot is only saved if it covers the chunks that have been dropped: a replay
  -- from a sequence number on either requires a reset or holds exactly the bytes of all events
  -- behind that number that the listeners were given.
  pub replay_after-session_run :
      (actions : List SessionAction) (n : ℕ)
      → IsOrderlyRun actions new
      → (session_run encode actions new).disposed ≡ false
      → let s = (session_run encode actions new).scrollback in
        ((replay_after n s).reset_required ≡ true)
        ⊎ ((replay_after n s).bytes ≡ bytes_after n s.emitted)
  replay_after-session_run actions n o live =
      let s = (session_run encode actions new).scrollback in
      let h =
        run-HasHistory actions new (empty-IsBounded, omega arith) o (λ _. empty-IsComplete) live in
      elim (Bool-cases (replay_after n s).reset_required) [
        | inl reset ↦ inl reset
        | inr quiet ↦ inr (bytes-replay_after n s h quiet)
      ]
