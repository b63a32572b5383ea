-- ===== src/Widget/Paced.antt =====
-- What holds of the queue of XtermWebTerminalState of xterm_web_terminal.dart at any time: its size
-- is counted, and the session is not held back while nothing is queued.
use termethis.Base.{
  ℕ, ◌+◌, ◌-◌, ◌≡◌, ◌⊎◌, refl, sym, ap, ◌∙◌, Bool, true, false, List, [], ◌∷◌, ◌++◌, ◌&&◌, ◌||◌,
  not, ltb, leb, if◌then◌else◌, length, arith, if_elim, inl, inr,
}
use termethis.Prompt.{is_empty}
use termethis.Scrollback.{Replay}
use termethis.Widget.{
  Widget, QueuedChunk, Script, set_output_backpressure, break_write, report_fatal, chunks_for,
  total_bytes, append_output_chunks, clear_output, pause_output_at_bytes, resume_output_at_bytes,
  maximum_pending_bytes,
}
use termethis.Widget.Drains.{
  send_chunk, drain_output, drain_from, drain_operations, schedule_drain, enqueue_script,
  queue_output, is_at_rest,
}
use termethis.Widget.Chunks.{chunks_for-IsCut, EndsAt}

pub record IsPaced (w : Widget) : Type 0 where
  pub counted : w.output_bytes ≡ total_bytes w.output
  pub held : w.backpressured ≡ true → is_empty w.output ≡ false

total_bytes-append :
    (cs ds : List QueuedChunk) → total_bytes (cs ++ ds) ≡ total_bytes cs + total_bytes ds
unfolding total_bytes
total_bytes-append [] ds = omega arith
total_bytes-append (c ∷ cs) ds = omega (arith, total_bytes-append cs ds)

-- The fields that a call on the session for backpressure leaves alone.
pub record SameQueue (w v : Widget) : Type 0 where
  pub same_output : v.output ≡ w.output
  pub same_bytes : v.output_bytes ≡ w.output_bytes

set_output_backpressure-SameQueue :
    (paused : Bool) (w : Widget) → SameQueue w (set_output_backpressure paused w)
unfolding set_output_backpressure
set_output_backpressure-SameQueue paused w = ground arith

pub set_output_backpressure_sets :
    (paused : Bool) (w : Widget) → (set_output_backpressure paused w).backpressured ≡ paused
unfolding set_output_backpressure
set_output_backpressure_sets paused w = ground arith

-- A queue that is counted, with the session let go.
pub release-IsPaced :
    (w : Widget) → w.output_bytes ≡ total_bytes w.output → IsPaced (set_output_backpressure false w)
release-IsPaced w counted =
    let q = set_output_backpressure-SameQueue false w in
    record {
      counted = q.same_bytes ∙ counted ∙ ap total_bytes (sym q.same_output);
      held = λ h. absurd (let e = set_output_backpressure_sets false w in cc);
    }

hold-IsPaced :
    (w : Widget)
    → w.output_bytes ≡ total_bytes w.output
    → is_empty w.output ≡ false
    → IsPaced (set_output_backpressure true w)
hold-IsPaced w counted nonempty =
    let q = set_output_backpressure-SameQueue true w in
    record {
      counted = q.same_bytes ∙ counted ∙ ap total_bytes (sym q.same_output);
      held = λ _. ap is_empty q.same_output ∙ nonempty;
    }

pub report_fatal-IsPaced : (w : Widget) → IsPaced w → IsPaced (report_fatal w)
unfolding report_fatal
report_fatal-IsPaced w h =
    if_elim IsPaced (w.disposed || w.fatal_reported) (λ _. h)
      (λ _.
        release-IsPaced (record w { fatal_reported = true; drain = break_write w.drain }) h.counted)

send_chunk-IsPaced :
    (c : QueuedChunk) (cs : List QueuedChunk) (w : Widget)
    → w.output ≡ c ∷ cs
    → IsPaced w
    → IsPaced (send_chunk c cs w)
unfolding send_chunk total_bytes
send_chunk-IsPaced c cs w e h =
    let left = w.output_bytes - length c.bytes in
    let total : w.output_bytes ≡ length c.bytes + total_bytes cs = h.counted ∙ ap total_bytes e in
    let counted : left ≡ total_bytes cs = omega arith in
    let taken = record w { output = cs; output_bytes = left } in
    let t =
      if leb left resume_output_at_bytes then set_output_backpressure false taken else taken in
    let paced : IsPaced t =
      if_elim IsPaced (leb left resume_output_at_bytes) (λ _. release-IsPaced taken counted)
        (λ much. record { counted = counted; held = λ _. nonempty cs left counted much }) in
    record { counted = paced.counted; held = paced.held }
  where
    nonempty :
        (cs : List QueuedChunk) (left : ℕ)
        → left ≡ total_bytes cs
        → leb left resume_output_at_bytes ≡ false
        → is_empty cs ≡ false
    nonempty [] left e much = ground arith
    nonempty (c ∷ cs) left e much = refl

drain_output-IsPaced :
    (cs : List QueuedChunk) (w : Widget) → w.output ≡ cs → IsPaced w → IsPaced (drain_output cs w)
unfolding drain_output
drain_output-IsPaced [] w e h = record { counted = h.counted; held = h.held }
drain_output-IsPaced (c ∷ cs) w e h = send_chunk-IsPaced c cs w e h

drain_from-IsPaced : (ss : List Script) (w : Widget) → IsPaced w → IsPaced (drain_from ss w)
unfolding drain_from
drain_from-IsPaced (s ∷ ss) w h = record { counted = h.counted; held = h.held }
drain_from-IsPaced [] w h =
    if_elim IsPaced (w.is_ready && w.active) (λ _. drain_output-IsPaced w.output w refl h)
      (λ _. record { counted = h.counted; held = h.held })

pub drain_operations-IsPaced : (w : Widget) → IsPaced w → IsPaced (drain_operations w)
unfolding drain_operations
drain_operations-IsPaced w h =
    if_elim IsPaced w.disposed (λ _. record { counted = h.counted; held = h.held })
      (λ _. drain_from-IsPaced w.scripts w h)

pub schedule_drain-IsPaced : (w : Widget) → IsPaced w → IsPaced (schedule_drain w)
unfolding schedule_drain
schedule_drain-IsPaced w h =
    if_elim IsPaced (w.disposed || not (is_at_rest w.drain)) (λ _. h)
      (λ _. drain_operations-IsPaced w h)

pub enqueue_script-IsPaced : (s : Script) (w : Widget) → IsPaced w → IsPaced (enqueue_script s w)
unfolding enqueue_script
enqueue_script-IsPaced s w h =
    if_elim IsPaced w.disposed (λ _. h)
      (λ _.
        schedule_drain-IsPaced (record w { scripts = w.scripts ++ s ∷ [] })
          (record { counted = h.counted; held = h.held }))

is_empty_append :
    (cs ds : List QueuedChunk)
    → is_empty cs ≡ false ⊎ is_empty ds ≡ false
    → is_empty (cs ++ ds) ≡ false
is_empty_append [] ds (inl h) = absurd (cc)
is_empty_append [] ds (inr h) = h
is_empty_append (c ∷ cs) ds h = refl

EndsAt-is_empty : (n : ℕ) (cs : List QueuedChunk) → EndsAt n cs → is_empty cs ≡ false
EndsAt-is_empty n [] h = absurd h
EndsAt-is_empty n (c ∷ cs) h = refl

-- A reset always queues a chunk.
chunks_for-is_empty : (bytes : List ℕ) (n : ℕ) → is_empty (chunks_for bytes n true) ≡ false
unfolding chunks_for
chunks_for-is_empty [] n = refl
chunks_for-is_empty (x ∷ xs) n =
    EndsAt-is_empty n (chunks_for (x ∷ xs) n true) (chunks_for-IsCut (x ∷ xs) n true refl).ends

append_output_chunks-counted :
    (bytes : List ℕ) (n : ℕ) (reset : Bool) (w : Widget)
    → w.output_bytes ≡ total_bytes w.output
    → let t = append_output_chunks bytes n reset w in t.output_bytes ≡ total_bytes t.output
unfolding append_output_chunks
append_output_chunks-counted bytes n reset w h =
    ap (λ x. x + total_bytes (chunks_for bytes n reset)) h
    ∙ sym (total_bytes-append w.output (chunks_for bytes n reset))

append_output_chunks-IsPaced :
    (bytes : List ℕ) (n : ℕ) (reset : Bool) (w : Widget)
    → IsPaced w
    → IsPaced (append_output_chunks bytes n reset w)
append_output_chunks-IsPaced bytes n reset w h = record {
  counted = append_output_chunks-counted bytes n reset w h.counted;
  held = kept;
}
  where
    kept :
        (append_output_chunks bytes n reset w).backpressured ≡ true
        → is_empty (append_output_chunks bytes n reset w).output ≡ false
    kept b =
        unfold append_output_chunks in
        is_empty_append w.output (chunks_for bytes n reset) (inl (h.held b))

-- The queue as it is made anew for a replay.
restart-IsPaced :
    (bytes : List ℕ) (n : ℕ) (w : Widget)
    → IsPaced (append_output_chunks bytes n true (clear_output w))
restart-IsPaced bytes n w = record {
  counted = append_output_chunks-counted bytes n true (clear_output w) (unfold total_bytes in refl);
  held = λ _. unfold append_output_chunks in chunks_for-is_empty bytes n;
}

pause-IsPaced :
    (w : Widget)
    → IsPaced w
    → IsPaced
        (if leb pause_output_at_bytes w.output_bytes then set_output_backpressure true w else w)
unfolding total_bytes
pause-IsPaced w h =
    if_elim IsPaced (leb pause_output_at_bytes w.output_bytes)
      (λ much. hold-IsPaced w h.counted (nonempty w.output w.output_bytes h.counted much)) (λ _. h)
  where
    nonempty :
        (cs : List QueuedChunk) (n : ℕ)
        → n ≡ total_bytes cs
        → leb pause_output_at_bytes n ≡ true
        → is_empty cs ≡ false
    nonempty [] n e much = ground arith
    nonempty (c ∷ cs) n e much = refl

pub queue_output-IsPaced :
    (r : Replay) (bytes : List ℕ) (n : ℕ) (reset : Bool) (w : Widget)
    → IsPaced w
    → IsPaced (queue_output r bytes n reset w)
unfolding queue_output
queue_output-IsPaced r bytes n reset w h =
    let v = record w { last_queued = n } in
    let t = append_output_chunks bytes n reset (if reset then clear_output v else v) in
    let u =
      if leb pause_output_at_bytes t.output_bytes then set_output_backpressure true t else t in
    let paced : IsPaced u =
      pause-IsPaced t (filled v bytes n reset (record { counted = h.counted; held = h.held })) in
    let again = restart-IsPaced r.bytes r.through_sequence u in
    schedule_drain-IsPaced _ (
      if_elim IsPaced (ltb maximum_pending_bytes u.output_bytes)
        (λ _. record { counted = again.counted; held = again.held }) (λ _. paced))
  where
    filled :
        (v : Widget) (bytes : List ℕ) (n : ℕ) (reset : Bool)
        → IsPaced v
        → IsPaced (append_output_chunks bytes n reset (if reset then clear_output v else v))
    filled v bytes n true k = restart-IsPaced bytes n v
    filled v bytes n false k = append_output_chunks-IsPaced bytes n false v k
