-- ===== src/Widget/Queued.antt =====
-- What _queueOutput of xterm_web_terminal.dart does to the page as it will be.
use termethis.Base.{
  inl, inr, ◌⊎◌, ℕ, refl, ap, ◌∙◌, Bool, true, false, List, [], ◌||◌, not, ltb, leb, if◌then◌else◌,
  if_elim,
}
use termethis.Widget.{
  Widget, set_output_backpressure, chunks_for, append_output_chunks, clear_output,
  pause_output_at_bytes, maximum_pending_bytes,
}
use termethis.Widget.Drains.{schedule_drain, queue_output, is_at_rest}
use termethis.Scrollback.{Replay}
use termethis.Widget.Shown.{put, shown_from, shown, queued_onto-append, queued_onto-chunks_for}
use termethis.Widget.Shows.{Shows, set_output_backpressure-Shows, drain_operations-Shows}

append_output_chunks-Shows :
    (l : Bool) (page bytes : List ℕ) (n k : ℕ) (reset : Bool) (w : Widget)
    → Shows l page n w
    → Shows l (put reset bytes page) n (append_output_chunks bytes k reset w)
unfolding append_output_chunks
append_output_chunks-Shows l page bytes n k reset w h = record {
  shows =
      queued_onto-append (shown_from [] w.sent) w.output (chunks_for bytes k reset)
      ∙ queued_onto-chunks_for (shown w) bytes k reset
      ∙ ap (λ (x : List ℕ). put reset bytes x) h.shows;
  queued = h.queued;
  listens = h.listens;
  active = h.active;
  live = h.live;
}

-- A queue that is made anew for a replay.
restart-Shows :
    (l : Bool) (page bytes : List ℕ) (n m : ℕ) (w : Widget)
    → Shows l page m w
    → Shows l bytes n
        (record (append_output_chunks bytes n true (clear_output w)) { last_queued = n })
restart-Shows l page bytes n m w h =
    let cleared : Shows l (shown_from [] w.sent) m (clear_output w) = record {
      shows = refl;
      queued = h.queued;
      listens = h.listens;
      active = h.active;
      live = h.live;
    } in
    let k =
      append_output_chunks-Shows l (shown_from [] w.sent) bytes m n true (clear_output w) cleared in
    record { shows = k.shows; queued = refl; listens = k.listens; active = k.active; live = k.live }

filled-Shows :
    (l : Bool) (page bytes : List ℕ) (n m : ℕ) (reset : Bool) (w : Widget)
    → Shows l page m w
    → Shows l
        (put reset bytes page)
        m
        (append_output_chunks bytes n reset (if reset then clear_output w else w))
filled-Shows l page bytes n m false w h = append_output_chunks-Shows l page bytes m n false w h
filled-Shows l page bytes n m true w h =
    append_output_chunks-Shows l (shown_from [] w.sent) bytes m n true (clear_output w) (record {
      shows = refl;
      queued = h.queued;
      listens = h.listens;
      active = h.active;
      live = h.live;
    })

schedule_drain-Shows :
    (l : Bool) (page : List ℕ) (n : ℕ) (w : Widget)
    → Shows l page n w
    → Shows l page n (schedule_drain w)
unfolding schedule_drain
schedule_drain-Shows l page n w h =
    if_elim (Shows l page n) (w.disposed || not (is_at_rest w.drain)) (λ _. h)
      (λ _. drain_operations-Shows l page n w h)

-- Output that is queued is put on the page, or the queue overflows and the replay replaces it.
pub queue_output-Shows :
    (l : Bool) (page : List ℕ) (m : ℕ) (r : Replay) (bytes : List ℕ) (n : ℕ) (reset : Bool)
    (w : Widget)
    → Shows l page m w
    → Shows l (put reset bytes page) n (queue_output r bytes n reset w)
      ⊎ Shows l r.bytes r.through_sequence (queue_output r bytes n reset w)
unfolding queue_output
queue_output-Shows l page m r bytes n reset w h =
    let v = record w { last_queued = n } in
    let t = append_output_chunks bytes n reset (if reset then clear_output v else v) in
    let u =
      if leb pause_output_at_bytes t.output_bytes then set_output_backpressure true t else t in
    let hv : Shows l page n v = record {
      shows = h.shows;
      queued = refl;
      listens = h.listens;
      active = h.active;
      live = h.live;
    } in
    let ht : Shows l (put reset bytes page) n t = filled-Shows l page bytes n n reset v hv in
    let hu : Shows l (put reset bytes page) n u =
      if_elim (Shows l (put reset bytes page) n) (leb pause_output_at_bytes t.output_bytes)
        (λ _. set_output_backpressure-Shows l (put reset bytes page) n true t ht) (λ _. ht) in
    let anew = record (append_output_chunks r.bytes r.through_sequence true (clear_output u)) {
      last_queued = r.through_sequence;
    } in
    if_elim
      (λ (z : Widget).
        Shows l (put reset bytes page) n (schedule_drain z)
        ⊎ Shows l r.bytes r.through_sequence (schedule_drain z))
      (ltb maximum_pending_bytes u.output_bytes)
      (λ _. inr (
        schedule_drain-Shows l r.bytes r.through_sequence anew
          (restart-Shows l (put reset bytes page) r.bytes r.through_sequence n u hu)))
      (λ _. inl (schedule_drain-Shows l (put reset bytes page) n u hu))
