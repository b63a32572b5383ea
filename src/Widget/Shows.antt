-- ===== src/Widget/Shows.antt =====
-- The writes of XtermWebTerminalState of xterm_web_terminal.dart, step by step: what the page will
-- show changes only when output is queued.
use termethis.Base.{
  ℕ, suc, ◌-◌, ◌≡◌, refl, sym, ap, ◌∙◌, Bool, true, false, List, [], ◌∷◌, ◌++◌, ◌&&◌, ◌||◌, not,
  leb, if_elim, length,
}
use termethis.Widget.{
  Acknowledgement, Widget, QueuedChunk, Script, Drain, Sent, ran, wrote, set_output_backpressure,
  break_write, report_fatal, resume_output_at_bytes,
}
use termethis.Widget.Drains.{send_chunk, drain_output, drain_from, drain_operations}
use termethis.Widget.Runs.{WidgetAction, widget_step}
use termethis.Widget.Steady.{core, is_steady, steady-keeps}
use termethis.Widget.Shown.{shown_from, queued_onto, shown, shown_from-append}

-- The page as it will be, the last event that is queued, and whether the widget gets events.
pub record Shows (l : Bool) (page : List ℕ) (n : ℕ) (w : Widget) : Type 0 where
  pub shows : shown w ≡ page
  pub queued : w.last_queued ≡ n
  pub listens : w.has_listener ≡ l
  pub active : w.active ≡ true
  pub live : w.disposed ≡ false

pub core-Shows :
    (l : Bool) (page : List ℕ) (n : ℕ) (w v : Widget)
    → core v ≡ core w
    → Shows l page n w
    → Shows l page n v
core-Shows l page n w v e h = record {
  shows =
      ap (λ (c : List Sent). queued_onto (shown_from [] c) v.output) (ap (λ c. c.3) e)
      ∙ ap (λ (c : List QueuedChunk). queued_onto (shown_from [] w.sent) c) (ap (λ c. c.0) e)
      ∙ h.shows;
  queued = ap (λ c. c.4) e ∙ h.queued;
  listens = ap (λ c. c.5) e ∙ h.listens;
  active = ap (λ c. c.6) e ∙ h.active;
  live = ap (λ c. c.7) e ∙ h.live;
}

pub set_output_backpressure-Shows :
    (l : Bool) (page : List ℕ) (n : ℕ) (paused : Bool) (w : Widget)
    → Shows l page n w
    → Shows l page n (set_output_backpressure paused w)
unfolding set_output_backpressure
set_output_backpressure-Shows l page n paused w h =
    if_elim (Shows l page n) (paused && w.backpressured || not paused && not w.backpressured)
      (λ _. h)
      (λ _. record {
        shows = h.shows;
        queued = h.queued;
        listens = h.listens;
        active = h.active;
        live = h.live;
      })

report_fatal-Shows :
    (l : Bool) (page : List ℕ) (n : ℕ) (w : Widget)
    → Shows l page n w
    → Shows l page n (report_fatal w)
unfolding report_fatal
report_fatal-Shows l page n w h =
    if_elim (Shows l page n) (w.disposed || w.fatal_reported) (λ _. h)
      (λ _.
        set_output_backpressure-Shows l page n false
          (record w { fatal_reported = true; drain = break_write w.drain })
          (record {
            shows = h.shows;
            queued = h.queued;
            listens = h.listens;
            active = h.active;
            live = h.live;
          }))

-- A chunk that leaves the queue is sent.
send_chunk-Shows :
    (l : Bool) (page : List ℕ) (n : ℕ) (c : QueuedChunk) (cs : List QueuedChunk) (w : Widget)
    → w.output ≡ c ∷ cs
    → Shows l page n w
    → Shows l page n (send_chunk c cs w)
unfolding send_chunk set_output_backpressure
send_chunk-Shows l page n c cs w e h =
    let left = w.output_bytes - length c.bytes in
    let taken = record w { output = cs; output_bytes = left } in
    let sends : (id : ℕ)
        → queued_onto (shown_from [] (w.sent ++ wrote c.bytes c.reset id ∷ [])) cs ≡ page =
      λ id.
        ap (λ x. queued_onto x cs) (shown_from-append [] w.sent (wrote c.bytes c.reset id ∷ []))
        ∙ ap (queued_onto (shown_from [] w.sent)) (sym e)
        ∙ h.shows in
    let done : Shows l page n
        (record taken { sent = w.sent ++ wrote c.bytes c.reset (suc w.write_id) ∷ [] }) =
      record {
        shows = sends (suc w.write_id);
        queued = h.queued;
        listens = h.listens;
        active = h.active;
        live = h.live;
      } in
    if_elim
      (λ (t : Widget). Shows l page n (record t {
        write_id = suc t.write_id;
        drain = Drain.in_write (suc t.write_id) c.through_sequence false Acknowledgement.waiting;
        sent = t.sent ++ wrote c.bytes c.reset (suc t.write_id) ∷ [];
      }))
      (leb left resume_output_at_bytes)
      (λ _.
        if_elim
          (λ (t : Widget). Shows l page n (record t {
            write_id = suc t.write_id;
            drain =
                Drain.in_write (suc t.write_id) c.through_sequence false Acknowledgement.waiting;
            sent = t.sent ++ wrote c.bytes c.reset (suc t.write_id) ∷ [];
          }))
          (false && taken.backpressured || not false && not taken.backpressured)
          (λ _. record {
            shows = done.shows;
            queued = h.queued;
            listens = h.listens;
            active = h.active;
            live = h.live;
          })
          (λ _. record {
            shows = done.shows;
            queued = h.queued;
            listens = h.listens;
            active = h.active;
            live = h.live;
          }))
      (λ _. record {
        shows = done.shows;
        queued = h.queued;
        listens = h.listens;
        active = h.active;
        live = h.live;
      })

drain_output-Shows :
    (l : Bool) (page : List ℕ) (n : ℕ) (cs : List QueuedChunk) (w : Widget)
    → w.output ≡ cs
    → Shows l page n w
    → Shows l page n (drain_output cs w)
unfolding drain_output
drain_output-Shows l page n [] w e h = core-Shows l page n w _ refl h
drain_output-Shows l page n (c ∷ cs) w e h = send_chunk-Shows l page n c cs w e h

drain_from-Shows :
    (l : Bool) (page : List ℕ) (n : ℕ) (ss : List Script) (w : Widget)
    → Shows l page n w
    → Shows l page n (drain_from ss w)
unfolding drain_from
drain_from-Shows l page n (s ∷ ss) w h = record {
  shows = ap (λ x. queued_onto x w.output) (shown_from-append [] w.sent (ran s ∷ [])) ∙ h.shows;
  queued = h.queued;
  listens = h.listens;
  active = h.active;
  live = h.live;
}
drain_from-Shows l page n [] w h =
    if_elim (Shows l page n) (w.is_ready && w.active)
      (λ _. drain_output-Shows l page n w.output w refl h) (λ _. core-Shows l page n w _ refl h)

pub drain_operations-Shows :
    (l : Bool) (page : List ℕ) (n : ℕ) (w : Widget)
    → Shows l page n w
    → Shows l page n (drain_operations w)
unfolding drain_operations
drain_operations-Shows l page n w h =
    if_elim (Shows l page n) w.disposed (λ _. core-Shows l page n w _ refl h)
      (λ _. drain_from-Shows l page n w.scripts w h)

-- A step that queues nothing leaves the page as it will be.
pub steady-Shows :
    (l : Bool) (page : List ℕ) (n : ℕ) (a : WidgetAction) (w : Widget)
    → is_steady a ≡ true
    → Shows l page n w
    → Shows l page n (widget_step a w)
steady-Shows l page n a w steady h =
    steady-keeps (Shows l page n) (core-Shows l page n) (drain_operations-Shows l page n)
      (report_fatal-Shows l page n) a w steady h
