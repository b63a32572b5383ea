-- ===== src/Widget/Answers.antt =====
-- The answers of a page to XtermWebTerminalState of xterm_web_terminal.dart, one by one.
use mathlib.Core.Path.{subst}
use termethis.Base.{
  ℕ, ◌+◌, ◌*◌, ◌≤◌, ◌<◌, ◌≡◌, refl, sym, ap, ◌∙◌, true, false, ◌&&◌, ◌||◌, not, ltb, if◌then◌else◌,
  if_elim, length, arith,
}
use termethis.Page.{write_ack}
use termethis.Widget.{
  Widget, Drain, at_rest, in_script, in_write, ended, waiting, acknowledged, broken, report_fatal,
  Acknowledgement,
}
use termethis.Widget.Drains.{is_at_rest, drain_operations, schedule_drain}
use termethis.Widget.Actions.{
  script_returned, acknowledgement_ended, acknowledge, handle_message, drain_completed,
}
use termethis.Widget.Runs.{widget_step}
use termethis.Widget.Awake.{has_work}
use termethis.Widget.Flow.{next_action, weight, answers_left, IsOpen, Advances}
use termethis.Widget.Advances.{
  drain_operations-Advances, Advances-weaken, drain_operations-goes_on, failed-Advances,
}

by_equation :
    (limit : ℕ) (w v u : Widget)
    → v ≡ u
    → limit ≤ answers_left w
    → Advances limit w u
    → Advances (answers_left w) w v
by_equation limit w v u e fits a =
    subst (Advances (answers_left w) w) (sym e) (Advances-weaken limit (answers_left w) w u fits a)

-- The state of the wait changes, and nothing else.
waits-Advances :
    (d : Drain) (w : Widget) (limit : ℕ)
    → IsOpen w
    → weight d + 3 * length w.scripts + 5 * length w.output < limit
    → Advances limit w (record w { drain = d })
waits-Advances d w limit o less = record {
  opens = record { is_ready = o.is_ready; active = o.active; live = o.live };
  same_total = refl;
  less = less;
}

acknowledged_lem :
    (id n : ℕ) → acknowledge id (in_write id n true waiting) ≡ in_write id n true acknowledged
acknowledged_lem id n = ground arith

schedule_drain-IsOpen :
    (w : Widget) → IsOpen w → w.drain ≡ at_rest → schedule_drain w ≡ drain_operations w
unfolding schedule_drain
schedule_drain-IsOpen w o e =
    if_elim (λ (v : Widget). v ≡ drain_operations w) (w.disposed || not (is_at_rest w.drain))
      (λ busy. absurd (let l = o.live in let r = ap is_at_rest e in ground arith)) (λ _. refl)

handle_ack :
    (id n : ℕ) (w : Widget)
    → w.drain ≡ in_write id n true waiting
    → IsOpen w
    → handle_message (write_ack id) w ≡ record w { drain = in_write id n true acknowledged }
unfolding handle_message
handle_ack id n w e o =
    if_elim (λ (v : Widget). v ≡ record w { drain = in_write id n true acknowledged }) w.disposed
      (λ gone. absurd (let l = o.live in cc))
      (λ _.
        ap (λ (d : Drain). record w { drain = d }) (ap (acknowledge id) e ∙ acknowledged_lem id n))

ended-Advances :
    (w : Widget)
    → IsOpen w
    → Advances (1 + 3 * length w.scripts + 5 * length w.output) w (drain_completed ended w)
unfolding drain_completed
ended-Advances w o =
    let v = record w { drain = at_rest } in
    let k : IsOpen v = record { is_ready = o.is_ready; active = o.active; live = o.live } in
    let limit = 1 + 3 * length w.scripts + 5 * length w.output in
    if_elim (λ (u : Widget). Advances limit w u) (not w.disposed && has_work w)
      (λ work. subst (Advances limit w) (sym (schedule_drain-IsOpen v k refl)) (
        let a = drain_operations-Advances v k (ground arith) in
        record { opens = a.opens; same_total = a.same_total; less = a.less }))
      (λ _. waits-Advances at_rest w limit o (omega arith))

-- An answer, at any wait of the widget but at rest.
pub answer-Advances :
    (d : Drain) (w : Widget)
    → w.drain ≡ d
    → is_at_rest d ≡ false
    → IsOpen w
    → Advances (answers_left w) w (widget_step (next_action d) w)
unfolding widget_step script_returned acknowledgement_ended
answer-Advances at_rest w e busy o = absurd (cc)
answer-Advances in_script w e busy o =
    by_equation (2 + 3 * length w.scripts + 5 * length w.output) w (script_returned true w.drain w)
      (drain_operations w) (ap (λ (d : Drain). script_returned true d w) e)
      (omega (arith, ap weight e)) (drain_operations-goes_on w o)
answer-Advances (in_write id n false a) w e busy o =
    by_equation (answers_left w) w (script_returned true w.drain w)
      (record w { drain = in_write id n true a }) (ap (λ (d : Drain). script_returned true d w) e)
      (omega arith)
      (waits-Advances (in_write id n true a) w (answers_left w) o (lighter a (ap weight e)))
  where
    lighter :
        (a : Acknowledgement)
        → weight w.drain ≡ 4
        → weight (in_write id n true a) + 3 * length w.scripts + 5 * length w.output
          < answers_left w
    lighter waiting h = omega arith
    lighter acknowledged h = omega arith
    lighter broken h = omega arith
answer-Advances (in_write id n true waiting) w e busy o =
    by_equation (answers_left w) w (handle_message (write_ack id) w)
      (record w { drain = in_write id n true acknowledged }) (handle_ack id n w e o) (omega arith)
      (waits-Advances (in_write id n true acknowledged) w (answers_left w) o
        (omega (arith, ap weight e)))
answer-Advances (in_write id n true acknowledged) w e busy o =
    let v = record w { last_sent = if ltb w.last_sent n then n else w.last_sent } in
    let k : IsOpen v = record { is_ready = o.is_ready; active = o.active; live = o.live } in
    let a = drain_operations-goes_on v k in
    by_equation (2 + 3 * length w.scripts + 5 * length w.output) w (acknowledgement_ended w.drain w)
      (drain_operations v) (ap (λ (d : Drain). acknowledgement_ended d w) e)
      (omega (arith, ap weight e))
      (record { opens = a.opens; same_total = a.same_total; less = a.less })
answer-Advances (in_write id n true broken) w e busy o =
    by_equation (answers_left w) w (acknowledgement_ended w.drain w)
      (report_fatal (record w { drain = ended })) (ap (λ (d : Drain). acknowledgement_ended d w) e)
      (omega arith) (failed-Advances w (answers_left w) o (omega (arith, ap weight e)))
answer-Advances ended w e busy o =
    by_equation (1 + 3 * length w.scripts + 5 * length w.output) w (drain_completed w.drain w)
      (drain_completed ended w) (ap (λ (d : Drain). drain_completed d w) e)
      (omega (arith, ap weight e)) (ended-Advances w o)
