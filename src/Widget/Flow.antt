-- ===== src/Widget/Flow.antt =====
-- The output of XtermWebTerminalState of xterm_web_terminal.dart on its way to a page that answers:
-- the queue empties, in order, and the session is let go.
use termethis.Base.{
  ℕ, zero, suc, ◌+◌, ◌*◌, ◌<◌, ◌≡◌, refl, sym, ap, ◌∙◌, Bool, true, false, List, [], ◌∷◌, ◌++◌,
  ◌||◌, if_elim, length, append_assoc, arith,
}
use termethis.Page.{write_ack}
use termethis.Widget.{
  Widget, Drain, at_rest, in_script, in_write, ended, waiting, acknowledged, broken, Sent, ran,
  wrote, set_output_backpressure, break_write, report_fatal,
}
use termethis.Widget.Runs.{WidgetAction, posts, returns, ends_wait, completes_drain, widget_step}
use termethis.Widget.Chunks.{queued_bytes}

-- What a page that answers makes happen next: its method returns, it acknowledges the write, or the
-- widget goes on.
abbrev pub next_action : Drain → WidgetAction
next_action in_script = returns true
next_action (in_write id n false a) = returns true
next_action (in_write id n true waiting) = posts (write_ack id)
next_action (in_write id n true acknowledged) = ends_wait
next_action (in_write id n true broken) = ends_wait
next_action ended = completes_drain
next_action at_rest = completes_drain

unfoldable pub answered : ℕ → Widget → Widget
answered zero w = w
answered (suc n) w = answered n (widget_step (next_action w.drain) w)

-- The bytes of the writes that have been sent.
abbrev pub written : List Sent → List ℕ
written [] = []
written (ran s ∷ rest) = written rest
written (wrote bytes reset id ∷ rest) = bytes ++ written rest

pub written-append : (xs ys : List Sent) → written (xs ++ ys) ≡ written xs ++ written ys
written-append [] ys = refl
written-append (ran s ∷ xs) ys = written-append xs ys
written-append (wrote bytes reset id ∷ xs) ys =
    ap (λ x. bytes ++ x) (written-append xs ys) ∙ sym (append_assoc bytes (written xs) (written ys))

abbrev pub weight : Drain → ℕ
weight at_rest = 0
weight ended = 1
weight in_script = 2
weight (in_write id n false a) = 4
weight (in_write id n true waiting) = 3
weight (in_write id n true acknowledged) = 2
weight (in_write id n true broken) = 2

-- The number of answers that suffice.
abbrev pub answers_left : Widget → ℕ
answers_left w = weight w.drain + 3 * length w.scripts + 5 * length w.output

abbrev pub total : Widget → List ℕ
total w = written w.sent ++ queued_bytes w.output

-- The page is ready and shown.
pub record IsOpen (w : Widget) : Type 0 where
  pub is_ready : w.is_ready ≡ true
  pub active : w.active ≡ true
  pub live : w.disposed ≡ false

-- What one answer changes, if at most `limit` were needed behind it.
pub record Advances (limit : ℕ) (w v : Widget) : Type 0 where
  pub opens : IsOpen v
  pub same_total : total v ≡ total w
  pub less : answers_left v < limit

pub record SameFlow (w v : Widget) : Type 0 where
  pub same_ready : v.is_ready ≡ w.is_ready
  pub same_active : v.active ≡ w.active
  pub same_disposed : v.disposed ≡ w.disposed
  pub same_scripts : v.scripts ≡ w.scripts
  pub same_output : v.output ≡ w.output
  pub same_sent : v.sent ≡ w.sent

pub set_output_backpressure-SameFlow :
    (paused : Bool) (w : Widget) → SameFlow w (set_output_backpressure paused w)
unfolding set_output_backpressure
set_output_backpressure-SameFlow paused w = ground arith

pub report_fatal-SameFlow : (w : Widget) → SameFlow w (report_fatal w)
unfolding report_fatal
report_fatal-SameFlow w =
    let t = record w { fatal_reported = true; drain = break_write w.drain } in
    let s = set_output_backpressure-SameFlow false t in
    if_elim (λ (v : Widget). SameFlow w v) (w.disposed || w.fatal_reported)
      (λ _. record {
        same_ready = refl;
        same_active = refl;
        same_disposed = refl;
        same_scripts = refl;
        same_output = refl;
        same_sent = refl;
      })
      (λ _. record {
        same_ready = s.same_ready;
        same_active = s.same_active;
        same_disposed = s.same_disposed;
        same_scripts = s.same_scripts;
        same_output = s.same_output;
        same_sent = s.same_sent;
      })

pub report_fatal-ended : (w : Widget) → w.drain ≡ ended → (report_fatal w).drain ≡ ended
unfolding report_fatal set_output_backpressure
report_fatal-ended w e = ground (arith, ap break_write e)
