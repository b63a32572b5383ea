-- ===== src/Widget/Settled.antt =====
-- XtermWebTerminalState of xterm_web_terminal.dart in front of a page that answers: it comes to rest
-- with nothing queued, and with the session let go.
use mathlib.Core.Path.{subst}
use termethis.Base.{
  ℕ, zero, suc, ◌≤◌, ◌<◌, ◌≡◌, refl, sym, ap, ◌∙◌, true, false, List, [], ◌∷◌, ◌++◌, append-nil,
  arith, Bool-cases, inl, inr,
}
use termethis.Prompt.{is_empty}
use termethis.Scrollback.{Scrollback}
use termethis.Widget.{
  Widget, QueuedChunk, Drain, at_rest, in_script, in_write, ended, waiting, acknowledged, broken,
  created,
}
use termethis.Widget.Drains.{is_at_rest}
use termethis.Widget.Actions.{initialize, drain_completed}
use termethis.Widget.Runs.{WidgetAction, widget_step, widget_run}
use termethis.Widget.Chunks.{queued_bytes}
use termethis.Widget.Paced.{IsPaced}
use termethis.Widget.Held.{step-IsPaced, widget_run-IsPaced}
use termethis.Widget.Awake.{IsAwake}
use termethis.Widget.Wakes.{step-IsAwake, widget_run-IsAwake}
use termethis.Widget.Flow.{IsOpen, answered, answers_left, next_action, total, written, weight}
use termethis.Widget.Answers.{answer-Advances}

answered-keeps :
    (P : Widget → Type 0)
    → ((a : WidgetAction) (w : Widget) → P w → P (widget_step a w))
    → (n : ℕ) (w : Widget) → P w
    → P (answered n w)
unfolding answered
answered-keeps P keeps zero w h = h
answered-keeps P keeps (suc n) w h =
    answered-keeps P keeps n (widget_step (next_action w.drain) w) (keeps (next_action w.drain) w h)

resting : (d : Drain) → is_at_rest d ≡ true → d ≡ at_rest
resting at_rest h = refl
resting in_script h = absurd (cc)
resting (in_write id n r a) h = absurd (cc)
resting ended h = absurd (cc)

step_at_rest : (w : Widget) → w.drain ≡ at_rest → widget_step (next_action w.drain) w ≡ w
unfolding widget_step drain_completed
step_at_rest w e =
    ap (λ (d : Drain). widget_step (next_action d) w) e ∙ ap (λ (d : Drain). drain_completed d w) e

answered_at_rest : (n : ℕ) (w : Widget) → w.drain ≡ at_rest → answered n w ≡ w
unfolding answered
answered_at_rest zero w e = refl
answered_at_rest (suc n) w e = ap (answered n) (step_at_rest w e) ∙ answered_at_rest n w e

record Settles (w v : Widget) : Type 0 where
  rests : v.drain ≡ at_rest
  opens : IsOpen v
  same_total : total v ≡ total w

heavy : (d : Drain) → is_at_rest d ≡ false → 0 < weight d
heavy at_rest h = absurd (cc)
heavy in_script h = omega arith
heavy (in_write id n false a) h = omega arith
heavy (in_write id n true waiting) h = omega arith
heavy (in_write id n true acknowledged) h = omega arith
heavy (in_write id n true broken) h = omega arith
heavy ended h = omega arith

still : (n : ℕ) (w : Widget) → IsOpen w → is_at_rest w.drain ≡ true → Settles w (answered n w)
still n w o rest =
    let e = resting w.drain rest in
    subst (Settles w) (sym (answered_at_rest n w e))
      (record { rests = e; opens = o; same_total = refl })

answered-Settles : (n : ℕ) (w : Widget) → IsOpen w → answers_left w ≤ n → Settles w (answered n w)
unfolding answered
answered-Settles zero w o fits = elim (Bool-cases (is_at_rest w.drain)) [
  | inl rest ↦ still zero w o rest
  | inr busy ↦ absurd (omega (arith, heavy w.drain busy))
]
answered-Settles (suc n) w o fits = elim (Bool-cases (is_at_rest w.drain)) [
  | inl rest ↦ still (suc n) w o rest
  | inr busy ↦
      let a = answer-Advances w.drain w refl busy o in
      let ih =
        answered-Settles n (widget_step (next_action w.drain) w) a.opens (omega (arith, a.less)) in
      record { rests = ih.rests; opens = ih.opens; same_total = ih.same_total ∙ a.same_total }
]

is_empty_lem : (cs : List QueuedChunk) → is_empty cs ≡ true → cs ≡ []
is_empty_lem [] h = refl
is_empty_lem (c ∷ cs) h = absurd (cc)

no_output : (v : Widget) → IsOpen v → v.drain ≡ at_rest → IsAwake v → is_empty v.output ≡ true
no_output v o rest h =
    let quiet = h.awake o.live (ap is_at_rest rest) in
    let r = o.is_ready in let a = o.active in ground arith

released : (v : Widget) → IsPaced v → v.output ≡ [] → v.backpressured ≡ false
released v h e = elim (Bool-cases v.backpressured) [
  | inl b ↦ absurd (let nonempty = h.held b in let none_left = ap is_empty e in cc)
  | inr b ↦ b
]

-- From any state of a widget that is not disposed, with a page that is ready and shown: if the page
-- answers each call and acknowledges each write, then after as many answers as `answers_left`
-- counts, or more, the drain rests, no output is queued, the session is not held back, and what was
-- queued has been written, in order, behind what was written before.
pub widget_run-answered :
    (session : Scrollback) (actions : List WidgetAction) (n : ℕ)
    → IsOpen (widget_run actions (initialize session created))
    → answers_left (widget_run actions (initialize session created)) ≤ n
    → let w = widget_run actions (initialize session created) in
      let v = answered n w in
      (v.drain ≡ at_rest)
      × (v.output ≡ [])
      × (v.backpressured ≡ false)
      × (written v.sent ≡ written w.sent ++ queued_bytes w.output)
widget_run-answered session actions n o fits =
    let w = widget_run actions (initialize session created) in
    let v = answered n w in
    let s = answered-Settles n w o fits in
    let awake = answered-keeps IsAwake step-IsAwake n w (widget_run-IsAwake session actions) in
    let paced = answered-keeps IsPaced step-IsPaced n w (widget_run-IsPaced session actions) in
    let e = is_empty_lem v.output (no_output v s.opens s.rests awake) in
    (
      s.rests,
      e,
      released v paced e,
      sym (ap (λ x. written v.sent ++ queued_bytes x) e ∙ append-nil (written v.sent))
          ∙ s.same_total,
    )
