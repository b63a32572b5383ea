-- ===== src/Step/Frame/Actions.antt =====
-- The relation over every action that is neither of the write chain nor a key.
use termethis.Base.{ℕ, ◌≡◌, refl, false, codes, if_elim, Option-cases, inl, inr}
use termethis.Browser.{Browser, Call}
use termethis.Page.{Page, Message, Outcome, pure, post, perform, ◌>>◌}
use termethis.Fit.{take_frame, fit, observe_resize, resize_frame_fires, is_pending}
use termethis.Startup.{context_lost, fonts_ready, post_ready}
use termethis.Step.{
  Action, step, calls_write, calls_paste, calls_send_key, calls_set_options, calls_fit, calls_focus,
  calls_set_active, calls_request_snapshot, calls_dispose, emulator, context_loss, next_job, parsed,
  frame, resized, resize_frame, fonts, press, release, cancel, timer, window_error,
}
use termethis.Step.Frame.{
  is_writer_action, is_key_action, IsFrame, then-Keeps, fit-Keeps, report_error-Keeps,
  callback-Keeps,
}
use termethis.Step.Frame.Methods.{
  focus-Keeps, paste-Keeps, set_options-Keeps, set_active-Keeps, dispose-Keeps,
}
use termethis.Step.Frame.Pointers.{
  pointer_down-Keeps, pointer_up-Keeps, timer_fires-Keeps, pointer_cancel-Keeps,
}

module _ ⦃b : Browser⦄ (R : Page b → Page b → Type 0) (fr : IsFrame R) where
  pub fonts_ready-Keeps : (p : Page b) → R p (fonts_ready p)
  unfolding fonts_ready
  fonts_ready-Keeps p =
      let start = fit >> perform Call.focus >> pure post_ready in
      let h : R p (start p).page =
        (then-Keeps R fr) _ _ ((then-Keeps R fr) _ _ (fit-Keeps R fr) (fr.keeps_perform _ refl))
          (λ q. fr.keeps_post _ refl refl q) p in
      elim (Option-cases (start p).thrown) [
        | inl e ↦ rw (e, fonts_ready) h
        | inr (err, e) ↦
            rw (e, fonts_ready)
              (fr.keeps_trans p (start p).page (post (Message.fatal err) (start p).page) h
                (fr.keeps_post (Message.fatal err) refl refl (start p).page))
      ]

  pub resize_frame-Keeps : (n : ℕ) (p : Page b) → R p (resize_frame_fires n p).page
  unfolding resize_frame_fires
  resize_frame-Keeps n p =
      let q = record p { layout = take_frame n p.layout } in
      if_elim (λ (o : Outcome b). R p o.page) (is_pending n p.layout.frames)
        (λ _. fr.keeps_trans p q (fit q).page (fr.keeps_take n p) ((fit-Keeps R fr) q))
        (λ _. fr.keeps_refl p)

  pub observe_resize-Keeps : (p : Page b) → R p (observe_resize p)
  unfolding observe_resize
  observe_resize-Keeps p =
      if_elim (λ (q : Page b). R p q) p.layout.observing (fr.keeps_request p) (λ _. fr.keeps_refl p)

  pub context_lost-Keeps : (p : Page b) → R p (context_lost p).page
  unfolding context_lost
  context_lost-Keeps = (then-Keeps R fr) _ _ (fr.keeps_perform _ refl) (λ p.
      let q = record p { renderer_name = codes "dom" } in
      fr.keeps_trans p q (post (Message.renderer (codes "dom")) q)
        (fr.keeps_renderer (codes "dom") p)
        (fr.keeps_post (Message.renderer (codes "dom")) refl refl q))

  -- Every step but `sendKey` and those of the write chain keeps the relation.
  pub step-Keeps :
      (a : Action b) (p : Page b)
      → is_writer_action a ≡ false
      → is_key_action a ≡ false
      → R p (step a p)
  unfolding step
  step-Keeps (calls_write value reset id) p h k = cc
  step-Keeps (calls_paste value) p h k = (paste-Keeps R fr) value p
  step-Keeps (calls_send_key key control alt) p h k = cc
  step-Keeps (calls_set_options options) p h k = (set_options-Keeps R fr) options p
  step-Keeps calls_fit p h k = (fit-Keeps R fr) p
  step-Keeps calls_focus p h k = (focus-Keeps R fr) p
  step-Keeps (calls_set_active value) p h k = (set_active-Keeps R fr) value p
  step-Keeps (calls_request_snapshot id sequence scrollback) p h k = cc
  step-Keeps calls_dispose p h k = (dispose-Keeps R fr) p
  step-Keeps (emulator screen events) p h k = fr.keeps_events screen events p
  step-Keeps context_loss p h k = (callback-Keeps R fr) _ context_lost-Keeps p
  step-Keeps (next_job now) p h k = cc
  step-Keeps (parsed now) p h k = cc
  step-Keeps (frame now) p h k = cc
  step-Keeps resized p h k = observe_resize-Keeps p
  step-Keeps (resize_frame n) p h k = (callback-Keeps R fr) _ (resize_frame-Keeps n) p
  step-Keeps fonts p h k = fonts_ready-Keeps p
  step-Keeps (press event) p h k = (callback-Keeps R fr) _ ((pointer_down-Keeps R fr) event) p
  step-Keeps (release event) p h k = (callback-Keeps R fr) _ ((pointer_up-Keeps R fr) event) p
  step-Keeps cancel p h k = (pointer_cancel-Keeps R fr) p
  step-Keeps (timer n) p h k = (callback-Keeps R fr) _ ((timer_fires-Keeps R fr) n) p
  step-Keeps (window_error e) p h k = (report_error-Keeps R fr) e p
