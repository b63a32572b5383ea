-- ===== src/Step/Unseen.antt =====
-- The steps that are none of the write chain's leave the chain alone, acknowledge nothing and write
-- nothing.
use termethis.Base.{◌≡◌, refl, ◌∙◌, true, false, Option, none, Text}
use termethis.Browser.{Browser, Call}
use termethis.Page.{Page, Message, Effect, posted, called, perform}
use termethis.Page.Effects.{
  is_callback_message, seen, seen-post-none, seen-perform-none, seen-handle_all,
}
use termethis.Page.Frame.{
  post-Same, perform-Same, handle_all-Same, Grows, Grows-refl, Grows-trans, post-Grows,
  perform-Grows, handle_all-Grows,
}
use termethis.Api.{dispatch_key}
use termethis.Step.{Action, step, calls_send_key}
use termethis.Step.Frame.{is_writer_effect, is_writer_action, IsFrame}
use termethis.Step.Frame.Methods.{send_key-Keeps}
use termethis.Step.Frame.Actions.{step-Keeps}

module _ ⦃b : Browser⦄ {A : Type 0} (f : Effect b.F → Option A) where
  abbrev pub SkipsOthers : Type 0
  SkipsOthers = (e : Effect b.F) → is_writer_effect e ≡ false → f e ≡ none

  abbrev pub Unseen : Page b → Page b → Type 0
  Unseen p q =
      (q.chain ≡ p.chain)
      × (seen f q ≡ seen f p)
      × Grows p q
      × (p.disposed ≡ true → q.disposed ≡ true)

  module _ (skips : SkipsOthers) where
    skips_callbacks : (m : Message) → is_callback_message m ≡ true → f (posted m) ≡ none
    skips_callbacks (Message.input t) h = skips _ refl
    skips_callbacks (Message.direct_input t) h = skips _ refl
    skips_callbacks (Message.resize cols rows) h = skips _ refl
    skips_callbacks (Message.title t) h = skips _ refl
    skips_callbacks _ h = cc

    perform-Unseen :
        (c : Call b.F)
        → is_writer_effect (called c) ≡ false
        → (p : Page b) → Unseen p (perform c p).page
    perform-Unseen c h p = (
      (perform-Same c p).same_chain,
      seen-perform-none f skips_callbacks c p (skips _ h),
      perform-Grows c p,
      λ d. (perform-Same c p).same_disposed ∙ d,
    )

    Unseen-frame : IsFrame Unseen
    Unseen-frame = record {
      keeps_refl = λ p. (refl, refl, Grows-refl p, λ d. d);
      keeps_trans =
          λ p q r h k. (k.0 ∙ h.0, k.1 ∙ h.1, Grows-trans p q r h.2 k.2, λ d. k.3 (h.3 d));
      keeps_perform = perform-Unseen;
      keeps_post = λ m h _ p. (
        (post-Same m p).same_chain,
        seen-post-none f m p (skips _ h),
        post-Grows m p,
        λ d. (post-Same m p).same_disposed ∙ d,
      );
      keeps_events = λ screen es p. (
        (handle_all-Same es (record p { screen = screen })).same_chain,
        seen-handle_all f skips_callbacks es (record p { screen = screen }),
        handle_all-Grows es (record p { screen = screen }),
        λ d. (handle_all-Same es (record p { screen = screen })).same_disposed ∙ d,
      );
      keeps_flags = λ i a p. (refl, refl, Grows-refl p, λ d. d);
      keeps_active = λ v p. (refl, refl, Grows-refl p, λ d. d);
      keeps_dispose = λ p. (refl, refl, Grows-refl p, λ d. refl);
      keeps_request = λ p on. (refl, refl, Grows-refl p, λ d. d);
      keeps_take = λ n p. (refl, refl, Grows-refl p, λ d. d);
      keeps_gesture = λ g p. (refl, refl, Grows-refl p, λ d. d);
      keeps_renderer = λ t p. (refl, refl, Grows-refl p, λ d. d);
    }

    dispatch_key-Unseen : (t : Text) (p : Page b) → Unseen p (dispatch_key t p).page
    unfolding dispatch_key
    dispatch_key-Unseen t p =
        perform-Unseen (Call.input t true) refl (record p { dispatching_special_key = true })

    -- Whatever else happens on the page, the write chain and what it has done stay as they are.
    pub step-Unseen : (a : Action b) (p : Page b) → is_writer_action a ≡ false → Unseen p (step a p)
    unfolding step
    step-Unseen (calls_send_key key control alt) p h =
        send_key-Keeps Unseen Unseen-frame dispatch_key-Unseen key control alt p
    step-Unseen a p h = step-Keeps Unseen Unseen-frame a p h refl
