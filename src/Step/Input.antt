-- ===== src/Step/Input.antt =====
-- Which input the page sends on to the application, and under which type.
use termethis.Base.{
  ◌≡◌, refl, ◌∙◌, Bool, true, false, Option, none, some, List, [], ◌∷◌, ◌&&◌, not, Text, if_elim,
  arith,
}
use termethis.Browser.{Browser, Call, Event, on_data, on_resize, on_title, on_osc133}
use termethis.Page.{Page, Message, Effect, posted, called, log, post, handle, handle_all, perform}
use termethis.Page.Effects.{is_callback_message, seen, seen-post-none, seen-log-none}
use termethis.Page.Frame.{post-Same, perform-Same, handle_all-Same}
use termethis.Api.{dispatch_key}
use termethis.Step.{Action, step, run}
use termethis.Step.Frame.{IsFrame}
use termethis.Step.Whole.{step-keeps_any}

-- The input messages with their text; the flag says `directInput`.
abbrev pub input_of : {F : Type 0} → Effect F → Option (Bool × Text)
input_of (posted (Message.input t)) = some (false, t)
input_of (posted (Message.direct_input t)) = some (true, t)
input_of _ = none

abbrev pub direct_of : {F : Type 0} → Effect F → Option Text
direct_of (posted (Message.direct_input t)) = some t
direct_of _ = none

abbrev is_input : Message → Bool
is_input (Message.input t) = true
is_input (Message.direct_input t) = true
is_input _ = false

no_input : (F : Type 0) (m : Message) → is_input m ≡ false → input_of {F = F} (posted m) ≡ none
no_input F (Message.input t) h = cc
no_input F (Message.direct_input t) h = cc
no_input F _ h = refl

module _ ⦃b : Browser⦄ where
  abbrev pub inputs : Page b → List (Bool × Text)
  inputs = seen input_of

  abbrev pub direct_inputs : Page b → List Text
  direct_inputs = seen direct_of

  -- No key is being dispatched between the steps.
  abbrev Undispatched : Page b → Page b → Type 0
  Undispatched p q = p.dispatching_special_key ≡ false → q.dispatching_special_key ≡ false

  Undispatched-frame : IsFrame Undispatched
  Undispatched-frame = record {
    keeps_refl = λ p h. h;
    keeps_trans = λ p q r h k e. k (h e);
    keeps_perform = λ c e p h. (perform-Same c p).same_dispatching ∙ h;
    keeps_post = λ m e _ p h. (post-Same m p).same_dispatching ∙ h;
    keeps_events =
        λ screen es p h. (handle_all-Same es (record p { screen = screen })).same_dispatching ∙ h;
    keeps_flags = λ i a p h. h;
    keeps_active = λ v p h. h;
    keeps_dispose = λ p h. h;
    keeps_request = λ p on h. h;
    keeps_take = λ n p h. h;
    keeps_gesture = λ g p h. h;
    keeps_renderer = λ t p h. h;
  }

  dispatch_key-Undispatched : (t : Text) (p : Page b) → Undispatched p (dispatch_key t p).page
  unfolding dispatch_key
  dispatch_key-Undispatched t p h = refl

  step-Undispatched : (a : Action b) (p : Page b) → Undispatched p (step a p)
  step-Undispatched =
      step-keeps_any Undispatched Undispatched-frame
        (λ c p h. (perform-Same c p).same_dispatching ∙ h)
        (λ m _ p h. (post-Same m p).same_dispatching ∙ h) (λ c p h. h) dispatch_key-Undispatched

  pub run-Undispatched : (actions : List (Action b)) (p : Page b) → Undispatched p (run actions p)
  unfolding run
  run-Undispatched [] p h = h
  run-Undispatched (a ∷ rest) p h = run-Undispatched rest (step a p) (step-Undispatched a p h)

  -- A disposed page stays disposed and sends no input.
  abbrev Silent : Page b → Page b → Type 0
  Silent p q = p.disposed ≡ true → (q.disposed ≡ true) × (inputs q ≡ inputs p)

  Silent-trans : (p q r : Page b) → Silent p q → Silent q r → Silent p r
  Silent-trans p q r h k d = let (dq, iq) = h d in let (dr, ir) = k dq in (dr, ir ∙ iq)

  post-Silent : (m : Message) (p : Page b) → is_input m ≡ false → Silent p (post m p)
  post-Silent m p h d =
      ((post-Same m p).same_disposed ∙ d, seen-post-none input_of m p (no_input b.F m h))

  handle-Silent : (e : Event b.F) (p : Page b) → Silent p (handle e p)
  handle-Silent (on_data now t) p d =
      unfold handle in
      if_elim (λ (q : Page b). (q.disposed ≡ true) × (inputs q ≡ inputs p))
        (p.active && not p.disposed) (λ live. ground arith) (λ _. (d, refl))
  handle-Silent (on_resize cols rows) p d =
      unfold handle in post-Silent (Message.resize cols rows) p refl d
  handle-Silent (on_title t) p d = unfold handle in post-Silent (Message.title t) p refl d
  handle-Silent (on_osc133 t buffer) p d = unfold handle in (d, refl)

  handle_all-Silent : (es : List (Event b.F)) (p : Page b) → Silent p (handle_all es p)
  unfolding handle_all
  handle_all-Silent [] p d = (d, refl)
  handle_all-Silent (e ∷ es) p d =
      Silent-trans p (handle e p) (handle_all es (handle e p)) (handle-Silent e p)
        (handle_all-Silent es (handle e p)) d

  perform-Silent : (c : Call b.F) (p : Page b) → Silent p (perform c p).page
  unfolding perform
  perform-Silent c p d =
      let r = b.apply c p.screen in
      let q = record (log (called c) p) { screen = r.screen } in
      let (dq, iq) = handle_all-Silent r.events q (unfold log in d) in
      (dq, iq ∙ seen-log-none input_of (called c) p refl)

  not_input : (m : Message) → is_callback_message m ≡ false → is_input m ≡ false
  not_input (Message.input t) h = cc
  not_input (Message.direct_input t) h = cc
  not_input _ h = refl

  Silent-frame : IsFrame Silent
  Silent-frame = record {
    keeps_refl = λ p d. (d, refl);
    keeps_trans = Silent-trans;
    keeps_perform = λ c e p. perform-Silent c p;
    keeps_post = λ m e k p. post-Silent m p (not_input m k);
    keeps_events = λ screen es p d. handle_all-Silent es (record p { screen = screen }) d;
    keeps_flags = λ i a p d. (d, refl);
    keeps_active = λ v p d. (d, refl);
    keeps_dispose = λ p d. (refl, refl);
    keeps_request = λ p on d. (d, refl);
    keeps_take = λ n p d. (d, refl);
    keeps_gesture = λ g p d. (d, refl);
    keeps_renderer = λ t p d. (d, refl);
  }

  dispatch_key-Silent : (t : Text) (p : Page b) → Silent p (dispatch_key t p).page
  unfolding dispatch_key
  dispatch_key-Silent t p d =
      perform-Silent (Call.input t true) (record p { dispatching_special_key = true }) d

  step-Silent : (a : Action b) (p : Page b) → Silent p (step a p)
  step-Silent =
      step-keeps_any Silent Silent-frame perform-Silent (λ m k p. post-Silent m p (not_input m k))
        (λ c p d. (d, refl)) dispatch_key-Silent

  -- From a disposed page, any run leaves the page disposed and sends no input, whatever xterm.js,
  -- the pointers or the application still do.
  pub disposed_sends_no_input :
      (actions : List (Action b)) (p : Page b)
      → p.disposed ≡ true
      → ((run actions p).disposed ≡ true) × (inputs (run actions p) ≡ inputs p)
  unfolding run
  disposed_sends_no_input [] p d = (d, refl)
  disposed_sends_no_input (a ∷ rest) p d =
      let (d', i) = step-Silent a p d in
      let (d'', i') = disposed_sends_no_input rest (step a p) d' in (d'', i' ∙ i)
