-- ===== src/Step/Direct.antt =====
-- `directInput` messages come from `sendKey`, and from nothing else.
use termethis.Base.{
  ◌≡◌, refl, ap, ◌∙◌, ◌++◌, Bool, true, false, Option, none, some, List, [], ◌∷◌, ◌&&◌, not, Text,
  if_elim, arith, All,
}
use termethis.Browser.{Browser, Call, Event, on_data, on_resize, on_title, on_osc133}
use termethis.Key.{special_key_sequence}
use termethis.Page.{Page, Outcome, Message, posted, called, log, post, handle, handle_all, perform}
use termethis.Page.Effects.{is_callback_message, seen-post-none, seen-post-some, seen-log-none}
use termethis.Page.Frame.{post-Same}
use termethis.Startup.{
  boot, initial, load_graphemes, load_webgl, WebglStart, loaded, not_created, not_loaded,
}
use termethis.Api.{dispatch_key, send_key}
use termethis.Step.{Action, step, run, calls_send_key}
use termethis.Step.Frame.{IsFrame, is_key_action}
use termethis.Step.Whole.{step-keeps_but_keys}
use termethis.Step.Input.{input_of, direct_of, inputs, direct_inputs, run-Undispatched}

direct_skips :
    (F : Type 0) (m : Message) → is_callback_message m ≡ false → direct_of {F = F} (posted m) ≡ none
direct_skips F (Message.direct_input t) h = cc
direct_skips F _ h = refl

module _ ⦃b : Browser⦄ where
  -- Without a key that is being dispatched, nothing is sent as `directInput`.
  abbrev Plain : Page b → Page b → Type 0
  Plain p q =
      p.dispatching_special_key ≡ false
      → (q.dispatching_special_key ≡ false) × (direct_inputs q ≡ direct_inputs p)

  Plain-trans : (p q r : Page b) → Plain p q → Plain q r → Plain p r
  Plain-trans p q r h k d = let (dq, iq) = h d in let (dr, ir) = k dq in (dr, ir ∙ iq)

  post-Plain :
      (m : Message) (p : Page b) → direct_of {F = b.F} (posted m) ≡ none → Plain p (post m p)
  post-Plain m p h d = ((post-Same m p).same_dispatching ∙ d, seen-post-none direct_of m p h)

  handle-Plain : (e : Event b.F) (p : Page b) → Plain p (handle e p)
  handle-Plain (on_data now t) p d =
      unfold handle in
      if_elim
        (λ (q : Page b). (q.dispatching_special_key ≡ false) × (direct_inputs q ≡ direct_inputs p))
        (p.active && not p.disposed)
        (λ live.
          if_elim
            (λ (m : Message).
              let q = post m (record p { last_input_at = now }) in
              (q.dispatching_special_key ≡ false) × (direct_inputs q ≡ direct_inputs p))
            p.dispatching_special_key (λ key. cc)
            (λ _. post-Plain (Message.input t) (record p { last_input_at = now }) refl d))
        (λ _. (d, refl))
  handle-Plain (on_resize cols rows) p d =
      unfold handle in post-Plain (Message.resize cols rows) p refl d
  handle-Plain (on_title t) p d = unfold handle in post-Plain (Message.title t) p refl d
  handle-Plain (on_osc133 t buffer) p d = unfold handle in (d, refl)

  handle_all-Plain : (es : List (Event b.F)) (p : Page b) → Plain p (handle_all es p)
  unfolding handle_all
  handle_all-Plain [] p d = (d, refl)
  handle_all-Plain (e ∷ es) p d =
      Plain-trans p (handle e p) (handle_all es (handle e p)) (handle-Plain e p)
        (handle_all-Plain es (handle e p)) d

  perform-Plain : (c : Call b.F) (p : Page b) → Plain p (perform c p).page
  unfolding perform
  perform-Plain c p d =
      let r = b.apply c p.screen in
      let q = record (log (called c) p) { screen = r.screen } in
      let (dq, iq) = handle_all-Plain r.events q (unfold log in d) in
      (dq, iq ∙ seen-log-none direct_of (called c) p refl)

  Plain-frame : IsFrame Plain
  Plain-frame = record {
    keeps_refl = λ p d. (d, refl);
    keeps_trans = Plain-trans;
    keeps_perform = λ c e p. perform-Plain c p;
    keeps_post = λ m e k p. post-Plain m p (direct_skips b.F m k);
    keeps_events = λ screen es p d. handle_all-Plain es (record p { screen = screen }) d;
    keeps_flags = λ i a p d. (d, refl);
    keeps_active = λ v p d. (d, refl);
    keeps_dispose = λ p d. (d, refl);
    keeps_request = λ p on d. (d, refl);
    keeps_take = λ n p d. (d, refl);
    keeps_gesture = λ g p d. (d, refl);
    keeps_renderer = λ t p d. (d, refl);
  }

  step-Plain : (a : Action b) (p : Page b) → is_key_action a ≡ false → Plain p (step a p)
  step-Plain =
      step-keeps_but_keys Plain Plain-frame perform-Plain
        (λ m k p. post-Plain m p (direct_skips b.F m k)) (λ c p d. (d, refl))

  run-Plain :
      (actions : List (Action b)) (p : Page b)
      → All (λ a. is_key_action a ≡ false) actions
      → Plain p (run actions p)
  unfolding run
  run-Plain [] p h d = (d, refl)
  run-Plain (a ∷ rest) p h d =
      Plain-trans p (step a p) (run rest (step a p)) (step-Plain a p h.0)
        (run-Plain rest (step a p) h.1) d

  boot_undispatched :
      (screen : b.Screen) (g : Option Text) (w : WebglStart)
      → (boot screen g w).dispatching_special_key ≡ false
  unfolding boot initial load_graphemes load_webgl
  boot_undispatched screen none loaded = refl
  boot_undispatched screen none (not_created e) = (post-Same _ _).same_dispatching
  boot_undispatched screen none (not_loaded e) = (post-Same _ _).same_dispatching
  boot_undispatched screen (some t) loaded = (post-Same _ _).same_dispatching
  boot_undispatched screen (some t) (not_created e) =
      (post-Same _ _).same_dispatching ∙ (post-Same _ _).same_dispatching
  boot_undispatched screen (some t) (not_loaded e) =
      (post-Same _ _).same_dispatching ∙ (post-Same _ _).same_dispatching

  -- After any run from the start of the page, whatever was thrown on the way, the flag of
  -- `sendKey` is down, and a further run without `sendKey` sends nothing as `directInput`.
  pub direct_input_needs_key :
      (screen : b.Screen) (g : Option Text) (w : WebglStart) (before after : List (Action b))
      → All (λ a. is_key_action a ≡ false) after
      → let p = run before (boot screen g w) in
        (p.dispatching_special_key ≡ false) × (direct_inputs (run after p) ≡ direct_inputs p)
  direct_input_needs_key screen g w before after h =
      let p = run before (boot screen g w) in
      let down = run-Undispatched before (boot screen g w) (boot_undispatched screen g w) in
      (down, (run-Plain after p h down).1)

  -- The answer of `input` while a key is being dispatched.
  echoed :
      (t : Text) (now : b.F) (p : Page b)
      → b.has_channel ≡ true
      → p.active ≡ true
      → p.disposed ≡ false
      → let q = handle (on_data now t) (record p { dispatching_special_key = true }) in
        inputs q ≡ inputs p ++ (true, t) ∷ []
  unfolding handle
  echoed t now p h on live =
      if_elim (λ (q : Page b). inputs q ≡ inputs p ++ (true, t) ∷ []) (p.active && not p.disposed)
        (λ _.
          seen-post-some input_of (Message.direct_input t)
            (record p { dispatching_special_key = true; last_input_at = now }) (true, t) h refl)
        (λ off. ground arith)

  dispatch_key-inputs :
      (t : Text) (now : b.F) (p : Page b)
      → b.has_channel ≡ true
      → p.active ≡ true
      → p.disposed ≡ false
      → (b.apply (Call.input t true) p.screen).events ≡ on_data now t ∷ []
      → inputs (dispatch_key t p).page ≡ inputs p ++ (true, t) ∷ []
  unfolding dispatch_key perform handle_all log
  dispatch_key-inputs t now p h on live echo =
      let r = b.apply (Call.input t true) p.screen in
      let q = record p {
        effects = p.effects ++ called (Call.input t true) ∷ [];
        screen = r.screen;
      } in
      rw echo (
        echoed t now q h on live
        ∙ ap (λ x. x ++ (true, t) ∷ [])
            (unfold log in seen-log-none input_of (called (Call.input t true)) p refl))

  send_key-inputs :
      (key : Text) (control alt : Bool) (sequence : Text) (now : b.F) (p : Page b)
      → b.has_channel ≡ true
      → p.active ≡ true
      → p.disposed ≡ false
      → special_key_sequence key control alt p.screen ≡ some sequence
      → (b.apply (Call.input sequence true) p.screen).events ≡ on_data now sequence ∷ []
      → inputs (send_key key control alt p).page ≡ inputs p ++ (true, sequence) ∷ []
  unfolding send_key
  send_key-inputs key control alt sequence now p h on live seq echo =
      rw (seq, send_key)
        (if_elim (λ (o : Outcome b). inputs o.page ≡ inputs p ++ (true, sequence) ∷ []) p.active
          (λ _. dispatch_key-inputs sequence now p h on live echo) (λ off. cc))

  -- A key that has a sequence, on a page with a channel that is active and not disposed, with an
  -- emulator that answers `input` by one call of `onData` with the same text: the page sends that
  -- sequence, as `directInput`, and no other input, even if `input` throws behind it.
  pub send_key_sends :
      (key : Text) (control alt : Bool) (sequence : Text) (now : b.F) (p : Page b)
      → b.has_channel ≡ true
      → p.active ≡ true
      → p.disposed ≡ false
      → special_key_sequence key control alt p.screen ≡ some sequence
      → (b.apply (Call.input sequence true) p.screen).events ≡ on_data now sequence ∷ []
      → inputs (step (calls_send_key key control alt) p) ≡ inputs p ++ (true, sequence) ∷ []
  unfolding step
  send_key_sends = send_key-inputs
