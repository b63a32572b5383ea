-- ===== src/Step/Frame.antt =====
-- A relation between the pages before and behind, carried over the steps of the page that are none
-- of the write chain's, whatever they throw.
pub mod Methods
pub mod Pointers
pub mod Actions
use termethis.Base.{
  ℕ, ◌≡◌, refl, Bool, true, false, List, not, ◌&&◌, ◌||◌, if◌then◌else◌, Text, codes, Result, ok,
  throws, if_elim, Option-cases, inl, inr,
}
use termethis.Base.Int.{Whole, whole_eq}
use termethis.Browser.{Browser, Call, Event}
use termethis.Codec.{decode_base64_text}
use termethis.Key.{special_key_sequence}
use termethis.Page.{
  Page, Message, Interaction, Gesture, Effect, posted, called, PointerEvent, Op, Outcome, done,
  pure, post, perform, handle_all, ◌>>◌,
}
use termethis.Page.Effects.{is_callback_message}
use termethis.Page.Frame.{>>-keeps}
use termethis.Fit.{
  request_frame, take_frame, disconnect, fit, wide_width, widen, is_hidden, observe_resize,
  resize_frame_fires, is_pending,
}
use termethis.Pointer.{
  dispatch_mouse, start_press, pointer_down, pointer_up, pointer_cancel, timer_fires, move_by,
  prompt_delta, has_moved, find_timer, remove_timer, clear_long_press, repeat_count, tap,
}
use termethis.Startup.{callback, context_lost, fonts_ready, report_error, post_ready}
use termethis.Api.{
  JsValue, Options, send_key, dispatch_key, paste_base64, set_scrollback, set_font_family,
  set_font_size, set_flags, clear_atlas, set_options, focus, set_active, dispose, is_true,
  read_interaction,
}
use termethis.Step.{
  Action, step, calls_write, calls_paste, calls_send_key, calls_set_options, calls_fit, calls_focus,
  calls_set_active, calls_request_snapshot, calls_dispose, emulator, context_loss, next_job, parsed,
  frame, resized, resize_frame, fonts, press, release, cancel, timer, window_error,
}

-- What only the write chain does.
abbrev pub is_writer_effect : {F : Type 0} → Effect F → Bool
is_writer_effect (posted (Message.write_ack id)) = true
is_writer_effect (called (Call.write bytes)) = true
is_writer_effect _ = false

abbrev pub is_writer_action : {b : Browser} → Action b → Bool
is_writer_action (calls_write value reset id) = true
is_writer_action (calls_request_snapshot id sequence scrollback) = true
is_writer_action (next_job now) = true
is_writer_action (parsed now) = true
is_writer_action (frame now) = true
is_writer_action _ = false

abbrev pub is_key_action : {b : Browser} → Action b → Bool
is_key_action (calls_send_key key control alt) = true
is_key_action _ = false

-- What a relation between the pages before and behind has to hold for, to hold over every step but
-- those of the write chain and `sendKey`.
module _ ⦃b : Browser⦄ where
  pub record IsFrame (R : Page b → Page b → Type 0) : Type 0 where
    pub keeps_refl : (p : Page b) → R p p
    pub keeps_trans : (p q r : Page b) → R p q → R q r → R p r
    pub keeps_perform :
        (c : Call b.F) → is_writer_effect (called c) ≡ false → (p : Page b) → R p (perform c p).page
    pub keeps_post :
        (m : Message)
        → is_writer_effect {F = b.F} (posted m) ≡ false
        → is_callback_message m ≡ false
        → (p : Page b) → R p (post m p)
    pub keeps_events :
        (screen : b.Screen) (es : List (Event b.F)) (p : Page b)
        → R p (handle_all es (record p { screen = screen }))
    pub keeps_flags :
        (i : Interaction) (a : Bool) (p : Page b)
        → R p (record p { interaction = i; agent_mode = a })
    pub keeps_active : (v : Bool) (p : Page b) → R p (record p { active = v })
    pub keeps_dispose :
        (p : Page b) → R p (record p { disposed = true; layout = disconnect p.layout })
    pub keeps_request :
        (p : Page b)
        → p.layout.observing ≡ true
        → R p (record p { layout = request_frame p.layout })
    pub keeps_take : (n : ℕ) (p : Page b) → R p (record p { layout = take_frame n p.layout })
    pub keeps_gesture : (g : Gesture b.F) (p : Page b) → R p (record p { gesture = g })
    pub keeps_renderer : (t : Text) (p : Page b) → R p (record p { renderer_name = t })

module _ ⦃b : Browser⦄ (R : Page b → Page b → Type 0) (fr : IsFrame R) where
  pub then-Keeps :
      (m k : Op b)
      → ((p : Page b) → R p (m p).page)
      → ((p : Page b) → R p (k p).page)
      → (p : Page b) → R p ((m >> k) p).page
  then-Keeps m k = >>-keeps R m k fr.keeps_trans

  -- A statement under a test.
  pub if-Keeps :
      (c : Bool) (m : Op b)
      → ((p : Page b) → R p (m p).page)
      → (p : Page b) → R p ((if c then m else done) p).page
  if-Keeps true m h p = h p
  if-Keeps false m h p = fr.keeps_refl p

  pub widen-Keeps : (p : Page b) → R p (widen p).page
  unfolding widen
  widen-Keeps p = elim (Option-cases (wide_width p)) [
    | inl e ↦ rw (e, widen) (fr.keeps_refl p)
    | inr (w, e) ↦ rw (e, widen) (fr.keeps_perform (Call.set_host_width w) refl p)
  ]

  pub fit-Keeps : (p : Page b) → R p (fit p).page
  unfolding fit
  fit-Keeps p =
      if_elim (λ (o : Outcome b). R p o.page) (is_hidden p) (λ _. fr.keeps_refl p)
        (λ _.
          then-Keeps _ _ (then-Keeps _ _ (fr.keeps_perform _ refl) widen-Keeps)
            (fr.keeps_perform _ refl) p)

  pub report_error-Keeps : (e : Text) (p : Page b) → R p (report_error e p)
  unfolding report_error
  report_error-Keeps e p = fr.keeps_post _ refl refl p

  pub callback-Keeps :
      (m : Op b) → ((p : Page b) → R p (m p).page) → (p : Page b) → R p (callback m p)
  unfolding callback
  callback-Keeps m h p = elim (Option-cases (m p).thrown) [
    | inl e ↦ rw (e, callback) (h p)
    | inr (err, e) ↦
        rw (e, callback)
          (fr.keeps_trans p (m p).page (report_error err (m p).page) (h p)
            (report_error-Keeps err (m p).page))
  ]
