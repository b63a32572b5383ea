-- ===== src/Api.antt =====
-- `window.termethisTerminal` of tool/web_terminal/src/terminal.js, the object that the application
-- calls.
pub mod Texts
use termethis.Base.{
  ℕ, Bool, true, false, none, some, [], if◌then◌else◌, Text, codes, Result, ok, throws,
}
use termethis.Base.Int.{ℤ, fin}
use termethis.Browser.{Browser, Call, of_whole}
use termethis.Codec.{decode_base64_text, encode_base64}
use termethis.Key.{special_key_sequence}
use termethis.Page.{Page, Interaction, write_job, snapshot_job, Op, done, pure, perform, ◌>>◌}
use termethis.Prompt.{is_empty}
use termethis.Fit.{fit, disconnect}
use termethis.Writer.{enqueue}

-- The values that the tests of setOptions tell apart.
pub data JsValue (F : Type 0) : Type 0 where
  undefined : JsValue F
  boolean : Bool → JsValue F
  integer : ℤ → JsValue F
  -- a finite number that is no integer
  fraction : F → JsValue F
  non_finite : F → JsValue F
  string : Text → JsValue F
  -- null, arrays and objects
  other : JsValue F

pub record Options (F : Type 0) : Type 0 where
  pub scrollback : JsValue F
  pub font_family : JsValue F
  pub font_size : JsValue F
  pub mouse_input : JsValue F
  pub long_press_right_click : JsValue F
  pub tap_to_move_prompt_cursor : JsValue F
  pub agent_mode : JsValue F

-- `value === true`
unfoldable pub is_true : {F : Type 0} → JsValue F → Bool
is_true (boolean x) = x
is_true v = false

module _ ⦃b : Browser⦄ where
  -- try { … } finally { dispatchingSpecialKey = false; }
  unfoldable pub dispatch_key : Text → Op b
  dispatch_key sequence p =
      let o = perform (Call.input sequence true) (record p { dispatching_special_key = true }) in
      record o { page = record (o.page) { dispatching_special_key = false } }

  unfoldable pub send_key : Text → Bool → Bool → Op b
  unfolding dispatch_key
  send_key key control alt p = elim (special_key_sequence key control alt p.screen) [
    | none ↦ done p
    | some sequence ↦ if p.active then dispatch_key sequence p else done p
  ]

  unfoldable pub paste_base64 : Text → Op b
  paste_base64 value p = elim (decode_base64_text value) [
    | ok t ↦ perform (Call.paste t) p
    | throws e ↦ record { page = p; thrown = some e }
  ]

  unfoldable pub set_scrollback : JsValue b.F → Op b
  set_scrollback (integer z) = perform (Call.set_scrollback z)
  set_scrollback v = done

  -- `webglAddon?.clearTextureAtlas()`
  unfoldable pub clear_atlas : Op b
  clear_atlas p = if p.has_webgl then perform Call.clear_texture_atlas p else done p

  unfoldable pub set_font_family : JsValue b.F → Op b
  unfolding clear_atlas
  set_font_family (string t) = perform (Call.set_font_family t) >> clear_atlas
  set_font_family v = done

  unfoldable pub set_font_size : JsValue b.F → Op b
  set_font_size (integer z) = perform (Call.set_font_size (of_whole b (fin z)))
  set_font_size (fraction x) = perform (Call.set_font_size x)
  set_font_size v = done

  unfoldable pub read_interaction : Options b.F → Interaction
  unfolding is_true
  read_interaction options = record {
    mouse_input = is_true options.mouse_input;
    long_press_right_click = is_true options.long_press_right_click;
    tap_to_move_prompt_cursor = is_true options.tap_to_move_prompt_cursor;
  }

  -- What setOptions does with the flags, up to its call of `fit`.
  unfoldable pub set_flags : Options b.F → Op b
  unfolding read_interaction is_true
  set_flags options =
      pure (λ p. record p {
        interaction = read_interaction options;
        agent_mode = is_true options.agent_mode;
      })
      >> (if is_true options.agent_mode then perform Call.scroll_viewport_left else done)
      >> perform (
          Call.set_touch_action
            (if is_true options.mouse_input then codes "none" else codes "pan-x pan-y"))

  unfoldable pub set_options : Options b.F → Op b
  unfolding set_scrollback set_font_family set_font_size set_flags
  set_options options =
      set_scrollback options.scrollback
      >> set_font_family options.font_family
      >> set_font_size options.font_size
      >> set_flags options
      >> fit

  -- It changes no state.
  unfoldable pub copy_last_output_base64 : Page b → Result Text
  copy_last_output_base64 p =
      if is_empty p.prompt.last_output then ok [] else encode_base64 p.prompt.last_output

  unfoldable pub focus : Op b
  focus p = if p.active then perform Call.focus p else done p

  unfoldable pub set_active : JsValue b.F → Op b
  unfolding is_true
  set_active value =
      pure (λ p. record p { active = is_true value })
      >> perform (Call.set_cursor_blink (is_true value))
      >> (if is_true value then fit >> perform Call.focus else perform Call.blur)

  unfoldable pub write_base64 : Text → Bool → ℕ → Op b
  write_base64 value reset id = pure (enqueue (write_job value reset id))

  unfoldable pub request_snapshot : ℕ → ℕ → ℕ → Op b
  request_snapshot id through_sequence scrollback =
      pure (enqueue (snapshot_job id through_sequence scrollback))

  unfoldable pub dispose : Op b
  dispose =
      pure (λ p. record p { disposed = true; layout = disconnect p.layout })
      >> perform Call.dispose_terminal
