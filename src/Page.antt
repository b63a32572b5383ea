-- ===== src/Page.antt =====
-- The state of the page of tool/web_terminal/src/terminal.js: its module-level variables, the calls
-- that it has made and the messages that it has posted, and the callbacks of xterm.js.
pub mod Effects
pub mod Frame
use termethis.Base.{
  ℕ, ◌+◌, ◌≡◌, Bool, true, false, Option, none, some, List, [], ◌∷◌, ◌++◌, ◌&&◌, not, if◌then◌else◌,
  Text,
}
use termethis.Browser.{Browser, Call, Event, on_data, on_resize, on_title, on_osc133, Fired}
use termethis.Prompt.{Prompt, osc133}

-- What `post` hands to the application, by its `type`.
pub data Message : Type 0 where
  fatal : Text → Message
  unicode_fallback : Text → Message
  renderer : Text → Message
  renderer_error : Text → Message
  input : Text → Message
  direct_input : Text → Message
  resize : ℕ → ℕ → Message
  title : Text → Message
  write_ack : ℕ → Message
  -- id, throughSequence, the data in base64
  snapshot : ℕ → ℕ → Text → Message
  snapshot_error : ℕ → Text → Message
  ready : Text → ℕ → ℕ → Message

pub data Effect (F : Type 0) : Type 0 where
  posted : Message → Effect F
  called : Call F → Effect F

-- `interaction`
pub record Interaction : Type 0 where
  pub mouse_input : Bool
  pub long_press_right_click : Bool
  pub tap_to_move_prompt_cursor : Bool

-- What the write chain is made of: enqueueWrite(value, reset, id) and
-- requestSnapshot(id, throughSequence, scrollback).
pub data Job : Type 0 where
  write_job : Text → Bool → ℕ → Job
  snapshot_job : ℕ → ℕ → ℕ → Job

-- The local variables of a write that waits for a promise: for the callback of `terminal.write`,
-- or, with `in_frame`, for an animation frame.
pub record Running (F : Type 0) : Type 0 where
  pub bytes : List ℕ
  pub offset : ℕ
  pub has_reset : Bool
  pub follow_output : Bool
  pub id : ℕ
  pub slice_started_at : F
  pub in_frame : Bool

-- `writeChain`: the job that has begun, and those behind it.
pub record Chain (F : Type 0) : Type 0 where
  pub running : Option (Running F)
  pub jobs : List Job

pub record PointerEvent (F : Type 0) : Type 0 where
  pub is_touch : Bool
  pub client_x : F
  pub client_y : F

-- `pointerStart`, `longPressTimer`, `longPressSent`, and the timers that have not fired.
pub record Gesture (F : Type 0) : Type 0 where
  pub pointer_start : Option (F × F)
  pub long_press_timer : Option ℕ
  pub long_press_sent : Bool
  pub timers : List (ℕ × PointerEvent F)
  pub next_timer : ℕ

-- `resizeFrame`, the animation frames that wait to call `fit`, and whether the observer is connected.
pub record Layout : Type 0 where
  pub resize_frame : Option ℕ
  pub frames : List ℕ
  pub next_frame : ℕ
  pub observing : Bool

pub record Page (b : Browser) : Type 0 where
  pub screen : b.Screen
  pub effects : List (Effect b.F)
  pub active : Bool
  pub disposed : Bool
  pub dispatching_special_key : Bool
  pub chain : Chain b.F
  pub last_input_at : b.F
  pub prompt : Prompt
  pub agent_mode : Bool
  pub interaction : Interaction
  pub has_webgl : Bool
  pub renderer_name : Text
  pub gesture : Gesture b.F
  pub layout : Layout

-- A statement that may throw: the page behind it, and the exception.
pub record Outcome (b : Browser) : Type 0 where
  pub page : Page b
  pub thrown : Option Text

abbrev pub Op : Browser → Type 0
Op b = Page b → Outcome b

module _ ⦃b : Browser⦄ where
  unfoldable pub log : Effect b.F → Page b → Page b
  log e p = record p { effects = p.effects ++ e ∷ [] }

  unfoldable pub post : Message → Page b → Page b
  unfolding log
  post m p = if b.has_channel then log (posted m) p else p

  -- The handlers of onData, onResize, onTitleChange and OSC 133.
  unfoldable pub handle : Event b.F → Page b → Page b
  handle (on_data now t) p =
      if p.active && not p.disposed
      then post (if p.dispatching_special_key then direct_input t else input t)
          (record p { last_input_at = now })
      else p
  handle (on_resize cols rows) p = post (resize cols rows) p
  handle (on_title t) p = post (title t) p
  handle (on_osc133 t buffer) p = record p { prompt = osc133 t buffer p.prompt }

  unfoldable pub handle_all : List (Event b.F) → Page b → Page b
  handle_all [] p = p
  handle_all (e ∷ es) p = handle_all es (handle e p)

  abbrev pub done : Op b
  done p = record { page = p; thrown = none }

  abbrev pub pure : (Page b → Page b) → Op b
  pure f p = done (f p)

  -- A call of xterm.js or the document, the callbacks that it makes included.
  unfoldable pub perform : Call b.F → Op b
  perform c p =
      let r = b.apply c p.screen in
      record {
        page = handle_all r.events (record (log (called c) p) { screen = r.screen });
        thrown = r.thrown;
      }

  -- One statement after another.
  infixl 5 ◌>>◌
  unfoldable pub ◌>>◌ : Op b → Op b → Op b
  ◌>>◌ m k p = let o = m p in elim o.thrown [ none ↦ k o.page | some e ↦ o ]
