-- ===== src/Session.antt =====
-- SshSessionController of lib/features/terminal/application/ssh_session_controller.dart: the output
-- of the connection on its way to the terminal page, the input on its way back, and what the page's
-- backpressure does to the streams.
pub mod Connection
pub mod Run
pub mod Emits
pub mod Output
pub mod Replays
use termethis.Base.{
  none, Option, ℕ, suc, ◌+◌, ◌-◌, Bool, true, false, List, [], ◌∷◌, ◌++◌, ◌==◌, ◌&&◌, ◌||◌, not,
  ltb, leb, if◌then◌else◌, Text, length,
}
use termethis.Prompt.{is_empty}
use termethis.Scrollback.{
  Chunk, Scrollback, empty, maximum_buffered_bytes, add_pending, emit_pending, save_snapshot,
}

-- SshSessionStatus
pub data Status : Type 0 where
  idle connecting verifying_host authenticating opening_pty connected reconnect_prompt closing
        closed failed :
      Status

abbrev pub is_connected : Status → Bool
is_connected connected = true
is_connected _ = false

abbrev pub is_closed : Status → Bool
is_closed closed = true
is_closed _ = false

-- The states in which `connect` returns at once.
abbrev pub is_busy : Status → Bool
is_busy connecting = true
is_busy verifying_host = true
is_busy authenticating = true
is_busy opening_pty = true
is_busy connected = true
is_busy closing = true
is_busy _ = false

abbrev pub is_reconnect_prompt : Status → Bool
is_reconnect_prompt reconnect_prompt = true
is_reconnect_prompt _ = false

-- The failures that the modelled handlers report.
pub data Failure : Type 0 where
  network_lost remote_closed connect_failed : Failure

-- The calls on the connection and its two subscriptions, and of the listeners.
pub data SessionEffect : Type 0 where
  wrote : List ℕ → SessionEffect
  resized : ℕ → ℕ → SessionEffect
  paused_output : SessionEffect
  resumed_output : SessionEffect
  cancelled_output : SessionEffect
  closed_connection : SessionEffect
  reported_activity : SessionEffect
  notified : SessionEffect

pub record Session : Type 0 where
  pub status : Status
  pub failure : Option Failure
  pub control_armed : Bool
  pub alt_armed : Bool
  -- `_connection != null`, and `_stdoutSubscription != null`, which is set and reset with the other
  pub has_connection : Bool
  pub has_subscriptions : Bool
  pub closing : Bool
  pub disposed : Bool
  pub viewport_visible : Bool
  pub has_write_timer : Bool
  pub scrollback : Scrollback
  pub renderer_backpressured : Bool
  pub subscriptions_paused : Bool
  pub awaiting_response : Bool
  pub effects : List SessionEffect

-- A session as it is made.
abbrev pub new : Session
new = record {
  status = idle;
  failure = none;
  control_armed = false;
  alt_armed = false;
  has_connection = false;
  has_subscriptions = false;
  closing = false;
  disposed = false;
  viewport_visible = false;
  has_write_timer = false;
  scrollback = empty;
  renderer_backpressured = false;
  subscriptions_paused = false;
  awaiting_response = false;
  effects = [];
}

abbrev pub note : SessionEffect → Session → Session
note e s = record s { effects = s.effects ++ e ∷ [] }

-- _notify
unfoldable pub notify : Session → Session
notify s = if s.disposed then s else note notified s

-- _setStatus, less the log of connections
unfoldable pub set_status : Status → Session → Session
unfolding notify
set_status next s = notify (record s { status = next })

-- _flushTerminalWrites
unfoldable pub flush : Session → Session
flush s =
    if s.scrollback.pending_length == 0 || s.disposed
    then record s { has_write_timer = false }
    else note reported_activity
        (record s { has_write_timer = false; scrollback = emit_pending s.scrollback })

-- _queueTerminalWrite
unfoldable pub receive : List ℕ → Session → Session
unfolding flush
receive bytes s =
    let t = record s { scrollback = add_pending bytes s.scrollback } in
    if is_empty bytes || s.disposed
    then s
    else if s.viewport_visible && s.awaiting_response
    then flush (record t { awaiting_response = false })
    else if leb maximum_buffered_bytes t.scrollback.pending_length
    then flush t
    else record t { has_write_timer = true }

-- The timer of _queueTerminalWrite.
unfoldable pub write_timer_fires : Session → Session
unfolding flush
write_timer_fires s = if s.has_write_timer then flush s else s

-- _clearModifiers
unfoldable pub clear_modifiers : Session → Session
unfolding notify
clear_modifiers s =
    let t = record s { control_armed = false; alt_armed = false } in
    if s.control_armed || s.alt_armed then notify t else t

unfoldable pub toggle_control : Session → Session
unfolding notify
toggle_control s = notify (record s { control_armed = not s.control_armed })

unfoldable pub toggle_alt : Session → Session
unfolding notify
toggle_alt s = notify (record s { alt_armed = not s.alt_armed })

-- _prioritizeInteractiveResponse
abbrev pub prioritize : Session → Session
prioritize s = if s.viewport_visible then record s { awaiting_response = true } else s

-- A letter with control: the code below the space.
unfoldable pub control_unit : ℕ → ℕ
control_unit c =
    let lower = if leb 65 c && leb c 90 then c + 32 else c in
    if leb 97 lower && leb lower 122 then lower - 96 else c

abbrev control_single : List ℕ → List ℕ
control_single (c ∷ []) = control_unit c ∷ []
control_single input = input

-- `controlArmed && data.length == 1` and `altArmed`, on code units or on bytes.
unfoldable pub apply_modifiers : Bool → Bool → List ℕ → List ℕ
unfolding control_unit
apply_modifiers control alt input =
    let output = if control then control_single input else input in
    if alt then 0x1b ∷ output else output

abbrev pub is_live : Session → Bool
is_live s = s.has_connection && is_connected s.status

-- sendInputBytesDirect
unfoldable pub send_bytes_direct : List ℕ → Session → Session
send_bytes_direct bytes s =
    if is_live s then note (wrote bytes) (note reported_activity (prioritize s)) else s

-- sendInputBytes
unfoldable pub send_bytes : List ℕ → Session → Session
unfolding apply_modifiers clear_modifiers
send_bytes bytes s =
    if is_live s
    then note (wrote (apply_modifiers s.control_armed s.alt_armed bytes))
        (note reported_activity (prioritize (clear_modifiers s)))
    else s

-- `encode` stands for the codec of the terminal.
module _ (encode : Text → List ℕ) where
  -- sendInputDirect
  unfoldable pub send_input_direct : Text → Session → Session
  send_input_direct text s =
      if is_live s then note (wrote (encode text)) (note reported_activity (prioritize s)) else s

  -- sendInput, _handleTerminalOutput
  unfoldable pub send_input : Text → Session → Session
  unfolding apply_modifiers clear_modifiers
  send_input text s =
      if is_live s
      then note (wrote (encode (apply_modifiers s.control_armed s.alt_armed text)))
          (note reported_activity (prioritize (clear_modifiers s)))
      else s

-- resizeTerminal, _handleResize
unfoldable pub resize_terminal : ℕ → ℕ → Session → Session
resize_terminal width height s = if is_live s then note (resized width height) s else s

abbrev pub set_viewport_visible : Bool → Session → Session
set_viewport_visible visible s = record s { viewport_visible = visible }

-- _applyOutputBackpressure
unfoldable pub apply_backpressure : Session → Session
apply_backpressure s =
    let t = record s { subscriptions_paused = s.renderer_backpressured } in
    let call = if s.renderer_backpressured then paused_output else resumed_output in
    if not s.renderer_backpressured && not s.subscriptions_paused
      || s.renderer_backpressured && s.subscriptions_paused
    then s
    else if s.has_subscriptions
    then note call t
    else t

-- setOutputBackpressure
unfoldable pub set_backpressure : Bool → Session → Session
unfolding apply_backpressure
set_backpressure paused s =
    if s.disposed
      || not paused && not s.renderer_backpressured
      || paused && s.renderer_backpressured
    then s
    else apply_backpressure (record s { renderer_backpressured = paused })
