-- ===== src/Session/Run.antt =====
-- Runs of a session: what the connection, the application and the terminal page do, in any order.
use termethis.Session.Connection.{
  disconnect, connection_failed, connect_released, connect, connection_opened, release_started,
  release_finished, save_web_terminal_snapshot, stream_error, remote_done, dispose,
}
use termethis.Base.{ℕ, Bool, List, [], ◌∷◌, Text}
use termethis.Session.{
  Session, receive, write_timer_fires, toggle_control, toggle_alt, send_bytes, send_bytes_direct,
  send_input, send_input_direct, resize_terminal, set_viewport_visible, set_backpressure,
  set_status, Status,
}

pub data SessionAction : Type 0 where
  receives : List ℕ → SessionAction
  write_timer : SessionAction
  saves_snapshot : List ℕ → ℕ → SessionAction
  toggles_control : SessionAction
  toggles_alt : SessionAction
  sends_bytes : List ℕ → SessionAction
  sends_bytes_direct : List ℕ → SessionAction
  sends_input : Text → SessionAction
  sends_input_direct : Text → SessionAction
  resizes : ℕ → ℕ → SessionAction
  shows_viewport : Bool → SessionAction
  sets_backpressure : Bool → SessionAction
  opens_connection : SessionAction
  starts_connect : SessionAction
  goes_on_connecting : SessionAction
  fails_connect : SessionAction
  disconnects : SessionAction
  starts_release : SessionAction
  finishes_release : SessionAction
  enters : Status → SessionAction
  fails_stream : SessionAction
  finishes_remote : SessionAction
  disposes : SessionAction

module _ (encode : Text → List ℕ) where
  unfoldable pub session_step : SessionAction → Session → Session
  session_step (receives bytes) = receive bytes
  session_step write_timer = write_timer_fires
  session_step (saves_snapshot encoded n) = save_web_terminal_snapshot encoded n
  session_step toggles_control = toggle_control
  session_step toggles_alt = toggle_alt
  session_step (sends_bytes bytes) = send_bytes bytes
  session_step (sends_bytes_direct bytes) = send_bytes_direct bytes
  session_step (sends_input text) = send_input encode text
  session_step (sends_input_direct text) = send_input_direct encode text
  session_step (resizes width height) = resize_terminal width height
  session_step (shows_viewport visible) = set_viewport_visible visible
  session_step (sets_backpressure paused) = set_backpressure paused
  session_step opens_connection = connection_opened
  session_step starts_connect = connect
  session_step goes_on_connecting = connect_released
  session_step fails_connect = connection_failed
  session_step disconnects = disconnect
  session_step starts_release = release_started
  session_step finishes_release = release_finished
  session_step (enters next) = set_status next
  session_step fails_stream = stream_error
  session_step finishes_remote = remote_done
  session_step disposes = dispose

  unfoldable pub session_run : List SessionAction → Session → Session
  session_run [] s = s
  session_run (a ∷ rest) s = session_run rest (session_step a s)
