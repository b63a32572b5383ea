-- ===== src/Session/Connection.antt =====
-- The connection of SshSessionController of
-- lib/features/terminal/application/ssh_session_controller.dart as it opens, fails and is released.
use termethis.Base.{none, some, ℕ, true, false, List, [], ◌||◌, if◌then◌else◌}
use termethis.Session.{
  connect_failed, Status, is_closed, is_busy, remote_closed, connected, network_lost,
  closed_connection, cancelled_output, reconnect_prompt, is_reconnect_prompt, Session, note,
  set_status, flush, apply_backpressure,
}
use termethis.Scrollback.{save_snapshot}

-- The part of `connect` behind `_gateway.connect`, and what it does if the session has been closed
-- meanwhile.
unfoldable pub connection_opened : Session → Session
unfolding apply_backpressure set_status
connection_opened s =
    if s.closing || s.disposed
    then note closed_connection s
    else set_status connected
        (apply_backpressure (record s { has_connection = true; has_subscriptions = true }))

-- _releaseConnection, first up to its wait for the subscriptions, then behind it up to the close of
-- the connection.
unfoldable pub release_started : Session → Session
release_started s =
    let t = record s { has_connection = false } in
    if s.has_subscriptions then note cancelled_output t else t

unfoldable pub release_finished : Session → Session
unfolding flush
release_finished s = flush (record s { has_subscriptions = false; subscriptions_paused = false })

-- `connect` up to its wait for _releaseConnection, and behind it up to the call of the gateway.
unfoldable pub connect : Session → Session
unfolding release_started
connect s = if is_busy s.status then s else release_started (record s { closing = true })

unfoldable pub connect_released : Session → Session
unfolding set_status
connect_released s = set_status Status.connecting (record s { closing = false; failure = none })

-- `connect`, if the gateway has thrown.
unfoldable pub connection_failed : Session → Session
unfolding set_status
connection_failed s = set_status Status.failed (record s { failure = some connect_failed })

-- disconnect, up to its wait for _releaseConnection.
unfoldable pub disconnect : Session → Session
unfolding release_started set_status
disconnect s =
    if s.closing || is_closed s.status
    then s
    else release_started (set_status Status.closing (record s { closing = true }))

-- saveWebTerminalSnapshot, on the UTF-8 of the snapshot.
abbrev pub save_web_terminal_snapshot : List ℕ → ℕ → Session → Session
save_web_terminal_snapshot encoded through_sequence s = record s {
  scrollback = (save_snapshot encoded through_sequence s.scrollback).0;
}

-- _handleStreamError
unfoldable pub stream_error : Session → Session
unfolding set_status
stream_error s =
    if s.closing || s.disposed
    then s
    else set_status reconnect_prompt (record s { failure = some network_lost })

-- _handleRemoteDone
unfoldable pub remote_done : Session → Session
unfolding set_status flush
remote_done s =
    if s.closing || s.disposed || is_reconnect_prompt s.status
    then s
    else let t = flush s in set_status reconnect_prompt (record t { failure = some remote_closed })

-- dispose: the flag is set before setOutputBackpressure, which then does nothing.
unfoldable pub dispose : Session → Session
dispose s =
    let t = record s {
      disposed = true;
      closing = true;
      has_write_timer = false;
      scrollback = record (s.scrollback) { delta = []; delta_length = 0; snapshot = [] };
    } in
    let u = if s.has_subscriptions then note cancelled_output t else t in
    if s.has_connection then note closed_connection u else u
