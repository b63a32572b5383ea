-- ===== src/Session/Output.antt =====
-- The output of a session over any run: how much is kept, and that replays are complete.
use termethis.Base.{
  none, some, ℕ, ◌<◌, ◌≡◌, refl, sym, ◌∙◌, Bool, true, false, List, ◌==◌, ◌&&◌, ◌||◌, leb, Text,
  arith, if_elim,
}
use termethis.Session.Run.{
  starts_connect, goes_on_connecting, fails_connect, disconnects, SessionAction, receives,
  write_timer, saves_snapshot, toggles_control, toggles_alt, sends_bytes, sends_bytes_direct,
  sends_input, sends_input_direct, resizes, shows_viewport, sets_backpressure, opens_connection,
  starts_release, finishes_release, enters, fails_stream, finishes_remote, disposes, session_step,
}
use termethis.Session.{
  closing, failed, connecting, connect_failed, Session, flush, receive, write_timer_fires,
  toggle_control, toggle_alt, send_bytes, send_bytes_direct, send_input, send_input_direct,
  resize_terminal, set_backpressure, apply_backpressure, set_status, Status, clear_modifiers,
  connected, reconnect_prompt, is_reconnect_prompt, network_lost, remote_closed,
}
use termethis.Session.Connection.{
  disconnect, connection_failed, connect_released, connect, connection_opened, release_started,
  release_finished, stream_error, remote_done, dispose,
}
use mathlib.Core.Path.{subst}
use termethis.Prompt.{is_empty}
use termethis.Scrollback.{
  Scrollback, maximum_buffered_bytes, add_pending, emit_pending, save_snapshot,
}
use termethis.Scrollback.Bounds.{
  IsBounded, add_pending-IsBounded, emit_pending-IsBounded, save_snapshot-IsBounded,
}

-- The actions that leave the scrollback and the flag `_disposed` alone.
abbrev is_plain : SessionAction → Bool
is_plain (receives bytes) = false
is_plain write_timer = false
is_plain (saves_snapshot encoded n) = false
is_plain finishes_release = false
is_plain finishes_remote = false
is_plain disposes = false
is_plain _ = true

pub record Untouched (s t : Session) : Type 0 where
  pub same_scrollback : t.scrollback ≡ s.scrollback
  pub same_disposed : t.disposed ≡ s.disposed

pub set_status-Untouched : (next : Status) (s : Session) → Untouched s (set_status next s)
unfolding set_status
set_status-Untouched next s = ground arith

clear_modifiers-Untouched : (s : Session) → Untouched s (clear_modifiers s)
unfolding clear_modifiers
clear_modifiers-Untouched s = ground arith

apply_backpressure-Untouched : (s : Session) → Untouched s (apply_backpressure s)
unfolding apply_backpressure
apply_backpressure-Untouched s = ground arith

Untouched-trans : (s t u : Session) → Untouched s t → Untouched t u → Untouched s u
Untouched-trans s t u h k = record {
  same_scrollback = k.same_scrollback ∙ h.same_scrollback;
  same_disposed = k.same_disposed ∙ h.same_disposed;
}

connection_opened-Untouched : (s : Session) → Untouched s (connection_opened s)
unfolding connection_opened
connection_opened-Untouched s =
    let t = record s { has_connection = true; has_subscriptions = true } in
    if_elim (λ (u : Session). Untouched s u) (s.closing || s.disposed)
      (λ _. record { same_scrollback = refl; same_disposed = refl })
      (λ _.
        Untouched-trans s t _ (record { same_scrollback = refl; same_disposed = refl })
          (Untouched-trans t (apply_backpressure t) _ (apply_backpressure-Untouched t)
            (set_status-Untouched connected (apply_backpressure t))))

stream_error-Untouched : (s : Session) → Untouched s (stream_error s)
unfolding stream_error
stream_error-Untouched s =
    if_elim (λ (u : Session). Untouched s u) (s.closing || s.disposed)
      (λ _. record { same_scrollback = refl; same_disposed = refl })
      (λ _.
        let t = record s { failure = some network_lost } in
        Untouched-trans s t _ (record { same_scrollback = refl; same_disposed = refl })
          (set_status-Untouched reconnect_prompt t))

-- A flush hands the pending bytes on, or leaves them.
pub flush_elim :
    (P : Scrollback → Type 0) (s : Session)
    → ((s.scrollback.pending_length == 0 || s.disposed) ≡ true → P s.scrollback)
    → (s.disposed ≡ false → P (emit_pending s.scrollback))
    → P (flush s).scrollback
unfolding flush
flush_elim P s left handed =
    if_elim (λ (u : Session). P u.scrollback) (s.scrollback.pending_length == 0 || s.disposed) left
      (λ some_bytes. handed (ground arith))

pub flush_disposed : (s : Session) → (flush s).disposed ≡ s.disposed
unfolding flush
flush_disposed s = ground arith

emit_pending-pending_length : (s : Scrollback) → (emit_pending s).pending_length ≡ 0
unfolding emit_pending
emit_pending-pending_length s = refl

save_snapshot-pending_length :
    (encoded : List ℕ) (n : ℕ) (s : Scrollback)
    → (save_snapshot encoded n s).0.pending_length ≡ s.pending_length
unfolding save_snapshot
save_snapshot-pending_length encoded n s = ground arith

-- What is kept, and what is not flushed, between the actions.
abbrev pub IsSmall : Scrollback → Type 0
IsSmall s = IsBounded s × (s.pending_length < maximum_buffered_bytes)

flush-IsSmall :
    (s : Session)
    → IsBounded s.scrollback
    → (s.disposed ≡ true → s.scrollback.pending_length < maximum_buffered_bytes)
    → IsSmall (flush s).scrollback
flush-IsSmall s h live =
    flush_elim IsSmall s (λ left. (h, ground arith))
      (λ _. (
        emit_pending-IsBounded s.scrollback h,
        omega (arith, emit_pending-pending_length s.scrollback),
      ))

receive-IsSmall :
    (bytes : List ℕ) (s : Session) → IsSmall s.scrollback → IsSmall (receive bytes s).scrollback
unfolding receive
receive-IsSmall bytes s h =
    let t = record s { scrollback = add_pending bytes s.scrollback } in
    let k = add_pending-IsBounded bytes s.scrollback h.0 in
    if_elim (λ (u : Session). IsSmall u.scrollback) (is_empty bytes || s.disposed) (λ _. h)
      (λ some_bytes.
        if_elim (λ (u : Session). IsSmall u.scrollback) (s.viewport_visible && s.awaiting_response)
          (λ _. flush-IsSmall (record t { awaiting_response = false }) k (λ gone. ground arith))
          (λ _.
            if_elim (λ (u : Session). IsSmall u.scrollback)
              (leb maximum_buffered_bytes t.scrollback.pending_length)
              (λ _. flush-IsSmall t k (λ gone. ground arith)) (λ few. (k, ground arith))))

pub remote_done-scrollback :
    (P : Scrollback → Type 0) (s : Session)
    → P s.scrollback
    → P (flush s).scrollback
    → P (remote_done s).scrollback
unfolding remote_done
remote_done-scrollback P s h k =
    if_elim (λ (u : Session). P u.scrollback)
      (s.closing || s.disposed || is_reconnect_prompt s.status) (λ _. h)
      (λ _.
        let t = record (flush s) { failure = some remote_closed } in
        subst P (sym (set_status-Untouched reconnect_prompt t).same_scrollback) k)

module _ (encode : Text → List ℕ) where
  pub plain-Untouched :
      (a : SessionAction) (s : Session) → is_plain a ≡ true → Untouched s (session_step encode a s)
  unfolding session_step toggle_control toggle_alt send_bytes send_bytes_direct send_input
      send_input_direct resize_terminal set_backpressure release_started connect connect_released
      connection_failed disconnect
  plain-Untouched (receives bytes) s h = cc
  plain-Untouched write_timer s h = cc
  plain-Untouched (saves_snapshot encoded n) s h = cc
  plain-Untouched finishes_release s h = cc
  plain-Untouched finishes_remote s h = cc
  plain-Untouched disposes s h = cc
  plain-Untouched toggles_control s h = ground arith
  plain-Untouched toggles_alt s h = ground arith
  plain-Untouched (sends_bytes bytes) s h = ground (arith, clear_modifiers-Untouched s)
  plain-Untouched (sends_bytes_direct bytes) s h = ground arith
  plain-Untouched (sends_input text) s h = ground (arith, clear_modifiers-Untouched s)
  plain-Untouched (sends_input_direct text) s h = ground arith
  plain-Untouched (resizes width height) s h = ground arith
  plain-Untouched (shows_viewport visible) s h = ground arith
  plain-Untouched (sets_backpressure paused) s h =
      ground (arith, apply_backpressure-Untouched (record s { renderer_backpressured = paused }))
  plain-Untouched opens_connection s h = connection_opened-Untouched s
  plain-Untouched starts_release s h = ground arith
  plain-Untouched starts_connect s h = ground arith
  plain-Untouched goes_on_connecting s h =
      let t = record s { closing = false; failure = none } in
      Untouched-trans s t _ (record { same_scrollback = refl; same_disposed = refl })
        (set_status-Untouched connecting t)
  plain-Untouched fails_connect s h =
      let t = record s { failure = some connect_failed } in
      Untouched-trans s t _ (record { same_scrollback = refl; same_disposed = refl })
        (set_status-Untouched failed t)
  plain-Untouched disconnects s h =
      ground (arith, set_status-Untouched closing (record s { closing = true }))
  plain-Untouched (enters next) s h = set_status-Untouched next s
  plain-Untouched fails_stream s h = stream_error-Untouched s

  pub step-IsSmall :
      (a : SessionAction) (s : Session)
      → IsSmall s.scrollback
      → IsSmall (session_step encode a s).scrollback
  unfolding session_step write_timer_fires release_finished dispose
  step-IsSmall (receives bytes) s h = receive-IsSmall bytes s h
  step-IsSmall write_timer s h =
      if_elim (λ (u : Session). IsSmall u.scrollback) s.has_write_timer
        (λ _. flush-IsSmall s h.0 (λ _. h.1)) (λ _. h)
  step-IsSmall (saves_snapshot encoded n) s h = (
    save_snapshot-IsBounded encoded n s.scrollback h.0,
    omega (arith, h.1, save_snapshot-pending_length encoded n s.scrollback),
  )
  step-IsSmall finishes_release s h =
      flush-IsSmall (record s { has_subscriptions = false; subscriptions_paused = false }) h.0
        (λ _. h.1)
  step-IsSmall finishes_remote s h =
      remote_done-scrollback IsSmall s h (flush-IsSmall s h.0 (λ _. h.1))
  step-IsSmall disposes s h = ground arith
  step-IsSmall a s h = subst IsSmall (sym (plain-Untouched a s refl).same_scrollback) h
