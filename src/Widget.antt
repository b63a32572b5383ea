-- ===== src/Widget.antt =====
-- XtermWebTerminalState of lib/features/terminal/presentation/widgets/xterm_web_terminal.dart: the
-- application's end of the terminal page. It cuts the output of the session into chunks, writes one
-- chunk after another, each behind the acknowledgement of the one before, and holds the session's
-- output back while too much is queued.
pub mod Actions
pub mod Chunks
pub mod Paced
pub mod Flow
pub mod Runs
pub mod Suspensions
pub mod Steady
pub mod Shown
pub mod Shows
pub mod Queued
pub mod Advances
pub mod Drains
pub mod Wakes
pub mod Answers
pub mod Gone
pub mod Settled
pub mod Awake
pub mod Held
use termethis.Base.{
  ℕ, zero, suc, ◌+◌, ◌-◌, ◌*◌, Bool, true, false, Option, none, some, List, [], ◌∷◌, ◌++◌, ◌==◌,
  ◌&&◌, ◌||◌, not, ltb, leb, if◌then◌else◌, Text, codes, length, take, drop,
}
use termethis.Prompt.{is_empty}
use termethis.Page.{
  Message, fatal, unicode_fallback, renderer, renderer_error, input, direct_input, resize, title,
  write_ack, snapshot, snapshot_error, ready,
}
use termethis.Scrollback.{Chunk, Replay}
use termethis.Session.Run.{
  SessionAction, sends_input, sends_input_direct, resizes, sets_backpressure,
}

abbrev pub maximum_pending_bytes : ℕ
maximum_pending_bytes = 2 * 1024 * 1024

abbrev pub pause_output_at_bytes : ℕ
pause_output_at_bytes = 1024 * 1024

abbrev pub resume_output_at_bytes : ℕ
resume_output_at_bytes = 256 * 1024

abbrev pub maximum_write_bytes : ℕ
maximum_write_bytes = 128 * 1024

-- _QueuedOutputChunk
pub record QueuedChunk : Type 0 where
  pub bytes : List ℕ
  pub through_sequence : ℕ
  pub reset : Bool

-- The scripts of _pendingScripts, by the method of window.termethisTerminal that they call.
pub data Script : Type 0 where
  focus : Script
  paste : Text → Script
  send_key : Text → Bool → Bool → Script
  set_options : Script
  set_active : Bool → Script
  request_snapshot : ℕ → ℕ → ℕ → Script
  dispose_page : Script

-- The completer of a write.
pub data Acknowledgement : Type 0 where
  waiting acknowledged broken : Acknowledgement

-- _drainOperations at its waits. `ended` is between its return and the callback of whenComplete.
-- The id of a write is in _writeAckRequests while its completer is waiting, and no other id is.
pub data Drain : Type 0 where
  at_rest : Drain
  in_script : Drain
  in_write : (id sequence : ℕ) → (has_run : Bool) → Acknowledgement → Drain
  ended : Drain

-- _performSuspend at its waits: for the drain, for the snapshot, and for the drain again.
pub data Suspension : Type 0 where
  not_suspending draining snapshotting deactivating : Suspension

-- The calls of runJavaScript.
pub data Sent : Type 0 where
  ran : Script → Sent
  wrote : List ℕ → Bool → ℕ → Sent

pub record Widget : Type 0 where
  pub is_ready : Bool
  pub active : Bool
  pub disposed : Bool
  pub fatal_reported : Bool
  pub scripts : List Script
  pub output : List QueuedChunk
  pub output_bytes : ℕ
  pub last_queued : ℕ
  pub last_sent : ℕ
  pub write_id : ℕ
  pub drain : Drain
  pub backpressured : Bool
  pub has_listener : Bool
  pub suspension : Suspension
  pub snapshot_id : ℕ
  pub resume_requested : Bool
  pub reset_on_resume : Bool
  -- what has been sent to the page, and the calls on the session
  pub sent : List Sent
  pub session_calls : List SessionAction

-- Before initState.
abbrev pub created : Widget
created = record {
  is_ready = false;
  active = true;
  disposed = false;
  fatal_reported = false;
  scripts = [];
  output = [];
  output_bytes = 0;
  last_queued = 0;
  last_sent = 0;
  write_id = 0;
  drain = at_rest;
  backpressured = false;
  has_listener = false;
  suspension = not_suspending;
  snapshot_id = 0;
  resume_requested = false;
  reset_on_resume = false;
  sent = [];
  session_calls = [];
}

abbrev pub call_session : SessionAction → Widget → Widget
call_session a w = record w { session_calls = w.session_calls ++ a ∷ [] }

-- _setOutputBackpressure
unfoldable pub set_output_backpressure : Bool → Widget → Widget
set_output_backpressure paused w =
    if paused && w.backpressured || not paused && not w.backpressured
    then w
    else call_session (sets_backpressure paused) (record w { backpressured = paused })

abbrev pub break_write : Drain → Drain
break_write (in_write id sequence has_run waiting) = in_write id sequence has_run broken
break_write d = d

-- _reportFatal
unfoldable pub report_fatal : Widget → Widget
unfolding set_output_backpressure
report_fatal w =
    if w.disposed || w.fatal_reported
    then w
    else set_output_backpressure false
        (record w { fatal_reported = true; drain = break_write w.drain })

-- The loop of _appendOutputChunks from `offset` on.
unfoldable pub queued_from : ℕ → List ℕ → ℕ → Bool → ℕ → List QueuedChunk
queued_from zero bytes through_sequence reset offset = []
queued_from (suc fuel) bytes through_sequence reset offset =
    let chunk : QueuedChunk = record {
      bytes = take maximum_write_bytes (drop offset bytes);
      through_sequence =
          if leb (length bytes) (offset + maximum_write_bytes) then through_sequence else 0;
      reset = reset;
    } in
    let rest =
      chunk ∷ queued_from fuel bytes through_sequence false (offset + maximum_write_bytes) in
    if ltb offset (length bytes) then rest else []

-- _appendOutputChunks, the chunks that it adds. A `reset` goes with the first of them.
unfoldable pub chunks_for : List ℕ → ℕ → Bool → List QueuedChunk
unfolding queued_from
chunks_for bytes through_sequence reset =
    if is_empty bytes
    then (if reset
        then record { bytes = []; through_sequence = through_sequence; reset = true } ∷ []
        else [])
    else queued_from (suc (length bytes)) bytes through_sequence reset 0

unfoldable pub total_bytes : List QueuedChunk → ℕ
total_bytes [] = 0
total_bytes (c ∷ cs) = length c.bytes + total_bytes cs

unfoldable pub append_output_chunks : List ℕ → ℕ → Bool → Widget → Widget
unfolding chunks_for total_bytes
append_output_chunks bytes through_sequence reset w =
    let chunks = chunks_for bytes through_sequence reset in
    record w { output = w.output ++ chunks; output_bytes = w.output_bytes + total_bytes chunks }

abbrev pub clear_output : Widget → Widget
clear_output w = record w { output = []; output_bytes = 0 }
