-- ===== src/Scrollback.antt =====
-- What a session keeps of its output for the terminal page, of SshSessionController in
-- lib/features/terminal/application/ssh_session_controller.dart: the bytes that are not flushed yet,
-- the chunks since the last snapshot, the snapshot, and the replays that are made of them.
pub mod Loops
pub mod History
pub mod Bounds
pub mod Stale
use Prim.Native.Nat.{bit_and}
use termethis.Base.{
  ℕ, suc, ◌+◌, ◌-◌, ◌*◌, Bool, true, false, List, [], ◌∷◌, ◌++◌, ◌==◌, ◌&&◌, ◌||◌, ltb, leb,
  if◌then◌else◌, length, drop,
}

-- WebTerminalDataEvent and _WebTerminalChunk, which have the same fields.
pub record Chunk : Type 0 where
  pub sequence : ℕ
  pub bytes : List ℕ

pub record Replay : Type 0 where
  pub through_sequence : ℕ
  pub bytes : List ℕ
  pub reset_required : Bool

pub record Scrollback : Type 0 where
  pub pending : List ℕ
  pub pending_length : ℕ
  pub sequence : ℕ
  pub delta : List Chunk
  pub delta_length : ℕ
  pub snapshot : List ℕ
  pub snapshot_sequence : ℕ
  pub truncated : Bool
  -- the events that the listeners have been given, the oldest first
  pub emitted : List Chunk

abbrev pub maximum_buffered_bytes : ℕ
maximum_buffered_bytes = 128 * 1024

abbrev pub checkpoint_bytes : ℕ
checkpoint_bytes = 1024 * 1024

abbrev pub maximum_delta_bytes : ℕ
maximum_delta_bytes = 2 * 1024 * 1024

abbrev pub maximum_snapshot_bytes : ℕ
maximum_snapshot_bytes = 8 * 1024 * 1024

abbrev pub empty : Scrollback
empty = record {
  pending = [];
  pending_length = 0;
  sequence = 0;
  delta = [];
  delta_length = 0;
  snapshot = [];
  snapshot_sequence = 0;
  truncated = false;
  emitted = [];
}

abbrev pub checkpoint_needed : Scrollback → Bool
checkpoint_needed s = leb checkpoint_bytes s.delta_length

pub is_continuation_byte : ℕ → Bool
is_continuation_byte x = bit_and x 0xc0 == 0x80

-- The loop that moves `start` on.
pub skip_continuation : List ℕ → List ℕ
unfolding is_continuation_byte
skip_continuation [] = []
skip_continuation (x ∷ xs) =
    let rest = skip_continuation xs in if is_continuation_byte x then rest else x ∷ xs

-- The loop that removes chunks until the rest fits, on the chunks, their length and the flag.
pub trim_delta : List Chunk → ℕ → Bool → List Chunk × ℕ × Bool
trim_delta [] n truncated = ([], n, truncated)
trim_delta (c ∷ cs) n truncated =
    let rest = trim_delta cs (n - length c.bytes) true in
    if ltb maximum_delta_bytes n then rest else (c ∷ cs, n, truncated)

-- The part of the bytes of an event that is kept.
pub kept_bytes : List ℕ → List ℕ
unfolding skip_continuation
kept_bytes bytes =
    if ltb maximum_delta_bytes (length bytes)
    then skip_continuation (drop (length bytes - maximum_delta_bytes) bytes)
    else bytes

unfoldable pub append_delta : Chunk → Scrollback → Scrollback
unfolding kept_bytes trim_delta
append_delta event s =
    let is_large = ltb maximum_delta_bytes (length event.bytes) in
    let bytes = kept_bytes event.bytes in
    let trimmed =
      trim_delta
        ((if is_large then [] else s.delta)
          ++ record { sequence = event.sequence; bytes = bytes } ∷ [])
        ((if is_large then 0 else s.delta_length) + length bytes) (is_large || s.truncated) in
    record s { delta = trimmed.0; delta_length = trimmed.1; truncated = trimmed.2 }

-- What _flushTerminalWrites does with the bytes: a new event, which is kept and handed on.
unfoldable pub emit_pending : Scrollback → Scrollback
unfolding append_delta
emit_pending s =
    let event : Chunk = record { sequence = suc s.sequence; bytes = s.pending } in
    let t =
      append_delta event
        (record s { pending = []; pending_length = 0; sequence = suc s.sequence }) in
    record t { emitted = t.emitted ++ event ∷ [] }

abbrev pub add_pending : List ℕ → Scrollback → Scrollback
add_pending bytes s = record s {
  pending = s.pending ++ bytes;
  pending_length = s.pending_length + length bytes;
}

-- The bytes of all chunks, and of those behind a sequence number.
unfoldable pub bytes_of : List Chunk → List ℕ
bytes_of [] = []
bytes_of (c ∷ cs) = c.bytes ++ bytes_of cs

unfoldable pub bytes_after : ℕ → List Chunk → List ℕ
bytes_after n [] = []
bytes_after n (c ∷ cs) = (if ltb n c.sequence then c.bytes else []) ++ bytes_after n cs

-- `\x1bc`
abbrev pub full_reset : List ℕ
full_reset = 0x1b ∷ 0x63 ∷ []

-- webTerminalReplay
unfoldable pub replay : Scrollback → Replay
unfolding bytes_of
replay s = record {
  through_sequence = s.sequence;
  bytes = (if s.truncated then full_reset else []) ++ (s.snapshot ++ bytes_of s.delta);
  reset_required = s.truncated;
}

-- Whether a chunk behind the sequence number may be missing from the truncated chunks.
unfoldable pub misses : ℕ → List Chunk → Bool
misses n [] = true
misses n (c ∷ cs) = ltb (n + 1) c.sequence

-- webTerminalReplayAfter
unfoldable pub replay_after : ℕ → Scrollback → Replay
unfolding replay bytes_after misses
replay_after n s =
    if ltb n s.snapshot_sequence || s.truncated && misses n s.delta
    then record (replay s) { reset_required = true }
    else record {
      through_sequence = s.sequence;
      bytes = bytes_after n s.delta;
      reset_required = false;
    }

-- The loop that removes what a snapshot covers.
pub drop_through : ℕ → List Chunk → ℕ → List Chunk × ℕ
drop_through n [] len = ([], len)
drop_through n (c ∷ cs) len =
    let rest = drop_through n cs (len - length c.bytes) in
    if leb c.sequence n then rest else (c ∷ cs, len)

-- saveWebTerminalSnapshot, on the UTF-8 of the snapshot.
unfoldable pub save_snapshot : List ℕ → ℕ → Scrollback → Scrollback × Bool
unfolding drop_through
save_snapshot encoded through_sequence s =
    let rest = drop_through through_sequence s.delta s.delta_length in
    if ltb maximum_snapshot_bytes (length encoded)
      || ltb through_sequence s.snapshot_sequence
      || ltb s.sequence through_sequence
    then (s, false)
    else (
      record s {
        snapshot = encoded;
        snapshot_sequence = through_sequence;
        delta = rest.0;
        delta_length = rest.1;
        truncated = false;
      },
      true,
    )
