-- ===== src/Writer.antt =====
-- The write chain of tool/web_terminal/src/terminal.js: enqueueWrite and requestSnapshot. A job
-- begins when the one before it has settled; a write stops after each slice until xterm.js has
-- parsed it, and, when its time is used up, until the next animation frame.
pub mod Progress
pub mod Advance
pub mod Steps
pub mod Work
pub mod Snapshots
use termethis.Base.{
  ℕ, ◌+◌, ◌*◌, Bool, true, false, Option, none, some, List, [], ◌∷◌, ◌++◌, ◌&&◌, ◌||◌, ltb, leb,
  if◌then◌else◌, Text, Result, ok, throws, ◌>>=◌, length, take, drop,
}
use termethis.Browser.{Browser, Call}
use termethis.Codec.{decode_base64_bytes, encode_base64}
use termethis.Page.{
  Page, Message, Job, write_job, snapshot_job, Running, Chain, Op, Outcome, done, pure, post,
  perform, ◌>>◌,
}

abbrev pub write_slice_bytes : ℕ
write_slice_bytes = 16 * 1024

module _ ⦃b : Browser⦄ where
  -- INPUT_PRIORITY_WINDOW_MILLIS, INPUT_WRITE_BUDGET_MILLIS = 1.5, NORMAL_WRITE_BUDGET_MILLIS = 3.25.
  abbrev pub input_priority_window : b.F
  input_priority_window = b.of_nat 80

  abbrev pub input_write_budget : b.F
  input_write_budget = b.div (b.of_nat 3) (b.of_nat 2)

  abbrev pub normal_write_budget : b.F
  normal_write_budget = b.div (b.of_nat 13) (b.of_nat 4)

  unfoldable pub write_budget : b.F → b.F → b.F
  write_budget now last_input_at =
      if b.lt (b.sub now last_input_at) input_priority_window
      then input_write_budget
      else normal_write_budget

  abbrev pub set_running : Option (Running b.F) → Page b → Page b
  set_running r p = record p { chain = record (p.chain) { running = r } }

  abbrev pub enqueue : Job → Page b → Page b
  enqueue j p = record p { chain = record (p.chain) { jobs = p.chain.jobs ++ j ∷ [] } }

  -- The code behind the loop.
  unfoldable pub finish_write : Running b.F → Op b
  finish_write r =
      (if r.has_reset && r.follow_output then perform Call.scroll_to_bottom else done)
      >> pure (post (Message.write_ack r.id))

  -- One test of the loop: the slice from `offset` on goes to xterm.js, or the loop ends.
  unfoldable pub write_from : Running b.F → Op b
  unfolding finish_write
  write_from r =
      if ltb r.offset (length r.bytes)
      then perform (Call.write (take write_slice_bytes (drop r.offset r.bytes)))
        >> pure (set_running (some r))
      else finish_write r

  -- What the loop does when xterm.js has parsed the slice.
  unfoldable pub after_write : Running b.F → b.F → Op b
  after_write r now p =
      if ltb (r.offset + write_slice_bytes) (length r.bytes)
        && b.le (write_budget now p.last_input_at) (b.sub now r.slice_started_at)
      then done (set_running (some (record r { in_frame = true })) p)
      else write_from (record r { offset = r.offset + write_slice_bytes }) p

  unfoldable pub after_frame : Running b.F → b.F → Op b
  after_frame r now =
      write_from (record r {
        offset = r.offset + write_slice_bytes;
        slice_started_at = now;
        in_frame = false;
      })

  -- From `decodeBase64Bytes(value)` on.
  unfoldable pub write_decoded : Result (List ℕ) → Bool → Bool → ℕ → b.F → Op b
  write_decoded (throws e) has_reset follow_output id now p = record { page = p; thrown = some e }
  write_decoded (ok bytes) has_reset follow_output id now p =
      write_from
        (record {
          bytes = bytes;
          offset = 0;
          has_reset = has_reset;
          follow_output = follow_output;
          id = id;
          slice_started_at = now;
          in_frame = false;
        })
        p

  -- The async function of enqueueWrite up to its first wait.
  unfoldable pub begin_write : Text → Bool → ℕ → b.F → Op b
  unfolding write_decoded
  begin_write value has_reset id now p =
      let follow_output = has_reset || leb (b.base_y p.screen) (b.viewport_y p.screen) in
      if p.disposed
      then done (post (Message.write_ack id) p)
      else ((if has_reset then perform Call.reset else done)
            >> write_decoded (decode_base64_bytes value) has_reset follow_output id now)
          p

  -- `.catch((error) => post({ type: 'fatal', … }))`
  unfoldable pub catch_fatal : Op b → Page b → Page b
  catch_fatal m p =
      let o = m p in elim o.thrown [ none ↦ o.page | some e ↦ post (Message.fatal e) o.page ]

  -- The function of requestSnapshot, with its `.catch`.
  unfoldable pub take_snapshot : ℕ → ℕ → ℕ → Page b → Page b
  take_snapshot id through_sequence scrollback p =
      let encoded = b.serialize scrollback p.screen >>= encode_base64 in
      if p.disposed then p else elim encoded [
        | ok t ↦ post (Message.snapshot id through_sequence t) p
        | throws e ↦ post (Message.snapshot_error id e) p
      ]

  unfoldable pub begin_job : Job → b.F → Page b → Page b
  unfolding begin_write catch_fatal take_snapshot
  begin_job (write_job value has_reset id) now = catch_fatal (begin_write value has_reset id now)
  begin_job (snapshot_job id through_sequence scrollback) now =
      take_snapshot id through_sequence scrollback

  unfoldable pub pop_job : List Job → b.F → Page b → Page b
  pop_job [] now p = p
  pop_job (j ∷ js) now p =
      begin_job j now (record p { chain = record { running = none; jobs = js } })

  -- The microtask that starts the next job, once nothing runs.
  unfoldable pub start_next : b.F → Page b → Page b
  unfolding pop_job
  start_next now p = elim p.chain.running [ none ↦ pop_job p.chain.jobs now p | some _ ↦ p ]

  -- The callback of `terminal.write`.
  unfoldable pub write_parsed : b.F → Page b → Page b
  unfolding catch_fatal after_write
  write_parsed now p = elim p.chain.running [
    | none ↦ p
    | some r ↦ if r.in_frame then p else catch_fatal (after_write r now) (set_running none p)
  ]

  -- The animation frame that a write waits for.
  unfoldable pub write_frame : b.F → Page b → Page b
  unfolding catch_fatal after_frame
  write_frame now p = elim p.chain.running [
    | none ↦ p
    | some r ↦ if r.in_frame then catch_fatal (after_frame r now) (set_running none p) else p
  ]
