-- ===== src/Examples.antt =====
-- Runs of the model on a sample browser, and each property at an input where its hypotheses hold.
pub mod Sample
mod Sessions
mod Routing
pub mod Parts
use termethis.Base.{
  ℕ, ◌+◌, ◌≤◌, ◌<◌, ◌⊎◌, ◌≡◌, ◌≢◌, ◌↔◌, ◌==◌, if◌then◌else◌, refl, Bool, true, false, Option, none,
  some, List, [], ◌∷◌, ◌++◌, All, length, Text, codes, ok, arith,
}
use mathlib.Core.List.{Sublist}
use termethis.Browser.{Browser, Call, Buffer, Event, on_data}
use termethis.Codec.{decode_base64_bytes, decode_base64_text, encode_base64}
use termethis.Codec.RoundTrip.{decode-encode_base64, encode_base64-btoa, decode_base64_bytes-btoa}
use termethis.Key.{special_key_sequence}
use termethis.Key.Sequences.{
  NamedKey, name, arrow_up, arrow_down, arrow_right, arrow_left, escape, tab, enter, Reads,
  IsOrdinary, read-special_key_sequence, special_key_sequence_other,
}
use termethis.Prompt.{Prompt, marker, lines_from, join_lines, trim_end, is_space, osc133}
use termethis.Prompt.Output.{osc133_command, run_marks, row_of, IsTrimmed}
use termethis.Base.Int.{pos, fin, nan}
use termethis.Page.{Page, PointerEvent, done, Message, log, post, handle, handle_all, perform, ◌>>◌}
use termethis.Page.Effects.{collect}
use termethis.Writer.{
  write_budget, finish_write, write_from, after_write, after_frame, write_decoded, begin_write,
  catch_fatal, take_snapshot, begin_job, pop_job, start_next, write_parsed, write_frame,
}
use termethis.Writer.Progress.{IsSlice, acks, slices, written, fatals}
use termethis.Writer.Advance.{payload_of, payload, pending_ids, pending_bytes}
use termethis.Writer.Work.{work}
use termethis.Startup.{boot, initial, load_graphemes, load_webgl, WebglStart, loaded, not_created}
use termethis.Api.{
  dispatch_key, send_key, write_base64, request_snapshot, dispose, focus, set_active, paste_base64,
  copy_last_output_base64,
}
use termethis.Step.{
  Action, step, run, calls_write, calls_send_key, calls_request_snapshot, calls_dispose, emulator,
  parsed, next_job, resized, resize_frame,
}
use termethis.Step.Frame.{is_key_action}
use termethis.Step.Input.{inputs, direct_inputs, disposed_sends_no_input}
use termethis.Step.Direct.{direct_input_needs_key, send_key_sends}
use termethis.Step.Accounts.{asked_ids_in, asked_bytes_in}
use termethis.Step.Writes.{acks_in_order, bytes_in_order, slices_are_small}
use termethis.Step.Drain.{due, drive, IsAtRest, drive-IsAtRest, all_acknowledged, all_written}
use termethis.Step.Resize.{IsSingle, IsQuiet, run-IsSingle, run-IsQuiet}
use termethis.Fit.{
  observe_resize, resize_frame_fires, is_pending, cancel_frame, fit, wide_width, widen, is_hidden,
}
use termethis.Api.Texts.{paste_base64-btoa}
use termethis.Pointer.{
  prompt_delta, tap, start_press, find_timer, remove_timer, timer_fires, dispatch_mouse, pointer_up,
  pointer_cancel,
}
use termethis.Pointer.Taps.{TapDoes}
use termethis.Pointer.LongPress.{pointer_up-timer_fires, pointer_cancel-start_press}
use termethis.Examples.Sample.{sample, coders_work, encode, decode_from, are_bytes, checked, apply}

unfoldable pub program : Unit {0}
unfolding boot initial load_graphemes load_webgl run step log post handle handle_all perform ◌>>◌
    collect write_base64 request_snapshot write_budget finish_write write_from after_write
    after_frame write_decoded begin_write catch_fatal take_snapshot begin_job pop_job start_next
    write_parsed write_frame payload payload_of decode_base64_bytes encode_base64 are_bytes checked
    apply encode decode_from dispatch_key send_key special_key_sequence dispose focus set_active due
    drive osc133
program = tt

-- Two writes and a snapshot, with a key between them; the second write resets.
abbrev actions : List (Action sample)
actions =
    calls_write (codes "abc") false 7
    ∷ calls_request_snapshot 1 7 100
    ∷ calls_send_key (codes "arrowUp") false false
    ∷ next_job 10
    ∷ calls_write (codes "de") true 8
    ∷ []

abbrev pub start : Page sample
start = boot tt none loaded

abbrev behind : Page sample
behind = run actions start

abbrev clock : List ℕ
clock = 20 ∷ 30 ∷ 40 ∷ 50 ∷ 60 ∷ 70 ∷ 80 ∷ 90 ∷ 100 ∷ 110 ∷ []

settled_writes :
    (written (drive clock behind) ≡ codes "abcde")
    × (acks (drive clock behind) ≡ 7 ∷ 8 ∷ [])
    × (inputs (drive clock behind) ≡ (true, 0x1b ∷ codes "OA") ∷ [])
unfolding program
settled_writes = (refl, refl, refl)

slices_before : (slices behind ≡ codes "abc" ∷ []) × (pending_bytes behind.chain ≡ codes "de")
unfolding program
slices_before = (refl, refl)

enough : work behind.chain ≤ length clock
unfolding program
enough = omega arith

quiet : fatals (drive clock behind) ≡ []
unfolding program
quiet = refl

live : (drive clock behind).disposed ≡ false
unfolding program
live = refl

all_written_example : written (drive clock behind) ≡ asked_bytes_in actions
all_written_example = all_written refl tt none loaded actions clock enough quiet live

all_acknowledged_example :
    IsAtRest (drive clock behind) × (acks (drive clock behind) ≡ asked_ids_in actions)
all_acknowledged_example = all_acknowledged refl tt none loaded actions clock enough quiet

drive-IsAtRest_example : IsAtRest (drive clock behind)
drive-IsAtRest_example = drive-IsAtRest refl clock behind enough

acks_in_order_example :
    Sublist (acks behind ++ pending_ids behind.chain) (asked_ids_in actions)
    × (length (asked_ids_in actions)
        ≤ length (acks behind ++ pending_ids behind.chain) + length (fatals behind))
acks_in_order_example = acks_in_order refl tt none loaded actions

behind_live : behind.disposed ≡ false
unfolding program
behind_live = refl

behind_quiet : fatals behind ≡ []
unfolding program
behind_quiet = refl

bytes_in_order_example : written behind ++ pending_bytes behind.chain ≡ asked_bytes_in actions
bytes_in_order_example = bytes_in_order refl tt none loaded actions behind_live behind_quiet

slices_are_small_example : All IsSlice (slices behind)
slices_are_small_example = slices_are_small refl tt none loaded actions

-- Behind a key: data of the emulator, and a write.
abbrev without_key : List (Action sample)
without_key = emulator tt (on_data 200 (codes "x") ∷ []) ∷ next_job 210 ∷ parsed 220 ∷ []

direct_input_needs_key_example :
    (behind.dispatching_special_key ≡ false)
    × (direct_inputs (run without_key behind) ≡ direct_inputs behind)
direct_input_needs_key_example =
    direct_input_needs_key tt none loaded actions without_key (refl, (refl, (refl, tt)))

start_active : start.active ≡ true
unfolding program
start_active = refl

start_live : start.disposed ≡ false
unfolding program
start_live = refl

up_sequence :
    special_key_sequence (codes "arrowUp") false false start.screen ≡ some (0x1b ∷ codes "OA")
unfolding program
up_sequence = refl

echoes :
    (apply (Call.input (0x1b ∷ codes "OA") true) start.screen).events
    ≡ on_data 100 (0x1b ∷ codes "OA") ∷ []
unfolding program
echoes = refl

send_key_sends_example :
    inputs (step (calls_send_key (codes "arrowUp") false false) start)
    ≡ inputs start ++ (true, 0x1b ∷ codes "OA") ∷ []
send_key_sends_example =
    send_key_sends (codes "arrowUp") false false (0x1b ∷ codes "OA") 100 start refl start_active
      start_live up_sequence echoes

abbrev closed : Page sample
closed = step calls_dispose start

closed_disposed : closed.disposed ≡ true
unfolding program
closed_disposed = refl

disposed_sends_no_input_example :
    ((run without_key closed).disposed ≡ true) × (inputs (run without_key closed) ≡ inputs closed)
disposed_sends_no_input_example = disposed_sends_no_input without_key closed closed_disposed
