-- ===== src/Examples/Parts.antt =====
-- Keys, base64, shell marks, pointers, resizes and pasted text on the sample browser.
use termethis.Base.{
  ℕ, ◌≡◌, ◌≢◌, ◌↔◌, ◌==◌, if◌then◌else◌, refl, true, false, none, some, List, [], ◌∷◌, ◌++◌, Text,
  codes, ok, arith,
}
use termethis.Browser.{Call, Buffer}
use termethis.Codec.{decode_base64_text, encode_base64}
use termethis.Codec.RoundTrip.{decode-encode_base64, encode_base64-btoa}
use termethis.Key.{special_key_sequence}
use termethis.Key.Sequences.{
  NamedKey, name, arrow_up, arrow_down, arrow_right, arrow_left, escape, tab, enter, Reads,
  read-special_key_sequence, special_key_sequence_other,
}
use termethis.Prompt.{Prompt, marker, osc133}
use termethis.Prompt.Output.{IsOutput, osc133_command, run_marks}
use termethis.Base.Int.{pos, fin}
use termethis.Page.{Page, PointerEvent, perform}
use termethis.Startup.{loaded}
use termethis.Step.{Action, run, calls_dispose, resized, resize_frame}
use termethis.Step.Resize.{IsSingle, IsQuiet, run-IsSingle, run-IsQuiet}
use termethis.Fit.{
  observe_resize, resize_frame_fires, is_pending, cancel_frame, fit, wide_width, widen, is_hidden,
}
use termethis.Api.{paste_base64}
use termethis.Api.Texts.{paste_base64-btoa}
use termethis.Pointer.{
  prompt_delta, tap, start_press, find_timer, remove_timer, timer_fires, dispatch_mouse, pointer_up,
  pointer_cancel,
}
use termethis.Pointer.Taps.{TapDoes, tap-TapDoes}
use termethis.Pointer.LongPress.{pointer_up-timer_fires, pointer_cancel-start_press}
use termethis.Examples.Sample.{sample, coders_work}
use termethis.Page.Effects.{seen}
use termethis.Writer.{take_snapshot}
use termethis.Writer.Snapshots.{answer_of, decode-take_snapshot}
use termethis.Examples.{program, start}

read-special_key_sequence_example : Reads arrow_up true false tt
read-special_key_sequence_example = read-special_key_sequence (λ k. refl) arrow_up true false tt

no_name : (k : NamedKey) → codes "f1" ≢ name k
no_name arrow_up e = grind arith
no_name arrow_down e = grind arith
no_name arrow_right e = grind arith
no_name arrow_left e = grind arith
no_name escape e = grind arith
no_name tab e = grind arith
no_name enter e = grind arith

special_key_sequence_other_example :
    (special_key_sequence (codes "f1") true false tt ≡ none)
    ↔ (sample.object_prototype (codes "f1") ≡ none)
special_key_sequence_other_example = special_key_sequence_other (codes "f1") true false tt no_name

decode-encode_base64_example :
    (u : Text) × (encode_base64 (codes "hi") ≡ ok u) × (decode_base64_text u ≡ ok (codes "hi"))
decode-encode_base64_example = decode-encode_base64 coders_work (codes "hi") (refl, refl)

encode_base64-btoa_example : encode_base64 (codes "hi") ≡ sample.btoa (sample.encode (codes "hi"))
encode_base64-btoa_example = encode_base64-btoa (codes "hi")

-- A command with two lines of output, and a title between its marks.
abbrev at_row : ℕ → Buffer
at_row n = record {
  base_y = 0;
  cursor_y = n;
  get_line =
      λ i. if i == 4 then some (codes "one") else if i == 5 then some (codes "two ") else none;
}

abbrev fresh : Prompt
fresh = record { prompt_active = true; output_start = none; last_output = [] }

abbrev marks : List (Text × Buffer)
marks = (codes "A", at_row 5) ∷ []

no_mark : (marker (codes "A") ≢ codes "C") × (marker (codes "A") ≢ codes "D")
unfolding marker
no_mark = (λ e. grind arith, λ e. grind arith)

osc133_command_example :
    let q =
      osc133 (codes "D;0") (at_row 7) (run_marks marks (osc133 (codes "C") (at_row 3) fresh)) in
    IsOutput (at_row 7).get_line 4 7 q.last_output × (q.output_start ≡ none)
unfolding marker
osc133_command_example =
    osc133_command (codes "C") (codes "D;0") (at_row 3) (at_row 7) marks fresh refl refl
      (no_mark, tt)

-- A finger at (310, 45), which is column 31 of the row of the cursor.
abbrev finger : PointerEvent ℕ
finger = record { is_touch = true; client_x = 310; client_y = 45 }

abbrev touched : Page sample
touched = record start {
  interaction = record {
    mouse_input = true;
    long_press_right_click = true;
    tap_to_move_prompt_cursor = true;
  };
  prompt = fresh;
}

-- The cursor goes to column 31.
taps_right : prompt_delta finger touched ≡ some (fin (pos 26))
unfolding prompt_delta
taps_right = refl

tap-TapDoes_example : TapDoes finger touched (tap finger touched)
tap-TapDoes_example = tap-TapDoes finger touched (omega arith)

abbrev pressed : Page sample
pressed = (start_press finger touched).page

pressed_timer : find_timer 1 pressed.gesture.timers ≡ some finger
unfolding program start_press find_timer
pressed_timer = refl

fires_quietly : (timer_fires 1 pressed).thrown ≡ none
unfolding program start_press find_timer remove_timer timer_fires dispatch_mouse
fires_quietly = refl

pointer_up-timer_fires_example :
    (pointer_up finger (timer_fires 1 pressed).page).page.effects
    ≡ (timer_fires 1 pressed).page.effects
pointer_up-timer_fires_example =
    pointer_up-timer_fires 1 finger finger pressed pressed_timer fires_quietly

pointer_cancel-start_press_example :
    find_timer touched.gesture.next_timer
      (pointer_cancel (start_press finger (start_press finger touched).page).page).gesture.timers
    ≡ some finger
pointer_cancel-start_press_example =
    pointer_cancel-start_press finger finger touched refl refl refl refl

-- Two resizes, a frame, and the end of the page.
abbrev resizes : List (Action sample)
resizes = resized ∷ resized ∷ resize_frame 2 ∷ resized ∷ calls_dispose ∷ []

resizes_disposed : (run resizes start).disposed ≡ true
unfolding program observe_resize resize_frame_fires is_pending cancel_frame fit wide_width widen
    is_hidden
resizes_disposed = refl

run-IsSingle_example : IsSingle (run resizes start).layout
run-IsSingle_example = run-IsSingle tt none loaded resizes

run-IsQuiet_example : IsQuiet (run resizes start).layout
run-IsQuiet_example = run-IsQuiet tt none loaded resizes resizes_disposed

encoded : sample.btoa (sample.encode (codes "a")) ≡ ok (sample.encode (codes "a"))
unfolding program
encoded = refl

paste_base64-btoa_example :
    paste_base64 (sample.encode (codes "a")) start ≡ perform (Call.paste (codes "a")) start
paste_base64-btoa_example =
    paste_base64-btoa coders_work (codes "a") (sample.encode (codes "a")) start (refl, refl) encoded

decode-take_snapshot_example :
    (u : Text) × (seen answer_of (take_snapshot 3 7 100 start)
      ≡ seen answer_of start ++ (3, some (7, u)) ∷ [])
    × (decode_base64_text u ≡ ok (codes "ok"))
unfolding program
decode-take_snapshot_example =
    decode-take_snapshot coders_work 3 7 100 (codes "ok") start refl refl refl (refl, refl)
