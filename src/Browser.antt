-- ===== src/Browser.antt =====
-- What tool/web_terminal/src/terminal.js calls and does not implement: the doubles and the text
-- coders of the browser, the xterm.js emulator with its addons, and the layout of the page.
-- All of it is one parameter of the model. The laws that a theorem relies on are its hypotheses.
use termethis.Base.{
  ℕ, suc, ◌<◌, ◌≡◌, Bool, true, false, Option, List, [], ◌∷◌, ◌&&◌, ltb, leb, ◌==◌, All, Text,
  Result, ok, not,
}
use termethis.Base.Int.{ℤ, pos, negsuc, Whole, fin, pos_inf, neg_inf, nan}

-- The calls that the page makes on xterm.js, its addons and the document.
pub data Call (F : Type 0) : Type 0 where
  reset : Call F
  write : List ℕ → Call F
  scroll_to_bottom : Call F
  input : Text → Bool → Call F
  paste : Text → Call F
  focus : Call F
  blur : Call F
  set_cursor_blink : Bool → Call F
  set_scrollback : ℤ → Call F
  set_font_family : Text → Call F
  clear_texture_atlas : Call F
  set_font_size : F → Call F
  set_host_width : Text → Call F
  set_touch_action : Text → Call F
  scroll_viewport_left : Call F
  fit_addon : Call F
  -- `dispatchEvent` of a MouseEvent: whether it is the press, the place, `button`, `buttons`.
  mouse : Bool → F → F → ℕ → ℕ → Call F
  dispose_terminal : Call F
  dispose_webgl : Call F

-- The rows that the handler of OSC 133 reads: `buffer.active` at the time of the marker.
pub record Buffer : Type 0 where
  pub base_y : ℕ
  pub cursor_y : ℕ
  -- `getLine(row)?.translateToString(true)`
  pub get_line : ℕ → Option Text

-- The callbacks that xterm.js makes: `onData` (with the clock as the handler reads it),
-- `onResize`, `onTitleChange`, and the handler of OSC 133.
pub data Event (F : Type 0) : Type 0 where
  on_data : F → Text → Event F
  on_resize : ℕ → ℕ → Event F
  on_title : Text → Event F
  on_osc133 : Text → Buffer → Event F

-- The outcome of a call: the new screen, the callbacks made meanwhile, an exception if any.
pub record Fired (F S : Type 0) : Type 0 where
  pub screen : S
  pub events : List (Event F)
  pub thrown : Option Text

pub record Browser : Type 1 where
  -- doubles
  pub F : Type 0
  pub of_nat : ℕ → F
  pub neg_infinity : F
  pub sub : F → F → F
  pub mul : F → F → F
  pub div : F → F → F
  pub hypot : F → F → F
  pub lt : F → F → Bool
  pub le : F → F → Bool
  pub floor : F → Whole
  pub ceil : F → Whole
  -- `TextEncoder`, `TextDecoder`, `atob`, `btoa`
  pub encode : Text → List ℕ
  pub decode : List ℕ → Text
  pub atob : Text → Result Text
  pub btoa : Text → Result Text
  -- `Object.prototype[key]` as a template literal prints it, if there is such a property
  pub object_prototype : Text → Option Text
  -- `event.message` of the error event that an uncaught exception causes
  pub error_message : Text → Text
  -- whether `window.Termethis.postMessage` is there
  pub has_channel : Bool
  -- the emulator and the layout
  pub Screen : Type 0
  pub apply : Call F → Screen → Fired F Screen
  pub viewport_y : Screen → ℕ
  pub base_y : Screen → ℕ
  pub cursor_x : Screen → ℕ
  pub cursor_y : Screen → ℕ
  pub cols : Screen → ℕ
  pub rows : Screen → ℕ
  pub application_cursor_keys : Screen → Bool
  pub serialize : ℕ → Screen → Result Text
  pub propose_cols : Screen → Option Whole
  pub client_width : Screen → ℕ
  pub client_height : Screen → ℕ
  pub rect_left : Screen → F
  pub rect_top : Screen → F
  pub rect_width : Screen → F
  pub rect_height : Screen → F

-- The double of a rounded number.
unfoldable pub of_whole : (b : Browser) → Whole → b.F
of_whole b (fin (pos n)) = b.of_nat n
of_whole b (fin (negsuc n)) = b.sub (b.of_nat 0) (b.of_nat (suc n))
of_whole b pos_inf = b.sub (b.of_nat 0) b.neg_infinity
of_whole b neg_inf = b.neg_infinity
of_whole b nan = b.sub b.neg_infinity b.neg_infinity

-- UTF-16 without lone surrogates.
abbrev is_high : ℕ → Bool
is_high u = leb 0xd800 u && ltb u 0xdc00

abbrev is_low : ℕ → Bool
is_low u = leb 0xdc00 u && ltb u 0xe000

-- The flag says that the unit before was a high surrogate.
abbrev is_paired : Bool → Text → Bool
is_paired open_high [] = not open_high
is_paired true (u ∷ us) = is_low u && is_paired false us
is_paired false (u ∷ us) = not (is_low u) && is_paired (is_high u) us

abbrev starts_with_mark : Text → Bool
starts_with_mark [] = false
starts_with_mark (u ∷ us) = u == 0xfeff

-- A text that UTF-8 carries: well formed, and with no byte order mark for the decoder to drop.
abbrev pub IsPlain : Text → Type 0
IsPlain t = (is_paired false t ≡ true) × (starts_with_mark t ≡ false)

abbrev pub AreBytes : List ℕ → Type 0
AreBytes = All (λ x. x < 256)

-- The documented behaviour of the coders.
pub record CodersWork (b : Browser) : Type 0 where
  pub encode-AreBytes : (t : Text) → AreBytes (b.encode t)
  pub decode-encode : (t : Text) → IsPlain t → b.decode (b.encode t) ≡ t
  pub btoa-ok : (t : Text) → AreBytes t → (u : Text) × (b.btoa t ≡ ok u)
  pub atob-btoa : (t u : Text) → b.btoa t ≡ ok u → b.atob u ≡ ok t
  pub atob-AreBytes : (t u : Text) → b.atob u ≡ ok t → AreBytes t
