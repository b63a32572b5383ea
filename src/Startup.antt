-- ===== src/Startup.antt =====
-- The top-level statements of tool/web_terminal/src/terminal.js: the listeners for errors, the
-- addons with their fallbacks, and the first fit once the fonts are there.
use termethis.Base.{true, false, Option, none, some, [], if◌then◌else◌, Text, codes}
use termethis.Browser.{Browser, Call}
use termethis.Page.{Page, Message, Op, pure, post, perform, ◌>>◌}
use termethis.Prompt.{is_empty}
use termethis.Fit.{fit}

-- How `new WebglAddon(false)` and `terminal.loadAddon(webglAddon)` go.
pub data WebglStart : Type 0 where
  loaded : WebglStart
  not_created : Text → WebglStart
  not_loaded : Text → WebglStart

module _ ⦃b : Browser⦄ where
  -- The variables as they are declared.
  unfoldable pub initial : b.Screen → Page b
  initial screen = record {
    screen = screen;
    effects = [];
    active = true;
    disposed = false;
    dispatching_special_key = false;
    chain = record { running = none; jobs = [] };
    last_input_at = b.neg_infinity;
    prompt = record { prompt_active = false; output_start = none; last_output = [] };
    agent_mode = false;
    interaction = record {
      mouse_input = false;
      long_press_right_click = false;
      tap_to_move_prompt_cursor = false;
    };
    has_webgl = false;
    renderer_name = codes "dom";
    gesture = record {
      pointer_start = none;
      long_press_timer = none;
      long_press_sent = false;
      timers = [];
      next_timer = 1;
    };
    layout = record { resize_frame = none; frames = []; next_frame = 1; observing = true };
  }

  -- The try statement around UnicodeGraphemesAddon: its error, if any.
  unfoldable pub load_graphemes : Option Text → Page b → Page b
  load_graphemes none p = p
  load_graphemes (some e) p = post (Message.unicode_fallback e) p

  -- The try statement around WebglAddon.
  unfoldable pub load_webgl : WebglStart → Page b → Page b
  load_webgl loaded p = record p { has_webgl = true; renderer_name = codes "webgl" }
  load_webgl (not_created e) p = post (Message.renderer_error e) p
  load_webgl (not_loaded e) p = post (Message.renderer_error e) (record p { has_webgl = true })

  unfoldable pub boot : b.Screen → Option Text → WebglStart → Page b
  unfolding initial load_graphemes load_webgl
  boot screen graphemes webgl = load_webgl webgl (load_graphemes graphemes (initial screen))

  -- The callback of onContextLoss.
  unfoldable pub context_lost : Op b
  context_lost =
      perform Call.dispose_webgl
      >> pure
          (λ p. post (Message.renderer (codes "dom")) (record p { renderer_name = codes "dom" }))

  -- The message of the listener for `error`.
  unfoldable pub report_error : Text → Page b → Page b
  report_error e p =
      let m = b.error_message e in
      post (Message.fatal (if is_empty m then codes "JavaScript error" else m)) p

  -- A callback of the browser: what it throws reaches the listener for `error`.
  unfoldable pub callback : Op b → Page b → Page b
  unfolding report_error
  callback m p = let o = m p in elim o.thrown [ none ↦ o.page | some e ↦ report_error e o.page ]

  unfoldable pub post_ready : Page b → Page b
  post_ready p = post (Message.ready p.renderer_name (b.cols p.screen) (b.rows p.screen)) p

  -- `document.fonts.ready.then(…)`; what it throws reaches the listener for `unhandledrejection`.
  unfoldable pub fonts_ready : Page b → Page b
  unfolding post_ready
  fonts_ready p =
      let o = (fit >> perform Call.focus >> pure post_ready) p in
      elim o.thrown [ none ↦ o.page | some e ↦ post (Message.fatal e) o.page ]
