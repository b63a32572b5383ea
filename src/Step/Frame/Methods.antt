-- ===== src/Step/Frame/Methods.antt =====
-- The relation over the methods of window.termethisTerminal that do not touch the write chain.
use termethis.Base.{
  ◌≡◌, refl, Bool, true, false, if◌then◌else◌, Text, Result, ok, throws, if_elim, Option-cases, inl,
  inr,
}
use termethis.Browser.{Browser, Call}
use termethis.Codec.{decode_base64_text}
use termethis.Key.{special_key_sequence}
use termethis.Page.{Page, Outcome, done, perform, ◌>>◌}
use termethis.Fit.{fit}
use termethis.Api.{
  JsValue, Options, send_key, dispatch_key, paste_base64, set_scrollback, set_font_family,
  set_font_size, set_flags, clear_atlas, set_options, focus, set_active, dispose, is_true,
  read_interaction,
}
use termethis.Step.Frame.{IsFrame, then-Keeps, if-Keeps, fit-Keeps}

module _ ⦃b : Browser⦄ (R : Page b → Page b → Type 0) (fr : IsFrame R) where
  pub focus-Keeps : (p : Page b) → R p (focus p).page
  unfolding focus
  focus-Keeps p =
      if_elim (λ (o : Outcome b). R p o.page) p.active (λ _. fr.keeps_perform Call.focus refl p)
        (λ _. fr.keeps_refl p)

  -- `sendKey` keeps what the dispatch of a sequence keeps.
  pub send_key-Keeps :
      ((t : Text) (p : Page b) → R p (dispatch_key t p).page)
      → (key : Text) (control alt : Bool) (p : Page b) → R p (send_key key control alt p).page
  unfolding send_key
  send_key-Keeps sends key control alt p =
      elim (Option-cases (special_key_sequence key control alt p.screen)) [
        | inl e ↦ rw (e, send_key) (fr.keeps_refl p)
        | inr (t, e) ↦
            rw (e, send_key)
              (if_elim (λ (o : Outcome b). R p o.page) p.active (λ _. sends t p)
                (λ _. fr.keeps_refl p))
      ]

  pub paste-Keeps : (value : Text) (p : Page b) → R p (paste_base64 value p).page
  paste-Keeps value p = on_result (decode_base64_text value) refl
    where
      on_result : (r : Result Text) → decode_base64_text value ≡ r → R p (paste_base64 value p).page
      on_result (ok t) e =
          unfold paste_base64 in rw (e, paste_base64) (fr.keeps_perform (Call.paste t) refl p)
      on_result (throws t) e = unfold paste_base64 in rw (e, paste_base64) (fr.keeps_refl p)

  pub clear_atlas-Keeps : (p : Page b) → R p (clear_atlas p).page
  unfolding clear_atlas
  clear_atlas-Keeps p =
      if_elim (λ (o : Outcome b). R p o.page) p.has_webgl
        (λ _. fr.keeps_perform Call.clear_texture_atlas refl p) (λ _. fr.keeps_refl p)

  pub set_scrollback-Keeps : (v : JsValue b.F) (p : Page b) → R p (set_scrollback v p).page
  unfolding set_scrollback
  set_scrollback-Keeps (JsValue.integer z) p = fr.keeps_perform _ refl p
  set_scrollback-Keeps _ p = fr.keeps_refl p

  pub set_font_family-Keeps : (v : JsValue b.F) (p : Page b) → R p (set_font_family v p).page
  unfolding set_font_family
  set_font_family-Keeps (JsValue.string t) p =
      (then-Keeps R fr) _ _ (fr.keeps_perform (Call.set_font_family t) refl) clear_atlas-Keeps p
  set_font_family-Keeps _ p = fr.keeps_refl p

  pub set_font_size-Keeps : (v : JsValue b.F) (p : Page b) → R p (set_font_size v p).page
  unfolding set_font_size
  set_font_size-Keeps (JsValue.integer z) p = fr.keeps_perform _ refl p
  set_font_size-Keeps (JsValue.fraction x) p = fr.keeps_perform _ refl p
  set_font_size-Keeps _ p = fr.keeps_refl p

  pub set_flags-Keeps : (options : Options b.F) (p : Page b) → R p (set_flags options p).page
  unfolding set_flags
  set_flags-Keeps options =
      (then-Keeps R fr) _ _
        ((then-Keeps R fr) _ _
          (fr.keeps_flags (read_interaction options) (is_true options.agent_mode))
          (λ p. if_perform (is_true options.agent_mode) p))
        (fr.keeps_perform _ refl)
    where
      if_perform :
          (c : Bool) (p : Page b)
          → R p ((if c then perform Call.scroll_viewport_left else done) p).page
      if_perform c = (if-Keeps R fr) c (perform Call.scroll_viewport_left) (fr.keeps_perform _ refl)

  pub set_options-Keeps : (options : Options b.F) (p : Page b) → R p (set_options options p).page
  unfolding set_options
  set_options-Keeps options =
      (then-Keeps R fr) _ _
        ((then-Keeps R fr) _ _
          ((then-Keeps R fr) _ _
            ((then-Keeps R fr) _ _ (set_scrollback-Keeps options.scrollback)
              (set_font_family-Keeps options.font_family))
            (set_font_size-Keeps options.font_size))
          (set_flags-Keeps options))
        (fit-Keeps R fr)

  pub activate-Keeps :
      (c : Bool) (p : Page b)
      → R p ((if c then fit >> perform Call.focus else perform Call.blur) p).page
  activate-Keeps true = (then-Keeps R fr) _ _ (fit-Keeps R fr) (fr.keeps_perform _ refl)
  activate-Keeps false = fr.keeps_perform _ refl

  pub set_active-Keeps : (v : JsValue b.F) (p : Page b) → R p (set_active v p).page
  unfolding set_active
  set_active-Keeps v =
      (then-Keeps R fr) _ _
        ((then-Keeps R fr) _ _ (fr.keeps_active (is_true v)) (fr.keeps_perform _ refl))
        (activate-Keeps (is_true v))

  pub dispose-Keeps : (p : Page b) → R p (dispose p).page
  unfolding dispose
  dispose-Keeps = (then-Keeps R fr) _ _ fr.keeps_dispose (fr.keeps_perform _ refl)
