-- ===== src/Step/Resize.antt =====
-- The animation frames that `fit` waits for: never more than one, and none once the page is disposed.
use mathlib.Core.Path.{subst}
use termethis.Base.{
  ℕ, ◌≡◌, ◌⊎◌, inl, inr, refl, sym, ap, ◌∙◌, true, false, Option, none, some, List, [], ◌∷◌, Text,
  arith,
}
use termethis.Browser.{Browser, Call}
use termethis.Page.{Page, Message, Layout}
use termethis.Page.Frame.{Same, post-Same, perform-Same, handle_all-Same}
use termethis.Fit.{cancel_frame, request_frame, take_frame}
use termethis.Startup.{
  boot, initial, load_graphemes, load_webgl, WebglStart, loaded, not_created, not_loaded,
}
use termethis.Api.{dispatch_key}
use termethis.Step.{Action, step, run}
use termethis.Step.Frame.{IsFrame}
use termethis.Step.Whole.{step-keeps_any}

-- The frame of `resizeFrame` is the only one that can be pending.
abbrev pub IsSingle : Layout → Type 0
IsSingle l = (l.frames ≡ []) ⊎ ((n : ℕ) × (l.frames ≡ n ∷ []) × (l.resize_frame ≡ some n))

abbrev pub IsQuiet : Layout → Type 0
IsQuiet l = (l.frames ≡ []) × (l.observing ≡ false)

cancel_frame_none : (o : Option ℕ) → cancel_frame o [] ≡ []
unfolding cancel_frame
cancel_frame_none none = refl
cancel_frame_none (some n) = refl

cancel_frame_self : (n : ℕ) → cancel_frame (some n) (n ∷ []) ≡ []
unfolding cancel_frame
cancel_frame_self n = ground arith

cancel_frame_other :
    (n m : ℕ) → (cancel_frame (some n) (m ∷ []) ≡ []) ⊎ (cancel_frame (some n) (m ∷ []) ≡ m ∷ [])
unfolding cancel_frame
cancel_frame_other n m = ground arith

cancelled : (l : Layout) → IsSingle l → cancel_frame l.resize_frame l.frames ≡ []
cancelled l (inl e) = ap (cancel_frame l.resize_frame) e ∙ cancel_frame_none l.resize_frame
cancelled l (inr (n, e, f)) =
    ap (cancel_frame l.resize_frame) e ∙ ap (λ o. cancel_frame o (n ∷ [])) f ∙ cancel_frame_self n

request-IsSingle : (l : Layout) → IsSingle l → IsSingle (request_frame l)
request-IsSingle l h = inr (l.next_frame, ap (λ fs. l.next_frame ∷ fs) (cancelled l h), refl)

take-IsSingle : (n : ℕ) (l : Layout) → IsSingle l → IsSingle (take_frame n l)
take-IsSingle n l (inl e) = inl (ap (cancel_frame (some n)) e ∙ cancel_frame_none (some n))
take-IsSingle n l (inr (m, e, f)) = elim (cancel_frame_other n m) [
  | inl gone ↦ inl (ap (cancel_frame (some n)) e ∙ gone)
  | inr kept ↦ inr (m, ap (cancel_frame (some n)) e ∙ kept, f)
]

take-IsQuiet : (n : ℕ) (l : Layout) → IsQuiet l → IsQuiet (take_frame n l)
take-IsQuiet n l (e, o) = (ap (cancel_frame (some n)) e ∙ cancel_frame_none (some n), o)

watching : (l : Layout) → l.observing ≡ true → IsQuiet l → IsQuiet (request_frame l)
watching l on (e, off) = cc

module _ ⦃b : Browser⦄ where
  abbrev HasOneFrame : Page b → Type 0
  HasOneFrame p = IsSingle p.layout × (p.disposed ≡ true → IsQuiet p.layout)

  abbrev Holds : Page b → Page b → Type 0
  Holds p q = HasOneFrame p → HasOneFrame q

  same-Holds : (p q : Page b) → q.layout ≡ p.layout → q.disposed ≡ p.disposed → Holds p q
  same-Holds p q l d (single, quiet) =
      (subst IsSingle (sym l) single, λ gone. subst IsQuiet (sym l) (quiet (sym d ∙ gone)))

  keeps-Holds : (p q : Page b) → Same b p q → Holds p q
  keeps-Holds p q same = same-Holds p q same.same_layout same.same_disposed

  Holds-frame : IsFrame Holds
  Holds-frame = record {
    keeps_refl = λ p h. h;
    keeps_trans = λ p q r h k v. k (h v);
    keeps_perform = λ c e p. keeps-Holds p _ (perform-Same c p);
    keeps_post = λ m e k p. keeps-Holds p _ (post-Same m p);
    keeps_events = λ screen es p h.
        keeps-Holds (record p { screen = screen }) _
          (handle_all-Same es (record p { screen = screen })) h;
    keeps_flags = λ i a p h. h;
    keeps_active = λ v p h. h;
    keeps_dispose = λ p h. (inl (cancelled p.layout h.0), λ _. (cancelled p.layout h.0, refl));
    keeps_request =
        λ p on h. (request-IsSingle p.layout h.0, λ gone. watching p.layout on (h.1 gone));
    keeps_take =
        λ n p h. (take-IsSingle n p.layout h.0, λ gone. take-IsQuiet n p.layout (h.1 gone));
    keeps_gesture = λ g p h. h;
    keeps_renderer = λ t p h. h;
  }

  dispatch_key-Holds : (t : Text) (p : Page b) → Holds p (dispatch_key t p).page
  unfolding dispatch_key
  dispatch_key-Holds t p h =
      keeps-Holds (record p { dispatching_special_key = true }) _
        (perform-Same (Call.input t true) (record p { dispatching_special_key = true })) h

  step-Holds : (a : Action b) (p : Page b) → Holds p (step a p)
  step-Holds =
      step-keeps_any Holds Holds-frame (λ c p. keeps-Holds p _ (perform-Same c p))
        (λ m _ p. keeps-Holds p _ (post-Same m p)) (λ c p h. h) dispatch_key-Holds

  run-Holds : (actions : List (Action b)) (p : Page b) → Holds p (run actions p)
  unfolding run
  run-Holds [] p h = h
  run-Holds (a ∷ rest) p h = run-Holds rest (step a p) (step-Holds a p h)

  initial-HasOneFrame : (screen : b.Screen) → HasOneFrame (initial screen)
  unfolding initial
  initial-HasOneFrame screen = (inl refl, λ gone. cc)

  load_graphemes-Holds : (g : Option Text) (p : Page b) → Holds p (load_graphemes g p)
  unfolding load_graphemes
  load_graphemes-Holds none p h = h
  load_graphemes-Holds (some e) p h = keeps-Holds p _ (post-Same (Message.unicode_fallback e) p) h

  load_webgl-Holds : (w : WebglStart) (p : Page b) → Holds p (load_webgl w p)
  unfolding load_webgl
  load_webgl-Holds loaded p h = h
  load_webgl-Holds (not_created e) p h = keeps-Holds p _ (post-Same (Message.renderer_error e) p) h
  load_webgl-Holds (not_loaded e) p h =
      keeps-Holds (record p { has_webgl = true }) _
        (post-Same (Message.renderer_error e) (record p { has_webgl = true })) h

  boot-HasOneFrame :
      (screen : b.Screen) (g : Option Text) (w : WebglStart) → HasOneFrame (boot screen g w)
  unfolding boot
  boot-HasOneFrame screen g w =
      load_webgl-Holds w _ (load_graphemes-Holds g _ (initial-HasOneFrame screen))

  -- After any run from the start of the page, at most one animation frame waits to call `fit`, and
  -- it is that of `resizeFrame`.
  pub run-IsSingle :
      (screen : b.Screen) (g : Option Text) (w : WebglStart) (actions : List (Action b))
      → IsSingle (run actions (boot screen g w)).layout
  run-IsSingle screen g w actions =
      (run-Holds actions (boot screen g w) (boot-HasOneFrame screen g w)).0

  -- After any run from the start of the page that leaves it disposed, no animation frame waits to
  -- call `fit`, and the observer is disconnected.
  pub run-IsQuiet :
      (screen : b.Screen) (g : Option Text) (w : WebglStart) (actions : List (Action b))
      → (run actions (boot screen g w)).disposed ≡ true
      → IsQuiet (run actions (boot screen g w)).layout
  run-IsQuiet screen g w actions =
      (run-Holds actions (boot screen g w) (boot-HasOneFrame screen g w)).1
