-- ===== src/Pointer/LongPress.antt =====
-- The long press: one right click and no left one, and the timer that a second finger leaves.
use termethis.Base.{
  ℕ, ◌+◌, ◌≡◌, refl, sym, ap, ◌∙◌, true, none, some, List, ◌∷◌, ◌||◌, not, if_elim, arith,
  Option-cases, inl, inr,
}
use termethis.Browser.{Browser}
use termethis.Page.{Page, Interaction, PointerEvent, Op, Outcome, done, pure, ◌>>◌}
use termethis.Pointer.{
  remove_timer, find_timer, cancel_timer, dispatch_mouse, start_press, pointer_up, pointer_cancel,
  timer_fires,
}

first_stays :
    {A : Type 0} (n : ℕ) (x y : A) (ts : List (ℕ × A))
    → find_timer n (remove_timer (n + 1) ((n + 1, y) ∷ (n, x) ∷ ts)) ≡ some x
unfolding find_timer remove_timer
first_stays n x y ts = ground arith

module _ ⦃b : Browser⦄ where
  -- A release behind a long press.
  sent_release :
      (event : PointerEvent b.F) (p : Page b)
      → p.gesture.long_press_sent ≡ true
      → (pointer_up event p).page.effects ≡ p.effects
  unfolding pointer_up
  sent_release event p sent =
      if_elim (λ (o : Outcome b). o.page.effects ≡ p.effects)
        (not event.is_touch || p.gesture.long_press_sent) (λ _. refl) (λ off. ground arith)

  then_pure :
      (m : Op b) (f : Page b → Page b) (p : Page b)
      → ((m >> pure f) p).thrown ≡ none
      → (q : Page b) × ((m >> pure f) p ≡ done (f q))
  unfolding ◌>>◌
  then_pure m f p h = elim (Option-cases (m p).thrown) [
    | inl e ↦ ((m p).page, rw (e, ◌>>◌) refl)
    | inr (t, e) ↦ let bad = rw (e, ◌>>◌) at h in cc
  ]

  abbrev take_timer : ℕ → Page b → Page b
  take_timer n p = record p {
    gesture = record (p.gesture) { timers = remove_timer n p.gesture.timers };
  }

  abbrev set_sent : Page b → Page b
  set_sent p = record p { gesture = record (p.gesture) { long_press_sent = true } }

  timer_fires-some :
      (n : ℕ) (event : PointerEvent b.F) (p : Page b)
      → find_timer n p.gesture.timers ≡ some event
      → timer_fires n p ≡ (dispatch_mouse event 2 >> pure set_sent) (take_timer n p)
  unfolding timer_fires ◌>>◌
  timer_fires-some n event p found = rw (found, timer_fires) refl

  timer_fires-long_press_sent :
      (n : ℕ) (event : PointerEvent b.F) (p : Page b)
      → find_timer n p.gesture.timers ≡ some event
      → (timer_fires n p).thrown ≡ none
      → (timer_fires n p).page.gesture.long_press_sent ≡ true
  timer_fires-long_press_sent n event p found quiet =
      let same = timer_fires-some n event p found in
      let (q, e) =
        then_pure (dispatch_mouse event 2) set_sent (take_timer n p)
          (sym (ap (λ (o : Outcome b). o.thrown) same) ∙ quiet) in
      ap (λ (o : Outcome b). o.page.gesture.long_press_sent) (same ∙ e)

  -- When the timer of a long press has fired without an exception, a release of the finger makes no
  -- further call and posts no message: the right click is not followed by a left one.
  pub pointer_up-timer_fires :
      (n : ℕ) (event release : PointerEvent b.F) (p : Page b)
      → find_timer n p.gesture.timers ≡ some event
      → (timer_fires n p).thrown ≡ none
      → (pointer_up release (timer_fires n p).page).page.effects ≡ (timer_fires n p).page.effects
  pointer_up-timer_fires n event release p found quiet =
      sent_release release (timer_fires n p).page
        (timer_fires-long_press_sent n event p found quiet)

  start_press-timers :
      (event : PointerEvent b.F) (p : Page b)
      → p.interaction.mouse_input ≡ true
      → p.interaction.long_press_right_click ≡ true
      → event.is_touch ≡ true
      → let q = (start_press event p).page in
        (q.interaction ≡ p.interaction)
        × (q.gesture.timers ≡ (p.gesture.next_timer, event) ∷ p.gesture.timers)
        × (q.gesture.next_timer ≡ p.gesture.next_timer + 1)
        × (q.gesture.long_press_timer ≡ some p.gesture.next_timer)
  unfolding start_press
  start_press-timers event p mouse long touch = ground arith

  -- Where long presses are on and two fingers come down one after the other, the timer of the first
  -- is still pending when the gesture is cancelled, and it is the first finger's event that it holds.
  pub pointer_cancel-start_press :
      (first second : PointerEvent b.F) (p : Page b)
      → p.interaction.mouse_input ≡ true
      → p.interaction.long_press_right_click ≡ true
      → first.is_touch ≡ true
      → second.is_touch ≡ true
      → find_timer p.gesture.next_timer
          (pointer_cancel (start_press second (start_press first p).page).page).gesture.timers
        ≡ some first
  unfolding pointer_cancel start_press find_timer remove_timer
  pointer_cancel-start_press first second p mouse long a c =
      let q = (start_press first p).page in
      let r = (start_press second q).page in
      let (i, ts, next, mine) = start_press-timers first p mouse long a in
      let (i', ts', next', mine') =
        start_press-timers second q (ap (λ (x : Interaction). x.mouse_input) i ∙ mouse)
          (ap (λ (x : Interaction). x.long_press_right_click) i ∙ long) c in
      let n = p.gesture.next_timer in
      let cancelled : cancel_timer r.gesture.long_press_timer r.gesture.timers
          ≡ remove_timer (n + 1) ((n + 1, second) ∷ (n, first) ∷ p.gesture.timers) =
        ap (λ o. cancel_timer o r.gesture.timers) (mine' ∙ ap some next)
        ∙ ap (remove_timer (n + 1)) (
            ts'
            ∙ ap (λ m. (m, second) ∷ q.gesture.timers) next
            ∙ ap (λ x. (n + 1, second) ∷ x) ts) in
      ap (find_timer n) cancelled ∙ first_stays n first second p.gesture.timers
