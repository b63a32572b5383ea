-- ===== src/Step/Frame/Pointers.antt =====
-- The relation over the pointer handlers and the timer of a long press.
use termethis.Base.{
  ℕ, ◌≡◌, refl, not, ◌&&◌, ◌||◌, Result, ok, throws, if_elim, Option-cases, inl, inr,
}
use termethis.Base.Int.{Whole, whole_eq}
use termethis.Browser.{Browser}
use termethis.Page.{Page, PointerEvent, Outcome}
use termethis.Pointer.{
  dispatch_mouse, start_press, pointer_down, pointer_up, pointer_cancel, timer_fires, move_by,
  prompt_delta, has_moved, find_timer, remove_timer, clear_long_press, repeat_count, tap,
}
use termethis.Step.Frame.{IsFrame, then-Keeps}

module _ ⦃b : Browser⦄ (R : Page b → Page b → Type 0) (fr : IsFrame R) where
  pub dispatch_mouse-Keeps :
      (event : PointerEvent b.F) (button : ℕ) (p : Page b)
      → R p (dispatch_mouse event button p).page
  unfolding dispatch_mouse
  dispatch_mouse-Keeps event button =
      (then-Keeps R fr) _ _ (fr.keeps_perform _ refl) (fr.keeps_perform _ refl)

  pub start_press-Keeps : (event : PointerEvent b.F) (p : Page b) → R p (start_press event p).page
  unfolding start_press
  start_press-Keeps event p =
      if_elim (λ (o : Outcome b). R p o.page) (not event.is_touch) (λ _. fr.keeps_refl p)
        (λ _.
          if_elim (λ (o : Outcome b). R p o.page)
            (p.interaction.mouse_input && p.interaction.long_press_right_click)
            (λ _. fr.keeps_gesture _ p) (λ _. fr.keeps_gesture _ p))

  pub pointer_down-Keeps : (event : PointerEvent b.F) (p : Page b) → R p (pointer_down event p).page
  unfolding pointer_down
  pointer_down-Keeps event =
      (then-Keeps R fr) _ _ (fr.keeps_perform _ refl) (start_press-Keeps event)

  pub move_by-Keeps : (delta : Whole) (p : Page b) → R p (move_by delta p).page
  move_by-Keeps delta p = on_count (repeat_count delta) refl
    where
      on_count : (r : Result ℕ) → repeat_count delta ≡ r → R p (move_by delta p).page
      on_count (ok n) e =
          unfold move_by in
          if_elim (λ (o : Outcome b). R p o.page) (whole_eq delta 0) (λ _. fr.keeps_refl p)
            (λ _. rw e (fr.keeps_perform _ refl p))
      on_count (throws t) e =
          unfold move_by in
          if_elim (λ (o : Outcome b). R p o.page) (whole_eq delta 0) (λ _. fr.keeps_refl p)
            (λ _. rw e (fr.keeps_refl p))

  pub tap-Keeps : (event : PointerEvent b.F) (p : Page b) → R p (tap event p).page
  unfolding tap
  tap-Keeps event p = elim (Option-cases (prompt_delta event p)) [
    | inr (delta, e) ↦ rw (e, tap) (move_by-Keeps delta p)
    | inl e ↦
        rw (e, tap)
          (if_elim (λ (o : Outcome b). R p o.page) p.interaction.mouse_input
            (λ _. dispatch_mouse-Keeps event 0 p) (λ _. fr.keeps_refl p))
  ]

  pub pointer_up-Keeps : (event : PointerEvent b.F) (p : Page b) → R p (pointer_up event p).page
  unfolding pointer_up
  pointer_up-Keeps event p =
      let q = clear_long_press p in
      let cleared : R p q = fr.keeps_gesture q.gesture p in
      if_elim (λ (o : Outcome b). R p o.page) (not event.is_touch || q.gesture.long_press_sent)
        (λ _. cleared)
        (λ _.
          if_elim (λ (o : Outcome b). R p o.page) (has_moved event q) (λ _. cleared)
            (λ _. fr.keeps_trans p q (tap event q).page cleared (tap-Keeps event q)))

  pub timer_fires-Keeps : (n : ℕ) (p : Page b) → R p (timer_fires n p).page
  unfolding timer_fires
  timer_fires-Keeps n p =
      let q = record p {
        gesture = record (p.gesture) { timers = remove_timer n p.gesture.timers };
      } in
      elim (Option-cases (find_timer n p.gesture.timers)) [
        | inl e ↦ rw (e, timer_fires) (fr.keeps_refl p)
        | inr (event, e) ↦
            rw (e, timer_fires)
              (fr.keeps_trans p q _ (fr.keeps_gesture q.gesture p) (
                (then-Keeps R fr) _ _ (dispatch_mouse-Keeps event 2) (λ r. fr.keeps_gesture _ r) q))
      ]

  pub pointer_cancel-Keeps : (p : Page b) → R p (pointer_cancel p)
  unfolding pointer_cancel
  pointer_cancel-Keeps p = fr.keeps_gesture _ p
