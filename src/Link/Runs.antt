-- ===== src/Link/Runs.antt =====
-- Runs of SshSessionController and XtermWebTerminalState together.
use termethis.Link.{
  session_acts, widget_acts, opened, link_step, link_run, Linked, LinkAction, IsSteady,
}
use mathlib.Core.Path.{subst}
use termethis.Base.{
  ℕ, ◌≡◌, ◌⊎◌, inl, inr, refl, sym, ap, ◌∙◌, true, false, List, [], ◌∷◌, ◌++◌, ◌||◌, Text, All,
  append-nil, arith,
}
use termethis.Scrollback.{Scrollback, replay, bytes_after}
use termethis.Session.{Session, new}
use termethis.Session.Run.{SessionAction, session_step, session_run}
use termethis.Session.Emits.{step-Emits}
use termethis.Widget.{Widget, created}
use termethis.Widget.Drains.{queue_output}
use termethis.Widget.Actions.{synchronize}
use termethis.Widget.Shown.{shown}
use termethis.Widget.Shows.{Shows, steady-Shows}
use termethis.Widget.Queued.{queue_output-Shows}
use termethis.Link.Follows.{
  InOrder, Emits-InOrder, bytes_after-InOrder, Follows, same_page, replay_through, emitted-Follows,
  delivered, undelivered, Quiet-Follows,
}

module _ (encode : Text → List ℕ) where
  step-Follows :
      (base : Scrollback) (a : LinkAction) (l : Linked)
      → IsSteady a
      → Follows base l
      → Follows base (link_step encode a l)
        ⊎ Follows (link_step encode a l).session.scrollback (link_step encode a l)
  unfolding link_step
  step-Follows base (widget_acts a) l steady h = inl (record {
    shows = steady-Shows true _ l.session.scrollback.sequence a l.widget steady h.shows;
    since = h.since;
    in_order = h.in_order;
  })
  step-Follows base (session_acts a) l steady h =
      let s = session_step encode a l.session in
      elim (step-Emits encode a l.session) [
        | inl q ↦ inl (
            subst (λ (w : Widget). Follows base (record { session = s; widget = w }))
              (sym (undelivered l.session.scrollback s.scrollback l.widget q))
              (Quiet-Follows base l s q h))
        | inr e ↦
            subst
              (λ (w : Widget).
                Follows base (record { session = s; widget = w })
                ⊎ Follows s.scrollback (record { session = s; widget = w }))
              (sym (delivered l.session.scrollback s.scrollback l.widget e))
              (emitted-Follows base l s e h)
      ]

  -- From a state on, either the page still follows `base`, or it follows the session as it was after
  -- some of the actions.
  run-Follows :
      (base : Scrollback) (actions : List LinkAction) (l : Linked)
      → All IsSteady actions
      → Follows base l
      → Follows base (link_run encode actions l)
        ⊎ ((xs : List LinkAction) × (ys : List LinkAction) × (actions ≡ xs ++ ys)
            × Follows (link_run encode xs l).session.scrollback (link_run encode actions l))
  unfolding link_run
  run-Follows base [] l steady h = inl h
  run-Follows base (a ∷ rest) l steady h =
      let m = link_step encode a l in
      elim (step-Follows base a l steady.0 h) [
        | inl k ↦ elim (run-Follows base rest m steady.1 k) [
          | inl f ↦ inl f
          | inr (xs, ys, e, f) ↦ inr (a ∷ xs, ys, ap (λ zs. a ∷ zs) e, f)
        ]
        | inr k ↦ elim (run-Follows m.session.scrollback rest m steady.1 k) [
          | inl f ↦ inr (a ∷ [], rest, refl, f)
          | inr (xs, ys, e, f) ↦ inr (a ∷ xs, ys, ap (λ zs. a ∷ zs) e, f)
        ]
      ]

  session_run-InOrder :
      (actions : List SessionAction) (s : Session)
      → InOrder s.scrollback
      → InOrder (session_run encode actions s).scrollback
  unfolding session_run
  session_run-InOrder [] s h = h
  session_run-InOrder (a ∷ rest) s h =
      session_run-InOrder rest (session_step encode a s)
        (Emits-InOrder s.scrollback (session_step encode a s).scrollback (step-Emits encode a s) h)

  opened-Follows :
      (before : List SessionAction) → let l = opened encode before in Follows l.session.scrollback l
  unfolding synchronize
  opened-Follows before =
      let s = (session_run encode before new).scrollback in
      let r = replay s in
      let order = session_run-InOrder before new tt in
      let fresh : r.bytes ≡ r.bytes ++ bytes_after s.sequence s.emitted =
        sym (append-nil r.bytes)
        ∙ ap (λ x. r.bytes ++ x) (sym (bytes_after-InOrder s.sequence s.emitted order)) in
      let start : Shows false [] 0 created = record {
        shows = refl;
        queued = refl;
        listens = refl;
        active = refl;
        live = refl;
      } in
      let listening : (w : Widget)
          → Shows false r.bytes r.through_sequence w
          → Shows true r.bytes r.through_sequence (record w { has_listener = true }) =
        λ w k. record {
          shows = k.shows;
          queued = k.queued;
          listens = refl;
          active = k.active;
          live = k.live;
        } in
      let w = queue_output r r.bytes r.through_sequence (true || r.reset_required) created in
      let first : Shows false r.bytes r.through_sequence w =
        elim (queue_output-Shows false [] 0 r r.bytes r.through_sequence (true || r.reset_required)
          created start) [ inl k ↦ k | inr k ↦ k ] in
      record {
        shows =
            same_page (record w { has_listener = true }) fresh (replay_through s)
              (listening w first);
        since = omega arith;
        in_order = order;
      }

  -- A widget is made for a session that may have run before. Then the session does anything, and the
  -- widget does anything but suspend, resume and be disposed. At any time there is a moment since the
  -- widget was made such that the page, when it has got every write that was sent or is queued,
  -- shows the replay of the session of that moment, followed by the bytes of all events since, in
  -- order, none missing and none twice.
  pub shown-link_run :
      (before : List SessionAction) (actions : List LinkAction)
      → All IsSteady actions
      → let l = link_run encode actions (opened encode before) in
        (xs : List LinkAction) × (ys : List LinkAction) × (actions ≡ xs ++ ys)
        × (let moment = (link_run encode xs (opened encode before)).session.scrollback in
            shown l.widget
            ≡ (replay moment).bytes ++ bytes_after moment.sequence l.session.scrollback.emitted)
  shown-link_run before actions steady =
      let start = opened encode before in
      elim (run-Follows start.session.scrollback actions start steady (opened-Follows before)) [
        | inl f ↦ ([], actions, refl, unfold link_run in f.shows.shows)
        | inr (xs, ys, e, f) ↦ (xs, ys, e, f.shows.shows)
      ]
