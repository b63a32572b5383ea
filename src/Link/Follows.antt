-- ===== src/Link/Follows.antt =====
-- What keeps the page in step with the session, one action at a time: _flushTerminalWrites of
-- ssh_session_controller.dart and _handleTerminalData of xterm_web_terminal.dart.
use mathlib.Core.Path.{subst}
use termethis.Base.{
  ℕ, suc, ◌≤◌, ◌≡◌, ◌⊎◌, inl, inr, refl, sym, ap, ◌∙◌, Bool, true, false, List, [], ◌∷◌, ◌++◌, ◌||◌,
  leb, ltb, not, length, drop, All, All-append, if_elim, append_assoc, append-nil, arith,
  if◌then◌else◌,
}
use termethis.Scrollback.{Chunk, Scrollback, replay, bytes_after}
use termethis.Scrollback.Stale.{bytes_after_split}
use termethis.Session.{Session}
use termethis.Session.Emits.{Emits, Quiet, EmitsOne, numbered}
use termethis.Widget.{Widget}
use termethis.Widget.Drains.{queue_output}
use termethis.Widget.Actions.{handle_terminal_data}
use termethis.Widget.Runs.{outputs, widget_step}
use termethis.Widget.Shows.{Shows}
use termethis.Widget.Queued.{queue_output-Shows}
use termethis.Link.{Linked, deliver, new_events}

-- The numbers of the events are not above the last one.
abbrev pub InOrder : Scrollback → Type 0
InOrder s = All (λ (c : Chunk). c.sequence ≤ s.sequence) s.emitted

All-le :
    (m n : ℕ) (cs : List Chunk)
    → m ≤ n
    → All (λ (c : Chunk). c.sequence ≤ m) cs
    → All (λ (c : Chunk). c.sequence ≤ n) cs
All-le m n [] h k = tt
All-le m n (c ∷ cs) h k = (omega (arith, k.0), All-le m n cs h k.1)

pub Emits-InOrder : (s t : Scrollback) → Emits s t → InOrder s → InOrder t
Emits-InOrder s t (inl q) h =
    subst (All (λ (c : Chunk). c.sequence ≤ t.sequence)) (sym q.same_emitted)
      (All-le s.sequence t.sequence s.emitted (omega (arith, q.same_sequence)) h)
Emits-InOrder s t (inr e) h =
    subst (All (λ (c : Chunk). c.sequence ≤ t.sequence)) (sym e.one_more) (
      All-append (λ (c : Chunk). c.sequence ≤ t.sequence) s.emitted
        (numbered (suc s.sequence) e.bytes ∷ [])
        (All-le s.sequence t.sequence s.emitted (omega (arith, e.next_sequence)) h)
        (omega (arith, e.next_sequence), tt))

Emits-le : (s t : Scrollback) → Emits s t → s.sequence ≤ t.sequence
Emits-le s t (inl q) = omega (arith, q.same_sequence)
Emits-le s t (inr e) = omega (arith, e.next_sequence)

pub bytes_after-InOrder :
    (n : ℕ) (cs : List Chunk) → All (λ (c : Chunk). c.sequence ≤ n) cs → bytes_after n cs ≡ []
unfolding bytes_after
bytes_after-InOrder n [] h = refl
bytes_after-InOrder n (c ∷ cs) h = ground (arith, bytes_after-InOrder n cs h.1, h.0)

drop-append : (xs ys : List Chunk) → drop (length xs) (xs ++ ys) ≡ ys
drop-append [] ys = refl
drop-append (x ∷ xs) ys = drop-append xs ys

-- The page as it will be is the replay at `base` and all events since.
pub record Follows (base : Scrollback) (l : Linked) : Type 0 where
  pub shows :
      Shows true
        ((replay base).bytes ++ bytes_after base.sequence l.session.scrollback.emitted)
        l.session.scrollback.sequence
        l.widget
  pub since : base.sequence ≤ l.session.scrollback.sequence
  pub in_order : InOrder l.session.scrollback

one_event :
    (base s : Scrollback) (bytes : List ℕ)
    → base.sequence ≤ s.sequence
    → bytes_after base.sequence (s.emitted ++ numbered (suc s.sequence) bytes ∷ [])
      ≡ bytes_after base.sequence s.emitted ++ bytes
unfolding bytes_after
one_event base s bytes h =
    let newer : ltb base.sequence (suc s.sequence) ≡ true = ground arith in
    bytes_after_split base.sequence s.emitted (numbered (suc s.sequence) bytes ∷ [])
    ∙ ap (λ (b : Bool). bytes_after base.sequence s.emitted ++ ((if b then bytes else []) ++ []))
        newer
    ∙ ap (λ x. bytes_after base.sequence s.emitted ++ x) (append-nil bytes)

-- A widget that listens queues the next event.
outputs-Shows :
    (page : List ℕ) (s : Scrollback) (n : ℕ) (bytes : List ℕ) (w : Widget)
    → Shows true page n w
    → widget_step (outputs s (numbered (suc n) bytes)) w
      ≡ queue_output (replay s) bytes (suc n) false w
unfolding widget_step handle_terminal_data
outputs-Shows page s n bytes w h =
    let l = h.listens in
    let a = h.active in
    let d = h.live in
    let q = h.queued in
    if_elim (λ (v : Widget). v ≡ queue_output (replay s) bytes (suc n) false w) w.has_listener
      (λ _.
        if_elim (λ (v : Widget). v ≡ queue_output (replay s) bytes (suc n) false w)
          (w.disposed || not w.active || leb (suc n) w.last_queued) (λ stop. absurd (ground arith))
          (λ _. refl))
      (λ deaf. absurd (cc))

pub same_page :
    {page : List ℕ} {page' : List ℕ} {n : ℕ} {m : ℕ} (w : Widget)
    → page ≡ page'
    → n ≡ m
    → Shows true page n w
    → Shows true page' m w
same_page {page} {page'} {n} {m} w e f h = record {
  shows = h.shows ∙ e;
  queued = h.queued ∙ f;
  listens = h.listens;
  active = h.active;
  live = h.live;
}

pub replay_through : (s : Scrollback) → (replay s).through_sequence ≡ s.sequence
unfolding replay
replay_through s = refl

-- The new event of a session goes on the page, or the widget starts again at a replay.
pub emitted-Follows :
    (base : Scrollback) (l : Linked) (s : Session) (e : EmitsOne l.session.scrollback s.scrollback)
    → Follows base l
    → let v =
        widget_step
          (outputs s.scrollback (numbered (suc l.session.scrollback.sequence) e.bytes))
          l.widget in
      Follows base (record { session = s; widget = v })
      ⊎ Follows s.scrollback (record { session = s; widget = v })
emitted-Follows base l s e h =
    let old = l.session.scrollback in
    let t = s.scrollback in
    let page = (replay base).bytes ++ bytes_after base.sequence old.emitted in
    let v = queue_output (replay t) e.bytes (suc old.sequence) false l.widget in
    let order = Emits-InOrder old t (inr e) h.in_order in
    let same = outputs-Shows page t old.sequence e.bytes l.widget h.shows in
    let grown : page ++ e.bytes ≡ (replay base).bytes ++ bytes_after base.sequence t.emitted =
      append_assoc (replay base).bytes (bytes_after base.sequence old.emitted) e.bytes
      ∙ ap (λ x. (replay base).bytes ++ x)
          (sym (one_event base old e.bytes h.since)
            ∙ ap (bytes_after base.sequence) (sym e.one_more)) in
    let fresh : (replay t).bytes ≡ (replay t).bytes ++ bytes_after t.sequence t.emitted =
      sym (append-nil (replay t).bytes)
      ∙ ap (λ x. (replay t).bytes ++ x) (sym (bytes_after-InOrder t.sequence t.emitted order)) in
    subst
      (λ (u : Widget).
        Follows base (record { session = s; widget = u })
        ⊎ Follows t (record { session = s; widget = u }))
      (sym same)
      (elim (queue_output-Shows true page old.sequence (replay t) e.bytes (suc old.sequence) false
        l.widget h.shows) [
          | inl k ↦ inl (record {
            shows = same_page v grown (sym e.next_sequence) k;
            since = omega (arith, h.since, e.next_sequence);
            in_order = order;
          })
          | inr k ↦ inr (record {
            shows = same_page v fresh (replay_through t) k;
            since = omega arith;
            in_order = order;
          })
        ])

-- The widget after what a session has handed out.
pub delivered :
    (s : Scrollback) (t : Scrollback) (w : Widget) (e : EmitsOne s t)
    → deliver t (new_events s t) w ≡ widget_step (outputs t (numbered (suc s.sequence) e.bytes)) w
unfolding deliver
delivered s t w e =
    ap (λ (cs : List Chunk). deliver t cs w)
      (ap (drop (length s.emitted)) e.one_more
        ∙ drop-append s.emitted (numbered (suc s.sequence) e.bytes ∷ []))

drop_all_of : (xs : List Chunk) → drop (length xs) xs ≡ []
drop_all_of [] = refl
drop_all_of (x ∷ xs) = drop_all_of xs

pub undelivered :
    (s : Scrollback) (t : Scrollback) (w : Widget) → Quiet s t → deliver t (new_events s t) w ≡ w
unfolding deliver
undelivered s t w q =
    ap (λ (cs : List Chunk). deliver t cs w)
      (ap (drop (length s.emitted)) q.same_emitted ∙ drop_all_of s.emitted)

pub Quiet-Follows :
    (base : Scrollback) (l : Linked) (s : Session)
    → Quiet l.session.scrollback s.scrollback
    → Follows base l
    → Follows base (record { session = s; widget = l.widget })
Quiet-Follows base l s q h = record {
  shows =
      same_page l.widget
        (ap (λ es. (replay base).bytes ++ bytes_after base.sequence es) (sym q.same_emitted))
        (sym q.same_sequence) h.shows;
  since = omega (arith, h.since, q.same_sequence);
  in_order = Emits-InOrder l.session.scrollback s.scrollback (inl q) h.in_order;
}
