-- ===== src/Page/Frame.antt =====
-- What the callbacks of xterm.js and the calls that make them leave alone, and how a relation
-- between the pages before and behind carries over a sequence of statements.
use termethis.Base.{
  ◌≡◌, refl, ◌∙◌, List, [], ◌∷◌, ◌++◌, append-nil, append_assoc, sym, ap, arith, not, ◌&&◌, if_elim,
  inl, inr, Option-cases,
}
use termethis.Browser.{Browser, Call, Event, on_data, on_resize, on_title, on_osc133}
use termethis.Page.{Page, Message, Effect, called, Op, log, post, handle, handle_all, perform, ◌>>◌}

-- All variables but the screen, the effects, `lastInputAt` and the prompt.
pub record Same (b : Browser) (p q : Page b) : Type 0 where
  pub same_active : q.active ≡ p.active
  pub same_disposed : q.disposed ≡ p.disposed
  pub same_dispatching : q.dispatching_special_key ≡ p.dispatching_special_key
  pub same_chain : q.chain ≡ p.chain
  pub same_agent_mode : q.agent_mode ≡ p.agent_mode
  pub same_interaction : q.interaction ≡ p.interaction
  pub same_gesture : q.gesture ≡ p.gesture
  pub same_layout : q.layout ≡ p.layout

module _ ⦃b : Browser⦄ where
  pub Same-refl : (p : Page b) → Same b p p
  Same-refl p = ground arith

  pub Same-trans : (p q r : Page b) → Same b p q → Same b q r → Same b p r
  Same-trans p q r h k = ground arith

  pub post-Same : (m : Message) (p : Page b) → Same b p (post m p)
  unfolding post log
  post-Same m p = ground arith

  pub handle-Same : (e : Event b.F) (p : Page b) → Same b p (handle e p)
  unfolding handle post log
  handle-Same (on_data now t) p = ground arith
  handle-Same (on_resize cols rows) p = ground arith
  handle-Same (on_title t) p = ground arith
  handle-Same (on_osc133 t buffer) p = ground arith

  pub handle_all-Same : (es : List (Event b.F)) (p : Page b) → Same b p (handle_all es p)
  unfolding handle_all
  handle_all-Same [] p = Same-refl p
  handle_all-Same (e ∷ es) p =
      Same-trans p (handle e p) _ (handle-Same e p) (handle_all-Same es (handle e p))

  -- A call of xterm.js runs callbacks, and leaves these variables alone.
  pub perform-Same : (c : Call b.F) (p : Page b) → Same b p (perform c p).page
  unfolding perform log
  perform-Same c p = ground (
    arith,
    handle_all-Same (b.apply c p.screen).events
        (record (log (called c) p) { screen = (b.apply c p.screen).screen }),
  )

  -- A relation that each of two statements keeps is kept by one after the other.
  pub >>-keeps :
      (R : Page b → Page b → Type 0) (m k : Op b)
      → ((p q r : Page b) → R p q → R q r → R p r)
      → ((p : Page b) → R p (m p).page)
      → ((p : Page b) → R p (k p).page)
      → (p : Page b) → R p ((m >> k) p).page
  unfolding ◌>>◌
  >>-keeps R m k trans hm hk p = elim (Option-cases (m p).thrown) [
    | inl fine ↦ rw (fine, ◌>>◌) (trans p (m p).page (k (m p).page).page (hm p) (hk (m p).page))
    | inr (e, failed) ↦ rw (failed, ◌>>◌) (hm p)
  ]

  -- Effects are only added.
  abbrev pub Grows : Page b → Page b → Type 0
  Grows p q = (es : List (Effect b.F)) × (q.effects ≡ p.effects ++ es)

  pub Grows-refl : (p : Page b) → Grows p p
  Grows-refl p = ([], sym (append-nil p.effects))

  pub Grows-trans : (p q r : Page b) → Grows p q → Grows q r → Grows p r
  Grows-trans p q r (es, h) (fs, k) =
      (es ++ fs, k ∙ (ap (λ (x : List (Effect b.F)). x ++ fs) h ∙ append_assoc p.effects es fs))

  pub post-Grows : (m : Message) (p : Page b) → Grows p (post m p)
  unfolding post log
  post-Grows m p =
      if_elim (λ (q : Page b). Grows p q) b.has_channel (λ _. (_, refl)) (λ _. Grows-refl p)

  pub handle-Grows : (e : Event b.F) (p : Page b) → Grows p (handle e p)
  unfolding handle
  handle-Grows (on_data now t) p =
      if_elim (λ (q : Page b). Grows p q) (p.active && not p.disposed)
        (λ _. post-Grows _ (record p { last_input_at = now })) (λ _. Grows-refl p)
  handle-Grows (on_resize cols rows) p = post-Grows _ p
  handle-Grows (on_title t) p = post-Grows _ p
  handle-Grows (on_osc133 t buffer) p = Grows-refl p

  pub handle_all-Grows : (es : List (Event b.F)) (p : Page b) → Grows p (handle_all es p)
  unfolding handle_all
  handle_all-Grows [] p = Grows-refl p
  handle_all-Grows (e ∷ es) p =
      Grows-trans p (handle e p) (handle_all es (handle e p)) (handle-Grows e p)
        (handle_all-Grows es (handle e p))

  pub perform-Grows : (c : Call b.F) (p : Page b) → Grows p (perform c p).page
  unfolding perform log
  perform-Grows c p =
      let r = b.apply c p.screen in
      let logged = record (log (called c) p) { screen = r.screen } in
      Grows-trans p logged (handle_all r.events logged) (_, refl) (handle_all-Grows r.events logged)
