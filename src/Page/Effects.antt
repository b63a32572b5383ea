-- ===== src/Page/Effects.antt =====
-- What the page has done, by kind: the acknowledgements, the slices, the inputs and so on.
use termethis.Base.{
  ℕ, ◌≡◌, refl, ap, ◌∙◌, Bool, true, false, Option, none, some, List, [], ◌∷◌, ◌++◌, append-nil,
  arith, Bool-cases, inl, inr, Option-cases,
}
use termethis.Browser.{Browser, Call, Event, on_data, on_resize, on_title, on_osc133}
use termethis.Page.{Page, Message, Effect, posted, called, log, post, handle, handle_all, perform}

module _ {F : Type 0} {A : Type 0} (f : Effect F → Option A) where
  unfoldable pub collect : List (Effect F) → List A
  collect [] = []
  collect (e ∷ es) = let rest = collect es in elim (f e) [ none ↦ rest | some a ↦ a ∷ rest ]

  pub collect-append : (es fs : List (Effect F)) → collect (es ++ fs) ≡ collect es ++ collect fs
  unfolding collect
  collect-append [] fs = refl
  collect-append (e ∷ es) fs = elim (Option-cases (f e)) [
    | inl no_value ↦ rw (no_value, collect) (collect-append es fs)
    | inr (a, value) ↦ rw (value, collect) (ap (λ r. a ∷ r) (collect-append es fs))
  ]

  pub collect-none : (e : Effect F) → f e ≡ none → collect (e ∷ []) ≡ []
  unfolding collect
  collect-none e h = rw (h, collect)

  pub collect-some : (e : Effect F) (a : A) → f e ≡ some a → collect (e ∷ []) ≡ a ∷ []
  unfolding collect
  collect-some e a h = rw (h, collect)

-- The ids that `writeAck` messages carry.
abbrev pub ack_of : {F : Type 0} → Effect F → Option ℕ
ack_of (posted (Message.write_ack id)) = some id
ack_of _ = none

-- The slices that go to xterm.js.
abbrev pub slice_of : {F : Type 0} → Effect F → Option (List ℕ)
slice_of (called (Call.write bytes)) = some bytes
slice_of _ = none

-- The messages that callbacks of xterm.js post.
abbrev pub is_callback_message : Message → Bool
is_callback_message (Message.input t) = true
is_callback_message (Message.direct_input t) = true
is_callback_message (Message.resize cols rows) = true
is_callback_message (Message.title t) = true
is_callback_message _ = false

module _ ⦃b : Browser⦄ {A : Type 0} (f : Effect b.F → Option A) where
  -- The effects of a page that `f` is about.
  abbrev pub seen : Page b → List A
  seen p = collect f p.effects

  pub seen-log : (e : Effect b.F) (p : Page b) → seen (log e p) ≡ seen p ++ collect f (e ∷ [])
  unfolding log
  seen-log e p = collect-append f p.effects (e ∷ [])

  pub seen-log-none : (e : Effect b.F) (p : Page b) → f e ≡ none → seen (log e p) ≡ seen p
  seen-log-none e p h = seen-log e p ∙ rw (collect-none f e h) (append-nil (seen p))

  pub seen-post-none : (m : Message) (p : Page b) → f (posted m) ≡ none → seen (post m p) ≡ seen p
  unfolding post
  seen-post-none m p h = elim (Bool-cases b.has_channel) [
    | inl there ↦ rw there (seen-log-none (posted m) p h)
    | inr absent ↦ rw absent
  ]

  pub seen-post-some :
      (m : Message) (p : Page b) (a : A)
      → b.has_channel ≡ true
      → f (posted m) ≡ some a
      → seen (post m p) ≡ seen p ++ a ∷ []
  unfolding post
  seen-post-some m p a there h =
      rw there (seen-log (posted m) p ∙ rw (collect-some f (posted m) a h))

  -- Nothing that a callback posts is seen.
  abbrev pub SkipsCallbacks : Type 0
  SkipsCallbacks = (m : Message) → is_callback_message m ≡ true → f (posted m) ≡ none

  module _ (skips : SkipsCallbacks) where
    seen-handle : (e : Event b.F) (p : Page b) → seen (handle e p) ≡ seen p
    unfolding handle
    seen-handle (on_data now t) p = elim (Bool-cases p.dispatching_special_key) [
      | inl direct ↦ ground (
        arith,
        seen-post-none (Message.direct_input t) (record p { last_input_at = now }) (skips _ refl),
      )
      | inr plain ↦ ground (
        arith,
        seen-post-none (Message.input t) (record p { last_input_at = now }) (skips _ refl),
      )
    ]
    seen-handle (on_resize cols rows) p = seen-post-none _ p (skips _ refl)
    seen-handle (on_title t) p = seen-post-none _ p (skips _ refl)
    seen-handle (on_osc133 t buffer) p = refl

    pub seen-handle_all : (es : List (Event b.F)) (p : Page b) → seen (handle_all es p) ≡ seen p
    unfolding handle_all
    seen-handle_all [] p = refl
    seen-handle_all (e ∷ es) p = seen-handle_all es (handle e p) ∙ seen-handle e p

    pub seen-perform :
        (c : Call b.F) (p : Page b) → seen (perform c p).page ≡ seen p ++ collect f (called c ∷ [])
    unfolding perform
    seen-perform c p =
        let r = b.apply c p.screen in
        seen-handle_all r.events (record (log (called c) p) { screen = r.screen })
        ∙ seen-log (called c) p

    pub seen-perform-none :
        (c : Call b.F) (p : Page b) → f (called c) ≡ none → seen (perform c p).page ≡ seen p
    seen-perform-none c p h =
        seen-perform c p ∙ rw (collect-none f (called c) h) (append-nil (seen p))
