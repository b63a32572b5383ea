-- ===== src/Writer/Progress.antt =====
-- One stretch of a write, from a start or a promise to the next promise or to the end: what it
-- acknowledges, what it hands to xterm.js, and what it leaves to do.
use termethis.Base.{
  ℕ, ◌+◌, ◌≤◌, ◌<◌, ◌≡◌, refl, sym, ap, ◌∙◌, true, false, Option, none, some, List, [], ◌∷◌, ◌++◌,
  append-nil, Text, arith, if_elim, Option-cases, inl, inr, All, length, take, drop, join,
  take-append-drop, drop-drop, drop_all, length-take, length-drop, ltb, ltb→lt, ltb→le, ◌&&◌,
}
use termethis.Browser.{Browser, Call}
use termethis.Page.{
  Page, Message, Running, Chain, Effect, posted, called, Op, done, pure, post, perform, ◌>>◌,
}
use termethis.Page.Effects.{
  collect-some, ack_of, slice_of, is_callback_message, seen, seen-post-none, seen-post-some,
  seen-perform, seen-perform-none,
}
use termethis.Page.Frame.{post-Same, perform-Same}
use termethis.Writer.{write_slice_bytes, set_running, finish_write, write_from}

-- The ids that `fatal` messages stand for: one for each.
abbrev pub fatal_of : {F : Type 0} → Effect F → Option Text
fatal_of (posted (Message.fatal e)) = some e
fatal_of _ = none

abbrev pub IsSlice : List ℕ → Type 0
IsSlice s = (0 < length s) × (length s ≤ write_slice_bytes)

pub ack_skips :
    (F : Type 0) (m : Message) → is_callback_message m ≡ true → ack_of {F = F} (posted m) ≡ none
ack_skips F (Message.write_ack id) h = cc
ack_skips F _ h = refl

pub slice_skips :
    (F : Type 0) (m : Message) → is_callback_message m ≡ true → slice_of {F = F} (posted m) ≡ none
slice_skips F (Message.fatal id) h = refl
slice_skips F _ h = refl

module _ ⦃b : Browser⦄ where
  abbrev pub acks : Page b → List ℕ
  acks = seen ack_of

  abbrev pub slices : Page b → List (List ℕ)
  slices = seen slice_of

  abbrev pub written : Page b → List ℕ
  written p = join (slices p)

  abbrev pub fatals : Page b → List Text
  fatals = seen fatal_of

  -- The job `id` with `todo` still to be written, from `p` on: it waits for a promise, or it is
  -- done and acknowledged, or it has thrown. Whatever it has handed over are slices.
  pub data Progress (p : Page b) (id : ℕ) (todo : List ℕ) (q : Page b) (t : Option Text)
      : Type 0 where
    waits :
        (r : Running b.F)
        → t ≡ none
        → q.chain ≡ record { running = some r; jobs = p.chain.jobs }
        → r.id ≡ id
        → r.in_frame ≡ false
        → acks q ≡ acks p
        → (s : List ℕ) → IsSlice s
        → slices q ≡ slices p ++ s ∷ []
        → todo ≡ s ++ drop (r.offset + write_slice_bytes) r.bytes
        → Progress p id todo q t
    acked :
        t ≡ none
        → q.chain ≡ p.chain
        → acks q ≡ acks p ++ id ∷ []
        → slices q ≡ slices p
        → todo ≡ []
        → Progress p id todo q t
    fails :
        (e : Text)
        → t ≡ some e
        → q.chain ≡ p.chain
        → acks q ≡ acks p
        → (ss : List (List ℕ)) → All IsSlice ss
        → slices q ≡ slices p ++ ss
        → Progress p id todo q t

  -- What a statement leaves as it is, beside what it adds to the effects.
  acks-perform : (c : Call b.F) (p : Page b) → acks (perform c p).page ≡ acks p
  acks-perform c p = seen-perform-none ack_of (ack_skips b.F) c p refl

  ended :
      (r : Running b.F) (p : Page b) (m : Op b) (h : b.has_channel ≡ true)
      → (m p).page.chain ≡ p.chain
      → acks (m p).page ≡ acks p
      → slices (m p).page ≡ slices p
      → let o = (m >> pure (post (Message.write_ack r.id))) p in Progress p r.id [] o.page o.thrown
  unfolding ◌>>◌
  ended r p m h hc ha hs = elim (Option-cases (m p).thrown) [
    | inl e ↦
        rw (e, ◌>>◌)
          (acked refl ((post-Same (Message.write_ack r.id) (m p).page).same_chain ∙ hc)
            (seen-post-some ack_of (Message.write_ack r.id) (m p).page r.id h refl
              ∙ ap (λ x. x ++ r.id ∷ []) ha)
            (seen-post-none slice_of (Message.write_ack r.id) (m p).page refl ∙ hs) refl)
    | inr (t, e) ↦ rw (e, ◌>>◌) (fails t e hc ha [] tt (hs ∙ sym (append-nil (slices p))))
  ]

  finish_write-Progress :
      (r : Running b.F) (p : Page b)
      → b.has_channel ≡ true
      → Progress p r.id [] (finish_write r p).page (finish_write r p).thrown
  unfolding finish_write
  finish_write-Progress r p h =
      if_elim
        (λ (m : Op b).
          let o = (m >> pure (post (Message.write_ack r.id))) p in
          Progress p r.id [] o.page o.thrown)
        (r.has_reset && r.follow_output)
        (λ _.
          ended r p (perform Call.scroll_to_bottom) h
            (perform-Same Call.scroll_to_bottom p).same_chain (acks-perform Call.scroll_to_bottom p)
            (seen-perform-none slice_of (slice_skips b.F) Call.scroll_to_bottom p refl))
        (λ _. ended r p done h refl refl refl)

  slice_at : Running b.F → List ℕ
  slice_at r = take write_slice_bytes (drop r.offset r.bytes)

  slice_at-IsSlice : (r : Running b.F) → r.offset < length r.bytes → IsSlice (slice_at r)
  unfolding slice_at
  slice_at-IsSlice r h =
      let n = length-take write_slice_bytes (drop r.offset r.bytes) in
      let d = length-drop r.offset r.bytes in (omega (arith, n, d), omega (arith, n))

  slice_at-append :
      (r : Running b.F)
      → drop r.offset r.bytes ≡ slice_at r ++ drop (r.offset + write_slice_bytes) r.bytes
  unfolding slice_at
  slice_at-append r =
      rw (← drop-drop r.offset write_slice_bytes r.bytes)
        (sym (take-append-drop write_slice_bytes (drop r.offset r.bytes)))

  slices-write :
      (s : List ℕ) (p : Page b) → slices (perform (Call.write s) p).page ≡ slices p ++ s ∷ []
  slices-write s p =
      seen-perform slice_of (slice_skips b.F) (Call.write s) p
      ∙ ap (λ x. slices p ++ x) (collect-some slice_of (called (Call.write s)) s refl)

  send_slice-Progress :
      (r : Running b.F) (p : Page b)
      → r.in_frame ≡ false
      → r.offset < length r.bytes
      → let o = (perform (Call.write (slice_at r)) >> pure (set_running (some r))) p in
        Progress p r.id (drop r.offset r.bytes) o.page o.thrown
  unfolding ◌>>◌
  send_slice-Progress r p plain more =
      let s = slice_at r in
      let m = perform (Call.write s) in
      let hc = (perform-Same (Call.write s) p).same_chain in
      elim (Option-cases (m p).thrown) [
        | inl e ↦
            rw (e, ◌>>◌)
              (waits r refl (ap (λ (c : Chain b.F). record c { running = some r }) hc) refl plain
                (acks-perform (Call.write s) p) s (slice_at-IsSlice r more) (slices-write s p)
                (slice_at-append r))
        | inr (t, e) ↦
            rw (e, ◌>>◌)
              (fails t e hc (acks-perform (Call.write s) p) (s ∷ []) (slice_at-IsSlice r more, tt)
                (slices-write s p))
      ]

  -- One test of the loop, with what is left from the offset on.
  pub write_from-Progress :
      (r : Running b.F) (p : Page b)
      → b.has_channel ≡ true
      → r.in_frame ≡ false
      → Progress p r.id (drop r.offset r.bytes) (write_from r p).page (write_from r p).thrown
  unfolding write_from slice_at
  write_from-Progress r p h plain =
      if_elim (λ (m : Op b). Progress p r.id (drop r.offset r.bytes) (m p).page (m p).thrown)
        (ltb r.offset (length r.bytes)) (λ more. send_slice-Progress r p plain (ltb→lt _ _ more))
        (λ past. rw (drop_all r.offset r.bytes (ltb→le _ _ past)) (finish_write-Progress r p h))
