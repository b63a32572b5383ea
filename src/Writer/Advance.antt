-- ===== src/Writer/Advance.antt =====
-- A step of the write chain: the first pending write waits, is acknowledged, or is dropped with a
-- fatal message. The bytes that are handed over are the first pending ones, unless the page is
-- disposed.
use termethis.Base.{
  ℕ, ◌+◌, ◌≤◌, ◌<◌, ◌≡◌, refl, sym, ap, ◌∙◌, Bool, true, false, Option, none, some, List, [], ◌∷◌,
  ◌++◌, append-nil, append_assoc, if◌then◌else◌, Text, arith, if_elim, Option-cases, inl, inr, All,
  length, length-append, drop, join, Result, ok, throws, ◌&&◌, ltb,
}
use termethis.Browser.{Browser, Call}
use termethis.Codec.{decode_base64_bytes}
use termethis.Page.{
  Page, Message, Job, write_job, snapshot_job, Running, Chain, called, Op, done, post, perform,
  ◌>>◌,
}
use termethis.Page.Effects.{
  collect, collect-append, ack_of, slice_of, seen-post-none, seen-post-some, seen-perform-none,
}
use termethis.Page.Frame.{
  post-Same, perform-Same, Grows, Grows-refl, Grows-trans, post-Grows, perform-Grows, >>-keeps,
}
use termethis.Writer.{write_slice_bytes, finish_write, write_from, write_decoded, catch_fatal}
use termethis.Writer.Progress.{
  fatal_of, IsSlice, ack_skips, slice_skips, acks, slices, fatals, Progress, waits, acked, fails,
  write_from-Progress,
}

module _ ⦃b : Browser⦄ where
  -- The bytes that a payload decodes to, none if it does not decode.
  unfoldable pub payload_of : Result (List ℕ) → List ℕ
  payload_of (ok bytes) = bytes
  payload_of (throws e) = []

  unfoldable pub payload : Text → List ℕ
  unfolding payload_of
  payload value = payload_of (decode_base64_bytes value)

  -- The writes of a list of jobs: their ids, and their bytes one after the other.
  abbrev pub job_ids : List Job → List ℕ
  job_ids [] = []
  job_ids (write_job value reset id ∷ js) = id ∷ job_ids js
  job_ids (snapshot_job id sequence scrollback ∷ js) = job_ids js

  abbrev pub job_bytes : List Job → List ℕ
  job_bytes [] = []
  job_bytes (write_job value reset id ∷ js) = payload value ++ job_bytes js
  job_bytes (snapshot_job id sequence scrollback ∷ js) = job_bytes js

  -- The same of a chain, the write that runs included.
  abbrev pub pending_ids : Chain b.F → List ℕ
  pending_ids c = elim c.running [ none ↦ job_ids c.jobs | some r ↦ r.id ∷ job_ids c.jobs ]

  abbrev pub pending_bytes : Chain b.F → List ℕ
  pending_bytes c = elim c.running [
    | none ↦ job_bytes c.jobs
    | some r ↦ drop (r.offset + write_slice_bytes) r.bytes ++ job_bytes c.jobs
  ]

  -- The page without the job that begins, and without the write that goes on.
  abbrev pub popped : List Job → Page b → Page b
  popped js p = record p { chain = record { running = none; jobs = js } }

  abbrev pub Stays : Page b → Page b → Type 0
  Stays p q = Grows p q × (q.disposed ≡ p.disposed)

  pub Stays-trans : (p q r : Page b) → Stays p q → Stays q r → Stays p r
  Stays-trans p q r h k = (Grows-trans p q r h.0 k.0, k.1 ∙ h.1)

  pub Stays-refl : (p : Page b) → Stays p p
  Stays-refl p = (Grows-refl p, refl)

  pub perform-Stays : (c : Call b.F) (p : Page b) → Stays p (perform c p).page
  perform-Stays c p = (perform-Grows c p, (perform-Same c p).same_disposed)

  pub post-Stays : (m : Message) (p : Page b) → Stays p (post m p)
  post-Stays m p = (post-Grows m p, (post-Same m p).same_disposed)

  finish_write-Stays : (r : Running b.F) (p : Page b) → Stays p (finish_write r p).page
  unfolding finish_write
  finish_write-Stays r =
      >>-keeps Stays _ _ Stays-trans (λ p. if_scrolls (r.has_reset && r.follow_output) p)
        (post-Stays _)
    where
      if_scrolls :
          (c : Bool) (p : Page b)
          → Stays p ((if c then perform Call.scroll_to_bottom else done) p).page
      if_scrolls true p = perform-Stays Call.scroll_to_bottom p
      if_scrolls false p = Stays-refl p

  pub write_from-Stays : (r : Running b.F) (p : Page b) → Stays p (write_from r p).page
  unfolding write_from
  write_from-Stays r p =
      if_elim (λ (m : Op b). Stays p (m p).page) (ltb r.offset (length r.bytes))
        (λ _. >>-keeps Stays _ _ Stays-trans (perform-Stays _) (λ q. (Grows-refl q, refl)) p)
        (λ _. finish_write-Stays r p)

  -- From `p`, with the writes `ids` pending and `todo` to be handed over, to `q`.
  pub data Advance (p : Page b) (ids todo : List ℕ) (q : Page b) : Type 0 where
    moves :
        Stays p q
        → (ss : List (List ℕ)) → All IsSlice ss
        → slices q ≡ slices p ++ ss
        → acks q ++ pending_ids q.chain ≡ acks p ++ ids
        → (p.disposed ≡ false → join ss ++ pending_bytes q.chain ≡ todo)
        → Advance p ids todo q
    drops :
        Stays p q
        → (ss : List (List ℕ)) → All IsSlice ss
        → slices q ≡ slices p ++ ss
        → (id : ℕ) (rest : List ℕ) → ids ≡ id ∷ rest
        → acks q ++ pending_ids q.chain ≡ acks p ++ rest
        → length (fatals p) < length (fatals q)
        → Advance p ids todo q

  pub fatals-Grows : (p q : Page b) → Grows p q → length (fatals p) ≤ length (fatals q)
  fatals-Grows p q (es, e) =
      rw (e, collect-append fatal_of p.effects es)
        (omega (arith, length-append (fatals p) (collect fatal_of es)))

  pub pending_ids_idle : (c : Chain b.F) → c.running ≡ none → pending_ids c ≡ job_ids c.jobs
  pending_ids_idle c idle = ground arith

  pub pending_bytes_idle : (c : Chain b.F) → c.running ≡ none → pending_bytes c ≡ job_bytes c.jobs
  pending_bytes_idle c idle = ground arith

  pub catch_fatal-Advance :
      (m : Op b) (p : Page b) (id : ℕ) (todo : List ℕ)
      → b.has_channel ≡ true
      → p.chain.running ≡ none
      → Stays p (m p).page
      → Progress p id todo (m p).page (m p).thrown
      → Advance p (id ∷ job_ids p.chain.jobs) (todo ++ job_bytes p.chain.jobs) (catch_fatal m p)
  unfolding catch_fatal
  catch_fatal-Advance m p id todo h idle stays (waits r t hc hi plain ha s hs hss hb) =
      rw (t, catch_fatal)
        (moves stays (s ∷ []) (hs, tt) hss (rw (hc, ha, hi))
          (λ _.
            rw (hc, hb, append-nil s)
              (sym (
                append_assoc s (drop (r.offset + write_slice_bytes) r.bytes)
                  (job_bytes p.chain.jobs)))))
  catch_fatal-Advance m p id todo h idle stays (acked t hc ha hs hb) =
      rw (t, catch_fatal)
        (moves stays [] tt (hs ∙ sym (append-nil (slices p)))
          (rw (hc, pending_ids_idle p.chain idle, ha)
            (append_assoc (acks p) (id ∷ []) (job_ids p.chain.jobs)))
          (λ _. rw (hc, hb) (pending_bytes_idle p.chain idle)))
  catch_fatal-Advance m p id todo h idle stays (fails e t hc ha ss hss hs) =
      let q = (m p).page in
      let f = Message.fatal e in
      let chain_same : (post f q).chain ≡ p.chain = (post-Same f q).same_chain ∙ hc in
      rw (t, catch_fatal)
        (drops (Stays-trans p q (post f q) stays (post-Stays f q)) ss hss
          (seen-post-none slice_of f q refl ∙ hs) id (job_ids p.chain.jobs) refl
          (rw (chain_same, pending_ids_idle p.chain idle)
            (ap (λ x. x ++ job_ids p.chain.jobs) (seen-post-none ack_of f q refl ∙ ha)))
          (rw (seen-post-some fatal_of f q e h refl)
            (omega (arith, length-append (fatals q) (e ∷ []), fatals-Grows p q stays.0))))

  -- The first stretch of a write.
  pub write_decoded-Progress :
      (d : Result (List ℕ)) (has_reset follow : Bool) (id : ℕ) (now : b.F) (p : Page b)
      → b.has_channel ≡ true
      → let o = write_decoded d has_reset follow id now p in
        Progress p id (payload_of d) o.page o.thrown
  unfolding write_decoded payload_of
  write_decoded-Progress (ok bytes) has_reset follow id now p h = write_from-Progress _ p h refl
  write_decoded-Progress (throws e) has_reset follow id now p h =
      fails e refl refl refl [] tt (sym (append-nil (slices p)))

  pub write_decoded-Stays :
      (d : Result (List ℕ)) (has_reset follow : Bool) (id : ℕ) (now : b.F) (p : Page b)
      → Stays p (write_decoded d has_reset follow id now p).page
  unfolding write_decoded
  write_decoded-Stays (ok bytes) has_reset follow id now p = write_from-Stays _ p
  write_decoded-Stays (throws e) has_reset follow id now p = Stays-refl p

  -- A call that is neither seen as an acknowledgement nor as a slice may come first.
  pub after_call-Progress :
      (c : Call b.F) (k : Op b) (p : Page b) (id : ℕ) (todo : List ℕ)
      → slice_of (called c) ≡ none
      → (let q = (perform c p).page in Progress q id todo (k q).page (k q).thrown)
      → let o = (perform c >> k) p in Progress p id todo o.page o.thrown
  unfolding ◌>>◌
  after_call-Progress c k p id todo quiet next = elim (Option-cases (perform c p).thrown) [
    | inl e ↦ rw (e, ◌>>◌) (from_call next)
    | inr (t, e) ↦
        rw (e, ◌>>◌)
          (fails t e same_chain same_acks [] tt (same_slices ∙ sym (append-nil (slices p))))
  ]
    where
      same_chain : (perform c p).page.chain ≡ p.chain
      same_chain = (perform-Same c p).same_chain

      same_acks : acks (perform c p).page ≡ acks p
      same_acks = seen-perform-none ack_of (ack_skips b.F) c p refl

      same_slices : slices (perform c p).page ≡ slices p
      same_slices = seen-perform-none slice_of (slice_skips b.F) c p quiet

      from_call :
          {q : Page b} {t : Option Text}
          → Progress (perform c p).page id todo q t
          → Progress p id todo q t
      from_call (waits r t hc hi plain ha s hs hss hb) =
          waits r t
            (hc ∙ ap (λ (ch : Chain b.F). record { running = some r; jobs = ch.jobs }) same_chain)
            hi plain (ha ∙ same_acks) s hs (hss ∙ ap (λ x. x ++ s ∷ []) same_slices) hb
      from_call (acked t hc ha hs hb) =
          acked t (hc ∙ same_chain) (ha ∙ ap (λ x. x ++ id ∷ []) same_acks) (hs ∙ same_slices) hb
      from_call (fails e t hc ha ss hss hs) =
          fails e t (hc ∙ same_chain) (ha ∙ same_acks) ss hss (hs ∙ ap (λ x. x ++ ss) same_slices)
