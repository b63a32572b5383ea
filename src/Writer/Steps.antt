-- ===== src/Writer/Steps.antt =====
-- The start of a job of the write chain.
pub mod Resumes
use termethis.Base.{
  ℕ, ◌+◌, ◌≡◌, refl, sym, ◌∙◌, Bool, true, false, Option, none, some, List, [], ◌∷◌, ◌++◌,
  append-nil, append_assoc, if◌then◌else◌, Text, arith, Bool-cases, if_elim, inl, inr, length, drop,
  Result, ok, throws, ◌&&◌, ltb, ◌>>=◌,
}
use termethis.Browser.{Browser, Call}
use termethis.Codec.{decode_base64_bytes, encode_base64}
use termethis.Page.{
  Page, Message, Job, write_job, snapshot_job, Running, Chain, posted, Outcome, done, post, perform,
  ◌>>◌,
}
use termethis.Page.Effects.{ack_of, slice_of, seen-post-none, seen-post-some}
use termethis.Page.Frame.{post-Same, Grows-refl, >>-keeps}
use termethis.Writer.{
  write_slice_bytes, write_budget, set_running, write_from, after_write, after_frame, begin_write,
  catch_fatal, take_snapshot, begin_job, pop_job, start_next, write_parsed, write_frame,
}
use termethis.Writer.Progress.{acks, slices, Progress, write_from-Progress}
use termethis.Writer.Advance.{
  payload, job_ids, job_bytes, pending_ids, pending_bytes, Stays, Stays-trans, Stays-refl,
  post-Stays, perform-Stays, write_from-Stays, popped, Advance, pending_ids_idle,
  pending_bytes_idle, moves, drops, catch_fatal-Advance, write_decoded-Progress,
  write_decoded-Stays, after_call-Progress,
}

module _ ⦃b : Browser⦄ (h : b.has_channel ≡ true) where
  -- An acknowledgement that is posted at once, because the page is disposed.
  ack_at_once :
      (p : Page b) (id : ℕ)
      → p.chain.running ≡ none
      → let q = post (Message.write_ack id) p in
        (acks q ++ pending_ids q.chain ≡ acks p ++ id ∷ job_ids p.chain.jobs)
        × (slices q ≡ slices p ++ [])
  ack_at_once p id idle = (
    rw
        (
          seen-post-some ack_of (Message.write_ack id) p id h refl,
          (post-Same (Message.write_ack id) p).same_chain,
          pending_ids_idle p.chain idle,
        )
        (append_assoc (acks p) (id ∷ []) (job_ids p.chain.jobs)),
    seen-post-none slice_of (Message.write_ack id) p refl ∙ sym (append-nil (slices p)),
  )

  begin_write-Stays :
      (value : Text) (has_reset : Bool) (id : ℕ) (now : b.F) (p : Page b)
      → Stays p (begin_write value has_reset id now p).page
  unfolding begin_write
  begin_write-Stays value has_reset id now p =
      if_elim (λ (o : Outcome b). Stays p o.page) p.disposed (λ _. post-Stays _ p)
        (λ _.
          >>-keeps Stays _ _ Stays-trans (λ q. resets has_reset q)
            (write_decoded-Stays (decode_base64_bytes value) has_reset _ id now) p)
    where
      resets : (c : Bool) (q : Page b) → Stays q ((if c then perform Call.reset else done) q).page
      resets true q = perform-Stays Call.reset q
      resets false q = Stays-refl q

  -- On a page that is not disposed.
  pub begin_write-Progress :
      (value : Text) (has_reset : Bool) (id : ℕ) (now : b.F) (p : Page b)
      → p.disposed ≡ false
      → let o = begin_write value has_reset id now p in
        Progress p id (payload value) o.page o.thrown
  begin_write-Progress value true id now p live =
      unfold begin_write payload in
      if_elim (λ (o : Outcome b). Progress p id (payload value) o.page o.thrown) p.disposed
        (λ dead. cc)
        (λ _.
          after_call-Progress Call.reset _ p id _ refl (write_decoded-Progress _ true _ id now _ h))
  begin_write-Progress value false id now p live =
      unfold begin_write payload ◌>>◌ in
      if_elim (λ (o : Outcome b). Progress p id (payload value) o.page o.thrown) p.disposed
        (λ dead. cc) (λ _. write_decoded-Progress _ false _ id now p h)

  -- Only the effects and `disposed` of the page before matter.
  pub of_popped :
      (js : List Job) (p q : Page b) (ids todo : List ℕ)
      → Advance (popped js p) ids todo q
      → Advance p ids todo q
  of_popped js p q ids todo (moves st ss hss hs hi hb) = moves st ss hss hs hi hb
  of_popped js p q ids todo (drops st ss hss hs id rest hr hi hf) =
      drops st ss hss hs id rest hr hi hf

  begin_write-Advance :
      (value : Text) (has_reset : Bool) (id : ℕ) (js : List Job) (now : b.F) (p : Page b)
      → Advance p
          (id ∷ job_ids js)
          (payload value ++ job_bytes js)
          (catch_fatal (begin_write value has_reset id now) (popped js p))
  begin_write-Advance value has_reset id js now p = elim (Bool-cases p.disposed) [
    | inr live ↦ of_popped js p _ _ _ (
        catch_fatal-Advance (begin_write value has_reset id now) (popped js p) id (payload value) h
          refl (begin_write-Stays value has_reset id now (popped js p))
          (begin_write-Progress value has_reset id now (popped js p) live))
    | inl dead ↦
        let q = popped js p in
        let acked_now : catch_fatal (begin_write value has_reset id now) q
            ≡ post (Message.write_ack id) q =
          unfold catch_fatal begin_write in
          if_elim
            (λ (o : Outcome b).
              elim o.thrown [ none ↦ o.page | some e ↦ post (Message.fatal e) o.page ]
              ≡ post (Message.write_ack id) q)
            p.disposed (λ _. refl) (λ live. cc) in
        let (ids, quiet) = ack_at_once q id refl in
        rw acked_now (moves (post-Stays (Message.write_ack id) q) [] tt quiet ids (λ live. cc))
  ]

  -- A message that is neither an acknowledgement nor fatal, from a page where nothing runs.
  say-Advance :
      (m : Message) (js : List Job) (p : Page b)
      → ack_of {F = b.F} (posted m) ≡ none
      → slice_of {F = b.F} (posted m) ≡ none
      → Advance p (job_ids js) (job_bytes js) (post m (popped js p))
  say-Advance m js p quiet_ack quiet_slice =
      let q = popped js p in
      let same = (post-Same m q).same_chain in
      moves (post-Stays m q) [] tt
        (seen-post-none slice_of m q quiet_slice ∙ sym (append-nil (slices p)))
        (rw (same, seen-post-none ack_of m q quiet_ack)) (λ _. rw same)

  take_snapshot-Advance :
      (id sequence scrollback : ℕ) (js : List Job) (p : Page b)
      → Advance p (job_ids js) (job_bytes js) (take_snapshot id sequence scrollback (popped js p))
  take_snapshot-Advance id sequence scrollback js p =
      on_result (b.serialize scrollback p.screen >>= encode_base64) refl
    where
      on_result :
          (r : Result Text)
          → (b.serialize scrollback p.screen >>= encode_base64) ≡ r
          → Advance p
              (job_ids js)
              (job_bytes js)
              (take_snapshot id sequence scrollback (popped js p))
      on_result (ok t) e =
          unfold take_snapshot in
          if_elim (λ (q : Page b). Advance p (job_ids js) (job_bytes js) q) p.disposed
            (λ _. moves (Grows-refl p, refl) [] tt (sym (append-nil (slices p))) refl (λ _. refl))
            (λ _. rw e (say-Advance (Message.snapshot id sequence t) js p refl refl))
      on_result (throws t) e =
          unfold take_snapshot in
          if_elim (λ (q : Page b). Advance p (job_ids js) (job_bytes js) q) p.disposed
            (λ _. moves (Grows-refl p, refl) [] tt (sym (append-nil (slices p))) refl (λ _. refl))
            (λ _. rw e (say-Advance (Message.snapshot_error id t) js p refl refl))

  pub stays_put : (p : Page b) → Advance p (pending_ids p.chain) (pending_bytes p.chain) p
  stays_put p = moves (Stays-refl p) [] tt (sym (append-nil (slices p))) refl (λ _. refl)

  pop_job-Advance :
      (js : List Job) (now : b.F) (p : Page b)
      → p.chain.jobs ≡ js
      → p.chain.running ≡ none
      → Advance p (job_ids js) (job_bytes js) (pop_job js now p)
  unfolding pop_job begin_job
  pop_job-Advance [] now p e idle =
      moves (Stays-refl p) [] tt (sym (append-nil (slices p)))
        (rw (pending_ids_idle p.chain idle, e)) (λ _. rw (pending_bytes_idle p.chain idle, e))
  pop_job-Advance (write_job value has_reset id ∷ js) now p e idle =
      begin_write-Advance value has_reset id js now p
  pop_job-Advance (snapshot_job id sequence scrollback ∷ js) now p e idle =
      take_snapshot-Advance id sequence scrollback js p

  -- The start of the next job.
  pub start_next-Advance :
      (now : b.F) (p : Page b)
      → Advance p (pending_ids p.chain) (pending_bytes p.chain) (start_next now p)
  start_next-Advance now p = unfold start_next in at p.chain.running refl
    where
      at :
          (o : Option (Running b.F))
          → p.chain.running ≡ o
          → Advance p
              (pending_ids p.chain)
              (pending_bytes p.chain)
              (elim o [ none ↦ pop_job p.chain.jobs now p | some _ ↦ p ])
      at (some r) e = stays_put p
      at none idle =
          rw (pending_ids_idle p.chain idle, pending_bytes_idle p.chain idle)
            (pop_job-Advance p.chain.jobs now p refl idle)
