-- ===== src/Writer/Work/Decreases.antt =====
-- Each step of the write chain that is due leaves less to do, and at rest there is none.
use termethis.Base.{
  ℕ, ◌+◌, ◌*◌, ◌≤◌, ◌<◌, ◌≡◌, ◌⊎◌, refl, ap, ◌∙◌, Bool, true, false, Option, none, some, List, [],
  ◌∷◌, if◌then◌else◌, Text, arith, if_elim, Bool-cases, inl, inr, length, length-append, drop,
  Result, ok, throws, ◌&&◌, ltb, ◌>>=◌,
}
use termethis.Browser.{Browser}
use termethis.Codec.{encode_base64}
use termethis.Page.{Page, Message, Job, write_job, snapshot_job, Running, Chain, Op, Outcome, post}
use termethis.Page.Frame.{post-Same}
use termethis.Writer.{
  write_slice_bytes, write_budget, write_from, after_write, after_frame, begin_write, catch_fatal,
  take_snapshot, begin_job, pop_job, start_next, write_parsed, write_frame,
}
use termethis.Writer.Progress.{Progress, waits, acked, fails, write_from-Progress}
use termethis.Writer.Advance.{payload, popped}
use termethis.Writer.Steps.{begin_write-Progress}
use termethis.Writer.Work.{
  work, jobs_work, running_work, next_step, running_work_plain, begin_write_dead,
  start_next-pop_job, write_parsed-after, write_frame-after,
}

lt_of_le : {a m c : ℕ} → a ≤ m → m < c → a < c
lt_of_le h k = omega arith

module _ ⦃b : Browser⦄ where
  module _ (h : b.has_channel ≡ true) where
    catch_fatal-work :
        (m : Op b) (js : List Job) (p : Page b) (id : ℕ) (todo : List ℕ)
        → Progress (popped js p) id todo (m (popped js p)).page (m (popped js p)).thrown
        → work (catch_fatal m (popped js p)).chain ≤ 2 * length todo + jobs_work js
    unfolding catch_fatal
    catch_fatal-work m js p id todo (waits r t hc hi plain ha s hs hss hb) =
        rw (t, catch_fatal, hc, plain, hb)
          (omega (arith, length-append s (drop (r.offset + write_slice_bytes) r.bytes)))
    catch_fatal-work m js p id todo (acked t hc ha hs hb) = rw (t, catch_fatal, hc) (omega arith)
    catch_fatal-work m js p id todo (fails e t hc ha ss hss hs) =
        let q = (m (popped js p)).page in
        let same = (post-Same (Message.fatal e) q).same_chain ∙ hc in
        rw (t, catch_fatal, same) (omega arith)

    begin_write-work :
        (value : Text) (has_reset : Bool) (id : ℕ) (now : b.F) (js : List Job) (p : Page b)
        → work (catch_fatal (begin_write value has_reset id now) (popped js p)).chain
          ≤ 2 * length (payload value) + jobs_work js
    begin_write-work value has_reset id now js p = elim (Bool-cases p.disposed) [
      | inr live ↦
          catch_fatal-work (begin_write value has_reset id now) js p id (payload value)
            (begin_write-Progress h value has_reset id now (popped js p) live)
      | inl dead ↦
          let m = Message.write_ack id in
          let acked_now = begin_write_dead value has_reset id now (popped js p) dead in
          rw (acked_now, (post-Same m (popped js p)).same_chain) (omega arith)
    ]

    take_snapshot-work :
        (id sequence scrollback : ℕ) (js : List Job) (p : Page b)
        → (take_snapshot id sequence scrollback (popped js p)).chain
          ≡ record { running = none; jobs = js }
    take_snapshot-work id sequence scrollback js p =
        on_result (b.serialize scrollback p.screen >>= encode_base64) refl
      where
        idle : Page b → Type 0
        idle q = q.chain ≡ record { running = none; jobs = js }

        on_result :
            (r : Result Text)
            → (b.serialize scrollback p.screen >>= encode_base64) ≡ r
            → idle (take_snapshot id sequence scrollback (popped js p))
        on_result (ok t) e =
            unfold take_snapshot in
            if_elim idle p.disposed (λ _. refl)
              (λ _. rw e (post-Same (Message.snapshot id sequence t) (popped js p)).same_chain)
        on_result (throws t) e =
            unfold take_snapshot in
            if_elim idle p.disposed (λ _. refl)
              (λ _. rw e (post-Same (Message.snapshot_error id t) (popped js p)).same_chain)

    pop_job-work :
        (j : Job) (js : List Job) (now : b.F) (p : Page b)
        → work (pop_job (j ∷ js) now p).chain < jobs_work (j ∷ js)
    unfolding pop_job begin_job
    pop_job-work (write_job value has_reset id) js now p =
        omega (arith, begin_write-work value has_reset id now js p)
    pop_job-work (snapshot_job id sequence scrollback) js now p =
        rw (take_snapshot-work id sequence scrollback js p) (omega arith)

    after_write-work :
        (r : Running b.F) (now : b.F) (js : List Job) (p : Page b)
        → r.in_frame ≡ false
        → work (catch_fatal (after_write r now) (popped js p)).chain < running_work r + jobs_work js
    after_write-work r now js p plain =
        unfold catch_fatal after_write in
        if_elim
          (λ (o : Outcome b).
            let q : Page b = elim o.thrown [
              | none ↦ o.page
              | some e ↦ post (Message.fatal e) o.page
            ] in
            work q.chain < running_work r + jobs_work js)
          (ltb (r.offset + write_slice_bytes) (length r.bytes)
            && b.le (write_budget now p.last_input_at) (b.sub now r.slice_started_at))
          (λ _. omega (arith, running_work_plain r plain))
          (λ _.
            lt_of_le (from_next (record r { offset = r.offset + write_slice_bytes }) plain)
              (omega (arith, running_work_plain r plain)))
      where
        from_next :
            (s : Running b.F)
            → s.in_frame ≡ false
            → work (catch_fatal (write_from s) (popped js p)).chain
              ≤ 2 * length (drop s.offset s.bytes) + jobs_work js
        from_next s plain' =
            catch_fatal-work (write_from s) js p s.id (drop s.offset s.bytes)
              (write_from-Progress s (popped js p) h plain')

    after_frame-work :
        (r : Running b.F) (now : b.F) (js : List Job) (p : Page b)
        → r.in_frame ≡ true
        → work (catch_fatal (after_frame r now) (popped js p)).chain < running_work r + jobs_work js
    unfolding after_frame
    after_frame-work r now js p framed =
        let s = record r {
          offset = r.offset + write_slice_bytes;
          slice_started_at = now;
          in_frame = false;
        } in
        rw framed (
          omega (
            arith,
            catch_fatal-work (write_from s) js p s.id (drop s.offset s.bytes)
                (write_from-Progress s (popped js p) h refl),
          ))

    -- While anything is left, the step that is due leaves less.
    pub next_step-work :
        (now : b.F) (p : Page b)
        → (p.chain ≡ record { running = none; jobs = [] })
          ⊎ (work (next_step now p).chain < work p.chain)
    next_step-work now p = at p.chain.running p.chain.jobs refl refl
      where
        at :
            (o : Option (Running b.F)) (js : List Job)
            → p.chain.running ≡ o
            → p.chain.jobs ≡ js
            → ((let c : Chain b.F = record { running = o; jobs = js } in
                c ≡ record { running = none; jobs = [] }))
              ⊎ (let q : Page b = elim o [
                | none ↦ start_next now p
                | some r ↦ if r.in_frame then write_frame now p else write_parsed now p
              ] in
                  work q.chain < work (record { running = o; jobs = js }))
        at none [] e f = inl refl
        at none (j ∷ js) e f =
            inr (rw (start_next-pop_job now p (j ∷ js) e f) (pop_job-work j js now p))
        at (some r) js e f = inr (
            if_elim (λ (q : Page b). work q.chain < running_work r + jobs_work js) r.in_frame
              (λ framed.
                rw (write_frame-after now p r js e f framed) (after_frame-work r now js p framed))
              (λ plain.
                rw (write_parsed-after now p r js e f plain) (after_write-work r now js p plain)))

  -- A chain at rest stays at rest.
  pub next_step_rest :
      (now : b.F) (p : Page b)
      → p.chain ≡ record { running = none; jobs = [] }
      → next_step now p ≡ p
  unfolding pop_job
  next_step_rest now p e = at p.chain.running (ap (λ (c : Chain b.F). c.running) e)
    where
      at :
          (o : Option (Running b.F))
          → o ≡ none
          → (let q : Page b = elim o [
            | none ↦ start_next now p
            | some r ↦ if r.in_frame then write_frame now p else write_parsed now p
          ] in
              q ≡ p)
      at (some r) f = cc
      at none f =
          start_next-pop_job now p [] (ap (λ (c : Chain b.F). c.running) e)
            (ap (λ (c : Chain b.F). c.jobs) e)
