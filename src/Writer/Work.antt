-- ===== src/Writer/Work.antt =====
-- How much is left to do in the write chain: each of its steps that is due makes it less.
pub mod Decreases
use termethis.Base.{
  ℕ, suc, ◌+◌, ◌*◌, ◌≤◌, ◌<◌, ◌≡◌, ◌⊎◌, refl, ap, ◌∙◌, Bool, true, false, Option, none, some, List,
  [], ◌∷◌, if◌then◌else◌, Text, arith, if_elim, Bool-cases, inl, inr, length, length-append, drop,
  Result, ok, throws, ◌&&◌, ltb, ◌>>=◌,
}
use termethis.Browser.{Browser}
use termethis.Codec.{encode_base64}
use termethis.Page.{Page, Message, Job, write_job, snapshot_job, Running, Chain, Op, Outcome, post}
use termethis.Page.Frame.{post-Same}
use termethis.Writer.{
  write_slice_bytes, write_budget, set_running, write_from, after_write, after_frame, begin_write,
  catch_fatal, take_snapshot, begin_job, pop_job, start_next, write_parsed, write_frame,
}
use termethis.Writer.Progress.{Progress, waits, acked, fails, write_from-Progress}
use termethis.Writer.Advance.{payload, popped}
use termethis.Writer.Steps.{begin_write-Progress}

module _ ⦃b : Browser⦄ where
  abbrev pub jobs_work : List Job → ℕ
  jobs_work [] = 0
  jobs_work (write_job value reset id ∷ js) = suc (2 * length (payload value)) + jobs_work js
  jobs_work (snapshot_job id sequence scrollback ∷ js) = suc (jobs_work js)

  abbrev pub running_work : Running b.F → ℕ
  running_work r =
      (if r.in_frame then 1 else 2) + 2 * length (drop (r.offset + write_slice_bytes) r.bytes)

  pub running_work_plain :
      (r : Running b.F)
      → r.in_frame ≡ false
      → running_work r ≡ 2 + 2 * length (drop (r.offset + write_slice_bytes) r.bytes)
  running_work_plain r plain = rw plain

  -- A bound on the steps that the chain still takes.
  abbrev pub work : Chain b.F → ℕ
  work c = elim c.running [ none ↦ jobs_work c.jobs | some r ↦ running_work r + jobs_work c.jobs ]

  abbrev pub next_step : b.F → Page b → Page b
  next_step now p = elim p.chain.running [
    | none ↦ start_next now p
    | some r ↦ if r.in_frame then write_frame now p else write_parsed now p
  ]

  pub begin_write_dead :
      (value : Text) (has_reset : Bool) (id : ℕ) (now : b.F) (p : Page b)
      → p.disposed ≡ true
      → catch_fatal (begin_write value has_reset id now) p ≡ post (Message.write_ack id) p
  unfolding catch_fatal begin_write
  begin_write_dead value has_reset id now p dead =
      if_elim
        (λ (o : Outcome b).
          elim o.thrown [ none ↦ o.page | some e ↦ post (Message.fatal e) o.page ]
          ≡ post (Message.write_ack id) p)
        p.disposed (λ _. refl) (λ live. cc)

  -- Which code a step runs.
  pub start_next-pop_job :
      (now : b.F) (p : Page b) (js : List Job)
      → p.chain.running ≡ none
      → p.chain.jobs ≡ js
      → start_next now p ≡ pop_job js now p
  unfolding start_next
  start_next-pop_job now p js idle e =
      at p.chain.running idle ∙ ap (λ (l : List Job). pop_job l now p) e
    where
      at :
          (o : Option (Running b.F))
          → o ≡ none
          → (let q : Page b = elim o [ none ↦ pop_job p.chain.jobs now p | some _ ↦ p ] in
              q ≡ pop_job p.chain.jobs now p)
      at none h = refl
      at (some r) h = cc

  pub write_parsed-after :
      (now : b.F) (p : Page b) (r : Running b.F) (js : List Job)
      → p.chain.running ≡ some r
      → p.chain.jobs ≡ js
      → r.in_frame ≡ false
      → write_parsed now p ≡ catch_fatal (after_write r now) (popped js p)
  unfolding write_parsed
  write_parsed-after now p r js running e plain = at p.chain.running running
    where
      target : Page b
      target = catch_fatal (after_write r now) (popped js p)

      same : catch_fatal (after_write r now) (popped p.chain.jobs p) ≡ target
      same = ap (λ (l : List Job). catch_fatal (after_write r now) (popped l p)) e

      at :
          (o : Option (Running b.F))
          → o ≡ some r
          → (let q : Page b = elim o [
            | none ↦ p
            | some s ↦
                if s.in_frame then p else catch_fatal (after_write s now) (set_running none p)
          ] in
              q ≡ target)
      at none f = cc
      at (some s) f =
          let inj : s ≡ r = cc in
          rw inj (if_elim (λ (q : Page b). q ≡ target) r.in_frame (λ framed. cc) (λ _. same))

  pub write_frame-after :
      (now : b.F) (p : Page b) (r : Running b.F) (js : List Job)
      → p.chain.running ≡ some r
      → p.chain.jobs ≡ js
      → r.in_frame ≡ true
      → write_frame now p ≡ catch_fatal (after_frame r now) (popped js p)
  unfolding write_frame
  write_frame-after now p r js running e framed = at p.chain.running running
    where
      target : Page b
      target = catch_fatal (after_frame r now) (popped js p)

      same : catch_fatal (after_frame r now) (popped p.chain.jobs p) ≡ target
      same = ap (λ (l : List Job). catch_fatal (after_frame r now) (popped l p)) e

      at :
          (o : Option (Running b.F))
          → o ≡ some r
          → (let q : Page b = elim o [
            | none ↦ p
            | some s ↦
                if s.in_frame then catch_fatal (after_frame s now) (set_running none p) else p
          ] in
              q ≡ target)
      at none f = cc
      at (some s) f =
          let inj : s ≡ r = cc in
          rw inj (if_elim (λ (q : Page b). q ≡ target) r.in_frame (λ _. same) (λ plain. cc))
