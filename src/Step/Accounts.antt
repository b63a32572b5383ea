-- ===== src/Step/Accounts.antt =====
-- What a run of the page does with the writes that the application asks for.
use mathlib.Core.List.{Sublist}
use mathlib.Core.List.Sublist
use mathlib.Core.Path.{subst}
use termethis.Base.{
  ℕ, ◌+◌, ◌≤◌, ◌≡◌, refl, sym, ap, ◌∙◌, true, false, Option, none, some, List, [], ◌∷◌, ◌++◌,
  append-nil, append_assoc, arith, All, All-append, length, length-append, join, join-append, drop,
}
use termethis.Browser.{Browser, Call}
use termethis.Page.{Page, Message, Job, write_job, snapshot_job, Running, Effect, posted, called}
use termethis.Page.Effects.{ack_of, slice_of}
use termethis.Page.Frame.{Grows, Grows-refl}
use termethis.Writer.{write_slice_bytes, start_next, write_parsed, write_frame, enqueue}
use termethis.Writer.Progress.{IsSlice, acks, slices, written, fatals}
use termethis.Writer.Advance.{
  payload, job_ids, job_bytes, pending_ids, pending_bytes, Advance, moves, drops, fatals-Grows,
}
use termethis.Writer.Steps.{start_next-Advance}
use termethis.Writer.Steps.Resumes.{write_parsed-Advance, write_frame-Advance}
use termethis.Api.{write_base64, request_snapshot}
use termethis.Step.{Action, step, run, calls_write, calls_request_snapshot, next_job, parsed, frame}
use termethis.Step.Frame.{is_writer_effect, is_writer_action}
use termethis.Step.Unseen.{step-Unseen}

ack_skips_others : (F : Type 0) (e : Effect F) → is_writer_effect e ≡ false → ack_of e ≡ none
ack_skips_others F (posted (Message.write_ack id)) h = cc
ack_skips_others F _ h = refl

slice_skips_others : (F : Type 0) (e : Effect F) → is_writer_effect e ≡ false → slice_of e ≡ none
slice_skips_others F (called (Call.write s)) h = cc
slice_skips_others F _ h = refl

module _ ⦃b : Browser⦄ where
  -- The ids of the writes that are acknowledged or still pending, in order, and their bytes that
  -- are handed over or still pending.
  abbrev pub ledger : Page b → List ℕ
  ledger p = acks p ++ pending_ids p.chain

  abbrev pub stream : Page b → List ℕ
  stream p = written p ++ pending_bytes p.chain

  abbrev pub fatal_count : Page b → ℕ
  fatal_count p = length (fatals p)

  -- From `p` to `q`, when the writes `ids` with the bytes `bytes` are asked for on the way.
  pub record Accounts (p q : Page b) (ids bytes : List ℕ) : Type 0 where
    pub in_order : Sublist (ledger q) (ledger p ++ ids)
    pub complete :
        length (ledger p) + length ids + fatal_count p ≤ length (ledger q) + fatal_count q
    pub exact : fatal_count q ≡ fatal_count p → ledger q ≡ ledger p ++ ids
    pub fatals_grow : fatal_count p ≤ fatal_count q
    pub slices_fit : All IsSlice (slices p) → All IsSlice (slices q)
    pub stays_disposed : q.disposed ≡ false → p.disposed ≡ false
    pub same_stream :
        q.disposed ≡ false → fatal_count q ≡ fatal_count p → stream q ≡ stream p ++ bytes

  -- The writes that an action asks for.
  abbrev pub asked_ids : Action b → List ℕ
  asked_ids (calls_write value reset id) = id ∷ []
  asked_ids _ = []

  abbrev pub asked_bytes : Action b → List ℕ
  asked_bytes (calls_write value reset id) = payload value
  asked_bytes _ = []

  not_disposed :
      (p q : Page b)
      → (p.disposed ≡ true → q.disposed ≡ true)
      → q.disposed ≡ false
      → p.disposed ≡ false
  not_disposed p q h e = ground arith

  -- The same writes and the same bytes before and behind.
  pub same-Accounts :
      (p q : Page b)
      → q.chain ≡ p.chain
      → acks q ≡ acks p
      → slices q ≡ slices p
      → Grows p q
      → (p.disposed ≡ true → q.disposed ≡ true)
      → Accounts p q [] []
  same-Accounts p q hc ha hs hg hd = record {
    in_order = rw (hc, ha, append-nil (ledger p)) (Sublist.refl (ledger p));
    complete = rw (hc, ha) (omega (arith, fatals-Grows p q hg));
    exact = λ quiet. rw (hc, ha) (sym (append-nil (ledger p)));
    fatals_grow = fatals-Grows p q hg;
    slices_fit = λ fit. rw hs fit;
    stays_disposed = not_disposed p q hd;
    same_stream = λ live quiet. rw (hc, hs) (sym (append-nil (stream p)));
  }

  Advance-Accounts :
      (p q : Page b)
      → Advance p (pending_ids p.chain) (pending_bytes p.chain) q
      → Accounts p q [] []
  Advance-Accounts p q (moves stays ss hss hs hi hb) = record {
    in_order = rw (hi, append-nil (ledger p)) (Sublist.refl (ledger p));
    complete = rw hi (omega (arith, fatals-Grows p q stays.0));
    exact = λ quiet. hi ∙ sym (append-nil (ledger p));
    fatals_grow = fatals-Grows p q stays.0;
    slices_fit = λ fit. rw hs (All-append IsSlice (slices p) ss fit hss);
    stays_disposed = λ e. sym stays.1 ∙ e;
    same_stream = λ live quiet.
        ap (λ x. join x ++ pending_bytes q.chain) hs
        ∙ ap (λ x. x ++ pending_bytes q.chain) (join-append (slices p) ss)
        ∙ append_assoc (written p) (join ss) (pending_bytes q.chain)
        ∙ ap (λ x. written p ++ x) (hb (sym stays.1 ∙ live))
        ∙ sym (append-nil (stream p));
  }
  Advance-Accounts p q (drops stays ss hss hs id rest hr hi hf) = record {
    in_order =
        rw (hi, append-nil (ledger p), hr)
          (Sublist.append (Sublist.refl (acks p)) (Sublist.cons id (Sublist.refl rest)));
    complete =
        rw (hi, hr)
          (omega (arith, length-append (acks p) (id ∷ rest), length-append (acks p) rest));
    exact = λ quiet. absurd (omega arith);
    fatals_grow = omega arith;
    slices_fit = λ fit. rw hs (All-append IsSlice (slices p) ss fit hss);
    stays_disposed = λ e. sym stays.1 ∙ e;
    same_stream = λ live quiet. absurd (omega arith);
  }

  other-Accounts :
      (a : Action b) (p : Page b) → is_writer_action a ≡ false → Accounts p (step a p) [] []
  other-Accounts a p h =
      let k = step-Unseen ack_of (ack_skips_others b.F) a p h in
      let s = step-Unseen slice_of (slice_skips_others b.F) a p h in
      same-Accounts p (step a p) k.0 k.1 s.1 k.2 k.3

  job_ids-append :
      (js : List Job) (j : Job) → job_ids (js ++ j ∷ []) ≡ job_ids js ++ job_ids (j ∷ [])
  job_ids-append [] j = refl
  job_ids-append (write_job value reset id ∷ js) j = ap (λ x. id ∷ x) (job_ids-append js j)
  job_ids-append (snapshot_job id sequence scrollback ∷ js) j = job_ids-append js j

  job_bytes-append :
      (js : List Job) (j : Job) → job_bytes (js ++ j ∷ []) ≡ job_bytes js ++ job_bytes (j ∷ [])
  job_bytes-append [] j = refl
  job_bytes-append (write_job value reset id ∷ js) j =
      ap (λ x. payload value ++ x) (job_bytes-append js j)
      ∙ sym (append_assoc (payload value) (job_bytes js) (job_bytes (j ∷ [])))
  job_bytes-append (snapshot_job id sequence scrollback ∷ js) j = job_bytes-append js j

  pending_ids-enqueue :
      (j : Job) (p : Page b)
      → pending_ids (enqueue j p).chain ≡ pending_ids p.chain ++ job_ids (j ∷ [])
  pending_ids-enqueue j p = at p.chain.running p.chain.jobs
    where
      at :
          (o : Option (Running b.F)) (js : List Job)
          → pending_ids (record { running = o; jobs = js ++ j ∷ [] })
            ≡ pending_ids (record { running = o; jobs = js }) ++ job_ids (j ∷ [])
      at none js = job_ids-append js j
      at (some r) js = ap (λ x. r.id ∷ x) (job_ids-append js j)

  pending_bytes-enqueue :
      (j : Job) (p : Page b)
      → pending_bytes (enqueue j p).chain ≡ pending_bytes p.chain ++ job_bytes (j ∷ [])
  pending_bytes-enqueue j p = at p.chain.running p.chain.jobs
    where
      at :
          (o : Option (Running b.F)) (js : List Job)
          → pending_bytes (record { running = o; jobs = js ++ j ∷ [] })
            ≡ pending_bytes (record { running = o; jobs = js }) ++ job_bytes (j ∷ [])
      at none js = job_bytes-append js j
      at (some r) js =
          let left = drop (r.offset + write_slice_bytes) r.bytes in
          ap (λ x. left ++ x) (job_bytes-append js j)
          ∙ sym (append_assoc left (job_bytes js) (job_bytes (j ∷ [])))

  enqueue-Accounts :
      (j : Job) (p : Page b) → Accounts p (enqueue j p) (job_ids (j ∷ [])) (job_bytes (j ∷ []))
  enqueue-Accounts j p =
      let ids = pending_ids-enqueue j p in
      let grown : ledger (enqueue j p) ≡ ledger p ++ job_ids (j ∷ []) =
        ap (λ x. acks p ++ x) ids
        ∙ sym (append_assoc (acks p) (pending_ids p.chain) (job_ids (j ∷ []))) in
      record {
        in_order = rw grown (Sublist.refl (ledger p ++ job_ids (j ∷ [])));
        complete = rw grown (omega (arith, length-append (ledger p) (job_ids (j ∷ []))));
        exact = λ quiet. grown;
        fatals_grow = omega arith;
        slices_fit = λ fit. fit;
        stays_disposed = λ e. e;
        same_stream = λ live quiet.
            ap (λ x. written p ++ x) (pending_bytes-enqueue j p)
            ∙ sym (append_assoc (written p) (pending_bytes p.chain) (job_bytes (j ∷ [])));
      }

  -- One step.
  pub step-Accounts :
      (h : b.has_channel ≡ true) (a : Action b) (p : Page b)
      → Accounts p (step a p) (asked_ids a) (asked_bytes a)
  unfolding step write_base64 request_snapshot
  step-Accounts h (calls_write value reset id) p =
      subst (λ x. Accounts p (enqueue (write_job value reset id) p) (id ∷ []) x)
        (append-nil (payload value)) (enqueue-Accounts (write_job value reset id) p)
  step-Accounts h (calls_request_snapshot id sequence scrollback) p =
      enqueue-Accounts (snapshot_job id sequence scrollback) p
  step-Accounts h (next_job now) p =
      Advance-Accounts p (start_next now p) (start_next-Advance h now p)
  step-Accounts h (parsed now) p =
      Advance-Accounts p (write_parsed now p) (write_parsed-Advance h now p)
  step-Accounts h (frame now) p =
      Advance-Accounts p (write_frame now p) (write_frame-Advance h now p)
  step-Accounts h a p = other-Accounts a p refl

  pub Accounts-trans :
      (p q r : Page b) (ids ids' bytes bytes' : List ℕ)
      → Accounts p q ids bytes
      → Accounts q r ids' bytes'
      → Accounts p r (ids ++ ids') (bytes ++ bytes')
  Accounts-trans p q r ids ids' bytes bytes' h k = record {
    in_order =
        rw (← append_assoc (ledger p) ids ids')
          (Sublist.trans k.in_order (Sublist.append h.in_order (Sublist.refl ids')));
    complete = omega (arith, length-append ids ids', h.complete, k.complete);
    exact = λ quiet.
        k.exact (omega (arith, h.fatals_grow, k.fatals_grow))
        ∙ ap (λ x. x ++ ids') (h.exact (omega (arith, h.fatals_grow, k.fatals_grow)))
        ∙ append_assoc (ledger p) ids ids';
    fatals_grow = omega (arith, h.fatals_grow, k.fatals_grow);
    slices_fit = λ fit. k.slices_fit (h.slices_fit fit);
    stays_disposed = λ live. h.stays_disposed (k.stays_disposed live);
    same_stream = λ live quiet.
        k.same_stream live (omega (arith, h.fatals_grow, k.fatals_grow))
        ∙ ap (λ x. x ++ bytes')
            (h.same_stream (k.stays_disposed live) (omega (arith, h.fatals_grow, k.fatals_grow)))
        ∙ append_assoc (stream p) bytes bytes';
  }

  -- What a run asks for.
  abbrev pub asked_ids_in : List (Action b) → List ℕ
  asked_ids_in [] = []
  asked_ids_in (a ∷ rest) = asked_ids a ++ asked_ids_in rest

  abbrev pub asked_bytes_in : List (Action b) → List ℕ
  asked_bytes_in [] = []
  asked_bytes_in (a ∷ rest) = asked_bytes a ++ asked_bytes_in rest

  pub run-Accounts :
      (h : b.has_channel ≡ true) (actions : List (Action b)) (p : Page b)
      → Accounts p (run actions p) (asked_ids_in actions) (asked_bytes_in actions)
  unfolding run
  run-Accounts h [] p = same-Accounts p p refl refl refl (Grows-refl p) (λ d. d)
  run-Accounts h (a ∷ rest) p =
      Accounts-trans p (step a p) (run rest (step a p)) (asked_ids a) (asked_ids_in rest)
        (asked_bytes a) (asked_bytes_in rest) (step-Accounts h a p) (run-Accounts h rest (step a p))
