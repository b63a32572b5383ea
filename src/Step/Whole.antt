-- ===== src/Step/Whole.antt =====
-- A relation between the pages before and behind, carried over every step, the write chain's and
-- `sendKey` included.
use termethis.Base.{
  ℕ, ◌+◌, ◌≡◌, refl, Bool, true, false, Option, none, some, List, [], ◌∷◌, ◌&&◌, ltb, Text, if_elim,
  if◌then◌else◌, length, Option-cases, inl, inr, Result, ok, throws, ◌>>=◌,
}
use termethis.Browser.{Browser, Call}
use termethis.Codec.{decode_base64_bytes, encode_base64}
use termethis.Page.{
  Page, Message, Job, write_job, snapshot_job, Running, Chain, Op, Outcome, done, post, perform,
  ◌>>◌,
}
use termethis.Page.Effects.{is_callback_message}
use termethis.Page.Frame.{>>-keeps}
use termethis.Writer.{
  write_slice_bytes, write_budget, set_running, finish_write, write_from, after_write, after_frame,
  write_decoded, begin_write, catch_fatal, take_snapshot, begin_job, pop_job, start_next,
  write_parsed, write_frame,
}
use termethis.Api.{dispatch_key, write_base64, request_snapshot}
use termethis.Step.{
  Action, step, calls_write, calls_send_key, calls_request_snapshot, next_job, parsed, frame,
}
use termethis.Step.Frame.{IsFrame, is_key_action}
use termethis.Step.Frame.Methods.{send_key-Keeps}
use termethis.Step.Frame.Actions.{step-Keeps}

module _ ⦃b : Browser⦄ (R : Page b → Page b → Type 0) (fr : IsFrame R)
    (any_perform : (c : Call b.F) (p : Page b) → R p (perform c p).page)
    (any_post : (m : Message) → is_callback_message m ≡ false → (p : Page b) → R p (post m p))
    (any_chain : (c : Chain b.F) (p : Page b) → R p (record p { chain = c })) where
  then-R :
      (m k : Op b)
      → ((p : Page b) → R p (m p).page)
      → ((p : Page b) → R p (k p).page)
      → (p : Page b) → R p ((m >> k) p).page
  then-R m k = >>-keeps R m k fr.keeps_trans

  if-R : (c : Bool) (call : Call b.F) (p : Page b) → R p ((if c then perform call else done) p).page
  if-R true call p = any_perform call p
  if-R false call p = fr.keeps_refl p

  finish_write-R : (r : Running b.F) (p : Page b) → R p (finish_write r p).page
  unfolding finish_write
  finish_write-R r =
      then-R _ _ (if-R (r.has_reset && r.follow_output) Call.scroll_to_bottom) (any_post _ refl)

  write_from-R : (r : Running b.F) (p : Page b) → R p (write_from r p).page
  unfolding write_from
  write_from-R r p =
      if_elim (λ (m : Op b). R p (m p).page) (ltb r.offset (length r.bytes))
        (λ _. then-R _ _ (any_perform _) (λ q. any_chain _ q) p) (λ _. finish_write-R r p)

  write_decoded-R :
      (d : Result (List ℕ)) (has_reset follow : Bool) (id : ℕ) (now : b.F) (p : Page b)
      → R p (write_decoded d has_reset follow id now p).page
  unfolding write_decoded
  write_decoded-R (ok bytes) has_reset follow id now p = write_from-R _ p
  write_decoded-R (throws e) has_reset follow id now p = fr.keeps_refl p

  begin_write-R :
      (value : Text) (has_reset : Bool) (id : ℕ) (now : b.F) (p : Page b)
      → R p (begin_write value has_reset id now p).page
  unfolding begin_write
  begin_write-R value has_reset id now p =
      if_elim (λ (o : Outcome b). R p o.page) p.disposed (λ _. any_post _ refl p)
        (λ _.
          then-R _ _ (if-R has_reset Call.reset)
            (write_decoded-R (decode_base64_bytes value) has_reset _ id now) p)

  catch_fatal-R :
      (m : Op b) → ((p : Page b) → R p (m p).page) → (p : Page b) → R p (catch_fatal m p)
  unfolding catch_fatal
  catch_fatal-R m h p = elim (Option-cases (m p).thrown) [
    | inl e ↦ rw (e, catch_fatal) (h p)
    | inr (t, e) ↦
        rw (e, catch_fatal)
          (fr.keeps_trans p (m p).page (post (Message.fatal t) (m p).page) (h p)
            (any_post _ refl (m p).page))
  ]

  take_snapshot-R :
      (id sequence scrollback : ℕ) (p : Page b) → R p (take_snapshot id sequence scrollback p)
  take_snapshot-R id sequence scrollback p =
      on_result (b.serialize scrollback p.screen >>= encode_base64) refl
    where
      on_result :
          (r : Result Text)
          → (b.serialize scrollback p.screen >>= encode_base64) ≡ r
          → R p (take_snapshot id sequence scrollback p)
      on_result (ok t) e =
          unfold take_snapshot in
          if_elim (λ (q : Page b). R p q) p.disposed (λ _. fr.keeps_refl p)
            (λ _. rw e (any_post _ refl p))
      on_result (throws t) e =
          unfold take_snapshot in
          if_elim (λ (q : Page b). R p q) p.disposed (λ _. fr.keeps_refl p)
            (λ _. rw e (any_post _ refl p))

  begin_job-R : (j : Job) (now : b.F) (p : Page b) → R p (begin_job j now p)
  unfolding begin_job
  begin_job-R (write_job value has_reset id) now =
      catch_fatal-R _ (begin_write-R value has_reset id now)
  begin_job-R (snapshot_job id sequence scrollback) now = take_snapshot-R id sequence scrollback

  pop_job-R : (js : List Job) (now : b.F) (p : Page b) → R p (pop_job js now p)
  unfolding pop_job
  pop_job-R [] now p = fr.keeps_refl p
  pop_job-R (j ∷ js) now p =
      let c : Chain b.F = record { running = none; jobs = js } in
      let q = record p { chain = c } in
      fr.keeps_trans p q (begin_job j now q) (any_chain c p) (begin_job-R j now q)

  start_next-R : (now : b.F) (p : Page b) → R p (start_next now p)
  start_next-R now p = unfold start_next in at p.chain.running
    where
      at :
          (o : Option (Running b.F))
          → R p (elim o [ none ↦ pop_job p.chain.jobs now p | some _ ↦ p ])
      at none = pop_job-R p.chain.jobs now p
      at (some r) = fr.keeps_refl p

  resumed-R :
      (m : Op b)
      → ((p : Page b) → R p (m p).page)
      → (p : Page b) → R p (catch_fatal m (set_running none p))
  resumed-R m h p =
      let q = set_running none p in
      fr.keeps_trans p q (catch_fatal m q) (any_chain q.chain p) (catch_fatal-R m h q)

  after_write-R : (r : Running b.F) (now : b.F) (p : Page b) → R p (after_write r now p).page
  unfolding after_write
  after_write-R r now p =
      if_elim (λ (o : Outcome b). R p o.page)
        (ltb (r.offset + write_slice_bytes) (length r.bytes)
          && b.le (write_budget now p.last_input_at) (b.sub now r.slice_started_at))
        (λ _. any_chain _ p) (λ _. write_from-R _ p)

  after_frame-R : (r : Running b.F) (now : b.F) (p : Page b) → R p (after_frame r now p).page
  unfolding after_frame
  after_frame-R r now p = write_from-R _ p

  write_parsed-R : (now : b.F) (p : Page b) → R p (write_parsed now p)
  write_parsed-R now p = unfold write_parsed in at p.chain.running
    where
      at :
          (o : Option (Running b.F))
          → R p (elim o [
            | none ↦ p
            | some r ↦
                if r.in_frame then p else catch_fatal (after_write r now) (set_running none p)
          ])
      at none = fr.keeps_refl p
      at (some r) =
          if_elim (λ (q : Page b). R p q) r.in_frame (λ _. fr.keeps_refl p)
            (λ _. resumed-R (after_write r now) (after_write-R r now) p)

  write_frame-R : (now : b.F) (p : Page b) → R p (write_frame now p)
  write_frame-R now p = unfold write_frame in at p.chain.running
    where
      at :
          (o : Option (Running b.F))
          → R p (elim o [
            | none ↦ p
            | some r ↦
                if r.in_frame then catch_fatal (after_frame r now) (set_running none p) else p
          ])
      at none = fr.keeps_refl p
      at (some r) =
          if_elim (λ (q : Page b). R p q) r.in_frame
            (λ _. resumed-R (after_frame r now) (after_frame-R r now) p) (λ _. fr.keeps_refl p)

  -- Every step but `sendKey` keeps the relation.
  pub step-keeps_but_keys : (a : Action b) (p : Page b) → is_key_action a ≡ false → R p (step a p)
  unfolding step write_base64 request_snapshot
  step-keeps_but_keys (calls_write value reset id) p h = any_chain _ p
  step-keeps_but_keys (calls_request_snapshot id sequence scrollback) p h = any_chain _ p
  step-keeps_but_keys (calls_send_key key control alt) p h = cc
  step-keeps_but_keys (next_job now) p h = start_next-R now p
  step-keeps_but_keys (parsed now) p h = write_parsed-R now p
  step-keeps_but_keys (frame now) p h = write_frame-R now p
  step-keeps_but_keys a p h = step-Keeps R fr a p refl refl

  -- Every step keeps the relation, if the dispatch of a key does.
  pub step-keeps_any :
      (sends : (t : Text) (p : Page b) → R p (dispatch_key t p).page) (a : Action b) (p : Page b)
      → R p (step a p)
  unfolding step
  step-keeps_any sends (calls_send_key key control alt) p =
      send_key-Keeps R fr sends key control alt p
  step-keeps_any sends a p = step-keeps_but_keys a p refl
