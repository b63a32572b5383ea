-- ===== src/Writer/Steps/Resumes.antt =====
-- A write that goes on: the callback of `terminal.write`, and the animation frame.
use termethis.Base.{
  ◌+◌, ◌≡◌, refl, sym, true, false, Option, none, some, List, [], ◌∷◌, ◌++◌, append-nil,
  if◌then◌else◌, arith, if_elim, length, drop, ◌&&◌, ltb,
}
use termethis.Browser.{Browser}
use termethis.Page.{Page, Message, Job, Running, Chain, Outcome, post}
use termethis.Page.Frame.{Grows-refl}
use termethis.Writer.{
  write_slice_bytes, write_budget, set_running, write_from, after_write, after_frame, catch_fatal,
  write_parsed, write_frame,
}
use termethis.Writer.Progress.{slices, write_from-Progress}
use termethis.Writer.Advance.{
  job_ids, job_bytes, pending_ids, pending_bytes, write_from-Stays, popped, Advance, moves,
  catch_fatal-Advance,
}
use termethis.Writer.Steps.{of_popped, stays_put}

module _ ⦃b : Browser⦄ (h : b.has_channel ≡ true) where
  -- What a running write does when xterm.js has parsed its slice, and in its animation frame.
  after_write-Advance :
      (r : Running b.F) (now : b.F) (js : List Job) (p : Page b)
      → r.in_frame ≡ false
      → Advance p
          (r.id ∷ job_ids js)
          (drop (r.offset + write_slice_bytes) r.bytes ++ job_bytes js)
          (catch_fatal (after_write r now) (popped js p))
  after_write-Advance r now js p plain =
      unfold catch_fatal after_write in
      if_elim
        (λ (o : Outcome b).
          Advance p (r.id ∷ job_ids js)
            (drop (r.offset + write_slice_bytes) r.bytes ++ job_bytes js)
            (elim o.thrown [ none ↦ o.page | some e ↦ post (Message.fatal e) o.page ]))
        (ltb (r.offset + write_slice_bytes) (length r.bytes)
          && b.le (write_budget now p.last_input_at) (b.sub now r.slice_started_at))
        (λ _. moves (Grows-refl p, refl) [] tt (sym (append-nil (slices p))) refl (λ _. refl))
        (λ _. from_next (record r { offset = r.offset + write_slice_bytes }) plain)
    where
      from_next :
          (s : Running b.F)
          → s.in_frame ≡ false
          → Advance p
              (s.id ∷ job_ids js)
              (drop s.offset s.bytes ++ job_bytes js)
              (catch_fatal (write_from s) (popped js p))
      from_next s plain' = (of_popped h) js p _ _ _ (
          catch_fatal-Advance (write_from s) (popped js p) s.id (drop s.offset s.bytes) h refl
            (write_from-Stays s (popped js p)) (write_from-Progress s (popped js p) h plain'))

  after_frame-Advance :
      (r : Running b.F) (now : b.F) (js : List Job) (p : Page b)
      → Advance p
          (r.id ∷ job_ids js)
          (drop (r.offset + write_slice_bytes) r.bytes ++ job_bytes js)
          (catch_fatal (after_frame r now) (popped js p))
  unfolding after_frame
  after_frame-Advance r now js p =
      let s = record r {
        offset = r.offset + write_slice_bytes;
        slice_started_at = now;
        in_frame = false;
      } in
      (of_popped h) js p _ _ _ (
        catch_fatal-Advance (write_from s) (popped js p) s.id (drop s.offset s.bytes) h refl
          (write_from-Stays s (popped js p)) (write_from-Progress s (popped js p) h refl))

  pending_running :
      (c : Chain b.F) (r : Running b.F)
      → c.running ≡ some r
      → (pending_ids c ≡ r.id ∷ job_ids c.jobs)
        × (pending_bytes c ≡ drop (r.offset + write_slice_bytes) r.bytes ++ job_bytes c.jobs)
  pending_running c r e = (ground arith, ground arith)

  -- The callback of `terminal.write`.
  pub write_parsed-Advance :
      (now : b.F) (p : Page b)
      → Advance p (pending_ids p.chain) (pending_bytes p.chain) (write_parsed now p)
  write_parsed-Advance now p = unfold write_parsed in at p.chain.running refl
    where
      at :
          (o : Option (Running b.F))
          → p.chain.running ≡ o
          → Advance p (pending_ids p.chain) (pending_bytes p.chain) (elim o [
            | none ↦ p
            | some r ↦
                if r.in_frame then p else catch_fatal (after_write r now) (set_running none p)
          ])
      at none e = (stays_put h) p
      at (some r) e =
          if_elim (λ (q : Page b). Advance p (pending_ids p.chain) (pending_bytes p.chain) q)
            r.in_frame (λ _. (stays_put h) p)
            (λ plain.
              let (ids, bytes) = pending_running p.chain r e in
              rw (ids, bytes) (after_write-Advance r now p.chain.jobs p plain))

  -- The animation frame that a write waits for.
  pub write_frame-Advance :
      (now : b.F) (p : Page b)
      → Advance p (pending_ids p.chain) (pending_bytes p.chain) (write_frame now p)
  write_frame-Advance now p = unfold write_frame in at p.chain.running refl
    where
      at :
          (o : Option (Running b.F))
          → p.chain.running ≡ o
          → Advance p (pending_ids p.chain) (pending_bytes p.chain) (elim o [
            | none ↦ p
            | some r ↦
                if r.in_frame then catch_fatal (after_frame r now) (set_running none p) else p
          ])
      at none e = (stays_put h) p
      at (some r) e =
          if_elim (λ (q : Page b). Advance p (pending_ids p.chain) (pending_bytes p.chain) q)
            r.in_frame
            (λ _.
              let (ids, bytes) = pending_running p.chain r e in
              rw (ids, bytes) (after_frame-Advance r now p.chain.jobs p))
            (λ _. (stays_put h) p)
