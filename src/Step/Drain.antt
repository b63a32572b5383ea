-- ===== src/Step/Drain.antt =====
-- The write chain comes to rest, and then every write has been acknowledged.
use mathlib.Core.Path.{subst}
use termethis.Base.{
  ◌≤◌, ◌≡◌, inl, inr, refl, sym, ap, ◌∙◌, Bool, true, false, Option, none, some, List, [], ◌∷◌,
  ◌++◌, append-nil, arith, length, if_elim, if◌then◌else◌, Text,
}
use termethis.Browser.{Browser}
use termethis.Page.{Page, Running, Chain}
use termethis.Page.Frame.{Grows-refl}
use termethis.Writer.{start_next, write_parsed, write_frame}
use termethis.Writer.Progress.{acks, written, fatals}
use termethis.Writer.Advance.{pending_ids, pending_bytes}
use termethis.Writer.Work.{work, next_step}
use termethis.Writer.Work.Decreases.{next_step-work, next_step_rest}
use termethis.Startup.{boot, WebglStart}
use termethis.Step.{Action, step, run, next_job, parsed, frame}
use termethis.Step.Accounts.{
  ledger, stream, fatal_count, Accounts, asked_ids, asked_bytes, asked_ids_in, asked_bytes_in,
  run-Accounts, step-Accounts, same-Accounts, Accounts-trans,
}
use termethis.Step.Writes.{IsFresh, boot-IsFresh}

module _ ⦃b : Browser⦄ where
  -- The promise that the chain waits for: a microtask, a callback of xterm.js, or a frame.
  unfoldable pub due : b.F → Page b → Action b
  due now p = elim p.chain.running [
    | none ↦ next_job now
    | some r ↦ if r.in_frame then frame now else parsed now
  ]

  -- One such promise after another, with the clock at each.
  unfoldable pub drive : List b.F → Page b → Page b
  drive [] p = p
  drive (now ∷ nows) p = drive nows (step (due now p) p)

  step-due : (now : b.F) (p : Page b) → step (due now p) p ≡ next_step now p
  unfolding step due
  step-due now p = at p.chain.running
    where
      at :
          (o : Option (Running b.F))
          → (let a : Action b = elim o [
            | none ↦ next_job now
            | some r ↦ if r.in_frame then frame now else parsed now
          ] in
              let q : Page b = elim o [
                | none ↦ start_next now p
                | some r ↦ if r.in_frame then write_frame now p else write_parsed now p
              ] in
              step a p ≡ q)
      at none = refl
      at (some r) = by_frame r.in_frame
        where
          by_frame :
              (c : Bool)
              → step (if c then frame now else parsed now) p
                ≡ (if c then write_frame now p else write_parsed now p)
          by_frame true = refl
          by_frame false = refl

  due_asks :
      (now : b.F) (p : Page b) → (asked_ids (due now p) ≡ []) × (asked_bytes (due now p) ≡ [])
  unfolding due
  due_asks now p = at p.chain.running
    where
      at :
          (o : Option (Running b.F))
          → (let a : Action b = elim o [
            | none ↦ next_job now
            | some r ↦ if r.in_frame then frame now else parsed now
          ] in
              (asked_ids a ≡ []) × (asked_bytes a ≡ []))
      at none = (refl, refl)
      at (some r) =
          if_elim (λ (a : Action b). (asked_ids a ≡ []) × (asked_bytes a ≡ [])) r.in_frame
            (λ _. (refl, refl)) (λ _. (refl, refl))

  abbrev pub IsAtRest : Page b → Type 0
  IsAtRest p = p.chain ≡ record { running = none; jobs = [] }

  module _ (h : b.has_channel ≡ true) where
    -- With a channel: the chain comes to rest from any page, once as many of the promises that it
    -- waits for are resolved as `work` counts.
    pub drive-IsAtRest :
        (nows : List b.F) (p : Page b) → work p.chain ≤ length nows → IsAtRest (drive nows p)
    unfolding drive
    drive-IsAtRest [] p enough = elim (next_step-work h p.last_input_at p) [
      | inl rest ↦ rest
      | inr less ↦ absurd (omega arith)
    ]
    drive-IsAtRest (now ∷ nows) p enough = elim (next_step-work h now p) [
      | inl rest ↦
          drive-IsAtRest nows (step (due now p) p)
            (rw (step-due now p, next_step_rest now p rest, rest) (omega arith))
      | inr less ↦ drive-IsAtRest nows (step (due now p) p) (rw (step-due now p) (omega arith))
    ]

    due-Accounts : (now : b.F) (p : Page b) → Accounts p (step (due now p) p) [] []
    due-Accounts now p =
        let (ids, bytes) = due_asks now p in
        subst (λ x. Accounts p (step (due now p) p) x []) ids
          (subst (λ x. Accounts p (step (due now p) p) (asked_ids (due now p)) x) bytes
            (step-Accounts h (due now p) p))

    drive-Accounts : (nows : List b.F) (p : Page b) → Accounts p (drive nows p) [] []
    unfolding drive
    drive-Accounts [] p = same-Accounts p p refl refl refl (Grows-refl p) (λ d. d)
    drive-Accounts (now ∷ nows) p =
        let q = step (due now p) p in
        Accounts-trans p q (drive nows q) [] [] [] [] (due-Accounts now p) (drive-Accounts nows q)

    module _ (screen : b.Screen) (g : Option Text) (w : WebglStart) (actions : List (Action b))
        (nows : List b.F) (enough : work (run actions (boot screen g w)).chain ≤ length nows)
        (quiet : fatals (drive nows (run actions (boot screen g w))) ≡ []) where
      abbrev settled : Page b
      settled = drive nows (run actions (boot screen g w))

      fresh : IsFresh (boot screen g w)
      fresh = boot-IsFresh screen g w

      total :
          Accounts
            (boot screen g w)
            settled
            (asked_ids_in actions ++ [])
            (asked_bytes_in actions ++ [])
      total =
          Accounts-trans (boot screen g w) (run actions (boot screen g w)) settled
            (asked_ids_in actions) [] (asked_bytes_in actions) []
            (run-Accounts h actions (boot screen g w))
            (drive-Accounts nows (run actions (boot screen g w)))

      same_count : fatal_count settled ≡ fatal_count (boot screen g w)
      same_count = rw (quiet, fresh.no_fatals)

      empty_ledger : ledger (boot screen g w) ≡ []
      empty_ledger = rw (fresh.no_acks, fresh.idle)

      empty_stream : stream (boot screen g w) ≡ []
      empty_stream = rw (fresh.no_slices, fresh.idle)

      rests : IsAtRest settled
      rests = drive-IsAtRest nows (run actions (boot screen g w)) enough

      -- After any run from the start of the page, with a channel, when as many promises as `work`
      -- counts have been resolved and no fatal message was posted: the chain is at rest, and the
      -- ids acknowledged are exactly those of the writes that were asked for, in the order of the
      -- calls.
      pub all_acknowledged : IsAtRest settled × (acks settled ≡ asked_ids_in actions)
      all_acknowledged = (
        rests,
        sym (append-nil (acks settled))
            ∙ sym (ap (λ (c : Chain b.F). acks settled ++ pending_ids c) rests)
            ∙ total.exact same_count
            ∙ ap (λ x. x ++ (asked_ids_in actions ++ [])) empty_ledger
            ∙ append-nil (asked_ids_in actions),
      )

      -- After any run from the start of the page, with a channel, when as many promises as `work`
      -- counts have been resolved, no fatal message was posted and the page is not disposed: what
      -- xterm.js has been given is exactly the payloads of the writes that were asked for, in the
      -- order of the calls.
      pub all_written : settled.disposed ≡ false → written settled ≡ asked_bytes_in actions
      all_written live =
          sym (append-nil (written settled))
          ∙ sym (ap (λ (c : Chain b.F). written settled ++ pending_bytes c) rests)
          ∙ total.same_stream live same_count
          ∙ ap (λ x. x ++ (asked_bytes_in actions ++ [])) empty_stream
          ∙ append-nil (asked_bytes_in actions)
