-- ===== src/Session/Emits.antt =====
-- What an action of SshSessionController of
-- lib/features/terminal/application/ssh_session_controller.dart hands to its listeners: one event, with
-- the next number, or none.
use mathlib.Core.Path.{subst}
use termethis.Base.{
  ℕ, suc, ◌≡◌, ◌⊎◌, inl, inr, refl, sym, false, List, [], ◌∷◌, ◌++◌, ◌||◌, leb, ◌&&◌, Text, if_elim,
  arith,
}
use termethis.Prompt.{is_empty}
use termethis.Scrollback.{
  Chunk, Scrollback, emit_pending, add_pending, save_snapshot, append_delta, maximum_buffered_bytes,
}
use termethis.Session.{Session, flush, receive, write_timer_fires}
use termethis.Session.Connection.{release_finished, dispose}
use termethis.Session.Run.{
  SessionAction, receives, write_timer, saves_snapshot, finishes_release, finishes_remote, disposes,
  session_step,
}
use termethis.Session.Output.{flush_elim, plain-Untouched, remote_done-scrollback}

abbrev pub numbered : ℕ → List ℕ → Chunk
numbered n bytes = record { sequence = n; bytes = bytes }

pub record Quiet (s t : Scrollback) : Type 0 where
  pub same_emitted : t.emitted ≡ s.emitted
  pub same_sequence : t.sequence ≡ s.sequence

pub record EmitsOne (s t : Scrollback) : Type 0 where
  pub bytes : List ℕ
  pub one_more : t.emitted ≡ s.emitted ++ numbered (suc s.sequence) bytes ∷ []
  pub next_sequence : t.sequence ≡ suc s.sequence

abbrev pub Emits : Scrollback → Scrollback → Type 0
Emits s t = Quiet s t ⊎ EmitsOne s t

still : (s : Scrollback) → Emits s s
still s = inl (record { same_emitted = refl; same_sequence = refl })

emit_pending-Emits : (s : Scrollback) → Emits s (emit_pending s)
unfolding emit_pending append_delta
emit_pending-Emits s = inr (record { bytes = s.pending; one_more = refl; next_sequence = refl })

flush-Emits : (s : Session) → Emits s.scrollback (flush s).scrollback
flush-Emits s =
    flush_elim (Emits s.scrollback) s (λ _. still s.scrollback)
      (λ _. emit_pending-Emits s.scrollback)

-- Bytes that wait are no event.
added-Emits : (bytes : List ℕ) (s t : Scrollback) → Emits (add_pending bytes s) t → Emits s t
added-Emits bytes s t (inl q) =
    inl (record { same_emitted = q.same_emitted; same_sequence = q.same_sequence })
added-Emits bytes s t (inr e) =
    inr (record { bytes = e.bytes; one_more = e.one_more; next_sequence = e.next_sequence })

receive-Emits : (bytes : List ℕ) (s : Session) → Emits s.scrollback (receive bytes s).scrollback
unfolding receive
receive-Emits bytes s =
    let t = record s { scrollback = add_pending bytes s.scrollback } in
    let P = λ (u : Session). Emits s.scrollback u.scrollback in
    if_elim P (is_empty bytes || s.disposed) (λ _. still s.scrollback)
      (λ _.
        if_elim P (s.viewport_visible && s.awaiting_response)
          (λ _.
            added-Emits bytes s.scrollback _ (flush-Emits (record t { awaiting_response = false })))
          (λ _.
            if_elim P (leb maximum_buffered_bytes t.scrollback.pending_length)
              (λ _. added-Emits bytes s.scrollback _ (flush-Emits t))
              (λ _. added-Emits bytes s.scrollback _ (still t.scrollback))))

save_snapshot-Emits :
    (encoded : List ℕ) (n : ℕ) (s : Scrollback) → Quiet s (save_snapshot encoded n s).0
unfolding save_snapshot
save_snapshot-Emits encoded n s = ground arith

dispose-Emits : (s : Session) → Quiet s.scrollback (dispose s).scrollback
unfolding dispose
dispose-Emits s = ground arith

module _ (encode : Text → List ℕ) where
  -- An action hands out at most one event, with the next number.
  pub step-Emits :
      (a : SessionAction) (s : Session) → Emits s.scrollback (session_step encode a s).scrollback
  unfolding session_step write_timer_fires release_finished
  step-Emits (receives bytes) s = receive-Emits bytes s
  step-Emits write_timer s =
      if_elim (λ (u : Session). Emits s.scrollback u.scrollback) s.has_write_timer
        (λ _. flush-Emits s) (λ _. still s.scrollback)
  step-Emits (saves_snapshot encoded n) s = inl (save_snapshot-Emits encoded n s.scrollback)
  step-Emits finishes_release s =
      flush-Emits (record s { has_subscriptions = false; subscriptions_paused = false })
  step-Emits finishes_remote s =
      remote_done-scrollback (Emits s.scrollback) s (still s.scrollback) (flush-Emits s)
  step-Emits disposes s = inl (dispose-Emits s)
  step-Emits a s =
      subst (Emits s.scrollback) (sym (plain-Untouched encode a s refl).same_scrollback)
        (still s.scrollback)
