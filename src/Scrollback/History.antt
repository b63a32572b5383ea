-- ===== src/Scrollback/History.antt =====
-- What the kept chunks have to do with all events that the listeners have been given.
use mathlib.Core.Path.{subst}
use termethis.Base.{
  ℕ, suc, ◌+◌, ◌≤◌, ◌≡◌, refl, sym, ap, ◌∙◌, Bool, true, false, List, [], ◌∷◌, ◌++◌, append_assoc,
  ltb, ◌&&◌, ◌||◌, length, length-append, arith, Bool-cases, inl, inr, if_elim, le→ltb,
}
use termethis.Scrollback.{
  Chunk, Replay, Scrollback, empty, trim_delta, drop_through, maximum_delta_bytes,
  maximum_snapshot_bytes, kept_bytes, append_delta, emit_pending, bytes_after, misses, replay_after,
  save_snapshot,
}
use termethis.Scrollback.Loops.{
  Numbered, Numbered-append, Numbered-snoc, trim_delta_lem, drop_through_lem, length-le-Numbered,
  bytes_after-append, misses-le,
}

-- The events are numbered from 1 on, the kept chunks are the last of them, and those in front are
-- covered by the snapshot unless the flag is set.
pub record IsComplete (s : Scrollback) : Type 0 where
  pub earlier : List Chunk
  pub whole : s.emitted ≡ earlier ++ s.delta
  pub numbered : Numbered 0 s.emitted
  pub counted : s.sequence ≡ length s.emitted
  pub covered : s.truncated ≡ false → length earlier ≤ s.snapshot_sequence

pub empty-IsComplete : IsComplete empty
empty-IsComplete = record {
  earlier = [];
  whole = refl;
  numbered = tt;
  counted = refl;
  covered = λ h. omega arith;
}

-- The kept chunks continue the numbers of those in front.
pub delta-Numbered : (s : Scrollback) (h : IsComplete s) → Numbered (length h.earlier) s.delta
delta-Numbered s h =
    let (m, e, numbered, _) =
      Numbered-append 0 h.earlier s.delta (subst (Numbered 0) h.whole h.numbered) in
    subst (λ k. Numbered k s.delta) (omega arith) numbered

earlier-Numbered : (s : Scrollback) (h : IsComplete s) → Numbered 0 h.earlier
earlier-Numbered s h =
    let (m, e, _, numbered) =
      Numbered-append 0 h.earlier s.delta (subst (Numbered 0) h.whole h.numbered) in
    numbered

-- An event that fits is kept whole.
append_delta_small :
    (event : Chunk) (s : Scrollback)
    → length event.bytes ≤ maximum_delta_bytes
    → append_delta event s ≡ (
        let trimmed =
          trim_delta (s.delta ++ event ∷ []) (s.delta_length + length event.bytes) s.truncated in
        record s { delta = trimmed.0; delta_length = trimmed.1; truncated = trimmed.2 })
unfolding append_delta kept_bytes
append_delta_small event s fits = rw (le→ltb _ _ fits) refl

-- A new event that fits into the buffer.
pub emit_pending-IsComplete :
    (s : Scrollback)
    → length s.pending ≤ maximum_delta_bytes
    → IsComplete s
    → IsComplete (emit_pending s)
unfolding emit_pending
emit_pending-IsComplete s fits h =
    let event : Chunk = record { sequence = suc s.sequence; bytes = s.pending } in
    let t : Scrollback = record s { pending = []; pending_length = 0; sequence = suc s.sequence } in
    let (dropped, e, flag) =
      trim_delta_lem (s.delta ++ event ∷ []) (s.delta_length + length s.pending) s.truncated in
    let trimmed =
      trim_delta (s.delta ++ event ∷ []) (s.delta_length + length s.pending) s.truncated in
    subst (λ (x : Scrollback). IsComplete (record x { emitted = x.emitted ++ event ∷ [] }))
      (sym (append_delta_small event t fits))
      (record {
        earlier = h.earlier ++ dropped;
        whole =
            ap (λ x. x ++ event ∷ []) h.whole
            ∙ append_assoc h.earlier s.delta (event ∷ [])
            ∙ ap (λ x. h.earlier ++ x) e
            ∙ sym (append_assoc h.earlier dropped trimmed.0);
        numbered =
            Numbered-snoc 0 s.sequence s.emitted event h.numbered (h.counted ∙ omega arith) refl;
        counted = omega (arith, h.counted, length-append s.emitted (event ∷ []));
        covered = λ off.
            let (not_cut, kept) = flag off in
            omega (arith, length-append h.earlier dropped, ap length kept, h.covered not_cut);
      })

pub save_snapshot-IsComplete :
    (encoded : List ℕ) (n : ℕ) (s : Scrollback)
    → (s.truncated ≡ true → misses n s.delta ≡ false)
    → IsComplete s
    → IsComplete (save_snapshot encoded n s).0
unfolding save_snapshot
save_snapshot-IsComplete encoded n s covers h =
    let (dropped, e, all) = drop_through_lem n s.delta s.delta_length in
    let rest = drop_through n s.delta s.delta_length in
    if_elim (λ (r : Scrollback × Bool). IsComplete r.0)
      (ltb maximum_snapshot_bytes (length encoded) || ltb n s.snapshot_sequence || ltb s.sequence n)
      (λ _. h)
      (λ inside.
        let first : length h.earlier ≤ n = elim (Bool-cases s.truncated) [
          | inl cut ↦ misses-le n (length h.earlier) s.delta (delta-Numbered s h) (covers cut)
          | inr not_cut ↦ ground (arith, h.covered not_cut)
        ] in
        record {
          earlier = h.earlier ++ dropped;
          whole =
              h.whole ∙ ap (λ x. h.earlier ++ x) e ∙ sym (append_assoc h.earlier dropped rest.0);
          numbered = h.numbered;
          counted = h.counted;
          covered = λ _.
              let (_, _, _, numbered) =
                Numbered-append (length h.earlier) dropped rest.0
                  (subst (Numbered (length h.earlier)) e (delta-Numbered s h)) in
              omega (
                arith,
                length-append h.earlier dropped,
                length-le-Numbered n (length h.earlier) dropped first numbered all,
              );
        })

-- Up to where the numbers in front go, in the cases where no reset is required.
earlier-le :
    (n : ℕ) (s : Scrollback) (h : IsComplete s)
    → (ltb n s.snapshot_sequence || s.truncated && misses n s.delta) ≡ false
    → length h.earlier ≤ n
earlier-le n s h e = elim (Bool-cases s.truncated) [
  | inl cut ↦ misses-le n (length h.earlier) s.delta (delta-Numbered s h) (ground arith)
  | inr not_cut ↦ ground (arith, h.covered not_cut)
]

pub bytes-replay_after :
    (n : ℕ) (s : Scrollback)
    → IsComplete s
    → (replay_after n s).reset_required ≡ false
    → (replay_after n s).bytes ≡ bytes_after n s.emitted
unfolding replay_after
bytes-replay_after n s h =
    if_elim (λ (r : Replay). r.reset_required ≡ false → r.bytes ≡ bytes_after n s.emitted)
      (ltb n s.snapshot_sequence || s.truncated && misses n s.delta) (λ _ bad. cc)
      (λ near _. sym (
        ap (bytes_after n) h.whole
        ∙ bytes_after-append n 0 h.earlier s.delta (earlier-Numbered s h)
            (omega (arith, earlier-le n s h near))))
