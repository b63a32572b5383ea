-- ===== src/Scrollback/Stale.antt =====
-- A snapshot that is older than chunks that have been dropped.
use mathlib.Core.Path.{subst}
use termethis.Base.{
  ℕ, ◌≤◌, ◌<◌, ◌≡◌, refl, sym, ap, ◌∙◌, Bool, false, List, [], ◌∷◌, ◌++◌, append_assoc, ltb, leb,
  ◌||◌, ◌&&◌, if◌then◌else◌, length, length-append, arith, if_elim,
}
use termethis.Scrollback.{
  Chunk, Scrollback, Replay, drop_through, maximum_snapshot_bytes, bytes_after, save_snapshot,
  replay_after, misses,
}
use termethis.Scrollback.Loops.{Numbered}
use termethis.Scrollback.History.{IsComplete, delta-Numbered}

pub bytes_after_split :
    (n : ℕ) (cs ds : List Chunk) → bytes_after n (cs ++ ds) ≡ bytes_after n cs ++ bytes_after n ds
unfolding bytes_after
bytes_after_split n [] ds = refl
bytes_after_split n (c ∷ cs) ds =
    ap (λ x. (if ltb n c.sequence then c.bytes else []) ++ x) (bytes_after_split n cs ds)
    ∙ sym (
        append_assoc (if ltb n c.sequence then c.bytes else []) (bytes_after n cs)
          (bytes_after n ds))

-- Chunks that are all newer: nothing is removed, and all their bytes count.
drop_through_newer :
    (n m len : ℕ) (cs : List Chunk) → n ≤ m → Numbered m cs → (drop_through n cs len).0 ≡ cs
unfolding drop_through
drop_through_newer n m len [] h k = refl
drop_through_newer n m len (c ∷ cs) h k =
    let newer : leb c.sequence n ≡ false = ground (arith, k.0) in rw newer

save_snapshot_saves :
    (encoded : List ℕ) (n : ℕ) (s : Scrollback)
    → (ltb maximum_snapshot_bytes (length encoded) || ltb n s.snapshot_sequence || ltb s.sequence n)
      ≡ false
    → (save_snapshot encoded n s).0 ≡ (
        let rest = drop_through n s.delta s.delta_length in
        record s {
          snapshot = encoded;
          snapshot_sequence = n;
          delta = rest.0;
          delta_length = rest.1;
          truncated = false;
        })
unfolding save_snapshot
save_snapshot_saves encoded n s inside = rw inside

replay_after_near :
    (n : ℕ) (s : Scrollback)
    → (ltb n s.snapshot_sequence || s.truncated && misses n s.delta) ≡ false
    → ((replay_after n s).reset_required ≡ false)
      × ((replay_after n s).bytes ≡ bytes_after n s.delta)
unfolding replay_after
replay_after_near n s near =
    if_elim (λ (r : Replay). (r.reset_required ≡ false) × (r.bytes ≡ bytes_after n s.delta))
      (ltb n s.snapshot_sequence || s.truncated && misses n s.delta) (λ far. cc) (λ _. (refl, refl))

not_far : (n : ℕ) (c : Bool) → (ltb n n || false && c) ≡ false
not_far n c = ground arith

-- With a history: saving a snapshot that is older than the last dropped chunk, and not older than
-- the one before, clears the flag. A replay from there then asks for no reset and lacks the bytes
-- of the dropped chunks that are newer than the snapshot.
pub replay_after-save_snapshot :
    (encoded : List ℕ) (n : ℕ) (s : Scrollback) (h : IsComplete s)
    → length encoded ≤ maximum_snapshot_bytes
    → s.snapshot_sequence ≤ n
    → n < length h.earlier
    → let r = replay_after n (save_snapshot encoded n s).0 in
      (r.reset_required ≡ false) × (bytes_after n s.emitted ≡ bytes_after n h.earlier ++ r.bytes)
replay_after-save_snapshot encoded n s h fits older dropped =
    let kept =
      drop_through_newer n (length h.earlier) s.delta_length s.delta (omega arith)
        (delta-Numbered s h) in
    let inside : (ltb maximum_snapshot_bytes (length encoded)
          || ltb n s.snapshot_sequence
          || ltb s.sequence n)
        ≡ false =
      ground (arith, h.counted ∙ ap length h.whole, length-append h.earlier s.delta) in
    let rest = drop_through n s.delta s.delta_length in
    let t : Scrollback = record s {
      snapshot = encoded;
      snapshot_sequence = n;
      delta = rest.0;
      delta_length = rest.1;
      truncated = false;
    } in
    let (quiet, bytes) = replay_after_near n t (not_far n (misses n rest.0)) in
    let lost : bytes_after n s.emitted ≡ bytes_after n h.earlier ++ (replay_after n t).bytes =
      ap (bytes_after n) h.whole
      ∙ bytes_after_split n h.earlier s.delta
      ∙ ap (λ x. bytes_after n h.earlier ++ x) (ap (bytes_after n) (sym kept) ∙ sym bytes) in
    subst
      (λ (x : Scrollback).
        ((replay_after n x).reset_required ≡ false)
        × (bytes_after n s.emitted ≡ bytes_after n h.earlier ++ (replay_after n x).bytes))
      (sym (save_snapshot_saves encoded n s inside)) (quiet, lost)
