-- ===== src/Scrollback/Bounds.antt =====
-- The counters of the scrollback, and how much it keeps.
use termethis.Base.{
  ℕ, suc, ◌+◌, ◌≤◌, ◌≡◌, refl, ◌++◌, Bool, true, false, List, [], ◌∷◌, length, length-append, arith,
  ltb, ◌||◌, if◌then◌else◌,
}
use termethis.Scrollback.{
  Chunk, Scrollback, empty, maximum_delta_bytes, maximum_snapshot_bytes, kept_bytes, append_delta,
  emit_pending, add_pending, save_snapshot,
}
use termethis.Scrollback.Loops.{
  total_length, total_length-append, trim_delta-total_length, drop_through-total_length,
}

pub record IsBounded (s : Scrollback) : Type 0 where
  pub pending_counted : s.pending_length ≡ length s.pending
  pub delta_counted : s.delta_length ≡ total_length s.delta
  pub delta_fits : s.delta_length ≤ maximum_delta_bytes
  pub snapshot_fits : length s.snapshot ≤ maximum_snapshot_bytes

pub empty-IsBounded : IsBounded empty
empty-IsBounded = ground arith

pub add_pending-IsBounded :
    (bytes : List ℕ) (s : Scrollback) → IsBounded s → IsBounded (add_pending bytes s)
add_pending-IsBounded bytes s h = ground (arith, length-append s.pending bytes)

-- The chunks in front of the loop, and their count.
counted_before :
    (is_large : Bool) (delta : List Chunk) (len : ℕ) (c : Chunk)
    → len ≡ total_length delta
    → (if is_large then 0 else len) + length c.bytes
      ≡ total_length ((if is_large then [] else delta) ++ c ∷ [])
counted_before true delta len c h = omega arith
counted_before false delta len c h = omega (arith, total_length-append delta (c ∷ []))

pub emit_pending-IsBounded : (s : Scrollback) → IsBounded s → IsBounded (emit_pending s)
unfolding emit_pending append_delta
emit_pending-IsBounded s h =
    let is_large = ltb maximum_delta_bytes (length s.pending) in
    let chunk : Chunk = record { sequence = suc s.sequence; bytes = kept_bytes s.pending } in
    let (counted, fits) =
      trim_delta-total_length ((if is_large then [] else s.delta) ++ chunk ∷ [])
        ((if is_large then 0 else s.delta_length) + length chunk.bytes) (is_large || s.truncated)
        (counted_before is_large s.delta s.delta_length chunk h.delta_counted) in
    record {
      pending_counted = refl;
      delta_counted = counted;
      delta_fits = fits;
      snapshot_fits = h.snapshot_fits;
    }

pub save_snapshot-IsBounded :
    (encoded : List ℕ) (n : ℕ) (s : Scrollback)
    → IsBounded s
    → IsBounded (save_snapshot encoded n s).0
unfolding save_snapshot
save_snapshot-IsBounded encoded n s h =
    ground (arith, drop_through-total_length n s.delta s.delta_length)
