-- ===== src/Widget/Chunks.antt =====
-- _appendOutputChunks of xterm_web_terminal.dart: the chunks that output is cut into.
use mathlib.Core.Path.{subst}
use termethis.Base.{
  ℕ, zero, suc, ◌+◌, ◌≤◌, ◌<◌, ◌≡◌, refl, sym, ap, ◌∙◌, Bool, false, List, [], ◌∷◌, ◌++◌, ltb, leb,
  if◌then◌else◌, length, take, drop, All, take-append-drop, length-take, length-drop, drop-drop,
  drop_all, arith, Bool-cases, inl, inr, ltb→le, ltb→lt, le→ltb, lt→ltb,
}
use termethis.Prompt.{is_empty}
use termethis.Widget.{QueuedChunk, maximum_write_bytes, queued_from, chunks_for}

-- The bytes of chunks.
abbrev pub queued_bytes : List QueuedChunk → List ℕ
queued_bytes [] = []
queued_bytes (c ∷ cs) = c.bytes ++ queued_bytes cs

-- What each chunk satisfies: its size.
abbrev pub IsPiece : QueuedChunk → Type 0
IsPiece c = (0 < length c.bytes) × (length c.bytes ≤ maximum_write_bytes)

-- No chunk resets the page.
abbrev pub Keeps : QueuedChunk → Type 0
Keeps c = c.reset ≡ false

-- The last chunk carries the sequence number, and the others carry 0.
abbrev pub EndsAt : ℕ → List QueuedChunk → Type 0
EndsAt n [] = ⊥
EndsAt n (c ∷ []) = c.through_sequence ≡ n
EndsAt n (c ∷ d ∷ cs) = (c.through_sequence ≡ 0) × EndsAt n (d ∷ cs)

-- The first chunk resets the page if `reset` says so, and the others do not.
abbrev pub StartsWith : Bool → List QueuedChunk → Type 0
StartsWith reset [] = ⊥
StartsWith reset (c ∷ cs) = (c.reset ≡ reset) × All Keeps cs

queued_from_end :
    (fuel : ℕ) (bytes : List ℕ) (n : ℕ) (reset : Bool) (offset : ℕ)
    → length bytes ≤ offset
    → queued_from fuel bytes n reset offset ≡ []
unfolding queued_from
queued_from_end zero bytes n reset offset h = refl
queued_from_end (suc fuel) bytes n reset offset h = rw (le→ltb offset (length bytes) h)

-- A step of the loop.
queued_from_more :
    (fuel : ℕ) (bytes : List ℕ) (n : ℕ) (reset : Bool) (offset : ℕ)
    → offset < length bytes
    → let c : QueuedChunk = record {
      bytes = take maximum_write_bytes (drop offset bytes);
      through_sequence = if leb (length bytes) (offset + maximum_write_bytes) then n else 0;
      reset = reset;
    } in
      queued_from (suc fuel) bytes n reset offset
      ≡ c ∷ queued_from fuel bytes n false (offset + maximum_write_bytes)
unfolding queued_from
queued_from_more fuel bytes n reset offset h = rw (lt→ltb offset (length bytes) h)

-- The chunks of `bytes`, which are not empty.
pub record IsCut (bytes : List ℕ) (n : ℕ) (reset : Bool) (cs : List QueuedChunk) : Type 0 where
  pub whole : queued_bytes cs ≡ bytes
  pub pieces : All IsPiece cs
  pub ends : EndsAt n cs
  pub starts : StartsWith reset cs

EndsAt-cons :
    (n : ℕ) (c : QueuedChunk) (cs : List QueuedChunk)
    → c.through_sequence ≡ 0
    → EndsAt n cs
    → EndsAt n (c ∷ cs)
EndsAt-cons n c [] h k = absurd k
EndsAt-cons n c (d ∷ cs) h k = (h, k)

StartsWith-Keeps : (cs : List QueuedChunk) → StartsWith false cs → All Keeps cs
StartsWith-Keeps [] h = absurd h
StartsWith-Keeps (c ∷ cs) h = h

piece :
    (bytes : List ℕ) (offset : ℕ)
    → offset < length bytes
    → (0 < length (take maximum_write_bytes (drop offset bytes)))
      × (length (take maximum_write_bytes (drop offset bytes)) ≤ maximum_write_bytes)
piece bytes offset h =
    let cut = length-take maximum_write_bytes (drop offset bytes) in
    let left = length-drop offset bytes in (omega arith, omega arith)

bytes_end :
    (bytes : List ℕ) (offset : ℕ)
    → length bytes ≤ offset + maximum_write_bytes
    → take maximum_write_bytes (drop offset bytes) ++ [] ≡ drop offset bytes
bytes_end bytes offset h =
    ap (λ x. take maximum_write_bytes (drop offset bytes) ++ x)
      (sym (
        drop-drop offset maximum_write_bytes bytes
        ∙ drop_all (offset + maximum_write_bytes) bytes h))
    ∙ take-append-drop maximum_write_bytes (drop offset bytes)

bytes_more :
    (bytes : List ℕ) (offset : ℕ)
    → take maximum_write_bytes (drop offset bytes) ++ drop (offset + maximum_write_bytes) bytes
      ≡ drop offset bytes
bytes_more bytes offset =
    ap (λ x. take maximum_write_bytes (drop offset bytes) ++ x)
      (sym (drop-drop offset maximum_write_bytes bytes))
    ∙ take-append-drop maximum_write_bytes (drop offset bytes)

queued_from-IsCut :
    (fuel : ℕ) (bytes : List ℕ) (n : ℕ) (reset : Bool) (offset : ℕ)
    → offset < length bytes
    → length bytes ≤ offset + fuel
    → IsCut (drop offset bytes) n reset (queued_from fuel bytes n reset offset)
queued_from-IsCut zero bytes n reset offset h k = absurd (omega arith)
queued_from-IsCut (suc fuel) bytes n reset offset h k =
    let next = offset + maximum_write_bytes in
    let c : QueuedChunk = record {
      bytes = take maximum_write_bytes (drop offset bytes);
      through_sequence = if leb (length bytes) next then n else 0;
      reset = reset;
    } in
    let rest = queued_from fuel bytes n false next in
    subst (IsCut (drop offset bytes) n reset) (sym (queued_from_more fuel bytes n reset offset h))
      (elim (Bool-cases (ltb next (length bytes))) [
        | inl more ↦
            let ih =
              queued_from-IsCut fuel bytes n false next (ltb→lt next (length bytes) more)
                (omega arith) in
            record {
              whole = ap (λ x. c.bytes ++ x) ih.whole ∙ bytes_more bytes offset;
              pieces = (piece bytes offset h, ih.pieces);
              ends = EndsAt-cons n c rest (ground arith) ih.ends;
              starts = (refl, StartsWith-Keeps rest ih.starts);
            }
        | inr last ↦
            let done = ltb→le next (length bytes) last in
            subst (λ x. IsCut (drop offset bytes) n reset (c ∷ x))
              (sym (queued_from_end fuel bytes n false next done))
              (record {
                whole = bytes_end bytes offset done;
                pieces = (piece bytes offset h, tt);
                ends = ground arith;
                starts = (refl, tt);
              })
      ])

-- Output that is not empty is cut into chunks that hold its bytes in order. Each chunk has between
-- 1 byte and 128 KiB. The last one carries the sequence number and the others carry 0; the first
-- one resets the page if the output does and the others do not.
pub chunks_for-IsCut :
    (bytes : List ℕ) (n : ℕ) (reset : Bool)
    → is_empty bytes ≡ false
    → IsCut bytes n reset (chunks_for bytes n reset)
unfolding chunks_for
chunks_for-IsCut [] n reset h = absurd (cc)
chunks_for-IsCut (x ∷ xs) n reset h =
    queued_from-IsCut (suc (length (x ∷ xs))) (x ∷ xs) n reset 0 (omega arith) (omega arith)
