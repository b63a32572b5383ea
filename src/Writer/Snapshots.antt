-- ===== src/Writer/Snapshots.antt =====
-- The answer to a request for a snapshot.
use termethis.Base.{
  ℕ, ◌≡◌, refl, ap, ◌∙◌, true, false, Option, none, some, [], ◌∷◌, ◌++◌, Text, ok, throws, Result,
  ◌>>=◌, if_elim,
}
use termethis.Browser.{Browser, CodersWork, IsPlain}
use termethis.Codec.{encode_base64, decode_base64_text}
use termethis.Codec.RoundTrip.{decode-encode_base64}
use termethis.Page.{Page, Message, Effect, posted, post}
use termethis.Page.Effects.{seen, seen-post-some}
use termethis.Writer.{take_snapshot}

-- An answer: its id, and the sequence number with the data, or none for an error.
abbrev pub answer_of : {F : Type 0} → Effect F → Option (ℕ × Option (ℕ × Text))
answer_of (posted (Message.snapshot id sequence t)) = some (id, some (sequence, t))
answer_of (posted (Message.snapshot_error id e)) = some (id, none)
answer_of _ = none

module _ ⦃b : Browser⦄ where
  -- What is posted for the outcome of `serialize` and `encodeBase64`.
  abbrev answer : ℕ → ℕ → Result Text → ℕ × Option (ℕ × Text)
  answer id sequence (ok t) = (id, some (sequence, t))
  answer id sequence (throws e) = (id, none)

  -- The message that is posted.
  take_snapshot-answer :
      (id sequence scrollback : ℕ) (p : Page b)
      → b.has_channel ≡ true
      → p.disposed ≡ false
      → seen answer_of (take_snapshot id sequence scrollback p)
        ≡ seen answer_of p
          ++ answer id sequence (b.serialize scrollback p.screen >>= encode_base64) ∷ []
  unfolding take_snapshot
  take_snapshot-answer id sequence scrollback p h live =
      if_elim
        (λ (q : Page b).
          seen answer_of q
          ≡ seen answer_of p
            ++ answer id sequence (b.serialize scrollback p.screen >>= encode_base64) ∷ [])
        p.disposed (λ gone. cc) (λ _. by_result (b.serialize scrollback p.screen >>= encode_base64))
    where
      by_result :
          (r : Result Text)
          → let q : Page b = elim r [
            | ok t ↦ post (Message.snapshot id sequence t) p
            | throws e ↦ post (Message.snapshot_error id e) p
          ] in
            seen answer_of q ≡ seen answer_of p ++ answer id sequence r ∷ []
      by_result (ok t) = seen-post-some answer_of (Message.snapshot id sequence t) p _ h refl
      by_result (throws e) = seen-post-some answer_of (Message.snapshot_error id e) p _ h refl

  -- With a channel and coders that keep their laws, on a page that is not disposed, where the
  -- emulator serializes to a plain text: a request for a snapshot is answered once, under its id and
  -- its sequence number, by a base64 text from which the application decodes that text.
  pub decode-take_snapshot :
      (laws : CodersWork b) (id sequence scrollback : ℕ) (t : Text) (p : Page b)
      → b.has_channel ≡ true
      → p.disposed ≡ false
      → b.serialize scrollback p.screen ≡ ok t
      → IsPlain t
      → (u : Text) × (seen answer_of (take_snapshot id sequence scrollback p)
          ≡ seen answer_of p ++ (id, some (sequence, u)) ∷ [])
        × (decode_base64_text u ≡ ok t)
  decode-take_snapshot laws id sequence scrollback t p h live e plain =
      let (u, encodes, decodes) = decode-encode_base64 laws t plain in
      let result : (b.serialize scrollback p.screen >>= encode_base64) ≡ ok u =
        ap (λ r. r >>= encode_base64) e ∙ encodes in
      (
        u,
        take_snapshot-answer id sequence scrollback p h live
            ∙ ap (λ r. seen answer_of p ++ answer id sequence r ∷ []) result,
        decodes,
      )
