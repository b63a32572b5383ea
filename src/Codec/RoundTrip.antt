-- ===== src/Codec/RoundTrip.antt =====
-- The chunked encoder against the whole text, and the round trip of text through base64.
use termethis.Base.{
  ℕ, zero, suc, ◌+◌, ◌≤◌, ◌<◌, ◌≡◌, refl, sym, ap, ◌∙◌, List, [], ◌∷◌, arith, ltb, Bool-cases, inl,
  inr, ltb→le, Text, ok, length, drop, join, take-append-drop, drop-drop, drop_all, length-drop,
  length-take, All, ltb→lt,
}
use termethis.Browser.{Browser, CodersWork, AreBytes, IsPlain}
use termethis.Codec.{
  store_bytes, chunk_size, chunks_from, decode_base64_bytes, decode_base64_text, encode_base64,
}

store_bytes_self : (t : Text) → AreBytes t → store_bytes t ≡ t
unfolding store_bytes
store_bytes_self [] h = refl
store_bytes_self (c ∷ cs) h = ground (arith, store_bytes_self cs h.1)

store_bytes-AreBytes : (t : Text) → AreBytes (store_bytes t)
unfolding store_bytes
store_bytes-AreBytes [] = tt
store_bytes-AreBytes (c ∷ cs) = (omega arith, store_bytes-AreBytes cs)

-- With fuel for the bytes that are left, the chunks join to exactly those bytes.
join-chunks_from :
    (fuel : ℕ) (bytes : List ℕ) (offset : ℕ)
    → length bytes < fuel + offset
    → join (chunks_from fuel bytes offset) ≡ drop offset bytes
unfolding chunks_from
join-chunks_from zero bytes offset h = sym (drop_all offset bytes (omega arith))
join-chunks_from (suc fuel) bytes offset h = elim (Bool-cases (ltb offset (length bytes))) [
  | inl more ↦
      rw (more, join-chunks_from fuel bytes (offset + chunk_size) (omega arith))
        (rw (← drop-drop offset chunk_size bytes) (take-append-drop chunk_size (drop offset bytes)))
  | inr done ↦ rw done (sym (drop_all offset bytes (ltb→le _ _ done)))
]

-- Every chunk is within the argument limit that the encoder keeps to, and none is empty.
abbrev pub IsChunk : Text → Type 0
IsChunk c = (0 < length c) × (length c ≤ chunk_size)

chunks_from-IsChunk :
    (fuel : ℕ) (bytes : List ℕ) (offset : ℕ) → All IsChunk (chunks_from fuel bytes offset)
unfolding chunks_from
chunks_from-IsChunk zero bytes offset = tt
chunks_from-IsChunk (suc fuel) bytes offset = elim (Bool-cases (ltb offset (length bytes))) [
  | inl more ↦ rw more (
      let n = length-take chunk_size (drop offset bytes) in
      let d = length-drop offset bytes in
      (
        (omega (arith, n, d, ltb→lt _ _ more), omega (arith, n)),
        chunks_from-IsChunk fuel bytes (offset + chunk_size),
      ))
  | inr done ↦ rw done tt
]

module _ ⦃b : Browser⦄ where
  -- Encoding in chunks gives the result of `btoa` on all the bytes at once, exceptions included.
  pub encode_base64-btoa : (t : Text) → encode_base64 t ≡ b.btoa (b.encode t)
  unfolding encode_base64
  encode_base64-btoa t =
      ap b.btoa (join-chunks_from (suc (length (b.encode t))) (b.encode t) 0 (omega arith))

  -- With coders that keep their laws: for a list of bytes that `btoa` encodes, decoding the
  -- result gives the bytes back.
  pub decode_base64_bytes-btoa :
      (laws : CodersWork b) (bytes : List ℕ) (u : Text)
      → AreBytes bytes
      → b.btoa bytes ≡ ok u
      → decode_base64_bytes u ≡ ok bytes
  unfolding decode_base64_bytes
  decode_base64_bytes-btoa laws bytes u h e =
      rw (laws.atob-btoa bytes u e) (ap ok (store_bytes_self bytes h))

  -- With coders that keep their laws: encoding a plain text does not throw, and decoding the
  -- result returns the text.
  pub decode-encode_base64 :
      (laws : CodersWork b) (t : Text)
      → IsPlain t
      → (u : Text) × (encode_base64 t ≡ ok u) × (decode_base64_text u ≡ ok t)
  unfolding decode_base64_text
  decode-encode_base64 laws t plain =
      let bytes = b.encode t in
      let h = laws.encode-AreBytes t in
      let (u, e) = laws.btoa-ok bytes h in
      (
        u,
        encode_base64-btoa t ∙ e,
        rw (decode_base64_bytes-btoa laws bytes u h e) (ap ok (laws.decode-encode t plain)),
      )
