-- ===== src/Codec.antt =====
-- The base64 helpers of tool/web_terminal/src/terminal.js, which carry text between the page and
-- the application: decodeBase64Bytes, decodeBase64Text, encodeBase64.
pub mod RoundTrip
use termethis.Base.{
  ℕ, zero, suc, ◌+◌, ◌%◌, ◌≤◌, ◌<◌, ◌≡◌, refl, List, [], ◌∷◌, ◌++◌, arith, ltb, if◌then◌else◌, Text,
  Result, ok, throws, ◌>>=◌, length, take, drop, join,
}
use termethis.Browser.{Browser}

-- The loop of decodeBase64Bytes: a store into a Uint8Array keeps the low eight bits.
store_bytes : Text → List ℕ
store_bytes [] = []
store_bytes (c ∷ cs) = (c % 256) ∷ store_bytes cs

abbrev pub chunk_size : ℕ
chunk_size = 0x8000

-- The loop of encodeBase64 from `offset` on, one call of String.fromCharCode a round.
chunks_from : ℕ → List ℕ → ℕ → List Text
chunks_from zero bytes offset = []
chunks_from (suc fuel) bytes offset =
    let rest = take chunk_size (drop offset bytes) ∷ chunks_from fuel bytes (offset + chunk_size) in
    if ltb offset (length bytes) then rest else []

module _ ⦃b : Browser⦄ where
  unfoldable pub decode_base64_bytes : Text → Result (List ℕ)
  unfolding store_bytes
  decode_base64_bytes value = do binary ← b.atob value; ok (store_bytes binary)

  unfoldable pub decode_base64_text : Text → Result Text
  decode_base64_text value = do bytes ← decode_base64_bytes value; ok (b.decode bytes)

  unfoldable pub encode_base64 : Text → Result Text
  unfolding chunks_from
  encode_base64 value =
      let bytes = b.encode value in b.btoa (join (chunks_from (suc (length bytes)) bytes 0))
