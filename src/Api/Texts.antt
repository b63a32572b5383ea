-- ===== src/Api/Texts.antt =====
-- Text between the application and the page: what is pasted.
use termethis.Base.{◌≡◌, refl, ap, Text, ok}
use termethis.Browser.{Browser, Call, CodersWork, IsPlain}
use termethis.Codec.{decode_base64_text}
use termethis.Codec.RoundTrip.{decode_base64_bytes-btoa}
use termethis.Page.{Page, perform}
use termethis.Api.{paste_base64}

module _ ⦃b : Browser⦄ where
  decode_base64_text-btoa :
      (laws : CodersWork b) (t u : Text)
      → IsPlain t
      → b.btoa (b.encode t) ≡ ok u
      → decode_base64_text u ≡ ok t
  unfolding decode_base64_text
  decode_base64_text-btoa laws t u plain e =
      rw (decode_base64_bytes-btoa laws (b.encode t) u (laws.encode-AreBytes t) e)
        (ap ok (laws.decode-encode t plain))

  -- With coders that keep their laws: pasting the base64 of the UTF-8 of a plain text is one call of
  -- `terminal.paste` with that text.
  pub paste_base64-btoa :
      (laws : CodersWork b) (t u : Text) (p : Page b)
      → IsPlain t
      → b.btoa (b.encode t) ≡ ok u
      → paste_base64 u p ≡ perform (Call.paste t) p
  unfolding paste_base64
  paste_base64-btoa laws t u p plain e =
      rw (decode_base64_text-btoa laws t u plain e, paste_base64) refl
