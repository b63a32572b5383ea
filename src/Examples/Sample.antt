-- ===== src/Examples/Sample.antt =====
-- A browser on which the model runs: natural numbers for the doubles, one byte per unit in place of
-- base64, and an emulator that answers `input` with `onData`.
use termethis.Base.{
  ℕ, zero, suc, ◌+◌, ◌-◌, ◌*◌, ◌/◌, ◌≡◌, refl, ap, ◌∙◌, Bool, true, none, some, List, [], ◌∷◌, ◌++◌,
  ◌&&◌, ltb, leb, if◌then◌else◌, Text, codes, Result, ok, throws, arith,
}
use termethis.Base.Int.{pos, fin}
use termethis.Browser.{Browser, Call, Fired, on_data, CodersWork, AreBytes}

-- A unit as so many ones and a zero.
unary : ℕ → List ℕ
unary zero = 0 ∷ []
unary (suc n) = 1 ∷ unary n

unfoldable pub encode : Text → List ℕ
unfolding unary
encode [] = []
encode (c ∷ cs) = unary c ++ encode cs

unfoldable pub decode_from : ℕ → List ℕ → Text
decode_from n [] = []
decode_from n (zero ∷ xs) = n ∷ decode_from 0 xs
decode_from n (suc _ ∷ xs) = decode_from (suc n) xs

unfoldable pub are_bytes : Text → Bool
are_bytes [] = true
are_bytes (c ∷ cs) = ltb c 256 && are_bytes cs

unfoldable pub checked : Text → Result Text
unfolding are_bytes
checked t = if are_bytes t then ok t else throws (codes "InvalidCharacterError")

unfoldable pub apply : Call ℕ → Unit {0} → Fired ℕ (Unit {0})
apply (Call.input t _) s = record {
  screen = s;
  events = on_data 100 t ∷ [];
  thrown = some (codes "Error");
}
apply c s = record { screen = s; events = []; thrown = none }

instance abbrev pub sample : Browser
sample = record {
  F = ℕ;
  of_nat = λ n. n;
  neg_infinity = 0;
  sub = λ x y. x - y;
  mul = λ x y. x * y;
  div = λ x y. x / y;
  hypot = λ x y. x + y;
  lt = ltb;
  le = leb;
  floor = λ x. fin (pos x);
  ceil = λ x. fin (pos x);
  encode = encode;
  decode = decode_from 0;
  atob = checked;
  btoa = checked;
  object_prototype = λ _. none;
  error_message = λ e. e;
  has_channel = true;
  Screen = Unit {0};
  apply = apply;
  viewport_y = λ _. 0;
  base_y = λ _. 0;
  cursor_x = λ _. 5;
  cursor_y = λ _. 2;
  cols = λ _. 80;
  rows = λ _. 24;
  application_cursor_keys = λ _. true;
  serialize = λ n _. ok (codes "ok");
  propose_cols = λ _. some (fin (pos 80));
  client_width = λ _. 800;
  client_height = λ _. 480;
  rect_left = λ _. 0;
  rect_top = λ _. 0;
  rect_width = λ _. 800;
  rect_height = λ _. 480;
}

unary-AreBytes : (n : ℕ) (rest : List ℕ) → AreBytes rest → AreBytes (unary n ++ rest)
unfolding unary
unary-AreBytes zero rest h = (omega arith, h)
unary-AreBytes (suc n) rest h = (omega arith, unary-AreBytes n rest h)

encode-AreBytes : (t : Text) → AreBytes (encode t)
unfolding encode
encode-AreBytes [] = tt
encode-AreBytes (c ∷ cs) = unary-AreBytes c (encode cs) (encode-AreBytes cs)

decode_from-unary :
    (k n : ℕ) (rest : List ℕ) → decode_from k (unary n ++ rest) ≡ (n + k) ∷ decode_from 0 rest
unfolding unary decode_from
decode_from-unary k zero rest = ap (λ m. m ∷ decode_from 0 rest) (omega arith)
decode_from-unary k (suc n) rest =
    decode_from-unary (suc k) n rest ∙ ap (λ m. m ∷ decode_from 0 rest) (omega arith)

decode-encode : (t : Text) → decode_from 0 (encode t) ≡ t
unfolding encode decode_from
decode-encode [] = refl
decode-encode (c ∷ cs) =
    decode_from-unary 0 c (encode cs)
    ∙ ap (λ m. m ∷ decode_from 0 (encode cs)) (omega arith)
    ∙ ap (λ r. c ∷ r) (decode-encode cs)

are_bytes-AreBytes : (t : Text) → are_bytes t ≡ true → AreBytes t
unfolding are_bytes
are_bytes-AreBytes [] h = tt
are_bytes-AreBytes (c ∷ cs) h = (ground arith, are_bytes-AreBytes cs (ground arith))

AreBytes-are_bytes : (t : Text) → AreBytes t → are_bytes t ≡ true
unfolding are_bytes
AreBytes-are_bytes [] h = refl
AreBytes-are_bytes (c ∷ cs) h = ground (arith, h.0, AreBytes-are_bytes cs h.1)

checked-ok : (t u : Text) → checked t ≡ ok u → (t ≡ u) × (are_bytes t ≡ true)
unfolding checked
checked-ok t u h = grind arith

pub coders_work : CodersWork sample
unfolding checked
coders_work = record {
  encode-AreBytes = encode-AreBytes;
  decode-encode = λ t plain. decode-encode t;
  btoa-ok = λ t h. (t, rw (AreBytes-are_bytes t h, checked));
  atob-btoa = λ t u h. let (same, bytes) = checked-ok t u h in cc;
  atob-AreBytes = λ t u h. let (same, bytes) = checked-ok u t h in are_bytes-AreBytes t (cc);
}
