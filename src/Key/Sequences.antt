-- ===== src/Key/Sequences.antt =====
-- The seven keys that the application sends, and a reader of their sequences.
use termethis.Base.{
  ℕ, ◌+◌, ◌-◌, ◌*◌, ◌/◌, ◌%◌, ◌≡◌, ◌≢◌, ◌↔◌, refl, ap, ◌∙◌, Bool, true, false, Option, none, some,
  [], ◌∷◌, ◌==◌, if◌then◌else◌, Text, codes, text_eq_iff, decimal, arith, Bool-cases, inl, inr,
}
use termethis.Browser.{Browser}
use termethis.Key.{esc, arrow_final, literal, special_key_sequence}

pub data NamedKey : Type 0 where
  arrow_up arrow_down arrow_right arrow_left escape tab enter : NamedKey

abbrev pub name : NamedKey → Text
name arrow_up = codes "arrowUp"
name arrow_down = codes "arrowDown"
name arrow_right = codes "arrowRight"
name arrow_left = codes "arrowLeft"
name escape = codes "escape"
name tab = codes "tab"
name enter = codes "enter"

-- The key that a final byte or a code stands for.
of_code : ℕ → NamedKey
of_code c =
    if c == b'A'
    then arrow_up
    else if c == b'B'
    then arrow_down
    else if c == b'C'
    then arrow_right
    else if c == b'D'
    then arrow_left
    else if c == 0x09
    then tab
    else if c == 0x0d
    then enter
    else escape

-- The modifier parameter is a digit, one more than alt = 2 and control = 4 added up.
with_modifiers : NamedKey → ℕ → NamedKey × Bool × Bool
with_modifiers k digit = (k, (digit - 49) / 4 % 2 == 1, (digit - 49) / 2 % 2 == 1)

-- The key, control and alt that a sequence encodes, by its length and its final byte.
pub read : Text → Option (NamedKey × Bool × Bool)
read (c ∷ []) = some (of_code c, false, false)
read (_ ∷ c ∷ []) = some (of_code c, false, true)
read (_ ∷ _ ∷ c ∷ []) = some (of_code c, false, false)
read (_ ∷ _ ∷ n ∷ _ ∷ digit ∷ c ∷ []) =
    some (with_modifiers (if c == b'u' then of_code (n - 48) else of_code c) digit)
read (_ ∷ _ ∷ n ∷ m ∷ _ ∷ digit ∷ _ ∷ []) =
    some (with_modifiers (of_code ((n - 48) * 10 + (m - 48))) digit)
read _ = none

-- Object.prototype has none of the seven names.
abbrev pub IsOrdinary : Browser → Type 0
IsOrdinary b = (k : NamedKey) → b.object_prototype (name k) ≡ none

module _ ⦃b : Browser⦄ where
  -- The key has a sequence, and `read` gives the key and its modifiers from it.
  abbrev pub Reads : NamedKey → Bool → Bool → b.Screen → Type 0
  Reads k control alt s =
      (t : Text) × (special_key_sequence (name k) control alt s ≡ some t)
      × (read t ≡ some (k, control, alt))

  arrow-Reads :
      (k : NamedKey) (s : b.Screen) (t u : Text)
      → special_key_sequence (name k) false false s
        ≡ (if b.application_cursor_keys s then some t else some u)
      → read t ≡ some (k, false, false)
      → read u ≡ some (k, false, false)
      → Reads k false false s
  arrow-Reads k s t u e ht hu = elim (Bool-cases (b.application_cursor_keys s)) [
    | inl app ↦ (t, e ∙ rw app, ht)
    | inr normal ↦ (u, e ∙ rw normal, hu)
  ]

  -- Where Object.prototype has none of the seven names: each of the seven keys has a sequence
  -- with any modifiers, in both cursor key modes, and the key and its modifiers can be read back
  -- from it.
  pub read-special_key_sequence :
      (ordinary : IsOrdinary b) (k : NamedKey) (control alt : Bool) (s : b.Screen)
      → Reads k control alt s
  unfolding special_key_sequence read with_modifiers of_code decimal
  read-special_key_sequence o arrow_up false false s = arrow-Reads arrow_up s _ _ refl refl refl
  read-special_key_sequence o arrow_up true true s = (_, refl, refl)
  read-special_key_sequence o arrow_up true false s = (_, refl, refl)
  read-special_key_sequence o arrow_up false true s = (_, refl, refl)
  read-special_key_sequence o arrow_down false false s = arrow-Reads arrow_down s _ _ refl refl refl
  read-special_key_sequence o arrow_down true true s = (_, refl, refl)
  read-special_key_sequence o arrow_down true false s = (_, refl, refl)
  read-special_key_sequence o arrow_down false true s = (_, refl, refl)
  read-special_key_sequence o arrow_right false false s =
      arrow-Reads arrow_right s _ _ refl refl refl
  read-special_key_sequence o arrow_right true true s = (_, refl, refl)
  read-special_key_sequence o arrow_right true false s = (_, refl, refl)
  read-special_key_sequence o arrow_right false true s = (_, refl, refl)
  read-special_key_sequence o arrow_left false false s = arrow-Reads arrow_left s _ _ refl refl refl
  read-special_key_sequence o arrow_left true true s = (_, refl, refl)
  read-special_key_sequence o arrow_left true false s = (_, refl, refl)
  read-special_key_sequence o arrow_left false true s = (_, refl, refl)
  read-special_key_sequence o escape false false s = (0x1b ∷ [], rw (o escape), refl)
  read-special_key_sequence o escape false true s = (esc ∷ 0x1b ∷ [], rw (o escape), refl)
  read-special_key_sequence o escape true false s = (esc ∷ codes "[27;5u", rw (o escape), refl)
  read-special_key_sequence o escape true true s = (esc ∷ codes "[27;7u", rw (o escape), refl)
  read-special_key_sequence o tab false false s = (0x09 ∷ [], rw (o tab), refl)
  read-special_key_sequence o tab false true s = (esc ∷ 0x09 ∷ [], rw (o tab), refl)
  read-special_key_sequence o tab true false s = (esc ∷ codes "[9;5u", rw (o tab), refl)
  read-special_key_sequence o tab true true s = (esc ∷ codes "[9;7u", rw (o tab), refl)
  read-special_key_sequence o enter false false s = (0x0d ∷ [], rw (o enter), refl)
  read-special_key_sequence o enter false true s = (esc ∷ 0x0d ∷ [], rw (o enter), refl)
  read-special_key_sequence o enter true false s = (esc ∷ codes "[13;5u", rw (o enter), refl)
  read-special_key_sequence o enter true true s = (esc ∷ codes "[13;7u", rw (o enter), refl)

  -- Where Object.prototype has none of the seven names: two inputs of the key row that have the
  -- same sequence in the same mode are the same key with the same modifiers.
  special_key_sequence_inj :
      (ordinary : IsOrdinary b) (k k' : NamedKey) (control control' alt alt' : Bool) (s : b.Screen)
      → special_key_sequence (name k) control alt s ≡ special_key_sequence (name k') control' alt' s
      → (k ≡ k') × (control ≡ control') × (alt ≡ alt')
  special_key_sequence_inj o k k' c c' a a' s e =
      let (t, p, q) = read-special_key_sequence o k c a s in
      let (t', p', q') = read-special_key_sequence o k' c' a' s in
      let same : t ≡ t' = cc in let same_read : read t ≡ read t' = ap read same in (cc, cc, cc)

  arrow_final_other :
      (key : Text)
      → key ≢ name arrow_up
      → key ≢ name arrow_down
      → key ≢ name arrow_right
      → key ≢ name arrow_left
      → arrow_final key ≡ b.object_prototype key
  unfolding arrow_final
  arrow_final_other key u d r l = ground (
    arith,
    text_eq_iff key (name arrow_up),
    text_eq_iff key (name arrow_down),
    text_eq_iff key (name arrow_right),
    text_eq_iff key (name arrow_left),
  )

  literal_other :
      (key : Text) → key ≢ name escape → key ≢ name tab → key ≢ name enter → literal key ≡ none
  unfolding literal
  literal_other key e t n = ground (
    arith,
    text_eq_iff key (name escape),
    text_eq_iff key (name tab),
    text_eq_iff key (name enter),
  )

  -- A key that is none of the seven has no sequence if and only if Object.prototype has no
  -- property of that name.
  pub special_key_sequence_other :
      (key : Text) (control alt : Bool) (s : b.Screen)
      → ((k : NamedKey) → key ≢ name k)
      → (special_key_sequence key control alt s ≡ none) ↔ (b.object_prototype key ≡ none)
  unfolding special_key_sequence
  special_key_sequence_other key control alt s other =
      let arrow =
        arrow_final_other key (other arrow_up) (other arrow_down) (other arrow_right)
          (other arrow_left) in
      let plain = literal_other key (other escape) (other tab) (other enter) in ground arith
