-- ===== src/Pointer/Taps.antt =====
-- What a tap on the row of a prompt types.
use termethis.Pointer.{
  dispatch_mouse, sub_whole, repeat_count, prompt_delta, move_by, tap, left_key, right_key,
}
use termethis.Base.{
  ◌≢◌, ltb→le, ltb→lt, ==_iff, ◌≤◌, ℕ, zero, suc, ◌+◌, ◌-◌, ◌<◌, ◌≡◌, ◌⊎◌, inl, inr, refl, ap, ◌∙◌,
  Bool, true, false, none, some, [], ◌∷◌, ◌==◌, ltb, if◌then◌else◌, if_elim, Text, text_eq,
  replicate, join, arith, Bool-cases, ok,
}
use termethis.Page.{Outcome, Page, PointerEvent, done, perform}
use mathlib.Core.Path.{subst}
use termethis.Base.Int.{
  pos, negsuc, sub_ℕ, Whole, fin, pos_inf, neg_inf, nan, max_whole, min_whole, ltb_whole, whole_eq,
}
use termethis.Browser.{Browser, Call}

-- What an arrow key does to the cursor of a line editor.
abbrev pub moved : Text → ℕ → ℕ
moved key n = if text_eq key left_key then n - 1 else if text_eq key right_key then n + 1 else n

-- Where the cursor ends that starts at a column and reads keys of three units each.
abbrev pub walk : Text → ℕ → ℕ
walk (e ∷ o ∷ k ∷ ks) n = walk ks (moved (e ∷ o ∷ k ∷ []) n)
walk _ n = n

walk_left : (k n : ℕ) → walk (join (replicate k left_key)) n ≡ n - k
walk_left zero n = omega arith
walk_left (suc k) n = walk_left k (n - 1) ∙ omega arith

walk_right : (k n : ℕ) → walk (join (replicate k right_key)) n ≡ n + k
walk_right zero n = omega arith
walk_right (suc k) n = walk_right k (n + 1) ∙ omega arith

-- The keys that a difference of columns stands for.
abbrev pub keys_for : ℕ → ℕ → Text
keys_for t c =
    if ltb t c then join (replicate (c - t) left_key) else join (replicate (t - c) right_key)

walk-keys_for : (t c : ℕ) → walk (keys_for t c) c ≡ t
walk-keys_for t c =
    if_elim (λ (k : Text). walk k c ≡ t) (ltb t c) (λ left. walk_left (c - t) c ∙ ground arith)
      (λ right. walk_right (t - c) c ∙ ground arith)

last : (n : ℕ) → 0 < n → sub_ℕ n 1 ≡ pos (n - 1)
last n h = ground arith

max_zero : (x : ℕ) → max_whole (pos 0) (fin (pos x)) ≡ fin (pos x)
max_zero x = ground arith

max_negative : (x : ℕ) → max_whole (pos 0) (fin (negsuc x)) ≡ fin (pos 0)
max_negative x = ground arith

min_negative : (n x : ℕ) → min_whole (pos (n - 1)) (fin (negsuc x)) ≡ fin (negsuc x)
min_negative n x = ground arith

-- The column of a line of `n` nearest to a rounded number.
abbrev pub IsNearest : ℕ → Whole → ℕ → Type 0
IsNearest n (fin (pos x)) t = (x < n → t ≡ x) × (n ≤ x → t + 1 ≡ n)
IsNearest n (fin (negsuc x)) t = t ≡ 0
IsNearest n pos_inf t = t + 1 ≡ n
IsNearest n neg_inf t = t ≡ 0
IsNearest n nan t = ⊥

-- The target column: the nearest on the line, or NaN where the cells have no width.
clamped :
    (n : ℕ) (w : Whole)
    → 0 < n
    → ((w ≡ nan) × (max_whole (pos 0) (min_whole (pos (n - 1)) w) ≡ nan))
      ⊎ ((t : ℕ) × IsNearest n w t × (max_whole (pos 0) (min_whole (pos (n - 1)) w) ≡ fin (pos t)))
clamped n (fin (pos x)) h = elim (Bool-cases (ltb (x + 0) (n - 1 + 0))) [
  | inl less ↦
      let le = ltb→lt (x + 0) (n - 1 + 0) less in
      inr (x, (λ g. refl, λ g. absurd (omega arith)), rw less (max_zero x))
  | inr more ↦
      let le = ltb→le (x + 0) (n - 1 + 0) more in
      inr (n - 1, (λ g. omega arith, λ g. omega arith), rw more (max_zero (n - 1)))
]
clamped n (fin (negsuc x)) h =
    inr (0, refl, ap (max_whole (pos 0)) (min_negative n x) ∙ max_negative x)
clamped n pos_inf h = inr (n - 1, omega arith, max_zero (n - 1))
clamped n neg_inf h = inr (0, refl, refl)
clamped n nan h = inl (refl, refl)

whole_eq_same : (n : ℕ) → whole_eq (fin (pos n)) n ≡ true
whole_eq_same n = ground arith

whole_eq_fin : (w : Whole) (n : ℕ) → whole_eq w n ≡ true → w ≡ fin (pos n)
whole_eq_fin (fin (pos x)) n h = ap (λ k. fin (pos k)) (ground arith)
whole_eq_fin (fin (negsuc x)) n h = absurd (ground arith)
whole_eq_fin pos_inf n h = let no : false ≡ true = h in cc
whole_eq_fin neg_inf n h = let no : false ≡ true = h in cc
whole_eq_fin nan n h = let no : false ≡ true = h in cc

whole_eq-sub : (t c : ℕ) → whole_eq (fin (sub_ℕ t c)) 0 ≡ (t == c)
whole_eq-sub t c = ground arith

ltb_whole-sub : (t c : ℕ) → ltb_whole (fin (sub_ℕ t c)) (fin (pos 0)) ≡ ltb t c
ltb_whole-sub t c = ground arith

repeat_count-sub :
    (t c : ℕ) → repeat_count (fin (sub_ℕ t c)) ≡ ok (if ltb t c then c - t else t - c)
repeat_count-sub t c = ground arith

sub_fin : (t c : ℕ) → sub_whole (fin (pos t)) c ≡ fin (sub_ℕ t c)
sub_fin t c = ap (λ m. fin (sub_ℕ t m)) (omega arith)

keys_for_lem :
    (left : Bool) (m n : ℕ)
    → join (replicate (if left then m else n) (if left then left_key else right_key))
      ≡ (if left then join (replicate m left_key) else join (replicate n right_key))
keys_for_lem true m n = refl
keys_for_lem false m n = refl

module _ ⦃b : Browser⦄ where
  move_by_count :
      (delta : Whole) (n : ℕ) (left stays : Bool) (p : Page b)
      → whole_eq delta 0 ≡ stays
      → repeat_count delta ≡ ok n
      → ltb_whole delta (fin (pos 0)) ≡ left
      → move_by delta p ≡ (
          if stays
          then done p
          else perform
              (Call.input (join (replicate n (if left then left_key else right_key))) true)
              p)
  unfolding move_by
  move_by_count delta n left stays p hs hn hl = rw (hs, hn, hl, move_by) refl

  -- The keys are those of the difference.
  move_by-keys_for :
      (t c : ℕ) (p : Page b)
      → move_by (fin (sub_ℕ t c)) p
        ≡ (if t == c then done p else perform (Call.input (keys_for t c) true) p)
  move_by-keys_for t c p =
      move_by_count (fin (sub_ℕ t c)) _ _ _ p (whole_eq-sub t c) (repeat_count-sub t c)
        (ltb_whole-sub t c)
      ∙ ap (λ k. if t == c then done p else perform (Call.input k true) p)
          (keys_for_lem (ltb t c) (c - t) (t - c))

  -- The row and the column of the screen where the pointer is, by the box of the terminal.
  abbrev pub row_at : PointerEvent b.F → Page b → Whole
  row_at event p = b.floor (
      b.div (b.sub event.client_y (b.rect_top p.screen))
        (b.div (b.rect_height p.screen) (b.of_nat (b.rows p.screen))))

  abbrev pub column_at : PointerEvent b.F → Page b → Whole
  column_at event p = b.floor (
      b.div (b.sub event.client_x (b.rect_left p.screen))
        (b.div (b.rect_width p.screen) (b.of_nat (b.cols p.screen))))

  -- The setting is on, the shell waits at a prompt, and the pointer is on the row of the cursor.
  pub record IsOnPrompt (event : PointerEvent b.F) (p : Page b) : Type 0 where
    pub enabled : p.interaction.tap_to_move_prompt_cursor ≡ true
    pub active : p.prompt.prompt_active ≡ true
    pub on_row : row_at event p ≡ fin (pos (b.cursor_y p.screen))

  -- What a tap does: on a prompt, keys that take the cursor to the nearest column, none if it is
  -- there; a text without keys if the column is no number; elsewhere a click, if the program reads
  -- the mouse.
  pub data TapDoes (event : PointerEvent b.F) (p : Page b) : Outcome b → Type 0 where
    types :
        (t : ℕ) (keys : Text)
        → IsOnPrompt event p
        → IsNearest (b.cols p.screen) (column_at event p) t
        → t ≢ b.cursor_x p.screen
        → walk keys (b.cursor_x p.screen) ≡ t
        → TapDoes event p (perform (Call.input keys true) p)
    stays :
        IsOnPrompt event p
        → IsNearest (b.cols p.screen) (column_at event p) (b.cursor_x p.screen)
        → TapDoes event p (done p)
    types_nothing :
        IsOnPrompt event p
        → column_at event p ≡ nan
        → TapDoes event p (perform (Call.input [] true) p)
    clicks :
        ¬ IsOnPrompt event p
        → p.interaction.mouse_input ≡ true
        → TapDoes event p (dispatch_mouse event 0 p)
    ignores : ¬ IsOnPrompt event p → p.interaction.mouse_input ≡ false → TapDoes event p (done p)

  -- The test of movePromptCursor.
  prompt_delta-cases :
      (event : PointerEvent b.F) (p : Page b)
      → ((¬ IsOnPrompt event p) × (prompt_delta event p ≡ none))
        ⊎ (IsOnPrompt event p
            × (prompt_delta event p
                ≡ some (
                    sub_whole
                      (max_whole
                        (pos 0)
                        (min_whole (sub_ℕ (b.cols p.screen) 1) (column_at event p)))
                      (b.cursor_x p.screen))))
  unfolding prompt_delta
  prompt_delta-cases event p = elim (Bool-cases p.interaction.tap_to_move_prompt_cursor) [
    | inr e ↦ inl (λ h. let on = h.enabled in cc, rw e refl)
    | inl e ↦ elim (Bool-cases p.prompt.prompt_active) [
      | inr f ↦ inl (λ h. let on = h.active in cc, rw (e, f) refl)
      | inl f ↦ elim (Bool-cases (whole_eq (row_at event p) (b.cursor_y p.screen))) [
        | inr g ↦ inl (
          λ h.
              let met =
                ap (λ w. whole_eq w (b.cursor_y p.screen)) h.on_row
                ∙ whole_eq_same (b.cursor_y p.screen) in
              cc,
          rw (e, f, g) refl,
        )
        | inl g ↦ inr (
          record {
            enabled = e;
            active = f;
            on_row = whole_eq_fin (row_at event p) (b.cursor_y p.screen) g;
          },
          rw (e, f, g) refl,
        )
      ]
    ]
  ]

  -- The keys for a target column.
  moves-TapDoes :
      (event : PointerEvent b.F) (p : Page b) (t : ℕ)
      → IsOnPrompt event p
      → IsNearest (b.cols p.screen) (column_at event p) t
      → TapDoes event p (move_by (fin (sub_ℕ t (b.cursor_x p.screen))) p)
  moves-TapDoes event p t on near =
      let c = b.cursor_x p.screen in
      rw (move_by-keys_for t c p) (elim (Bool-cases (t == c)) [
        | inl e ↦ rw e (
            stays on
              (subst (IsNearest (b.cols p.screen) (column_at event p)) ((==_iff t c).0 e) near))
        | inr e ↦ rw e (
            types t (keys_for t c) on near (λ q. let met = (==_iff t c).1 q in cc)
              (walk-keys_for t c))
      ])

  nan-TapDoes :
      (event : PointerEvent b.F) (p : Page b)
      → IsOnPrompt event p
      → column_at event p ≡ nan
      → TapDoes event p (move_by nan p)
  unfolding move_by
  nan-TapDoes event p on bad = types_nothing on bad

  -- On a terminal with at least one column, a tap does one of these. With the setting on, while the
  -- shell waits at a prompt, and on the row of the cursor: it types nothing if the cursor is in the
  -- column nearest to the pointer, and else arrow keys that take it there; it types an empty text
  -- if the column is no number. Otherwise it is a click of the left button if the mouse is for the
  -- program, and nothing if not.
  pub tap-TapDoes :
      (event : PointerEvent b.F) (p : Page b) → 0 < b.cols p.screen → TapDoes event p (tap event p)
  unfolding tap
  tap-TapDoes event p h =
      let c = b.cursor_x p.screen in
      let n = b.cols p.screen in
      let column = column_at event p in
      elim (prompt_delta-cases event p) [
        | inl (off, e) ↦
            rw (e, tap)
              (if_elim (TapDoes event p) p.interaction.mouse_input (λ m. clicks off m)
                (λ m. ignores off m))
        | inr (on, e) ↦
            let within = ap (λ z. max_whole (pos 0) (min_whole z column)) (last n h) in
            elim (clamped n column h) [
              | inl (absent, bad) ↦
                  rw (e, tap, ap (λ w. sub_whole w c) (within ∙ bad))
                    (nan-TapDoes event p on absent)
              | inr (t, near, good) ↦
                  rw (e, tap, ap (λ w. sub_whole w c) (within ∙ good) ∙ sub_fin t c)
                    (moves-TapDoes event p t on near)
            ]
      ]
