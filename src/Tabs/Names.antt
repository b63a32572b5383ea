-- ===== src/Tabs/Names.antt =====
-- The ids that _nextTabId makes are different for different times or numbers.
use termethis.Base.{
  ℕ, zero, suc, ◌+◌, ◌-◌, ◌*◌, ◌/◌, ◌%◌, ◌<◌, ◌≡◌, inl, inr, refl, sym, ap, ◌∙◌, false, [], ◌∷◌,
  ◌++◌, ◌==◌, ltb, ltb→lt, ltb→le, if◌then◌else◌, Text, codes, decimal, digits_of, append_assoc,
  All, Bool-cases, if_elim, arith,
}
use termethis.Tabs.{tab_id}

-- The number that digits stand for, behind a number.
abbrev read_digits : ℕ → Text → ℕ
read_digits v [] = v
read_digits v (c ∷ cs) = read_digits (v * 10 + (c - 48)) cs

read_digits-digits_of :
    (fuel n : ℕ) (acc : Text) → n < fuel → read_digits 0 (digits_of fuel n acc) ≡ read_digits n acc
unfolding digits_of
read_digits-digits_of zero n acc h = absurd (omega arith)
read_digits-digits_of (suc fuel) n acc h = elim (Bool-cases (ltb n 10)) [
  | inl e ↦ let small = ltb→lt n 10 e in rw e (ap (λ m. read_digits m acc) (omega arith))
  | inr e ↦
      let large = ltb→le n 10 e in
      rw e (
        read_digits-digits_of fuel (n / 10) ((48 + n % 10) ∷ acc) (omega arith)
        ∙ ap (λ m. read_digits m acc) (omega arith))
]

read_digits-decimal : (n : ℕ) → read_digits 0 (decimal n) ≡ n
unfolding decimal
read_digits-decimal n = read_digits-digits_of (suc n) n [] (omega arith)

-- No unit is a hyphen.
abbrev HasNoHyphen : Text → Type 0
HasNoHyphen t = All (λ c. (c == b'-') ≡ false) t

digits_of-HasNoHyphen :
    (fuel n : ℕ) (acc : Text) → HasNoHyphen acc → HasNoHyphen (digits_of fuel n acc)
unfolding digits_of
digits_of-HasNoHyphen zero n acc h = h
digits_of-HasNoHyphen (suc fuel) n acc h =
    let digit : ((48 + n % 10) == b'-') ≡ false = ground arith in
    if_elim HasNoHyphen (ltb n 10) (λ e. (digit, h))
      (λ e. digits_of-HasNoHyphen fuel (n / 10) ((48 + n % 10) ∷ acc) (digit, h))

decimal-HasNoHyphen : (n : ℕ) → HasNoHyphen (decimal n)
unfolding decimal
decimal-HasNoHyphen n = digits_of-HasNoHyphen (suc n) n [] tt

abbrev before_hyphen : Text → Text
before_hyphen [] = []
before_hyphen (c ∷ cs) = if c == b'-' then [] else c ∷ before_hyphen cs

abbrev behind_hyphen : Text → Text
behind_hyphen [] = []
behind_hyphen (c ∷ cs) = if c == b'-' then cs else behind_hyphen cs

before_hyphen-append : (m r : Text) → HasNoHyphen m → before_hyphen (m ++ b'-' ∷ r) ≡ m
before_hyphen-append [] r h = refl
before_hyphen-append (c ∷ cs) r h = rw h.0 (ap (λ t. c ∷ t) (before_hyphen-append cs r h.1))

behind_hyphen-append : (m r : Text) → HasNoHyphen m → behind_hyphen (m ++ b'-' ∷ r) ≡ r
behind_hyphen-append [] r h = refl
behind_hyphen-append (c ∷ cs) r h = rw h.0 (behind_hyphen-append cs r h.1)

tab_id_lem : (now sequence : ℕ) → tab_id now sequence ≡ decimal now ++ b'-' ∷ decimal sequence
tab_id_lem now sequence = append_assoc (decimal now) (codes "-") (decimal sequence)

tab_id-before : (s q : ℕ) → read_digits 0 (before_hyphen (tab_id s q)) ≡ s
tab_id-before s q =
    ap (λ t. read_digits 0 (before_hyphen t)) (tab_id_lem s q)
    ∙ ap (read_digits 0) (before_hyphen-append (decimal s) (decimal q) (decimal-HasNoHyphen s))
    ∙ read_digits-decimal s

tab_id-behind : (s q : ℕ) → read_digits 0 (behind_hyphen (tab_id s q)) ≡ q
tab_id-behind s q =
    ap (λ t. read_digits 0 (behind_hyphen t)) (tab_id_lem s q)
    ∙ ap (read_digits 0) (behind_hyphen-append (decimal s) (decimal q) (decimal-HasNoHyphen s))
    ∙ read_digits-decimal q

pub tab_id_inj : (s q s' q' : ℕ) → tab_id s q ≡ tab_id s' q' → (s ≡ s') × (q ≡ q')
tab_id_inj s q s' q' e = (
  sym (tab_id-before s q) ∙ ap (λ t. read_digits 0 (before_hyphen t)) e ∙ tab_id-before s' q',
  sym (tab_id-behind s q) ∙ ap (λ t. read_digits 0 (behind_hyphen t)) e ∙ tab_id-behind s' q',
)
