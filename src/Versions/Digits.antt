-- ===== src/Versions/Digits.antt =====
-- How Python prints a number and reads one back: `str`, `int`, and `0|[1-9]\d*` of a regex.
use ha_dashboard_history.Base.{
  ℕ, zero, suc, ◌+◌, ◌-◌, ◌*◌, ◌/◌, ◌%◌, ◌≤◌, ◌<◌, ◌≡◌, refl, ◌&&◌, List, [], ◌∷◌, ◌++◌, Option,
  none, some, Text, codes, arith, leb, ltb, eqb, if◌then◌else◌, Bool-cases, inl, inr, ap, sym, ◌∙◌,
}

-- The zeros of the decimal digits of Unicode (category Nd): `\d` matches each zero and the nine
-- code points behind it, and `int` reads them as 0 to 9.
abbrev zeros : List ℕ
zeros =
    0x30 ∷ 0x660 ∷ 0x6f0 ∷ 0x7c0 ∷ 0x966 ∷ 0x9e6 ∷ 0xa66 ∷ 0xae6 ∷ 0xb66 ∷ 0xbe6 ∷ 0xc66 ∷ 0xce6
    ∷ 0xd66 ∷ 0xde6 ∷ 0xe50 ∷ 0xed0 ∷ 0xf20 ∷ 0x1040 ∷ 0x1090 ∷ 0x17e0 ∷ 0x1810 ∷ 0x1946 ∷ 0x19d0
    ∷ 0x1a80 ∷ 0x1a90 ∷ 0x1b50 ∷ 0x1bb0 ∷ 0x1c40 ∷ 0x1c50 ∷ 0xa620 ∷ 0xa8d0 ∷ 0xa900 ∷ 0xa9d0
    ∷ 0xa9f0 ∷ 0xaa50 ∷ 0xabf0 ∷ 0xff10 ∷ 0x104a0 ∷ 0x10d30 ∷ 0x11066 ∷ 0x110f0 ∷ 0x11136 ∷ 0x111d0
    ∷ 0x112f0 ∷ 0x11450 ∷ 0x114d0 ∷ 0x11650 ∷ 0x116c0 ∷ 0x11730 ∷ 0x118e0 ∷ 0x11950 ∷ 0x11c50
    ∷ 0x11d50 ∷ 0x11da0 ∷ 0x11f50 ∷ 0x16a60 ∷ 0x16ac0 ∷ 0x16b50 ∷ 0x1d7ce ∷ 0x1d7d8 ∷ 0x1d7e2
    ∷ 0x1d7ec ∷ 0x1d7f6 ∷ 0x1e140 ∷ 0x1e2f0 ∷ 0x1e4f0 ∷ 0x1e950 ∷ 0x1fbf0 ∷ []

find_digit : List ℕ → ℕ → Option ℕ
find_digit [] c = none
find_digit (z ∷ zs) c = if leb z c && leb c (z + 9) then some (c - z) else find_digit zs c

-- The value of a character that `\d` matches.
unfoldable pub digit : ℕ → Option ℕ
unfolding find_digit
digit c = find_digit zeros c

-- `\d*`, and the number that its digits continue.
unfoldable pub take_digits : ℕ → Text → ℕ × Text
unfolding digit
take_digits n [] = (n, [])
take_digits n (c ∷ s) = elim (digit c) [ none ↦ (n, c ∷ s) | some d ↦ take_digits (n * 10 + d) s ]

-- `(0|[1-9]\d*)` and `int` of the group. What follows in the pattern is never a digit, so the
-- greedy match is the only one.
unfoldable pub take_number : Text → Option (ℕ × Text)
take_number [] = none
take_number (c ∷ s) =
    if eqb c b'0'
    then some (0, s)
    else if leb b'1' c && leb c b'9'
    then some (take_digits (c - b'0') s)
    else none

-- The digits of a number in front of a text; the fuel is a bound on how many there are.
unfoldable pub digits : ℕ → ℕ → Text → Text
digits zero n s = s
digits (suc fuel) n s =
    let rest = digits fuel (n / 10) ((b'0' + n % 10) ∷ s) in
    if ltb n 10 then (b'0' + n) ∷ s else rest

-- `str(n)` in front of a text.
unfoldable pub show_before : ℕ → Text → Text
unfolding digits
show_before n s = digits (suc n) n s

unfoldable pub show : ℕ → Text
unfolding show_before
show n = show_before n []

show_runs : (show 0 ≡ codes "0") × (show 2026 ≡ codes "2026")
unfolding show
show_runs = (refl, refl)

-- A digit of ASCII is found in the first row.
digit_ascii : (d : ℕ) → d ≤ 9 → digit (b'0' + d) ≡ some d
unfolding digit
digit_ascii d h = ground arith

-- What can follow a number in a name that `parse` is to read: no digit.
abbrev pub EndsNumber : Text → Type 0
EndsNumber [] = Unit
EndsNumber (c ∷ s) = digit c ≡ none

take_digits_end : (n : ℕ) (s : Text) → EndsNumber s → take_digits n s ≡ (n, s)
unfolding take_digits
take_digits_end n [] h = refl
take_digits_end n (c ∷ s) h = rw (h, take_digits)

take_digits-digit :
    (n : ℕ) (s : Text) → take_digits (n / 10) ((b'0' + n % 10) ∷ s) ≡ take_digits n s
unfolding take_digits
take_digits-digit n s =
    let e : n / 10 * 10 + n % 10 ≡ n = omega arith in
    rw (digit_ascii (n % 10) (omega arith), take_digits) (rw e)

-- More digits in front are read before what stands behind them.
take_number-digits :
    (fuel n : ℕ) (s : Text)
    → n < fuel
    → 0 < n
    → take_number (digits fuel n s) ≡ some (take_digits n s)
unfolding digits take_number
take_number-digits zero n s h pos = absurd (omega arith)
take_number-digits (suc fuel) n s h pos = elim (Bool-cases (ltb n 10)) [
  | inl small ↦
      let e : b'0' + n - b'0' ≡ n = omega arith in
      rw small (ground (arith, ap (λ k. some (take_digits k s)) e))
  | inr large ↦ rw large (
      take_number-digits fuel (n / 10) _ (ground arith) (ground arith)
      ∙ ap some (take_digits-digit n s))
]

-- `int` reads what `str` printed, up to the end of the number.
pub take_number-show :
    (n : ℕ) (s : Text) → EndsNumber s → take_number (show_before n s) ≡ some (n, s)
unfolding show_before
take_number-show zero s h = unfold digits take_number in refl
take_number-show (suc n) s h =
    take_number-digits (suc (suc n)) (suc n) s (omega arith) (omega arith)
    ∙ ap some (take_digits_end (suc n) s h)

digits-append : (fuel n : ℕ) (s t : Text) → digits fuel n (s ++ t) ≡ digits fuel n s ++ t
unfolding digits
digits-append zero n s t = refl
digits-append (suc fuel) n s t = ground (arith, digits-append fuel (n / 10) ((b'0' + n % 10) ∷ s) t)

pub take_number-show-append :
    (n : ℕ) (s : Text) → EndsNumber s → take_number (show n ++ s) ≡ some (n, s)
unfolding show show_before
take_number-show-append n s h =
    ap take_number (sym (digits-append (suc n) n [] s)) ∙ take_number-show n s h
