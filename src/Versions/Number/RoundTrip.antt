-- ===== src/Versions/Number/RoundTrip.antt =====
-- What `parse` makes of the names that `version_name` builds.
use ha_dashboard_history.Base.{
  ℕ, ◌≡◌, refl, [], ◌∷◌, ◌++◌, none, some, Text, true, ap, sym, ◌∙◌, after_prefix,
  after_prefix-append-append,
}
use mathlib.Core.List.{append_assoc, append-nil}
use ha_dashboard_history.Versions.Digits.{
  show, take_number, take_number-show-append, EndsNumber, digit,
}
use ha_dashboard_history.Versions.Number.{Parts, version_name, parse, match_numbers, at_end}

point : digit b'.' ≡ none
unfolding digit
point = refl

number_and_point : (n : ℕ) (s : Text) → take_number (show n ++ (b'.' ∷ s)) ≡ some (n, b'.' ∷ s)
number_and_point n s = take_number-show-append n (b'.' ∷ s) point

-- The three numbers, with a text behind them at which the pattern ends.
match_numbers-show :
    (a b c : ℕ) (t : Text)
    → EndsNumber t
    → at_end t ≡ true
    → match_numbers (b'v' ∷ (show a ++ (b'.' ∷ (show b ++ (b'.' ∷ (show c ++ t))))))
      ≡ some (a, b, c)
unfolding match_numbers
match_numbers-show a b c t h e = simp (number_and_point, take_number-show-append c t h, e)

parse-show :
    (key : Text) (a b c : ℕ) (t : Text)
    → EndsNumber t
    → at_end t ≡ true
    → parse key (version_name key (a, b, c) ++ t) ≡ some (a, b, c)
unfolding parse version_name
parse-show key a b c t h e =
    simp (append_assoc, after_prefix-append-append)
      (unfold after_prefix in match_numbers-show a b c t h e)

-- A name that `version_name` built is read back as the numbers it was built from.
pub parse-version_name : (key : Text) (p : Parts) → parse key (version_name key p) ≡ some p
unfolding at_end
parse-version_name key p =
    ap (parse key) (sym (append-nil (version_name key p))) ∙ parse-show key p.0 p.1 p.2 [] tt refl

-- `$` lets a newline pass: the same name with one behind it reads as the same version.
pub parse-version_name-newline :
    (key : Text) (p : Parts) → parse key (version_name key p ++ b'\n' ∷ []) ≡ some p
unfolding at_end digit
parse-version_name-newline key p = parse-show key p.0 p.1 p.2 (b'\n' ∷ []) refl refl
