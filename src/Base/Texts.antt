-- ===== src/Base/Texts.antt =====
-- Python's `str`: the list of its code points, with the operations that the program uses.
use Prim.Native.Nat.{ℕ}
use Prim.Native.Char.{code}
use Prim.Native.String.{String}
use mathlib.Core.Path.{◌≡◌, refl}
use mathlib.Core.Bool.{Bool, true, false, ◌&&◌, ◌||◌}
use mathlib.Core.List.{List, [], ◌∷◌, ◌++◌}
use mathlib.Core.Option.{Option, none, some}
use native.Mathlib.Omega.{arith}
use ha_dashboard_history.Base.Tests.{ltb, leb, eqb, if◌then◌else◌}

abbrev pub Text : Type 0
Text = List ℕ

abbrev pub codes : String → Text
codes String.[] = []
codes (String.◌∷◌ c s) = code c ∷ codes s

-- `<` on `str`: by code points, the shorter first.
unfoldable pub text_lt : Text → Text → Bool
text_lt s [] = false
text_lt [] (d ∷ t) = true
text_lt (c ∷ s) (d ∷ t) = if eqb c d then text_lt s t else ltb c d

-- `s[len(prefix):]` if `s` starts with the prefix.
unfoldable pub after_prefix : Text → Text → Option Text
after_prefix [] s = some s
after_prefix (c ∷ p) [] = none
after_prefix (c ∷ p) (d ∷ s) = if eqb c d then after_prefix p s else none

pub after_prefix-append : (p s : Text) → after_prefix p (p ++ s) ≡ some s
unfolding after_prefix
after_prefix-append [] s = refl
after_prefix-append (c ∷ p) s = ground (arith, after_prefix-append p s)

pub after_prefix_sound : (p s t : Text) → after_prefix p s ≡ some t → s ≡ p ++ t
unfolding after_prefix
after_prefix_sound [] s t h = ground arith
after_prefix_sound (c ∷ p) [] t h = ground arith
after_prefix_sound (c ∷ p) (d ∷ s) t h = ground (arith, after_prefix_sound p s t)

pub after_prefix-append-append : (p q s : Text) → after_prefix (p ++ q) (p ++ s) ≡ after_prefix q s
unfolding after_prefix
after_prefix-append-append [] q s = refl
after_prefix-append-append (c ∷ p) q s = ground (arith, after_prefix-append-append p q s)

-- `str.isspace` of one character.
unfoldable pub is_space : ℕ → Bool
is_space c =
    (leb 9 c && leb c 13)
    || (leb 28 c && leb c 32)
    || eqb c 0x85
    || eqb c 0xa0
    || eqb c 0x1680
    || (leb 0x2000 c && leb c 0x200a)
    || eqb c 0x2028
    || eqb c 0x2029
    || eqb c 0x202f
    || eqb c 0x205f
    || eqb c 0x3000

abbrev pub is_nil {ℓ} : {A : Type ℓ} → List A → Bool
is_nil [] = true
is_nil (x ∷ xs) = false

unfoldable pub lstrip : Text → Text
lstrip [] = []
lstrip (c ∷ s) = if is_space c then lstrip s else c ∷ s

-- A space goes where nothing but spaces stands behind it.
unfoldable pub rstrip : Text → Text
rstrip [] = []
rstrip (c ∷ s) = let r = rstrip s in if is_nil r && is_space c then [] else c ∷ r

unfoldable pub strip : Text → Text
unfolding lstrip rstrip
strip s = lstrip (rstrip s)

-- `str.partition` at one character: what stands before it, and behind it.
unfoldable pub partition_at : ℕ → Text → Text × Text
partition_at k [] = ([], [])
partition_at k (c ∷ s) =
    let (before, behind) = partition_at k s in if eqb c k then ([], s) else (c ∷ before, behind)

pub rstrip_idem : (s : Text) → rstrip (rstrip s) ≡ rstrip s
unfolding rstrip
rstrip_idem [] = refl
rstrip_idem (c ∷ s) = ground (arith, rstrip_idem s)

pub rstrip-append_blank : (p s : Text) → rstrip s ≡ [] → rstrip (p ++ s) ≡ rstrip p
unfolding rstrip
rstrip-append_blank [] s h = h
rstrip-append_blank (c ∷ p) s h = ground (arith, rstrip-append_blank p s h)

is_nil-append_cons : (p : Text) (x : ℕ) (r : Text) → is_nil (p ++ (x ∷ r)) ≡ false
is_nil-append_cons [] x r = refl
is_nil-append_cons (c ∷ p) x r = refl

pub rstrip-append_cons :
    (p s : Text) (x : ℕ) (r : Text) → rstrip s ≡ x ∷ r → rstrip (p ++ s) ≡ p ++ (x ∷ r)
unfolding rstrip
rstrip-append_cons [] s x r h = h
rstrip-append_cons (c ∷ p) s x r h =
    ground (arith, rstrip-append_cons p s x r h, is_nil-append_cons p x r)
