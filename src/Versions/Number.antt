-- ===== src/Versions/Number.antt =====
-- versions.py: `version_name`, `parse`, `latest`, `by_number`, `highest`, `bump`, `candidates`,
-- `automatic_level`. What is proved of them stands in the modules below.
pub mod RoundTrip
pub mod Latest
pub mod Next
pub mod ByNumber
pub mod Owner
use Prim.Native.Nat.{compare}
use ha_dashboard_history.Base.{
  ℕ, zero, suc, ◌+◌, Bool, true, false, ◌&&◌, ◌||◌, not, List, [], ◌∷◌, ◌++◌, map, Option, none,
  some, Text, codes, after_prefix, ltb, leb, eqb, if◌then◌else◌, insert_sorted, sort_by, ◌≡◌, refl,
  arith,
}
use ha_dashboard_history.Versions.Digits.{show, take_number}

-- `tuple[int, int, int]`; the program makes these from digits alone.
abbrev pub Parts : Type 0
Parts = ℕ × ℕ × ℕ

-- `<` on such tuples.
unfoldable pub parts_lt : Parts → Parts → Bool
parts_lt (a, b, c) (x, y, z) = ltb a x || (eqb a x && (ltb b y || (eqb b y && ltb c z)))

pub data Level : Type 0 where
  patch minor major : Level

-- `f"{key}/v{major}.{minor}.{patch}"`
unfoldable pub version_name : Text → Parts → Text
version_name key (a, b, c) = key ++ (codes "/v" ++ (show a ++ (b'.' ∷ (show b ++ (b'.' ∷ show c)))))

-- `$` of a pattern: at the end, or before a newline that ends the text.
unfoldable pub at_end : Text → Bool
at_end [] = true
at_end (c ∷ []) = eqb c b'\n'
at_end _ = false

-- One literal character of a pattern.
unfoldable pub take_char : ℕ → Text → Option Text
take_char k [] = none
take_char k (c ∷ s) = if eqb c k then some s else none

unfoldable pub finish : ℕ → ℕ → ℕ × Text → Option Parts
unfolding at_end
finish a b (c, s) = if at_end s then some (a, b, c) else none

infixl 5 ◌>>=◌
abbrev pub ◌>>=◌ {ℓ κ} : {A : Type ℓ} {B : Type κ} → Option A → (A → Option B) → Option B
none >>= f = none
some a >>= f = f a

-- `_NUMBERS.match`, with the three groups as numbers.
unfoldable pub match_numbers : Text → Option Parts
unfolding take_char finish
match_numbers s = do
  s ← take_char b'v' s
  (a, s) ← take_number s
  s ← take_char b'.' s
  (b, s) ← take_number s
  s ← take_char b'.' s
  last ← take_number s
  finish a b last

-- The numbers in a tag name, if it is one of this dashboard's.
unfoldable pub parse : Text → Text → Option Parts
parse key name = do rest ← after_prefix (key ++ codes "/") name; match_numbers rest

-- `max` of the versions seen so far, the first of equal ones.
unfoldable pub max_parts : Option Parts → Option Parts → Option Parts
unfolding parts_lt
max_parts best none = best
max_parts none (some p) = some p
max_parts (some q) (some p) = if parts_lt q p then some p else some q

-- `latest`: the loop of `max` over the names that parse.
latest_from : Text → Option Parts → List Text → Option Parts
unfolding parse max_parts
latest_from key best [] = best
latest_from key best (name ∷ names) = latest_from key (max_parts best (parse key name)) names

unfoldable pub latest : Text → List Text → Option Parts
unfolding latest_from
latest key names = latest_from key none names

unfoldable pub bump : Parts → Level → Parts
bump (a, b, c) major = (a + 1, 0, 0)
bump (a, b, c) minor = (a, b + 1, 0)
bump (a, b, c) patch = (a, b, c + 1)

-- `base = current or (0, 0, 0)`
abbrev pub base_of : Option Parts → Parts
base_of none = (0, 0, 0)
base_of (some p) = p

-- The dict that `candidates` returns: one name for each level, and the current one.
pub record Candidates : Type 0 where
  pub at_level : Level → Text
  pub current : Option Text

unfoldable pub candidates : Text → List Text → Candidates
unfolding latest bump version_name
candidates key names =
    let current = latest key names in
    record {
      at_level = λ level. version_name key (bump (base_of current) level);
      current = elim current [ none ↦ none | some p ↦ some (version_name key p) ];
    }

unfoldable pub automatic_level : Text → List Text → Level
unfolding latest
automatic_level key names = elim (latest key names) [ none ↦ major | some _ ↦ patch ]

-- `parse(key, v.name) or (-1, -1, -1)` as a key to sort by: below every number where there is none.
unfoldable pub number_lt : Option Parts → Option Parts → Bool
unfolding parts_lt
number_lt none none = false
number_lt none (some q) = true
number_lt (some p) none = false
number_lt (some p) (some q) = parts_lt p q

-- The state of `max(numbered, key=…)`: the first element with the highest number so far.
better : {V : Type 0} → Option (Parts × V) → Option Parts → V → Option (Parts × V)
unfolding parts_lt
better best none w = best
better none (some q) w = some (q, w)
better (some (p, v)) (some q) w = if parts_lt p q then some (q, w) else some (p, v)

-- `[1] if numbered else None`
abbrev version_of : {V : Type 0} → Option (Parts × V) → Option V
version_of none = none
version_of (some (p, v)) = some v

-- `by_number` and `highest` take anything that carries a name.
module _ {V : Type 0} (name_of : V → Text) where
  abbrev pub higher_number : Text → V → V → Bool
  higher_number key v w = number_lt (parse key (name_of w)) (parse key (name_of v))

  -- `sorted(versions, key=…, reverse=True)`, which keeps the order of equal elements.
  unfoldable pub by_number : Text → List V → List V
  unfolding number_lt parse sort_by
  by_number key = sort_by (higher_number key)

  highest_from : Text → Option (Parts × V) → List V → Option (Parts × V)
  unfolding parse better
  highest_from key best [] = best
  highest_from key best (w ∷ ws) = highest_from key (better best (parse key (name_of w)) w) ws

  unfoldable pub highest : Text → List V → Option V
  unfolding highest_from
  highest key versions = version_of (highest_from key none versions)
