-- ===== src/Keys.antt =====
-- keys.py: which dashboard is which, and which one is gone. A set of keys is the list of its elements.
pub mod Gone
pub mod Sorted
use ha_dashboard_history.Base.{
  ℕ, Bool, true, false, not, ◌&&◌, ◌||◌, List, [], ◌∷◌, ◌++◌, Option, none, some, Text, codes,
  is_nil, contains, ltb, eqb, leb, ◌==◌, list_eq, nat_eq, if◌then◌else◌, sort_by, text_lt,
}
use ha_dashboard_history.Value.{Value, str, Fields, get_or_null, truthy}

-- `_STORAGE_KEY_TEMPLATE.format`, of an id that is a text.
unfoldable pub storage_key : Text → Text
storage_key identifier = codes "lovelace." ++ identifier

-- One dashboard of Home Assistant's list; its ids are texts, an empty or missing one is passed over.
unfoldable pub key_pair : Value → Value → Option (Text × Text)
unfolding storage_key
key_pair (str (c ∷ url_path)) (str (d ∷ identifier)) =
    some (c ∷ url_path, storage_key (d ∷ identifier))
key_pair _ _ = none

pairs_of : List Fields → List (Text × Text)
unfolding key_pair
pairs_of [] = []
pairs_of (item ∷ items) =
    let rest = pairs_of items in
    elim (key_pair (get_or_null (codes "url_path") item) (get_or_null (codes "id") item)) [
      | none ↦ rest
      | some pair ↦ pair ∷ rest
    ]

unfoldable pub storage_keys : Option (List Fields) → Text → List (Text × Text)
unfolding pairs_of
storage_keys none default_key = (default_key, codes "lovelace") ∷ []
storage_keys (some items) default_key = (default_key, codes "lovelace") ∷ pairs_of items

-- `ch < " " or ch == "\x7f"`
unfoldable pub is_control : ℕ → Bool
is_control c = ltb c b' ' || eqb c 0x7f

unfoldable pub any_control : Text → Bool
unfolding is_control
any_control [] = false
any_control (c ∷ s) = is_control c || any_control s

unfoldable pub is_safe_key : Value → Bool
unfolding any_control
is_safe_key (str key) =
    if is_nil key
    then false
    else if key == codes "." || key == codes ".."
    then false
    else if contains b'/' key || contains b'\\' key
    then false
    else not (any_control key)
is_safe_key _ = false

-- `set(keys)`: each element once.
unfoldable pub distinct : List Text → List Text
distinct [] = []
distinct (k ∷ ks) = let rest = distinct ks in if contains k rest then rest else k ∷ rest

-- `set(keys) - set(others)`, of a list that is a set.
unfoldable pub without_keys : List Text → List Text → List Text
without_keys [] others = []
without_keys (k ∷ ks) others =
    let rest = without_keys ks others in if contains k others then rest else k ∷ rest

-- `known` is none when Home Assistant could not be asked.
unfoldable pub deletions_to_record : List Text → Option (List Text) → List Text
unfolding distinct without_keys
deletions_to_record tracked none = []
deletions_to_record tracked (some known) = sort_by text_lt (without_keys (distinct tracked) known)

unfoldable pub is_live : Text → List Text → Option (List Text) → Bool
is_live key tracked none = contains key tracked
is_live key tracked (some known) = contains key tracked && contains key known

unfoldable pub is_absent : Text → Option (List Text) → Bool
is_absent key none = false
is_absent key (some known) = not (contains key known)
