-- ===== src/Store/Resolve.antt =====
-- store.py: `_resolve` and `resolve`, from what a person pastes to a commit.
pub mod Ends
pub mod Ids
use ha_dashboard_history.Base.{
  ℕ, zero, suc, ◌+◌, ◌≡◌, Bool, true, false, ◌&&◌, ◌||◌, List, [], ◌∷◌, ◌++◌, map, Option, none,
  some, Text, codes, strip, is_nil, leb, ltb, length, if◌then◌else◌,
}
use ha_dashboard_history.Git.{Git, Object, commit, tag, blob, tree, id_of}
use ha_dashboard_history.Store.Types.{Store}

-- `bytes.lower` of one byte, and `char in b"0123456789abcdef"`.
unfoldable pub lower : ℕ → ℕ
lower c = if leb b'A' c && leb c b'Z' then c + 32 else c

unfoldable pub is_hex : ℕ → Bool
is_hex c = (leb b'0' c && leb c b'9') || (leb b'a' c && leb c b'f')

unfoldable pub all_hex : Text → Bool
unfolding is_hex
all_hex [] = true
all_hex (c ∷ s) = is_hex c && all_hex s

-- The only object whose id starts with an abbreviated one.
abbrev only : List Text → Option Text
only (sha ∷ []) = some sha
only _ = none

abbrev pub or_else : Option Text → Option Text → Option Text
or_else none second = second
or_else (some sha) second = some sha

abbrev pub flat : Option (Option Text) → Option Text
flat none = none
flat (some answer) = answer

module _ {R : Type 0} ⦃git : Git R⦄ where
  -- `while obj.type_name == b"tag": …`, on fuel: none where that is used up, and within it none
  -- where the chain of tags ends at no commit.
  unfoldable pub peel : ℕ → R → Object → Option (Option Text)
  peel zero repo obj = none
  peel (suc fuel) repo (tag t) = elim (git.object repo t.marked) [
    | none ↦ some none
    | some obj ↦ peel fuel repo obj
  ]
  peel (suc fuel) repo (commit c) = some (some c.sha)
  peel (suc fuel) repo (blob sha text) = some none
  peel (suc fuel) repo (tree sha) = some none

  -- The id of the first of the names that the repository knows.
  unfoldable pub first_known : R → List Text → Option Text
  first_known repo [] = none
  first_known repo (candidate ∷ candidates) = elim (git.object repo candidate) [
    | none ↦ first_known repo candidates
    | some obj ↦ some (id_of obj)
  ]

  unfoldable pub by_prefix : R → Text → Option Text
  unfolding all_hex lower
  by_prefix repo name =
      if leb 4 (length name) && ltb (length name) 40 && all_hex (map lower name)
      then only (git.with_prefix repo (map lower name))
      else none

  unfoldable pub find_sha : R → Text → Option Text
  unfolding first_known by_prefix
  find_sha repo name =
      or_else
        (first_known repo
          (name ∷ (codes "refs/tags/" ++ name) ∷ (codes "refs/heads/" ++ name) ∷ []))
        (by_prefix repo name)

  -- The commit behind an id, with fuel for every tag that can stand on another there.
  unfoldable pub commit_behind : R → Text → Option Text
  unfolding peel
  commit_behind repo sha = elim (git.object repo sha) [
    | none ↦ none
    | some obj ↦ flat (peel (suc (git.depth repo sha)) repo obj)
  ]

  unfoldable pub resolve_in : R → Text → Option Text
  unfolding find_sha commit_behind
  resolve_in repo revision =
      let name = strip revision in
      if is_nil name
      then none
      else elim (find_sha repo name) [ none ↦ none | some sha ↦ commit_behind repo sha ]

  unfoldable pub resolve : Store R → Text → Option Text
  unfolding resolve_in
  resolve store revision = elim store.repo [ none ↦ none | some repo ↦ resolve_in repo revision ]
