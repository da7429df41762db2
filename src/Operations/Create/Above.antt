-- ===== src/Operations/Create/Above.antt =====
-- The number that `async_create_version` gives, next to those there are.
use ha_dashboard_history.Base.{ℕ, ◌≡◌, sym, subst, true, Option, some, Text}
use ha_dashboard_history.Git.{Git}
use ha_dashboard_history.Records.{Version}
use ha_dashboard_history.Versions.Number.{Level, Parts, parse, parts_lt}
use ha_dashboard_history.Versions.Number.Next.{candidates_above}
use ha_dashboard_history.Store.Types.{Store, done}
use ha_dashboard_history.Store.Versions.{list_versions, read_version}
use ha_dashboard_history.Store.Index.{RevisionIndex}
use ha_dashboard_history.Operations.Create.{
  replied, level_of, names_of, next_versions, async_create_version,
}
use ha_dashboard_history.Operations.Create.Made.{async_create_version-named}
use ha_dashboard_history.Milestones.Listed.{listed_of_read}

-- The name has a number, which is above another one.
abbrev pub IsAbove : Text → Parts → Text → Type 0
IsAbove key p name = (q : Parts) × (parse key name ≡ some q) × (parts_lt p q ≡ true)

module _ {R : Type 0} ⦃git : Git R⦄ where
  -- A version that `async_create_version` makes, at any level, has a number above that of each
  -- version of the dashboard that reads before; so it has one of its own, and a version made after
  -- another one stands above it.
  pub async_create_version-IsAbove :
      (key level title description : Text) (revision live : Option Text) (now : ℕ)
      (cached : Option RevisionIndex) (store : Store R) (name : Text) (at : Level) (old : Text)
      (v : Version) (p : Parts)
      → level_of level ≡ some at
      → (async_create_version key level title description revision live now cached store).reply
        ≡ replied name
      → read_version key old store ≡ done v
      → parse key old ≡ some p
      → IsAbove key p name
  unfolding next_versions
  async_create_version-IsAbove key level title description revision live now cached store name at
        old v p known h was number =
      let (named, reads) =
        async_create_version-named key level title description revision live now cached store name
          at known h in
      let names = names_of (list_versions store (some key)) in
      subst (IsAbove key p) (sym named)
        (candidates_above key names at old p (listed_of_read key old store v was) number)
