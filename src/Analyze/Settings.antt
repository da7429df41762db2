-- ===== src/Analyze/Settings.antt =====
-- analyze/matching.py: `setting_changes`, `_setting_leaves`, `_same` and `_setting_at`. `_ABSENT` is none.
pub mod Located
use ha_dashboard_history.Base.{
  ℕ, Bool, true, false, not, ◌&&◌, ◌||◌, List, [], ◌∷◌, ◌++◌, Option, none, some, Text, codes,
  contains, if◌then◌else◌, ◌==◌, list_eq, nat_eq, sort_by, text_lt,
}
use ha_dashboard_history.Value.{Value, obj, Fields, end, field, get, without}
use ha_dashboard_history.Restore.Types.{Result, ok, refused, index_error, ◌>>=◌}
use ha_dashboard_history.Restore.Place.{views_key, path_key, sections_key, cards_key, badges_key}
use ha_dashboard_history.Analyze.Views.{ViewKey, views_by_key, view_under, fingerprint}

-- `view_key` is none for the dashboard itself.
pub record SettingChange : Type 0 where
  pub view_key : Option ViewKey
  pub path : List Text
  pub old : Option Value
  pub new : Option Value

unfoldable pub same_setting : Option Value → Option Value → Bool
same_setting none none = true
same_setting (some v) (some w) = fingerprint v == fingerprint w
same_setting _ _ = false

unfoldable pub leaf : Option ViewKey → Option Value → Option Value → List Text → List SettingChange
leaf view_key old new path =
    if same_setting old new
    then []
    else record { view_key = view_key; path = path; old = old; new = new } ∷ []

-- What was found under each key, in the order of the keys.
abbrev key_lt : Text × List SettingChange → Text × List SettingChange → Bool
key_lt one other = text_lt one.0 other.0

unfoldable pub all_of : List (Text × List SettingChange) → List SettingChange
all_of [] = []
all_of ((k, changes) ∷ more) = changes ++ all_of more

unfoldable pub in_key_order : List (Text × List SettingChange) → List SettingChange
unfolding all_of
in_key_order found = all_of (sort_by key_lt found)

-- The keys that only the new dict has.
unfoldable pub only_new :
    Option ViewKey → Fields → Fields → List Text → List (Text × List SettingChange)
only_new view_key old end path = []
only_new view_key old (field k v new) path =
    let rest = only_new view_key old new path in
    elim (get k old) [
      | none ↦ (k, leaf view_key none (some v) (path ++ k ∷ [])) ∷ rest
      | some _ ↦ rest
    ]

-- Down where both sides are dicts, and a leaf everywhere else. The keys of both, in their order.
unfoldable mutual
  pub setting_leaves : Option ViewKey → Value → Option Value → List Text → List SettingChange
  setting_leaves view_key (obj old) (some (obj new)) path =
      in_key_order (old_leaves view_key old new path ++ only_new view_key old new path)
  setting_leaves view_key old new path = leaf view_key (some old) new path

  pub old_leaves : Option ViewKey → Fields → Fields → List Text → List (Text × List SettingChange)
  old_leaves view_key end new path = []
  old_leaves view_key (field k v old) new path =
      (k, setting_leaves view_key v (get k new) (path ++ k ∷ [])) ∷ old_leaves view_key old new path

-- `_NOT_VIEW_SETTINGS` taken out of a view.
unfoldable pub view_settings : Fields → Fields
view_settings view =
    without cards_key
      (without sections_key (without badges_key (without path_key (without (codes "type") view))))

changes_in : List (ViewKey × Fields) → List (ViewKey × Fields) → List SettingChange
unfolding view_settings view_under
changes_in [] new_views = []
changes_in ((key, old_view) ∷ old_views) new_views =
    let rest = changes_in old_views new_views in
    elim (view_under key new_views) [
      | none ↦ rest
      | some new_view ↦
          setting_leaves (some key) (obj (view_settings old_view))
            (some (obj (view_settings new_view))) []
          ++ rest
    ]

unfoldable pub dashboard_changes : Fields → Fields → List SettingChange
dashboard_changes old new =
    setting_leaves none (obj (without views_key old)) (some (obj (without views_key new))) []

unfoldable pub setting_changes : Fields → Fields → Result (List SettingChange)
unfolding changes_in dashboard_changes
setting_changes old new = do
  new_views ← views_by_key new
  old_views ← views_by_key old
  ok (dashboard_changes old new ++ changes_in old_views new_views)

-- `".".join(path)`
unfoldable pub join_dots : List Text → Text
join_dots [] = []
join_dots (k ∷ []) = k
join_dots (k ∷ l ∷ path) = k ++ (b'.' ∷ join_dots (l ∷ path))

unfoldable pub as_block : Option Value → Option Fields
as_block (some (obj inner)) = some inner
as_block _ = none

-- Behind the keys already walked. The code is called with a path that has a last key.
unfoldable pub setting_from : List Text → Fields → List Text → Result (Option Value × Option Text)
unfolding join_dots as_block
setting_from walked container [] = refused index_error
setting_from walked container (k ∷ []) = ok (get k container, none)
setting_from walked container (k ∷ l ∷ path) = elim (as_block (get k container)) [
  | none ↦ ok (none, some (join_dots (walked ++ k ∷ [])))
  | some inner ↦ setting_from (walked ++ k ∷ []) inner (l ∷ path)
]

unfoldable pub setting_at : Fields → List Text → Result (Option Value × Option Text)
unfolding setting_from
setting_at container path = setting_from [] container path
