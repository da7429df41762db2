-- ===== src/Restore/Place/Views.antt =====
-- The `views` of a configuration: reading them, writing them, and what depends on them alone.
use ha_dashboard_history.Base.{
  ℕ, ◌≡◌, ap, sym, ◌∙◌, List, [], ◌∷◌, Option, none, some, get_elem?, arith,
}
use ha_dashboard_history.Value.{
  Value, null, bool, int, str, arr, obj, Fields, get, get_or_null, or_null, list, as_list,
}
use ha_dashboard_history.Value.Laws.{
  to_list-of_list, of_list-to_list, put-get_self, put-put_self, get_or_null-put_self,
}
use ha_dashboard_history.Restore.Types.{ok, ◌>>=◌}
use ha_dashboard_history.Restore.Place.{
  list_or_empty, repeats, paths_share, view_paths, views_key, with_views, views_of, or_broken,
  put_views,
}

pub views_of-put_views :
    (views : List Value) (config : Fields) → views_of (put_views views config) ≡ ok views
unfolding views_of put_views as_list
views_of-put_views views config =
    ap (λ v. or_broken (as_list v)) (get_or_null-put_self views_key (list views) config)
    ∙ ap ok (to_list-of_list views)

-- Where the views are a list, they are read the same way everywhere.
views_value :
    (v : Value) (views : List Value) → or_broken (as_list v) ≡ ok views → list_or_empty v ≡ ok views
unfolding as_list list_or_empty
views_value (arr xs) views h = h
views_value null views h = absurd (cc)
views_value (bool b) views h = absurd (cc)
views_value (int n) views h = absurd (cc)
views_value (str s) views h = absurd (cc)
views_value (obj fs) views h = absurd (cc)

pub list_or_empty-views :
    (config : Fields) (views : List Value)
    → views_of config ≡ ok views
    → list_or_empty (get_or_null views_key config) ≡ ok views
unfolding views_of
list_or_empty-views config views h = views_value (get_or_null views_key config) views h

pub paths_share_of :
    (config : Fields) (views : List Value)
    → views_of config ≡ ok views
    → paths_share config ≡ repeats (view_paths views)
unfolding paths_share
paths_share_of config views h =
    ap (λ r. r >>= λ vs. repeats (view_paths vs)) (list_or_empty-views config views h)

-- Writing the views back that were read.
views_entry : (v : Value) (views : List Value) → or_broken (as_list v) ≡ ok views → list views ≡ v
unfolding as_list
views_entry (arr xs) views h = cc (of_list-to_list xs)
views_entry null views h = absurd (cc)
views_entry (bool b) views h = absurd (cc)
views_entry (int n) views h = absurd (cc)
views_entry (str s) views h = absurd (cc)
views_entry (obj fs) views h = absurd (cc)

get_of_or_null :
    (o : Option Value) (views : List Value) → or_null o ≡ list views → o ≡ some (list views)
get_of_or_null none views h = absurd (cc)
get_of_or_null (some v) views h = ap some h

pub get-views :
    (config : Fields) (views : List Value)
    → views_of config ≡ ok views
    → get views_key config ≡ some (list views)
unfolding views_of get_or_null
get-views config views h =
    get_of_or_null (get views_key config) views
      (sym (views_entry (get_or_null views_key config) views h))

pub put_views-put_views :
    (new views : List Value) (config : Fields)
    → views_of config ≡ ok views
    → put_views views (put_views new config) ≡ config
unfolding put_views
put_views-put_views new views config h =
    put-put_self views_key (list new) (list views) config
    ∙ put-get_self views_key (list views) config (get-views config views h)

-- A configuration that has views is not changed by `setdefault`.
pub with_views_of :
    (config : Fields) (v : Value) → get views_key config ≡ some v → with_views config ≡ config
unfolding with_views put_views
with_views_of config v h = rw (h, with_views)

-- And one without has none to find a view in.
pub with_views_missing :
    (config : Fields) → get views_key config ≡ none → views_of (with_views config) ≡ ok []
unfolding with_views put_views
with_views_missing config h = rw (h, with_views) (views_of-put_views [] config)

-- A list that is not empty was one: nothing else was read as empty.
filled_value :
    (v : Value) (w : Value) (views : List Value)
    → list_or_empty v ≡ ok (w ∷ views)
    → or_broken (as_list v) ≡ ok (w ∷ views)
unfolding as_list list_or_empty
filled_value (arr xs) w views h = h
filled_value null w views h = absurd (ground arith)
filled_value (bool b) w views h = absurd (ground arith)
filled_value (int n) w views h = absurd (ground arith)
filled_value (str s) w views h = absurd (ground arith)
filled_value (obj fs) w views h = absurd (ground arith)

pub views_of_filled :
    (config : Fields) (views : List Value) (n : ℕ) (w : Value)
    → list_or_empty (get_or_null views_key config) ≡ ok views
    → get_elem? views n ≡ some w
    → views_of config ≡ ok views
unfolding views_of
views_of_filled config [] n w h e = absurd (cc)
views_of_filled config (v ∷ views) n w h e = filled_value (get_or_null views_key config) v views h
