-- ===== src/Restore/Undo.antt =====
-- restore.py: `apply_undo` and what it writes with. The configuration is threaded through the
-- steps; `views` is always read from it and written back.
pub mod Inverse
pub mod Order
pub mod Lowest
pub mod Runs
use ha_dashboard_history.Base.{
  ℕ, zero, suc, Bool, true, false, not, ◌&&◌, ◌||◌, List, [], ◌∷◌, ◌++◌, Option, none, some, Text,
  codes, set, get_elem?, insert_at, remove_at, ltb, if◌then◌else◌, sort_by, is_nil, ◌==◌, list_eq,
  nat_eq,
}
use ha_dashboard_history.Value.{
  Value, null, obj, Fields, get, get_or_null, put, without, list, as_list, as_dict, py_eq, truthy,
}
use ha_dashboard_history.Value.Dump.{same_value}
use ha_dashboard_history.Restore.Types.{
  Step, key, index, Action, StepKind, UndoStep, UndoPlan, Refusal, Result, ok, refused, broken,
  paths_shared, view_missing, cards_missing, moved_since, block_missing, setting_changed,
  sections_changed, plan_blocked, index_error, ◌>>=◌, or_refuse,
}
use ha_dashboard_history.Restore.Place.{
  list_or_new, paths_share, find_view, cards_at, replace_at, with_views, views_of, put_views,
  views_key, sections_key, badges_key, cards_key,
}
use ha_dashboard_history.Restore.Park.{append_under}

-- `present and _same_value(container[leaf], step.expect)`, or that nothing is there.
unfoldable pub setting_holds : UndoStep → Option Value → Bool
setting_holds step none = step.expect_absent
setting_holds step (some v) = not step.expect_absent && same_value v step.expect

write_leaf : UndoStep → Text → Fields → Result Fields
unfolding setting_holds
write_leaf step leaf container =
    if not (setting_holds step (get leaf container))
    then refused setting_changed
    else elim step.action [
      | Action.unset ↦ elim (get leaf container) [
        | none ↦ refused index_error
        | some _ ↦ ok (without leaf container)
      ]
      | _ ↦ ok (put leaf step.payload container)
    ]

-- Down the parents, which are keys of dicts, and the container written back on the way up.
unfoldable pub write_setting : UndoStep → List Step → Fields → Result Fields
unfolding write_leaf
write_setting step [] container = broken
write_setting step (key leaf ∷ []) container = write_leaf step leaf container
write_setting step (key k ∷ l ∷ location) container = do
  inner ← or_refuse block_missing (as_dict (get_or_null k container))
  inner' ← write_setting step (l ∷ location) inner
  ok (put k (obj inner') container)
write_setting step (index i ∷ location) container = refused block_missing

unfoldable pub apply_setting : Fields → UndoStep → Result Fields
unfolding write_setting
apply_setting config step = elim step.kind [
  | StepKind.dashboard_setting ↦ write_setting step step.location config
  | _ ↦ (do
    views ← views_of config
    (n, view) ← or_refuse view_missing (find_view views step.view_path step.view_index)
    view' ← write_setting step step.location view
    ok (put_views (set views n (obj view')) config))
]

-- `del cards[step.index]`, where the expected thing still stands there.
unfoldable pub remove_item : List Value → UndoStep → Result (List Value)
remove_item items step = elim (get_elem? items step.index) [
  | none ↦ refused moved_since
  | some v ↦ if py_eq v step.expect then ok (remove_at step.index items) else refused moved_since
]

-- The card list of a step's view, changed in place.
unfoldable pub edit_cards : (List Value → Result (List Value)) → Fields → UndoStep → Result Fields
edit_cards change config step = do
  views ← views_of config
  (n, view) ← or_refuse view_missing (find_view views step.view_path step.view_index)
  cards ← or_refuse cards_missing (cards_at (obj view) step.location)
  cards' ← change cards
  ok (put_views (set views n (replace_at (obj view) step.location cards')) config)

unfoldable pub remove_card : Fields → UndoStep → Result Fields
unfolding edit_cards remove_item
remove_card config step = edit_cards (λ cards. remove_item cards step) config step

unfoldable pub apply_sections_list : Fields → UndoStep → Result Fields
apply_sections_list config step = do
  views ← views_of config
  (n, view) ← or_refuse view_missing (find_view views step.view_path step.view_index)
  if not (same_value (get_or_null sections_key view) step.expect)
      then refused sections_changed
      else ok (put_views (set views n (obj (put sections_key step.payload view))) config)

-- `views.index(view)`: the first view that equals it.
unfoldable pub index_of : Value → List Value → ℕ
index_of v [] = 0
index_of v (w ∷ ws) = if py_eq w v then 0 else suc (index_of v ws)

unfoldable pub remove_view : Fields → UndoStep → Result Fields
unfolding index_of
remove_view config step = do
  views ← views_of config
  (n, view) ← or_refuse moved_since (find_view views step.view_path step.view_index)
  if not (py_eq (obj view) step.expect)
      then refused moved_since
      else ok (put_views (remove_at (index_of (obj view) views) views) config)

-- The view's badges, changed in place; a view that has none gets a list.
edit_badges : (List Value → List Value) → Fields → UndoStep → Result Fields
edit_badges change config step = do
  views ← views_of config
  (n, view) ← or_refuse view_missing (find_view views step.view_path step.view_index)
  let badges = list_or_new (get_or_null badges_key view)
  ok (put_views (set views n (obj (put badges_key (list (change badges)) view))) config)

unfoldable pub insert_step : Fields → UndoStep → Result Fields
unfolding edit_badges edit_cards
insert_step config step = elim step.kind [
  | StepKind.view ↦ (do
    views ← views_of config
    ok (put_views (insert_at step.index step.payload views) config))
  | StepKind.badge ↦ edit_badges (insert_at step.index step.payload) config step
  | _ ↦ edit_cards (λ cards. ok (insert_at step.index step.payload cards)) config step
]

unfoldable pub park_step : Fields → UndoStep → Result Fields
park_step config step = do
  views ← views_of config
  (n, view) ← or_refuse view_missing (find_view views step.view_path step.view_index)
  view' ← append_under cards_key view step.payload
  ok (put_views (set views n (obj view')) config)

-- `for step in steps: …`
unfoldable pub run_steps :
    (Fields → UndoStep → Result Fields) → List UndoStep → Fields → Result Fields
run_steps run [] config = ok config
run_steps run (step ∷ steps) config = do config ← run config step; run_steps run steps config

unfoldable pub pick : (UndoStep → Bool) → List UndoStep → List UndoStep
pick test [] = []
pick test (s ∷ steps) = let rest = pick test steps in if test s then s ∷ rest else rest

-- `sorted(…, key=lambda s: -s.index)` and `key=lambda s: s.index`.
unfoldable pub highest_first : List UndoStep → List UndoStep
highest_first = sort_by (λ s t. ltb t.index s.index)

unfoldable pub lowest_first : List UndoStep → List UndoStep
lowest_first = sort_by (λ s t. ltb s.index t.index)

abbrev pub is_setting : UndoStep → Bool
is_setting step = elim step.kind [
  | StepKind.dashboard_setting ↦ true
  | StepKind.view_setting ↦ true
  | _ ↦ false
]

abbrev pub is_removal : UndoStep → Bool
is_removal step = elim step.action [ Action.remove ↦ true | _ ↦ false ]

abbrev pub is_insert : UndoStep → Bool
is_insert step = elim step.action [ Action.insert ↦ true | _ ↦ false ]

abbrev pub is_card_or_badge : UndoStep → Bool
is_card_or_badge step = elim step.kind [ StepKind.card ↦ true | StepKind.badge ↦ true | _ ↦ false ]

abbrev pub is_view : UndoStep → Bool
is_view step = elim step.kind [ StepKind.view ↦ true | _ ↦ false ]

abbrev pub is_sections_list : UndoStep → Bool
is_sections_list step = elim step.kind [ StepKind.sections_list ↦ true | _ ↦ false ]

-- `step.kind == "dashboard_setting" and step.action == "set" and location == ("strategy",)`
abbrev is_strategy : UndoStep → Bool
is_strategy step = elim step.kind [
  | StepKind.dashboard_setting ↦ elim step.action [
    | Action.assign ↦ elim step.location [
      | key k ∷ rest ↦ k == codes "strategy" && is_nil rest
      | _ ↦ false
    ]
    | _ ↦ false
  ]
  | _ ↦ false
]

any_step : (UndoStep → Bool) → List UndoStep → Bool
any_step test [] = false
any_step test (s ∷ steps) = test s || any_step test steps

-- The phases of an undo, in their order.
unfoldable pub run_plan : List UndoStep → Fields → Result Fields
run_plan steps config = do
  config ← run_steps apply_setting (pick is_setting steps) config
  let removals = pick is_removal steps
  config ← run_steps remove_card (highest_first (pick is_card_or_badge removals)) config
  config ← run_steps apply_sections_list (pick is_sections_list steps) config
  config ← run_steps remove_view (highest_first (pick is_view removals)) config
  let inserts = pick is_insert steps
  config ← run_steps insert_step (lowest_first (pick (λ s. not s.parked) inserts)) config
  run_steps park_step (pick (λ s. s.parked) inserts) config

-- An empty `views:` that was not there goes again, or one that came with the strategy's end.
unfoldable pub settle_views : Bool → List UndoStep → Fields → Result Fields
unfolding any_step
settle_views had_views steps config = ok (
    if not (truthy (get_or_null views_key config)) && (not had_views || any_step is_strategy steps)
    then without views_key config
    else config)

abbrev has_key : Text → Fields → Bool
has_key k fs = elim (get k fs) [ none ↦ false | some _ ↦ true ]

unfoldable pub apply_undo : Fields → UndoPlan → Result Fields
unfolding run_plan settle_views
apply_undo config plan = elim plan.blocked [
  | some reason ↦ refused (plan_blocked reason)
  | none ↦ (do
    let result = with_views config
    shared ← paths_share result
    if shared then refused paths_shared else do
      result ← run_plan plan.steps result
      settle_views (has_key views_key config) plan.steps result)
]
