-- ===== src/Tests/UndoRuns.antt =====
-- The order of an undo: its theorems at a list of three cards.
use Prim.Native.String.{String}
use ha_dashboard_history.Base.{
  ◌≡◌, refl, List, [], ◌∷◌, some, codes, false, ℕ, ◌==◌, list_eq, nat_eq, list_beq,
}
use ha_dashboard_history.Value.{
  Value, str, obj, list, Fields, field, end, get, get_or_null, as_list, to_list, of_list, is_null,
  py_eq,
}
use ha_dashboard_history.Value.Laws.{str_ok}
use ha_dashboard_history.Restore.Types.{Action, StepKind, UndoStep, ok, key}
use ha_dashboard_history.Restore.Place.{
  cards_key, path_key, views_of, find_view, find_by_path, cards_at,
}
use ha_dashboard_history.Restore.Undo.{
  highest_first, lowest_first, run_steps, remove_card, insert_step,
}
use ha_dashboard_history.Restore.Undo.Order.{kept_from}
use ha_dashboard_history.Restore.Undo.Runs.{with_cards, run_steps-highest_first-lowest_first}

abbrev card_named : String → Value
card_named s = str (codes s)

abbrev step_at : ℕ → Value → UndoStep
step_at n card = record {
  action = Action.remove;
  kind = StepKind.card;
  view_path = str (codes "home");
  view_index = 0;
  location = key cards_key ∷ [];
  index = n;
  expect = card;
  payload = card;
  label = [];
  parked = false;
  expect_absent = false;
}

abbrev three : List Value
three = card_named "a" ∷ card_named "b" ∷ card_named "c" ∷ []

abbrev outer_two : List UndoStep
outer_two = step_at 0 (card_named "a") ∷ step_at 2 (card_named "c") ∷ []

abbrev home : Fields
home = field (codes "path") (str (codes "home")) (field (codes "cards") (list three) end)

abbrev board : Fields
board = field (codes "views") (list (obj home ∷ [])) end

board-views : views_of board ≡ ok (obj home ∷ [])
unfolding views_of get_or_null get list_beq as_list to_list of_list
board-views = refl

home-found : find_view (obj home ∷ []) (str (codes "home")) 0 ≡ some (0, home)
unfolding find_view find_by_path is_null get_or_null get list_beq py_eq
home-found = refl

not-path : (cards_key == path_key) ≡ false
unfolding list_beq
not-path = refl

home-cards : cards_at (obj home) (key cards_key ∷ []) ≡ some three
unfolding cards_at get list_beq to_list of_list as_list
home-cards = refl

run_steps-highest_first-lowest_first_example :
    (run_steps remove_card (highest_first outer_two) board
      ≡ ok (
          with_cards board
            (str (codes "home"))
            0
            cards_key
            []
            (obj home ∷ [])
            0
            home
            three
            board-views
            home-found
            not-path
            home-cards
            (kept_from 0 outer_two three)))
    × (run_steps insert_step (lowest_first outer_two) (
          with_cards board
            (str (codes "home"))
            0
            cards_key
            []
            (obj home ∷ [])
            0
            home
            three
            board-views
            home-found
            not-path
            home-cards
            (kept_from 0 outer_two three))
        ≡ ok board)
run_steps-highest_first-lowest_first_example =
    run_steps-highest_first-lowest_first board (str (codes "home")) 0 cards_key [] (obj home ∷ []) 0
      home three board-views home-found not-path home-cards outer_two
      ((refl, refl, refl, refl), ((refl, refl, refl, refl), tt)) ((refl, tt), (tt, tt))
      ((refl, str_ok (codes "a")), ((refl, str_ok (codes "c")), tt)) (refl, (refl, tt))
