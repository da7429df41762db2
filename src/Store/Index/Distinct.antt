-- ===== src/Store/Index/Distinct.antt =====
-- An entry of a walk names each dashboard once, since `_touched` gathers a set.
use ha_dashboard_history.Base.{
  ◌≡◌, refl, sym, subst, inl, inr, List, [], ◌∷◌, map, Option, none, some, Text, Option-cases,
}
use ha_dashboard_history.Git.{Side, TreeChange, Entry}
use ha_dashboard_history.Store.Paths.{key_of}
use ha_dashboard_history.Store.Dict.{add}
use ha_dashboard_history.Store.Dict.Laws.{IsDistinct, add-IsDistinct}
use ha_dashboard_history.Store.Touched.{
  Touched, with_name, note_path, note_side, note_removal, note_changes, note_lists, touched,
  meta_key,
}
use ha_dashboard_history.Store.Index.{read_entry}
use ha_dashboard_history.Store.Index.Walked.{KeysOnce}

note_path-once :
    (path : Text) (found : Touched) → IsDistinct found.keys → IsDistinct (note_path path found).keys
unfolding note_path
note_path-once path found h = by_key (key_of path)
  where
    by_key :
        (o : Option Text)
        → IsDistinct
            (elim o as (λ x. Touched) [
              | none ↦ found
              | some key ↦ record found {
                keys = add key found.keys;
                names = with_name path found.names;
              }
            ]).keys
    by_key none = h
    by_key (some key) = add-IsDistinct key found.keys h

note_side-once :
    (side : Side) (found : Touched) → IsDistinct found.keys → IsDistinct (note_side side found).keys
unfolding note_side
note_side-once side found h = by_path side.path
  where
    by_path :
        (o : Option Text)
        → IsDistinct
            (elim o as (λ x. Touched) [ none ↦ found | some path ↦ note_path path found ]).keys
    by_path none = h
    by_path (some path) = note_path-once path found h

note_removal-keys :
    (one : TreeChange) (found : Touched) → (note_removal one found).keys ≡ found.keys
unfolding note_removal
note_removal-keys one found = elim (Option-cases one.old.path) [
  | inl e ↦ rw (e, note_removal) refl
  | inr (path, e) ↦ elim (Option-cases (meta_key path)) [
    | inl e' ↦ rw (e, e', note_removal) refl
    | inr (gone, e') ↦ elim (Option-cases one.new.path) [
      | inl f ↦ rw (e, e', f, note_removal) refl
      | inr (there, f) ↦ rw (e, e', f, note_removal) refl
    ]
  ]
]

note_changes-once :
    (changes : List TreeChange) (found : Touched)
    → IsDistinct found.keys
    → IsDistinct (note_changes changes found).keys
unfolding note_changes
note_changes-once [] found h = h
note_changes-once (one ∷ changes) found h = note_changes-once changes _ (
    subst IsDistinct (sym (note_removal-keys one (note_side one.new (note_side one.old found))))
      (note_side-once one.new _ (note_side-once one.old found h)))

note_lists-once :
    (lists : List (List TreeChange)) (found : Touched)
    → IsDistinct found.keys
    → IsDistinct (note_lists lists found).keys
unfolding note_lists
note_lists-once [] found h = h
note_lists-once (changes ∷ lists) found h =
    note_lists-once lists _ (note_changes-once changes found h)

touched-once : (entry : Entry) → IsDistinct (touched entry).keys
unfolding touched
touched-once entry = note_lists-once entry.changes _ tt

pub read_entry-KeysOnce : (entries : List Entry) → KeysOnce (map read_entry entries)
unfolding read_entry
read_entry-KeysOnce [] = tt
read_entry-KeysOnce (entry ∷ entries) = (touched-once entry, read_entry-KeysOnce entries)
