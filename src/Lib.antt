-- ===== src/Lib.antt =====
-- Dashboard History: a Home Assistant integration that records every change of a dashboard in a
-- git repository, names versions of it, and puts deleted parts back.
--
-- The parts modelled are all under custom_components/dashboard_history/. keys.py says which
-- dashboard is which and which one is gone. versions.py numbers the versions (tags) of a
-- dashboard and says which day an automatic version is about. analyze/ compares two states of a
-- dashboard and hands restore.py what it found: a removed item, or a plan of undo steps.
-- restore.py writes these into a configuration, and refuses where a place is not proven. store.py
-- keeps the states as commits and the versions as tags of a git repository; operations.py makes,
-- renames and removes versions through it, and milestones.py makes the automatic ones.
--
-- Base holds what the files share: lists by native numbers, texts as lists of code points,
-- Python's `==` as an interface, `sorted`. Value is the data of a dashboard, with Python's `==`,
-- `dict` and truth; Value/Dump is `json.dumps(…, sort_keys=True)`, the strict comparison of
-- `fingerprint` (analyze/model.py) and `_same_value` (restore.py). Records is `Change` and
-- `Version` of store.py.
--
-- Versions/Digits and Versions/Number are versions.py from `version_name` to `by_number`,
-- Versions/Description and Versions/Days its second half. The days are those of a `tzinfo`, which
-- is a parameter: the offset at each instant. Keys is keys.py.
--
-- Restore/Types is the part of analyze/model.py that restore.py reads: `RemovedItem`,
-- `_SectionAnchor`, `UndoStep`, `UndoPlan`. Restore/Place is `_paths_share`, `_find_view` and
-- `_cards_at`; Restore/Anchor is `_anchored_index`, `_departed_is_ambiguous`,
-- `_section_gap_holds` and `_view_has_gone`; Restore/Reinsert is `reinsert`; Restore/Park is
-- `parks`, `park` and `parked_label`; Restore/Undo is `apply_undo` with its steps. Where the code
-- changes a list inside the copied configuration, the definitions write the changed list back
-- along its path, which is the same since the copy is deep and a tree. A `LookupError` is a
-- refusal with a name in place of its sentence; an error of another class that a value of an
-- unexpected shape raises is `broken`.
--
-- Analyze/Views is how analyze/model.py reads a state: `_views_by_key`, `_by_position`,
-- `card_containers`. Analyze/Sections is `_pair_view_sections` and `_moved` of
-- analyze/matching.py, where the indices taken are those of the pairs so far. Analyze/Anchor is
-- `_section_anchor`, `_section_marks` and `_same_marks`. Analyze/Positions is `_positions_lie`,
-- `_paths_collide`, `_view_type`, `_view_type_changed` and `_section_drift`. Analyze/Settle is
-- `_pair_sections` and `_settle_sections`, which is handed the slots of the cards that no pass
-- paired. Analyze/Slots is `_slots`, `_place`, `_translated` and `_unpaired`, with the methods of
-- `Matching`, `SectionMatching` and `UndoPlan`. Analyze/Settings is `setting_changes` and
-- `_setting_at`; a dict's keys are walked in the order of the sorted union by walking each dict
-- and sorting what was found.
--
-- Git is the git library (dulwich) as an interface: the operations that store.py calls, and what
-- they are documented to do, as laws: what a tag that was created, overwritten or deleted reads
-- as, that other tags and the commits stay, that an object answers to its id, that the id of a
-- commit has no spaces around it and is not empty. Every definition of the store takes an
-- instance of it, and Tests/Repository is one. The repository is a value that each operation
-- hands on.
--
-- Store/Types is a store and the answers of its operations, an exception being a sentence;
-- Store/Resolve is `_resolve` and `resolve`; Store/Tags the words of a tag (`_version_body`,
-- `_version_words`, `_version_from`), `_owns` and the names that collide; Store/Versions is
-- `create_version`, `retitle_version`, `read_version`, `remove_version` and `list_versions`.
-- Store/Paths is `_key_of`, Store/Touched `_touched`, Store/Index `_built_index` and
-- `_extended_index` over Store/Dict, Python's dicts as association lists; Store/Changes is
-- `_each_change`, `_walked_changes`, `_indexed_revisions` and `_revision_index`; Store/Race is
-- `_retrying_a_forget_race`, over the attempts in the order in which they happen; Store/Reads is
-- what else is read: states, times, the list of dashboards, `list_changes`.
--
-- Operations/Create is `async_create_version` with `_state_at`, `_same_as_live` and
-- `async_next_versions`; Operations/Change is `async_retitle_version`, `async_remove_version` and
-- `_async_returns`. The live configuration is handed in as the text that `dump` makes of it.
-- Milestones is milestones.py: what the floor and the mark of a day do to the store, with the
-- clock, the time zone and the cached index as a `Setting`.
--
-- Bounds: the values have no floats and no dates; the keys of a dict are texts, and a text or a
-- dict that stands where a list belongs counts as a value of an unexpected shape. All loops are
-- structural recursion, but for two on fuel: `show`, on the number itself plus one, since a
-- number has no more digits than that, and `peel`, on one more than the tags that can stand on
-- each other behind the id. Times are natural numbers, seconds since 1970.
--
-- Not modelled: of analyze/, the passes that pair single cards, the list of removed items, the
-- making of undo plans, and the sentences of the explanation; of store.py, `forget` with its
-- checkpoint file, its repair and its generations, the writing of snapshots, descriptions and
-- deletions, the search, the survey and the measuring; of operations.py, the history, restoring,
-- undoing and comparing as commands. Lock files and threads are left out: a read by the
-- operations is one that no `forget` goes on beside, and a commit that was just resolved is still
-- there when it is read. Home Assistant's bindings, the events that start a mark, the panel and
-- YAML are outside as well.
pub mod Base
pub mod Records
pub mod Versions
pub mod Value
pub mod Keys
pub mod Git
pub mod Store
pub mod Operations
pub mod Milestones
pub mod Restore
pub mod Analyze
mod Tests
