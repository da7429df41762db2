-- ===== src/Store/Changes/Behind.antt =====
-- What a page behind a cursor holds, and that the cached index stays what the history is.
use ha_dashboard_history.Base.{
  ℕ, ◌≡◌, refl, ap, sym, subst, ◌∙◌, inl, inr, Bool, false, List, [], ◌∷◌, ◌++◌, map, Option, none,
  some, Text, lookup, length, list_eq, nat_eq, ◌==◌, Option-cases,
}
use ha_dashboard_history.Git.{Git, Entry}
use ha_dashboard_history.Store.Resolve.{resolve_in}
use ha_dashboard_history.Store.Dict.{get_or}
use ha_dashboard_history.Store.Dict.Laws.{IsDistinct}
use ha_dashboard_history.Store.Index.{
  RevisionIndex, read_entry, built_index, extended_index, older_than,
}
use ha_dashboard_history.Store.Index.Walked.{revisions_of}
use ha_dashboard_history.Store.Index.Extended.{
  AnswersAlike, AnswersAlike-refl, built_index-head, extended_index-AnswersAlike,
}
use ha_dashboard_history.Store.Index.Cursor.{cursor_place, older_than-revisions_of}
use ha_dashboard_history.Store.Index.Places.{shas}
use ha_dashboard_history.Store.Changes.{
  page, indexed_revisions, index_at, timed_build, carried_index, or_build,
}

some_injective : {A : Type 0} {a b : A} → some a ≡ some b → a ≡ b
some_injective h = cc

module _ {R : Type 0} ⦃git : Git R⦄ where
  indexed_revisions-at :
      (repo : R) (index : RevisionIndex) (key before resolved : Text) (before_generation : Option ℕ)
      (generation at : ℕ) (unfinished : Bool)
      → resolve_in repo before ≡ some resolved
      → lookup resolved index.order ≡ some at
      → indexed_revisions repo
          (some index)
          key
          (some before)
          before_generation
          generation
          unfinished
        ≡ page (older_than at index.order (get_or [] key index.by_key))
  unfolding indexed_revisions
  indexed_revisions-at repo index key before resolved before_generation generation at unfinished h
        k =
      rw (h, k, indexed_revisions) refl

  -- Behind a cursor that resolves to a commit of the walk, be it of this dashboard or of another,
  -- the index hands out the revisions that touched the dashboard among the commits older than it,
  -- newest first, and none of them twice; the walk gives each commit once.
  pub indexed_revisions-behind :
      (repo : R) (head key before : Text) (newer older : List Entry) (e : Entry)
      (before_generation : Option ℕ) (generation : ℕ) (unfinished : Bool)
      → IsDistinct (shas (newer ++ (e ∷ older)))
      → resolve_in repo before ≡ some e.commit.sha
      → indexed_revisions repo
          (some (built_index head (newer ++ (e ∷ older))))
          key
          (some before)
          before_generation
          generation
          unfinished
        ≡ page (revisions_of key (map read_entry older))
  indexed_revisions-behind repo head key before newer older e before_generation generation
        unfinished once h =
      indexed_revisions-at repo (built_index head (newer ++ (e ∷ older))) key before e.commit.sha
        before_generation generation (length newer) unfinished h
        (cursor_place head newer older e once)
      ∙ ap page (older_than-revisions_of head newer older e key once)

  carried_index-ahead :
      (repo : R) (old_head head : Text) (fresh old : List Entry)
      → git.walk repo (record {
        include = some head;
        exclude = some old_head;
        paths = none;
        max_entries = none;
      })
        ≡ some fresh
      → carried_index repo (built_index old_head old) head
        ≡ extended_index (built_index old_head old) head (some fresh)
  unfolding carried_index
  carried_index-ahead repo old_head head fresh old ahead =
      ap
        (λ h. extended_index (built_index old_head old) head (
          git.walk repo
            (record { include = some head; exclude = some h; paths = none; max_entries = none })))
        (built_index-head old_head old)
      ∙ ap (extended_index (built_index old_head old) head) ahead

  timed_build-whole :
      (repo : R) (head : Text) (entries : List Entry)
      → git.walk repo (record { include = none; exclude = none; paths = none; max_entries = none })
        ≡ some entries
      → timed_build repo head ≡ some (built_index head entries)
  unfolding timed_build
  timed_build-whole repo head entries whole = rw (whole, timed_build) refl

  index_at-moved :
      (repo : R) (cached : RevisionIndex) (head : Text)
      → (cached.head == head) ≡ false
      → index_at repo (some cached) head
        ≡ or_build (carried_index repo cached head) (timed_build repo head)
  unfolding index_at
  index_at-moved repo cached head moved = rw (moved, index_at) refl

  -- The cached index of an earlier HEAD, whose walk the new HEAD has behind its own commits, is
  -- replaced by one that answers as an index built anew, whether it could be carried forward or not.
  pub index_at-AnswersAlike :
      (repo : R) (k old_head head : Text) (fresh old : List Entry) (index : RevisionIndex)
      → (old_head == head) ≡ false
      → git.walk repo (record { include = none; exclude = none; paths = none; max_entries = none })
        ≡ some (fresh ++ old)
      → git.walk repo (record {
        include = some head;
        exclude = some old_head;
        paths = none;
        max_entries = none;
      })
        ≡ some fresh
      → index_at repo (some (built_index old_head old)) head ≡ some index
      → AnswersAlike k index (built_index head (fresh ++ old))
  index_at-AnswersAlike repo k old_head head fresh old index moved whole ahead h =
      let cached = built_index old_head old in
      let out : index_at repo (some cached) head
          ≡ or_build (extended_index cached head (some fresh))
              (some (built_index head (fresh ++ old))) =
        index_at-moved repo cached head
          (ap (λ t. t == head) (built_index-head old_head old) ∙ moved)
        ∙ (ap (λ o. or_build o (timed_build repo head))
              (carried_index-ahead repo old_head head fresh old ahead)
            ∙ ap (or_build (extended_index cached head (some fresh)))
                (timed_build-whole repo head (fresh ++ old) whole)) in
      elim (Option-cases (extended_index cached head (some fresh))) [
        | inl e ↦
            let same : built_index head (fresh ++ old) ≡ index =
              some_injective
                (sym (out ∙ ap (λ o. or_build o (some (built_index head (fresh ++ old)))) e) ∙ h) in
            subst (λ i. AnswersAlike k i (built_index head (fresh ++ old))) same
              (AnswersAlike-refl k _)
        | inr (i, e) ↦
            let same : i ≡ index =
              some_injective
                (sym (out ∙ ap (λ o. or_build o (some (built_index head (fresh ++ old)))) e) ∙ h) in
            subst (λ i. AnswersAlike k i (built_index head (fresh ++ old))) same
              (extended_index-AnswersAlike k old_head head fresh old i e)
      ]
