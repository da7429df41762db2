-- ===== src/Store/Versions/Fence.antt =====
-- The ownership fence: an operation for one dashboard reaches no version of another one.
use mathlib.Core.List.{append_assoc}
use ha_dashboard_history.Base.{
  ◌≡◌, ◌≢◌, refl, ap, sym, ◌∙◌, ◌⊎◌, inl, inr, Bool, true, false, not, ◌∷◌, ◌++◌, some, Text, codes,
  contains, nat_eq, after_prefix, after_prefix_sound, Bool-cases, Option-cases,
}
use ha_dashboard_history.Git.{Git}
use ha_dashboard_history.Versions.Number.Owner.{NoSlash, before_slash}
use ha_dashboard_history.Store.Types.{Store, Sentence, Answer, raised, done, version_of_another}
use ha_dashboard_history.Store.Tags.{owns}
use ha_dashboard_history.Store.Versions.{
  tag_target, tag_at_locked, retitle_version, remove_version, read_version, with_words,
}
use ha_dashboard_history.Store.Versions.Parts.{read_version_same, written-eq-raised}
use ha_dashboard_history.Store.Versions.Retitle.{retitle_version-WasWritten}
use ha_dashboard_history.Store.Versions.Remove.{remove_version-WasDropped}

-- What stands behind the last slash of a name that belongs to a dashboard.
owns-tail :
    (ref key : Text)
    → owns ref key ≡ true
    → (rest : Text) × (ref ≡ key ++ (b'/' ∷ rest)) × NoSlash rest
unfolding owns
owns-tail ref key h = elim (Option-cases (after_prefix (key ++ codes "/") ref)) [
  | inl e ↦ let out : owns ref key ≡ false = rw (e, owns) refl in absurd (cc)
  | inr (rest, e) ↦
      let out : owns ref key ≡ not (contains b'/' rest) = rw (e, owns) refl in
      (
        rest,
        after_prefix_sound (key ++ codes "/") ref rest e ∙ append_assoc key (codes "/") rest,
        no_slash (contains b'/' rest) (sym out ∙ h),
      )
]
  where
    no_slash : (b : Bool) → not b ≡ true → b ≡ false
    no_slash true h = absurd (cc)
    no_slash false h = refl

-- A tag is a version of one dashboard at most, whatever characters the keys hold.
pub owns_unique : (ref key other : Text) → owns ref key ≡ true → owns ref other ≡ true → key ≡ other
owns_unique ref key other h k =
    let (rest, e, plain) = owns-tail ref key h in
    let (rest', e', plain') = owns-tail ref other k in
    before_slash key other rest rest' plain plain' (sym e ∙ e')

pub Answer-cases :
    {A : Type 0} (a : Answer A) → ((s : Sentence) × (a ≡ raised s)) ⊎ ((v : A) × (a ≡ done v))
Answer-cases (raised s) = inl (s, refl)
Answer-cases (done v) = inr (v, refl)

module _ {R : Type 0} ⦃git : Git R⦄ where
  read_version-fenced :
      (key name : Text) (store : Store R)
      → owns name key ≡ false
      → read_version key name store ≡ raised (version_of_another key name)
  unfolding read_version tag_at_locked
  read_version-fenced key name store h = rw h refl

  -- A change of one ref is not seen by another dashboard.
  fenced :
      (key other_key name other : Text) (store after : Store R)
      → key ≢ other_key
      → owns name key ≡ true
      → ((other ≢ name) → tag_target after.repo other ≡ tag_target store.repo other)
      → read_version other_key other after ≡ read_version other_key other store
  fenced key other_key name other store after apart mine frame =
      elim (Bool-cases (owns other other_key)) [
        | inl theirs ↦ read_version_same other_key other after store (
            frame (λ e.
              apart (
                owns_unique name key other_key mine (ap (λ n. owns n other_key) (sym e) ∙ theirs))))
        | inr outside ↦
            read_version-fenced other_key other after outside
            ∙ sym (read_version-fenced other_key other store outside)
      ]

  retitle-fenced :
      (key name title description other_key other : Text) (store : Store R)
      → key ≢ other_key
      → read_version other_key other (retitle_version key name title description store).after
        ≡ read_version other_key other store
  unfolding retitle_version
  retitle-fenced key name title description other_key other store apart =
      elim (Answer-cases (retitle_version key name title description store).answer) [
        | inl (s, e) ↦ ap (read_version other_key other) (written-eq-raised store _ e)
        | inr (v, e) ↦
            let w = retitle_version-WasWritten key name title description store e in
            let after = record store {
              repo = some (git.put_tag name (with_words w.old title description) w.before);
            } in
            ap (read_version other_key other) w.now
            ∙ fenced key other_key name other store after apart w.mine (λ d.
              git.tag_at-put_tag_other name (with_words w.old title description) w.before other d
              ∙ ap (λ r. tag_target r other) (sym w.held))
      ]

  remove-fenced :
      (key name other_key other : Text) (store : Store R)
      → key ≢ other_key
      → read_version other_key other (remove_version key name store).after
        ≡ read_version other_key other store
  unfolding remove_version
  remove-fenced key name other_key other store apart =
      elim (Answer-cases (remove_version key name store).answer) [
        | inl (s, e) ↦ ap (read_version other_key other) (written-eq-raised store _ e)
        | inr (v, e) ↦
            let w = remove_version-WasDropped key name store e in
            let after = record store { repo = some (git.drop_tag name w.before) } in
            ap (read_version other_key other) w.now
            ∙ fenced key other_key name other store after apart w.mine (λ d.
              git.tag_at-drop_tag_other name w.before other d
              ∙ ap (λ r. tag_target r other) (sym w.held))
      ]

  -- Renaming or removing a version of one dashboard, on every branch and whatever name is given,
  -- leaves each version of another dashboard as it reads.
  pub versions-fenced :
      (key name title description other_key other : Text) (store : Store R)
      → key ≢ other_key
      → (read_version other_key other (retitle_version key name title description store).after
          ≡ read_version other_key other store)
        × (read_version other_key other (remove_version key name store).after
            ≡ read_version other_key other store)
  versions-fenced key name title description other_key other store apart = (
    retitle-fenced key name title description other_key other store apart,
    remove-fenced key name other_key other store apart,
  )
