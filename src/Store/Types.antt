-- ===== src/Store/Types.antt =====
-- store.py: what a `HistoryStore` holds on the disk, and how its operations answer.
use ha_dashboard_history.Base.{Bool, true, false, Text, Option, none, some, ◌≡◌, refl}
use ha_dashboard_history.Git.{Git}

-- The repository, none before the first `ensure`, and whether an unfinished `forget` left its
-- checkpoint there.
pub record Store (R : Type 0) : Type 0 where
  pub repo : Option R
  pub checkpoint : Bool

-- The sentences of the `ValueError`s, with what they name.
pub data Sentence : Type 0 where
  forget_unfinished : Sentence
  version_of_another : Text → Text → Sentence
  version_unknown : Text → Sentence
  made_by_hand : Text → Sentence
  revision_unknown : Text → Sentence
  version_exists : Text → Sentence
  in_the_way : Text → Text → Sentence
  ref_format : Text → Sentence

-- What a method without a result answers.
pub data NoneType : Type 0 where
  no_value : NoneType

pub data Answer {ℓ} (A : Type ℓ) : Type ℓ where
  raised : Sentence → Answer A
  done : A → Answer A

infixl 5 ◌>>=◌
abbrev pub ◌>>=◌ {ℓ κ} : {A : Type ℓ} {B : Type κ} → Answer A → (A → Answer B) → Answer B
raised s >>= f = raised s
done a >>= f = f a

-- A missing value as the sentence that the code raises for it.
abbrev pub or_raise {ℓ} : {A : Type ℓ} → Sentence → Option A → Answer A
or_raise s none = raised s
or_raise s (some a) = done a

-- A sentence, if there is one, in front of what follows.
abbrev pub unless {ℓ} : {A : Type ℓ} → Option Sentence → Answer A → Answer A
unless none answer = answer
unless (some s) answer = raised s

pub >>=-eq-done {ℓ κ} :
    {A : Type ℓ} {B : Type κ} (first : Answer A) (next : A → Answer B) {answer : B}
    → (first >>= next) ≡ done answer
    → (a : A) × (first ≡ done a) × (next a ≡ done answer)
>>=-eq-done (raised s) next h = absurd (cc)
>>=-eq-done (done a) next h = (a, refl, h)

pub or_raise-eq-done {ℓ} :
    {A : Type ℓ} (s : Sentence) (o : Option A) {a : A} → or_raise s o ≡ done a → o ≡ some a
or_raise-eq-done s none h = absurd (cc)
or_raise-eq-done s (some b) h = cc

pub unless-eq-done {ℓ} :
    {A : Type ℓ} (o : Option Sentence) (m : Answer A) {a : A}
    → unless o m ≡ done a
    → (o ≡ none) × (m ≡ done a)
unless-eq-done none m h = (refl, h)
unless-eq-done (some s) m h = absurd (cc)

module _ {R : Type 0} ⦃git : Git R⦄ where
  -- `_ensure`, less the lock files that it sweeps
  unfoldable pub ensure : Store R → Store R
  ensure store = elim store.repo [
    | none ↦ record { repo = some git.init; checkpoint = false }
    | some repo ↦ store
  ]

-- `_refuse_if_forget_pending`
unfoldable pub refuse_if_forget_pending : {R : Type 0} → Store R → Option Sentence
refuse_if_forget_pending store = elim store.checkpoint [
  | true ↦ some forget_unfinished
  | false ↦ none
]
