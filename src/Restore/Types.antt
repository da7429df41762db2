-- ===== src/Restore/Types.antt =====
-- What restore.py is handed (analyze/model.py: `RemovedItem`, `_SectionAnchor`, `UndoStep`,
-- `UndoPlan`), and how it answers.
use ha_dashboard_history.Base.{
  ℕ, Bool, true, false, List, Option, none, some, Text, ◌≡◌, refl, if◌then◌else◌,
}
use ha_dashboard_history.Value.{Value}

-- One step of a path into a view: a key of a dict or an index of a list.
pub data Step : Type 0 where
  key : Text → Step
  index : ℕ → Step

pub record SectionAnchor : Type 0 where
  pub sections : ℕ
  pub settings : Value
  pub survivors : List Value
  pub before : ℕ
  pub departed : List Value

pub data ItemKind : Type 0 where
  card view section : ItemKind
  other : Text → ItemKind

-- `view_path` is `null` where the view has none.
pub record RemovedItem : Type 0 where
  pub kind : ItemKind
  pub view_path : Value
  pub view_index : ℕ
  pub location : List Step
  pub index : ℕ
  pub payload : Value
  pub label : Text
  pub anchor : Option SectionAnchor
  pub neighbours : Option (List Value)
  pub view_title : Option Text

pub data Action : Type 0 where
  remove insert assign unset : Action

pub data StepKind : Type 0 where
  card badge view dashboard_setting view_setting sections_list : StepKind

pub record UndoStep : Type 0 where
  pub action : Action
  pub kind : StepKind
  pub view_path : Value
  pub view_index : ℕ
  pub location : List Step
  pub index : ℕ
  pub expect : Value
  pub payload : Value
  pub label : Text
  pub parked : Bool
  pub expect_absent : Bool

pub record UndoPlan : Type 0 where
  pub blocked : Option Text
  pub steps : List UndoStep

-- The sentences of the `LookupError`s, one name for each.
pub data Refusal : Type 0 where
  paths_shared view_on_dashboard view_missing sections_differ kind_unknown : Refusal
  section_is_stranger cards_missing not_a_list moved_since block_missing : Refusal
  setting_changed sections_changed index_error : Refusal
  plan_blocked : Text → Refusal

-- `broken` is a TypeError or an AttributeError: a value of a shape that the code does not expect.
pub data Result {ℓ} (A : Type ℓ) : Type ℓ where
  broken : Result A
  refused : Refusal → Result A
  ok : A → Result A

infixl 5 ◌>>=◌
abbrev pub ◌>>=◌ {ℓ κ} : {A : Type ℓ} {B : Type κ} → Result A → (A → Result B) → Result B
broken >>= f = broken
refused reason >>= f = refused reason
ok a >>= f = f a

-- A missing value as the refusal that the code raises for it.
abbrev pub or_refuse {ℓ} : {A : Type ℓ} → Refusal → Option A → Result A
or_refuse r none = refused r
or_refuse r (some a) = ok a

-- What a successful chain went through.
pub >>=-eq-ok {ℓ κ} :
    {A : Type ℓ} {B : Type κ} (first : Result A) (next : A → Result B) {answer : B}
    → (first >>= next) ≡ ok answer
    → (a : A) × (first ≡ ok a) × (next a ≡ ok answer)
>>=-eq-ok broken next h = absurd (cc)
>>=-eq-ok (refused r) next h = absurd (cc)
>>=-eq-ok (ok a) next h = (a, refl, h)

pub or_refuse-eq-ok {ℓ} :
    {A : Type ℓ} (r : Refusal) (o : Option A) {a : A} → or_refuse r o ≡ ok a → o ≡ some a
or_refuse-eq-ok r none h = absurd (cc)
or_refuse-eq-ok r (some b) h = cc

-- A test whose passing branch is the only one that answers.
pub if-refused-eq-ok {ℓ} :
    {A : Type ℓ} (b : Bool) (r : Refusal) (m : Result A) {a : A}
    → (if b then refused r else m) ≡ ok a
    → (b ≡ false) × (m ≡ ok a)
if-refused-eq-ok true r m h = absurd (cc)
if-refused-eq-ok false r m h = (refl, h)

pub ok_injective {ℓ} : {A : Type ℓ} {a b : A} → ok a ≡ ok b → a ≡ b
ok_injective h = cc
