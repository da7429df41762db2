-- ===== src/Analyze/Settings/Located.antt =====
-- Each change that `_setting_leaves` reports stands where its path says, in both states.
use ha_dashboard_history.Base.{
  ◌≡◌, refl, ap, ◌∙◌, inl, inr, false, List, [], ◌∷◌, ◌++◌, Option, none, some, Text, arith, All,
  Bool-cases, Option-cases, ◌==◌, list_eq, nat_eq, sort_by, insert_sorted,
}
use mathlib.Core.List.{append_assoc}
use ha_dashboard_history.Value.{Value, null, bool, int, str, arr, obj, Fields, end, field, get}
use ha_dashboard_history.Value.Laws.{IsValue, IsDict, field_ok, obj_ok, Within, get_head, get-tail}
use ha_dashboard_history.Restore.Types.{ok}
use ha_dashboard_history.Analyze.Views.{ViewKey}
use ha_dashboard_history.Analyze.Settings.{
  SettingChange, same_setting, leaf, all_of, in_key_order, only_new, setting_leaves, old_leaves,
  as_block, setting_from, setting_at, key_lt,
}

-- The path leads through dicts to the value, or to nothing.
abbrev Walks : Fields → List Text → Option Value → Type 0
Walks fs [] o = ⊥
Walks fs (k ∷ []) o = get k fs ≡ o
Walks fs (k ∷ l ∷ path) o =
    (inner : Fields) × (get k fs ≡ some (obj inner)) × Walks inner (l ∷ path) o

record IsLocated (old new : Fields) (prefix : List Text) (c : SettingChange) : Type 0 where
  path : List Text
  path_eq : c.path ≡ prefix ++ path
  in_old : Walks old path c.old
  in_new : Walks new path c.new
  differs : same_setting c.old c.new ≡ false

abbrev AllIn : (SettingChange → Type 0) → Text × List SettingChange → Type 0
AllIn P (k, changes) = All P changes

All-append : {A : Type 0} (P : A → Type 0) (xs ys : List A) → All P xs → All P ys → All P (xs ++ ys)
All-append P [] ys h k = k
All-append P (x ∷ xs) ys h k = (h.0, All-append P xs ys h.1 k)

All-insert_key :
    (P : Text × List SettingChange → Type 0) (x : Text × List SettingChange)
    (xs : List (Text × List SettingChange))
    → P x
    → All P xs
    → All P (insert_sorted key_lt x xs)
unfolding insert_sorted
All-insert_key P x [] p h = (p, tt)
All-insert_key P x (y ∷ ys) p h = elim (Bool-cases (key_lt y x)) [
  | inl e ↦ rw e (h.0, All-insert_key P x ys p h.1)
  | inr e ↦ rw e (p, h)
]

All-sort_keys :
    (P : Text × List SettingChange → Type 0) (xs : List (Text × List SettingChange))
    → All P xs
    → All P (sort_by key_lt xs)
unfolding sort_by
All-sort_keys P [] h = tt
All-sort_keys P (x ∷ xs) h = All-insert_key P x (sort_by key_lt xs) h.0 (All-sort_keys P xs h.1)

All-all_of :
    (P : SettingChange → Type 0) (xs : List (Text × List SettingChange))
    → All (AllIn P) xs
    → All P (all_of xs)
unfolding all_of
All-all_of P [] h = tt
All-all_of P ((k, changes) ∷ xs) h = All-append P changes (all_of xs) h.0 (All-all_of P xs h.1)

leaf-IsLocated :
    (view : Option ViewKey) (old new : Fields) (k : Text) (prefix : List Text) (o p : Option Value)
    → get k old ≡ o
    → get k new ≡ p
    → All (IsLocated old new prefix) (leaf view o p (prefix ++ k ∷ []))
unfolding leaf
leaf-IsLocated view old new k prefix o p e f = elim (Bool-cases (same_setting o p)) [
  | inl s ↦ rw s tt
  | inr d ↦ rw d (record { path = k ∷ []; path_eq = refl; in_old = e; in_new = f; differs = d }, tt)
]

-- A change below a key of both dicts.
deeper :
    (old new inner_old inner_new : Fields) (k : Text) (prefix : List Text)
    (changes : List SettingChange)
    → get k old ≡ some (obj inner_old)
    → get k new ≡ some (obj inner_new)
    → All (IsLocated inner_old inner_new (prefix ++ k ∷ [])) changes
    → All (IsLocated old new prefix) changes
deeper old new inner_old inner_new k prefix [] e f h = tt
deeper old new inner_old inner_new k prefix (c ∷ changes) e f (located, h) = (
  one located.path located.path_eq located.in_old located.in_new,
  deeper old new inner_old inner_new k prefix changes e f h,
)
  where
    one :
        (path : List Text)
        → c.path ≡ (prefix ++ k ∷ []) ++ path
        → Walks inner_old path c.old
        → Walks inner_new path c.new
        → IsLocated old new prefix c
    one [] p a b = absurd a
    one (l ∷ path) p a b = record {
      path = k ∷ l ∷ path;
      path_eq = p ∙ append_assoc prefix (k ∷ []) (l ∷ path);
      in_old = (inner_old, e, a);
      in_new = (inner_new, f, b);
      differs = located.differs;
    }

only_new-IsLocated :
    (view : Option ViewKey) (old new : Fields) (prefix : List Text) (some_new : Fields)
    → IsDict some_new
    → Within some_new new
    → All (AllIn (IsLocated old new prefix)) (only_new view old some_new prefix)
unfolding only_new
only_new-IsLocated view old new prefix end d w = tt
only_new-IsLocated view old new prefix (field k v fs) (field_ok absent good rest) w =
    let more =
      only_new-IsLocated view old new prefix fs rest
        (λ j u e. w j u (get-tail k v fs j u absent e)) in
    elim (Option-cases (get k old)) [
      | inl e ↦
          rw (e, only_new, All)
            (leaf-IsLocated view old new k prefix none (some v) e (w k v (get_head k v fs)), more)
      | inr (u, e) ↦ rw (e, only_new, All) more
    ]

IsDict-of_IsValue : {fs : Fields} → IsValue (obj fs) → IsDict fs
IsDict-of_IsValue (obj_ok d) = d

get-IsValue : (fs : Fields) (k : Text) (v : Value) → IsDict fs → get k fs ≡ some v → IsValue v
unfolding get
get-IsValue end k v d e = absurd (cc)
get-IsValue (field j w fs) k v (field_ok absent good rest) e = elim (Bool-cases (j == k)) [
  | inl same ↦ let is_v : w ≡ v = ground arith in rw⁻¹ is_v good
  | inr other ↦ get-IsValue fs k v rest (ground arith)
]

mutual
  unfolding setting_leaves in_key_order old_leaves

  value-IsLocated :
      (view : Option ViewKey) (old new : Fields) (k : Text) (prefix : List Text) (v : Value)
      (o : Option Value)
      → IsValue v
      → get k old ≡ some v
      → get k new ≡ o
      → IsDict new
      → All (IsLocated old new prefix) (setting_leaves view v o (prefix ++ k ∷ []))
  value-IsLocated view old new k prefix (obj fs) (some (obj gs)) (obj_ok good) e f d =
      let inner : IsDict gs = IsDict-of_IsValue (get-IsValue new k (obj gs) d f) in
      deeper old new fs gs k prefix _ e f (
        All-all_of _ _ (
          All-sort_keys _ _ (
            All-append _ (old_leaves view fs gs (prefix ++ k ∷ [])) _
              (old-IsLocated view fs gs (prefix ++ k ∷ []) fs good (λ j u h. h) inner)
              (only_new-IsLocated view fs gs (prefix ++ k ∷ []) gs inner (λ j u h. h)))))
  value-IsLocated view old new k prefix null o good e f d =
      leaf-IsLocated view old new k prefix _ o e f
  value-IsLocated view old new k prefix (bool b) o good e f d =
      leaf-IsLocated view old new k prefix _ o e f
  value-IsLocated view old new k prefix (int n) o good e f d =
      leaf-IsLocated view old new k prefix _ o e f
  value-IsLocated view old new k prefix (str s) o good e f d =
      leaf-IsLocated view old new k prefix _ o e f
  value-IsLocated view old new k prefix (arr xs) o good e f d =
      leaf-IsLocated view old new k prefix _ o e f
  value-IsLocated view old new k prefix (obj fs) none good e f d =
      leaf-IsLocated view old new k prefix _ _ e f
  value-IsLocated view old new k prefix (obj fs) (some null) good e f d =
      leaf-IsLocated view old new k prefix _ _ e f
  value-IsLocated view old new k prefix (obj fs) (some (bool b)) good e f d =
      leaf-IsLocated view old new k prefix _ _ e f
  value-IsLocated view old new k prefix (obj fs) (some (int n)) good e f d =
      leaf-IsLocated view old new k prefix _ _ e f
  value-IsLocated view old new k prefix (obj fs) (some (str s)) good e f d =
      leaf-IsLocated view old new k prefix _ _ e f
  value-IsLocated view old new k prefix (obj fs) (some (arr xs)) good e f d =
      leaf-IsLocated view old new k prefix _ _ e f

  old-IsLocated :
      (view : Option ViewKey) (old new : Fields) (prefix : List Text) (some_old : Fields)
      → IsDict some_old
      → Within some_old old
      → IsDict new
      → All (AllIn (IsLocated old new prefix)) (old_leaves view some_old new prefix)
  old-IsLocated view old new prefix end d w n = tt
  old-IsLocated view old new prefix (field k v fs) (field_ok absent good rest) w n = (
    value-IsLocated view old new k prefix v (get k new) good (w k v (get_head k v fs)) refl n,
    old-IsLocated view old new prefix fs rest (λ j u e. w j u (get-tail k v fs j u absent e)) n,
  )

setting_from-Walks :
    (walked : List Text) (fs : Fields) (path : List Text) (o : Option Value)
    → Walks fs path o
    → setting_from walked fs path ≡ ok (o, none)
unfolding setting_from as_block
setting_from-Walks walked fs [] o h = absurd h
setting_from-Walks walked fs (k ∷ []) o h = ap (λ p. ok (p, none)) h
setting_from-Walks walked fs (k ∷ l ∷ path) o (inner, e, h) =
    rw (e, setting_from) (setting_from-Walks (walked ++ k ∷ []) inner (l ∷ path) o h)

-- The change is a difference, and `_setting_at` finds its two values at its path.
pub record IsFound (old new : Fields) (c : SettingChange) : Type 0 where
  pub in_old : setting_at old c.path ≡ ok (c.old, none)
  pub in_new : setting_at new c.path ≡ ok (c.new, none)
  pub differs : same_setting c.old c.new ≡ false

IsFound-All :
    (old new : Fields) (changes : List SettingChange)
    → All (IsLocated old new []) changes
    → All (IsFound old new) changes
unfolding setting_at
IsFound-All old new [] h = tt
IsFound-All old new (c ∷ changes) (l, h) = (
  record {
    in_old = rw l.path_eq (setting_from-Walks [] old l.path c.old l.in_old);
    in_new = rw l.path_eq (setting_from-Walks [] new l.path c.new l.in_new);
    differs = l.differs;
  },
  IsFound-All old new changes h,
)

-- Every change reported between two blocks of settings, whose keys are distinct, is a difference, and its
-- path leads to its two values: in the old block to the old one, in the new block to the new one, with
-- no block missing on the way.
pub setting_leaves-IsFound :
    (view : Option ViewKey) (old new : Fields)
    → IsDict old
    → IsDict new
    → All (IsFound old new) (setting_leaves view (obj old) (some (obj new)) [])
unfolding setting_leaves in_key_order
setting_leaves-IsFound view old new d n = IsFound-All old new _ (
    All-all_of _ _ (
      All-sort_keys _ _ (
        All-append _ (old_leaves view old new []) _
          (old-IsLocated view old new [] old d (λ j u h. h) n)
          (only_new-IsLocated view old new [] new n (λ j u h. h)))))
