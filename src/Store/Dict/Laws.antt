-- ===== src/Store/Dict/Laws.antt =====
-- What is found in a dict after it was written to.
use ha_dashboard_history.Base.{
  ◌≡◌, ◌≢◌, refl, ap, sym, subst, ◌∙◌, inl, inr, true, false, List, [], ◌∷◌, ◌++◌, Option, none,
  some, Text, contains, lookup, list_eq, nat_eq, ◌==◌, list_beq_iff, Bool-cases, Option-cases,
}
use ha_dashboard_history.Store.Dict.{set_item, set_default, get_or, add}

-- The first of two answers that there is.
abbrev pub either {ℓ} : {A : Type ℓ} → Option A → Option A → Option A
either none b = b
either (some a) b = some a

pub either_assoc {ℓ} :
    {A : Type ℓ} (a b c : Option A) → either (either a b) c ≡ either a (either b c)
either_assoc none b c = refl
either_assoc (some a) b c = refl

pub either-none {ℓ} : {A : Type ℓ} (a : Option A) → either a none ≡ a
either-none none = refl
either-none (some a) = refl

pub same_text : (k j : Text) → k ≡ j → (k == j) ≡ true
same_text k j h = (list_beq_iff k j).1 h

pub other_text : (k j : Text) → k ≢ j → (k == j) ≡ false
other_text k j h = elim (Bool-cases (k == j)) [
  | inl e ↦ absurd (h ((list_beq_iff k j).0 e))
  | inr e ↦ e
]

-- A key is another one or not.
pub if_same {ℓ} : (k j : Text) (P : Type ℓ) → (k ≡ j → P) → (k ≢ j → P) → P
if_same k j P same other = elim (Bool-cases (k == j)) [
  | inl e ↦ same ((list_beq_iff k j).0 e)
  | inr e ↦ other (λ h. absurd (cc (e, (list_beq_iff k j).1 h)))
]

pub contains-cons_same : (k j : Text) (xs : List Text) → k ≡ j → contains k (j ∷ xs) ≡ true
unfolding contains
contains-cons_same k j xs h = rw (same_text k j h, contains) refl

pub contains-cons_other :
    (k j : Text) (xs : List Text) → k ≢ j → contains k (j ∷ xs) ≡ contains k xs
unfolding contains
contains-cons_other k j xs h = rw (other_text k j h, contains) refl

-- A set that is a list without repetition.
abbrev pub IsDistinct : List Text → Type 0
IsDistinct [] = Unit
IsDistinct (x ∷ xs) = (contains x xs ≡ false) × IsDistinct xs

pub add-IsDistinct : (a : Text) (xs : List Text) → IsDistinct xs → IsDistinct (add a xs)
unfolding add
add-IsDistinct a xs h = elim (Bool-cases (contains a xs)) [
  | inl e ↦ rw (e, add) h
  | inr e ↦ rw (e, add) (e, h)
]

pub contains-add : (k a : Text) (xs : List Text) → contains k (add a xs) ≡ contains k (a ∷ xs)
unfolding add
contains-add k a xs = elim (Bool-cases (contains a xs)) [
  | inl e ↦
      let kept : add a xs ≡ xs = rw (e, add) refl in
      ap (contains k) kept
      ∙ if_same k a _ (λ s. ap (λ b. contains b xs) s ∙ (e ∙ sym (contains-cons_same k a xs s)))
          (λ d. sym (contains-cons_other k a xs d))
  | inr e ↦ let more : add a xs ≡ a ∷ xs = rw (e, add) refl in ap (contains k) more
]

module _ {V : Type 0} where
  pub lookup-cons_same :
      (k j : Text) (v : V) (m : List (Text × V)) → k ≡ j → lookup k ((j, v) ∷ m) ≡ some v
  unfolding lookup
  lookup-cons_same k j v m h = rw (same_text k j h, lookup) refl

  pub lookup-cons_other :
      (k j : Text) (v : V) (m : List (Text × V)) → k ≢ j → lookup k ((j, v) ∷ m) ≡ lookup k m
  unfolding lookup
  lookup-cons_other k j v m h = rw (other_text k j h, lookup) refl

  set_item-cons_same :
      (k j : Text) (v w : V) (m : List (Text × V)) → k ≡ j → set_item k v ((j, w) ∷ m) ≡ (j, v) ∷ m
  unfolding set_item
  set_item-cons_same k j v w m h = rw (same_text k j h, set_item) refl

  set_item-cons_other :
      (k j : Text) (v w : V) (m : List (Text × V))
      → k ≢ j
      → set_item k v ((j, w) ∷ m) ≡ (j, w) ∷ set_item k v m
  unfolding set_item
  set_item-cons_other k j v w m h = rw (other_text k j h, set_item) refl

  lookup-cons_congr :
      (k i : Text) (w : V) (m n : List (Text × V))
      → lookup k m ≡ lookup k n
      → lookup k ((i, w) ∷ m) ≡ lookup k ((i, w) ∷ n)
  lookup-cons_congr k i w m n h =
      if_same k i _ (λ e. lookup-cons_same k i w m e ∙ sym (lookup-cons_same k i w n e))
        (λ d. lookup-cons_other k i w m d ∙ (h ∙ sym (lookup-cons_other k i w n d)))

  pub lookup-set_item_self :
      (k : Text) (v : V) (m : List (Text × V)) → lookup k (set_item k v m) ≡ some v
  unfolding set_item
  lookup-set_item_self k v [] = lookup-cons_same k k v [] refl
  lookup-set_item_self k v ((j, w) ∷ m) =
      if_same k j _
        (λ e. ap (lookup k) (set_item-cons_same k j v w m e) ∙ lookup-cons_same k j v m e)
        (λ d.
          ap (lookup k) (set_item-cons_other k j v w m d)
          ∙ (lookup-cons_other k j w (set_item k v m) d ∙ lookup-set_item_self k v m))

  pub lookup-set_item_other :
      (k j : Text) (v : V) (m : List (Text × V)) → k ≢ j → lookup k (set_item j v m) ≡ lookup k m
  unfolding set_item
  lookup-set_item_other k j v [] d = lookup-cons_other k j v [] d
  lookup-set_item_other k j v ((i, w) ∷ m) d =
      if_same j i _
        (λ e.
          let d' : k ≢ i = λ h. d (h ∙ sym e) in
          ap (lookup k) (set_item-cons_same j i v w m e)
          ∙ (lookup-cons_other k i v m d' ∙ sym (lookup-cons_other k i w m d')))
        (λ b.
          ap (lookup k) (set_item-cons_other j i v w m b)
          ∙ lookup-cons_congr k i w (set_item j v m) m (lookup-set_item_other k j v m d))

  pub lookup-append :
      (k : Text) (m n : List (Text × V)) → lookup k (m ++ n) ≡ either (lookup k m) (lookup k n)
  unfolding lookup
  lookup-append k [] n = refl
  lookup-append k ((j, v) ∷ m) n =
      if_same k j _
        (λ e.
          lookup-cons_same k j v (m ++ n) e
          ∙ ap (λ o. either o (lookup k n)) (sym (lookup-cons_same k j v m e)))
        (λ d.
          lookup-cons_other k j v (m ++ n) d
          ∙ (lookup-append k m n
              ∙ ap (λ o. either o (lookup k n)) (sym (lookup-cons_other k j v m d))))

  pub lookup-set_default_self :
      (k : Text) (v : V) (m : List (Text × V))
      → lookup k (set_default k v m) ≡ either (lookup k m) (some v)
  unfolding set_default
  lookup-set_default_self k v m = elim (Option-cases (lookup k m)) [
    | inl e ↦
        let new : set_default k v m ≡ m ++ ((k, v) ∷ []) = rw (e, set_default) refl in
        ap (lookup k) new
        ∙ (lookup-append k m ((k, v) ∷ [])
            ∙ ap (either (lookup k m)) (lookup-cons_same k k v [] refl))
    | inr (w, e) ↦
        let old : set_default k v m ≡ m = rw (e, set_default) refl in
        ap (lookup k) old ∙ (e ∙ ap (λ o. either o (some v)) (sym e))
  ]

  pub lookup-set_default_other :
      (k j : Text) (v : V) (m : List (Text × V)) → k ≢ j → lookup k (set_default j v m) ≡ lookup k m
  unfolding set_default
  lookup-set_default_other k j v m d = elim (Option-cases (lookup j m)) [
    | inl e ↦
        let new : set_default j v m ≡ m ++ ((j, v) ∷ []) = rw (e, set_default) refl in
        ap (lookup k) new
        ∙ (lookup-append k m ((j, v) ∷ [])
            ∙ (ap (either (lookup k m)) (lookup-cons_other k j v [] d) ∙ either-none (lookup k m)))
    | inr (w, e) ↦ let old : set_default j v m ≡ m = rw (e, set_default) refl in ap (lookup k) old
  ]

  -- Each key is there once.
  abbrev pub IsDict : List (Text × V) → Type 0
  IsDict [] = Unit
  IsDict ((k, v) ∷ m) = (lookup k m ≡ none) × IsDict m

  pub set_item-IsDict :
      (k : Text) (v : V) (m : List (Text × V)) → IsDict m → IsDict (set_item k v m)
  unfolding set_item lookup
  set_item-IsDict k v [] h = (refl, tt)
  set_item-IsDict k v ((j, w) ∷ m) h =
      if_same k j _ (λ e. subst IsDict (sym (set_item-cons_same k j v w m e)) h)
        (λ d.
          subst IsDict (sym (set_item-cons_other k j v w m d))
            (lookup-set_item_other j k v m (λ e. d (sym e)) ∙ h.0, set_item-IsDict k v m h.1))

  append-IsDict :
      (k : Text) (v : V) (m : List (Text × V))
      → IsDict m
      → lookup k m ≡ none
      → IsDict (m ++ ((k, v) ∷ []))
  unfolding lookup
  append-IsDict k v [] h fresh = (refl, tt)
  append-IsDict k v ((j, w) ∷ m) h fresh =
      if_same k j _
        (λ e. let found : none ≡ some w = sym fresh ∙ lookup-cons_same k j w m e in absurd (cc))
        (λ d. (
          lookup-append j m ((k, v) ∷ [])
              ∙ (ap (λ o. either o (lookup j ((k, v) ∷ []))) h.0
                  ∙ lookup-cons_other j k v [] (λ e. d (sym e))),
          append-IsDict k v m h.1 (sym (lookup-cons_other k j w m d) ∙ fresh),
        ))

  pub set_default-IsDict :
      (k : Text) (v : V) (m : List (Text × V)) → IsDict m → IsDict (set_default k v m)
  unfolding set_default
  set_default-IsDict k v m h = elim (Option-cases (lookup k m)) [
    | inl e ↦ rw (e, set_default) (append-IsDict k v m h e)
    | inr (w, e) ↦ rw (e, set_default) h
  ]

  pub get_or-of_lookup :
      (default : V) (k : Text) (m n : List (Text × V))
      → lookup k m ≡ lookup k n
      → get_or default k m ≡ get_or default k n
  unfolding get_or
  get_or-of_lookup default k m n h = rw (h, get_or) refl

  pub get_or-set_item_self :
      (default : V) (k : Text) (v : V) (m : List (Text × V)) → get_or default k (set_item k v m) ≡ v
  unfolding get_or
  get_or-set_item_self default k v m = rw (lookup-set_item_self k v m, get_or) refl

  pub get_or-none :
      (default : V) (k : Text) (m : List (Text × V))
      → lookup k m ≡ none
      → get_or default k m ≡ default
  unfolding get_or
  get_or-none default k m h = rw (h, get_or) refl
