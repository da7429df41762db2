-- ===== src/Analyze/Sections/Pairing.antt =====
-- The pairs that `_pair_view_sections` finds are one to one, and each has its evidence.
use ha_dashboard_history.Base.{
  ℕ, zero, suc, ◌<◌, ◌≡◌, refl, sym, ◌∙◌, inl, inr, ◌⊎◌, Bool, true, false, not, ◌&&◌, ◌||◌, List,
  [], ◌∷◌, ◌++◌, Option, none, some, arith, All, Ordered, Elem, if◌then◌else◌, Bool-cases, eqb,
  list_eq, nat_eq,
}
use ha_dashboard_history.Value.{Value, Fields}
use ha_dashboard_history.Analyze.Views.{ViewKey, section_list}
use ha_dashboard_history.Analyze.Sections.{
  SectionSlot, How, same, found, settings, cards, SectionPair, slots_from, is_taken_old,
  is_taken_new, claim, same_mark, same_pass, first_free, claim_found, found_pass, how_alike,
  claim_alike, alike_pass, pair_slots, pair_view_sections,
}

abbrev pub OldApart : SectionPair → SectionPair → Type 0
OldApart p q = eqb p.old.index q.old.index ≡ false

abbrev pub NewApart : SectionPair → SectionPair → Type 0
NewApart p q = eqb p.new.index q.new.index ≡ false

-- What the pass that found a pair has seen.
abbrev Seen : How → SectionSlot → SectionSlot → Type 0
Seen same old new = (old.index ≡ new.index) × (same_mark old new ≡ true)
Seen found old new = same_mark old new ≡ true
Seen how old new = (old.index ≡ new.index) × (how_alike old.section new.section ≡ some how)

abbrev pub HasEvidence : SectionPair → Type 0
HasEvidence p = Seen p.how p.old p.new

abbrev Stands : List SectionSlot → List SectionSlot → SectionPair → Type 0
Stands olds news p = Elem p.old olds × Elem p.new news

pub record IsPairing (olds news : List SectionSlot) (pairs : List SectionPair) : Type 0 where
  pub old_once : Ordered OldApart pairs
  pub new_once : Ordered NewApart pairs
  pub evidence : All HasEvidence pairs
  pub stand : All (Stands olds news) pairs

module _ {A : Type 0} where
  All-append_one : (P : A → Type 0) (xs : List A) (a : A) → All P xs → P a → All P (xs ++ a ∷ [])
  All-append_one P [] a h p = (p, tt)
  All-append_one P (x ∷ xs) a h p = (h.0, All-append_one P xs a h.1 p)

  Ordered-append_one :
      (R : A → A → Type 0) (xs : List A) (a : A)
      → Ordered R xs
      → All (λ x. R x a) xs
      → Ordered R (xs ++ a ∷ [])
  Ordered-append_one R [] a o h = (tt, tt)
  Ordered-append_one R (x ∷ xs) a o h =
      (All-append_one (R x) xs a o.0 h.0, Ordered-append_one R xs a o.1 h.1)

apart_of_free_old :
    (old new : SectionSlot) (how : How) (pairs : List SectionPair)
    → is_taken_old old pairs ≡ false
    → All (λ p. OldApart p (record { old = old; new = new; how = how })) pairs
apart_of_free_old old new how [] h = tt
apart_of_free_old old new how (p ∷ pairs) h =
    (ground arith, apart_of_free_old old new how pairs (ground arith))

apart_of_free_new :
    (old new : SectionSlot) (how : How) (pairs : List SectionPair)
    → is_taken_new new pairs ≡ false
    → All (λ p. NewApart p (record { old = old; new = new; how = how })) pairs
apart_of_free_new old new how [] h = tt
apart_of_free_new old new how (p ∷ pairs) h =
    (ground arith, apart_of_free_new old new how pairs (ground arith))

module _ (all_olds all_news : List SectionSlot) where
  claim-IsPairing :
      (old new : SectionSlot) (how : How) (pairs : List SectionPair)
      → IsPairing all_olds all_news pairs
      → is_taken_old old pairs ≡ false
      → is_taken_new new pairs ≡ false
      → Elem old all_olds
      → Elem new all_news
      → Seen how old new
      → IsPairing all_olds all_news (claim old new how pairs)
  claim-IsPairing old new how pairs h free_old free_new m k seen = record {
    old_once =
        Ordered-append_one OldApart pairs _ h.old_once
          (apart_of_free_old old new how pairs free_old);
    new_once =
        Ordered-append_one NewApart pairs _ h.new_once
          (apart_of_free_new old new how pairs free_new);
    evidence = All-append_one HasEvidence pairs _ h.evidence seen;
    stand = All-append_one (Stands all_olds all_news) pairs _ h.stand (m, k);
  }

  -- The slots that a loop still has before it: they stand in the views.
  abbrev From : List SectionSlot → List SectionSlot → Type 0
  From all slots = All (λ s. Elem s all) slots

  abbrev Aligned : List SectionSlot → List SectionSlot → Type 0
  Aligned (o ∷ olds) (n ∷ news) = (o.index ≡ n.index) × Aligned olds news
  Aligned _ _ = Unit

  first_free_sound :
      (old new : SectionSlot) (news : List SectionSlot) (pairs : List SectionPair)
      → From all_news news
      → first_free old news pairs ≡ some new
      → (is_taken_new new pairs ≡ false) × (same_mark old new ≡ true) × Elem new all_news
  unfolding first_free
  first_free_sound old new [] pairs m h = absurd (cc)
  first_free_sound old new (n ∷ news) pairs m h =
      elim (Bool-cases (not (is_taken_new n pairs) && same_mark old n)) [
        | inl e ↦
            let now : first_free old (n ∷ news) pairs ≡ some n = rw (e, first_free) refl in
            let is_n : n ≡ new = cc in rw⁻¹ is_n (ground arith, ground arith, m.0)
        | inr e ↦
            let now : first_free old (n ∷ news) pairs ≡ first_free old news pairs =
              rw (e, first_free) refl in
            first_free_sound old new news pairs m.1 (sym now ∙ h)
      ]

  found_pass-IsPairing :
      (olds news : List SectionSlot) (pairs : List SectionPair)
      → From all_olds olds
      → From all_news news
      → IsPairing all_olds all_news pairs
      → IsPairing all_olds all_news (found_pass olds news pairs)
  unfolding found_pass
  found_pass-IsPairing [] news pairs m k h = h
  found_pass-IsPairing (o ∷ olds) news pairs m k h =
      found_pass-IsPairing olds news _ m.1 k
        (one (is_taken_old o pairs) (first_free o news pairs) refl refl)
    where
      one :
          (b : Bool) (free : Option SectionSlot)
          → is_taken_old o pairs ≡ b
          → first_free o news pairs ≡ free
          → IsPairing all_olds all_news (if b then pairs else claim_found o free pairs)
      one true free e f = h
      one false none e f = unfold claim_found in h
      one false (some n) e f =
          let (free, mark, there) = first_free_sound o n news pairs k f in
          unfold claim_found in claim-IsPairing o n found pairs h e free m.0 there mark

  how_alike-cases :
      (v w : Value) (how : How) → how_alike v w ≡ some how → (how ≡ settings) ⊎ (how ≡ cards)
  unfolding how_alike
  how_alike-cases v w how h = ground arith

  how_alike-Seen :
      (old new : SectionSlot) (how : How)
      → old.index ≡ new.index
      → how_alike old.section new.section ≡ some how
      → Seen how old new
  unfolding how_alike
  how_alike-Seen old new settings at h = (at, h)
  how_alike-Seen old new cards at h = (at, h)
  how_alike-Seen old new same at h =
      absurd (elim (how_alike-cases _ _ same h) [ inl e ↦ cc | inr e ↦ cc ])
  how_alike-Seen old new found at h =
      absurd (elim (how_alike-cases _ _ found h) [ inl e ↦ cc | inr e ↦ cc ])

  alike_pass-IsPairing :
      (olds news : List SectionSlot) (pairs : List SectionPair)
      → From all_olds olds
      → From all_news news
      → Aligned olds news
      → IsPairing all_olds all_news pairs
      → IsPairing all_olds all_news (alike_pass olds news pairs)
  unfolding alike_pass
  alike_pass-IsPairing [] news pairs m k al h = h
  alike_pass-IsPairing (o ∷ olds) [] pairs m k al h = h
  alike_pass-IsPairing (o ∷ olds) (n ∷ news) pairs m k al h =
      alike_pass-IsPairing olds news _ m.1 k.1 al.1 (
        one (is_taken_old o pairs) (is_taken_new n pairs) (how_alike o.section n.section) refl refl
          refl)
    where
      one :
          (b c : Bool) (how : Option How)
          → is_taken_old o pairs ≡ b
          → is_taken_new n pairs ≡ c
          → how_alike o.section n.section ≡ how
          → IsPairing all_olds all_news (if b || c then pairs else claim_alike o n how pairs)
      one true c how e f g = h
      one false true how e f g = h
      one false false none e f g = unfold claim_alike in h
      one false false (some how) e f g =
          unfold claim_alike in
          claim-IsPairing o n how pairs h e f m.0 k.0 (how_alike-Seen o n how al.0 g)

  -- Every index in the pairs is below the one that the first loop has come to.
  abbrev Below : ℕ → SectionPair → Type 0
  Below n p = (p.old.index < n) × (p.new.index < n)

  free_of_Below :
      (n : ℕ) (old new : SectionSlot) (pairs : List SectionPair)
      → old.index ≡ n
      → new.index ≡ n
      → All (Below n) pairs
      → (is_taken_old old pairs ≡ false) × (is_taken_new new pairs ≡ false)
  free_of_Below n old new [] e f h = (refl, refl)
  free_of_Below n old new (p ∷ pairs) e f h =
      let (free_old, free_new) = free_of_Below n old new pairs e f h.1 in
      (ground arith, ground arith)

  Below-suc : (n : ℕ) (pairs : List SectionPair) → All (Below n) pairs → All (Below (suc n)) pairs
  Below-suc n [] h = tt
  Below-suc n (p ∷ pairs) h = ((omega arith, omega arith), Below-suc n pairs h.1)

  same_pass-IsPairing :
      (k l : ViewKey) (v w n : ℕ) (xs ys : List Value) (pairs : List SectionPair)
      → From all_olds (slots_from k v n xs)
      → From all_news (slots_from l w n ys)
      → All (Below n) pairs
      → IsPairing all_olds all_news pairs
      → IsPairing all_olds all_news (same_pass (slots_from k v n xs) (slots_from l w n ys) pairs)
  unfolding same_pass slots_from
  same_pass-IsPairing k l v w n [] ys pairs m r b h = h
  same_pass-IsPairing k l v w n (x ∷ xs) [] pairs m r b h = h
  same_pass-IsPairing k l v w n (x ∷ xs) (y ∷ ys) pairs m r b h =
      let old : SectionSlot = record { view_key = k; view_index = v; index = n; section = x } in
      let new : SectionSlot = record { view_key = l; view_index = w; index = n; section = y } in
      elim (Bool-cases (same_mark old new)) [
        | inl e ↦
            let (free_old, free_new) = free_of_Below n old new pairs refl refl b in
            rw e (
              same_pass-IsPairing k l v w (suc n) xs ys _ m.1 r.1
                (All-append_one (Below (suc n)) pairs _ (Below-suc n pairs b)
                  (omega arith, omega arith))
                (claim-IsPairing old new same pairs h free_old free_new m.0 r.0 (refl, e)))
        | inr e ↦
            rw e (same_pass-IsPairing k l v w (suc n) xs ys pairs m.1 r.1 (Below-suc n pairs b) h)
      ]

  slots_from-Aligned :
      (k l : ViewKey) (v w n : ℕ) (xs ys : List Value)
      → Aligned (slots_from k v n xs) (slots_from l w n ys)
  unfolding slots_from
  slots_from-Aligned k l v w n [] ys = tt
  slots_from-Aligned k l v w n (x ∷ xs) [] = tt
  slots_from-Aligned k l v w n (x ∷ xs) (y ∷ ys) = (refl, slots_from-Aligned k l v w (suc n) xs ys)

  From_self : (slots : List SectionSlot) → All (λ s. Elem s slots) slots
  From_self [] = tt
  From_self (s ∷ slots) = ((zero, refl), All_later slots (From_self slots))
    where
      All_later :
          (ss : List SectionSlot) → All (λ t. Elem t slots) ss → All (λ t. Elem t (s ∷ slots)) ss
      All_later [] h = tt
      All_later (t ∷ ss) h = ((suc h.0.0, h.0.1), All_later ss h.1)

-- No section of either state is in two pairs; each pair is made of sections of the two views; and it
-- has its evidence: the same fingerprint, or at the same index either the same cards under other
-- settings or the same settings over other cards.
pub pair_view_sections-IsPairing :
    (key : ViewKey) (old_index : ℕ) (old_view : Fields) (new_index : ℕ) (new_view : Fields)
    → IsPairing
        (slots_from key old_index 0 (section_list old_view))
        (slots_from key new_index 0 (section_list new_view))
        (pair_view_sections key old_index old_view new_index new_view).pairs
unfolding pair_view_sections pair_slots
pair_view_sections-IsPairing key old_index old_view new_index new_view =
    let xs = section_list old_view in
    let ys = section_list new_view in
    let olds = slots_from key old_index 0 xs in
    let news = slots_from key new_index 0 ys in
    let m = From_self [] [] olds in
    let r = From_self [] [] news in
    let first =
      same_pass-IsPairing olds news key key old_index new_index 0 xs ys [] m r tt
        (record { old_once = tt; new_once = tt; evidence = tt; stand = tt }) in
    alike_pass-IsPairing olds news olds news _ m r
      (slots_from-Aligned olds news key key old_index new_index 0 xs ys)
      (found_pass-IsPairing olds news olds news _ m r first)
