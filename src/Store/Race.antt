-- ===== src/Store/Race.antt =====
-- store.py: `_retrying_a_forget_race`, a read that is done again when a `forget` went on beside it.
use ha_dashboard_history.Base.{
  ◌≡◌, refl, ap, sym, ◌∙◌, inl, inr, Bool, true, false, ◌&&◌, not, List, [], ◌∷◌, Option, none,
  some, Text, option_eq, option_beq_iff, subst, arith, list_eq, nat_eq, ◌==◌, Bool-cases,
  if◌then◌else◌,
}

-- HEAD as `_current_head` reads it, or its None; the outer none is the value that equals no other.
abbrev pub Head : Type 0
Head = Option (Option Text)

abbrev pub same_head : Head → Head → Bool
same_head (some one) (some other) = one == other
same_head _ _ = false

same_head_sound :
    (one other : Head)
    → same_head one other ≡ true
    → (seen : Option Text) × (one ≡ some seen) × (other ≡ some seen)
same_head_sound none other h = absurd (cc)
same_head_sound (some one) none h = absurd (cc)
same_head_sound (some one) (some other) h = (other, ap some ((option_beq_iff one other).0 h), refl)

-- One run of `build`, none where it raised a KeyError, and what is seen right after it.
pub record Attempt (A : Type 0) : Type 0 where
  pub result : Option A
  pub moved : Head
  pub unfinished : Bool

pub data Reading (A : Type 0) : Type 0 where
  returned : A → Reading A
  key_error : Reading A
  exhausted : Reading A

module _ {A : Type 0} where
  unfoldable pub is_settled : Head → Attempt A → Bool
  is_settled head attempt = same_head attempt.moved head && not attempt.unfinished

  -- An attempt that is believed; without a result the error is passed on.
  abbrev pub believed : Option A → Reading A
  believed none = key_error
  believed (some found) = returned found

  -- The last attempt: its error is passed on whatever is seen after it.
  abbrev pub last_attempt : Bool → Option A → Reading A
  last_attempt settled none = key_error
  last_attempt true (some found) = returned found
  last_attempt false (some found) = exhausted

  -- The attempts in the order in which they happen; the last of the list is the last allowed.
  unfoldable pub retrying : Head → List (Attempt A) → Reading A
  unfolding is_settled
  retrying head [] = exhausted
  retrying head (attempt ∷ []) = last_attempt (is_settled head attempt) attempt.result
  retrying head (attempt ∷ next ∷ attempts) =
      let later = retrying attempt.moved (next ∷ attempts) in
      if is_settled head attempt then believed attempt.result else later

  -- Whether an answer is the result of an attempt that saw one HEAD before and after it and no
  -- unfinished `forget`.
  pub data IsTrusted (found : A) : Head → List (Attempt A) → Type 0 where
    now :
        {seen : Option Text} {attempt : Attempt A} {attempts : List (Attempt A)}
        → attempt.result ≡ some found
        → attempt.moved ≡ some seen
        → attempt.unfinished ≡ false
        → IsTrusted found (some seen) (attempt ∷ attempts)
    later :
        {head : Head} {attempt : Attempt A} {attempts : List (Attempt A)}
        → IsTrusted found attempt.moved attempts
        → IsTrusted found head (attempt ∷ attempts)

  IsTrusted-now :
      (head : Head) (attempt : Attempt A) (attempts : List (Attempt A)) {found : A}
      → attempt.result ≡ some found
      → is_settled head attempt ≡ true
      → IsTrusted found head (attempt ∷ attempts)
  unfolding is_settled
  IsTrusted-now head attempt attempts {found} result settled =
      let (seen, moved, same) = same_head_sound attempt.moved head (ground arith) in
      subst (λ h. IsTrusted found h (attempt ∷ attempts)) (sym same)
        (now result moved (ground arith))

  returned_injective : {a b : A} → returned a ≡ returned b → a ≡ b
  returned_injective h = cc

  believed-eq-returned : (o : Option A) {found : A} → believed o ≡ returned found → o ≡ some found
  believed-eq-returned none h = absurd (cc)
  believed-eq-returned (some a) h = ap some (returned_injective h)

  last_attempt-eq-returned :
      (b : Bool) (o : Option A) {found : A}
      → last_attempt b o ≡ returned found
      → (b ≡ true) × (o ≡ some found)
  last_attempt-eq-returned b none h = absurd (cc)
  last_attempt-eq-returned true (some a) h = (refl, ap some (returned_injective h))
  last_attempt-eq-returned false (some a) h = absurd (cc)

  -- However a `forget` goes on beside a read, what the read returns is the result of an attempt
  -- that saw the same HEAD before and after, and no unfinished `forget`.
  pub retrying-IsTrusted :
      (head : Head) (attempts : List (Attempt A)) (found : A)
      → retrying head attempts ≡ returned found
      → IsTrusted found head attempts
  unfolding retrying
  retrying-IsTrusted head [] found h = absurd (cc)
  retrying-IsTrusted head (attempt ∷ []) found h =
      let (settled, result) = last_attempt-eq-returned (is_settled head attempt) attempt.result h in
      IsTrusted-now head attempt [] result settled
  retrying-IsTrusted head (attempt ∷ next ∷ attempts) found h =
      elim (Bool-cases (is_settled head attempt)) [
        | inl e ↦
            let out : retrying head (attempt ∷ next ∷ attempts) ≡ believed attempt.result =
              rw (e, retrying) refl in
            IsTrusted-now head attempt (next ∷ attempts)
              (believed-eq-returned attempt.result (sym out ∙ h)) e
        | inr e ↦
            let out : retrying head (attempt ∷ next ∷ attempts)
                ≡ retrying attempt.moved (next ∷ attempts) =
              rw (e, retrying) refl in
            later (retrying-IsTrusted attempt.moved (next ∷ attempts) found (sym out ∙ h))
      ]
