-- ===== src/Store/Tags/Words.antt =====
-- What a tag's message says when it is read back.
use mathlib.Core.List.{append_assoc}
use ha_dashboard_history.Base.{
  ℕ, ◌≡◌, refl, ap, ◌∙◌, Bool, true, false, ◌&&◌, not, [], ◌∷◌, ◌++◌, none, some, Text,
  after_prefix, strip, lstrip, rstrip, is_space, eqb, arith, rstrip-append_blank, Bool-cases, inl,
  inr, eqb_iff, nat_eq,
}
use ha_dashboard_history.Store.Tags.{partition, blank_line, version_body, version_words}

-- Whether a text holds no two line ends in a row.
abbrev pub no_blank_line : Text → Bool
no_blank_line [] = true
no_blank_line (c ∷ []) = true
no_blank_line (c ∷ d ∷ s) = not (eqb c b'\n' && eqb d b'\n') && no_blank_line (d ∷ s)

strip-newline : (s : Text) → strip (b'\n' ∷ s) ≡ strip s
unfolding strip lstrip rstrip is_space
strip-newline s = by_rest (rstrip s) refl
  where
    by_rest : (r : Text) → rstrip s ≡ r → strip (b'\n' ∷ s) ≡ strip s
    by_rest [] e = rw e refl
    by_rest (c ∷ r) e = rw e refl

rstrip-newline : rstrip (b'\n' ∷ []) ≡ []
unfolding rstrip is_space
rstrip-newline = refl

rstrip-cons : (c : ℕ) (s t : Text) → rstrip s ≡ rstrip t → rstrip (c ∷ s) ≡ rstrip (c ∷ t)
unfolding rstrip
rstrip-cons c s t h = rw h refl

no_prefix :
    (c d : ℕ) (s : Text)
    → (eqb c b'\n' && eqb d b'\n') ≡ false
    → after_prefix blank_line (c ∷ d ∷ s) ≡ none
unfolding after_prefix
no_prefix c d s h = ground arith

partition-miss :
    (c : ℕ) (s : Text)
    → after_prefix blank_line (c ∷ s) ≡ none
    → partition blank_line (c ∷ s) ≡ (c ∷ (partition blank_line s).0, (partition blank_line s).1)
unfolding partition
partition-miss c s h = rw (h, partition) refl

partition-hit : (rest : Text) → partition blank_line (blank_line ++ rest) ≡ ([], rest)
unfolding partition after_prefix
partition-hit rest = refl

-- What is left of the parts of a text, when the spaces around them are gone.
abbrev AreParts : Text → Text → Text × Text → Type 0
AreParts title rest (before, behind) = (rstrip before ≡ rstrip title) × (strip behind ≡ strip rest)

parts_of_newline :
    (rest : Text) → AreParts (b'\n' ∷ []) rest (partition blank_line (b'\n' ∷ (blank_line ++ rest)))
parts_of_newline rest =
    rw (partition-hit (b'\n' ∷ rest)) (unfold rstrip is_space in refl, strip-newline rest)

parts_of_cons :
    (c : ℕ) (title rest s : Text)
    → after_prefix blank_line (c ∷ s) ≡ none
    → AreParts title rest (partition blank_line s)
    → AreParts (c ∷ title) rest (partition blank_line (c ∷ s))
parts_of_cons c title rest s miss (b, e) = rw (partition-miss c s miss) (rstrip-cons c _ title b, e)

-- The first blank line of a title without one, followed by a blank line, is about where it ends.
partition-AreParts :
    (title rest : Text)
    → no_blank_line title ≡ true
    → AreParts title rest (partition blank_line (title ++ (blank_line ++ rest)))
partition-AreParts [] rest h = rw (partition-hit rest) (refl, refl)
partition-AreParts (c ∷ []) rest h = elim (Bool-cases (eqb c b'\n')) [
  | inl e ↦ let same : c ≡ b'\n' = (eqb_iff c b'\n').0 e in rw same (parts_of_newline rest)
  | inr e ↦
      parts_of_cons c [] rest (blank_line ++ rest) (no_prefix c b'\n' (b'\n' ∷ rest) (rw e refl))
        (partition-AreParts [] rest refl)
]
partition-AreParts (c ∷ d ∷ s) rest h =
    parts_of_cons c (d ∷ s) rest (d ∷ (s ++ (blank_line ++ rest)))
      (no_prefix c d (s ++ (blank_line ++ rest)) (ground arith))
      (partition-AreParts (d ∷ s) rest (ground arith))

strip-rstrip_eq : (s t : Text) → rstrip s ≡ rstrip t → strip s ≡ strip t
unfolding strip
strip-rstrip_eq s t h = ap lstrip h

stripped_parts :
    (title rest description : Text) (p : Text × Text)
    → AreParts title rest p
    → strip rest ≡ strip description
    → ◌≡◌ {A = Text × Text} (strip p.0, strip p.1) (strip title, strip description)
stripped_parts title rest description p (b, e) same =
    let e' : strip p.1 ≡ strip description = e ∙ same in rw (strip-rstrip_eq p.0 title b, e') refl

-- A title without a blank line in it, and any description, are read back from the message of a
-- tag less the spaces around them, whatever blank end the message has been given.
pub version_words-version_body :
    (title description end : Text)
    → no_blank_line title ≡ true
    → rstrip end ≡ []
    → version_words (some (version_body title description ++ end))
      ≡ (strip title, strip description)
unfolding version_words version_body
version_words-version_body title description end h blank =
    let assoc : (title ++ (blank_line ++ description)) ++ end
        ≡ title ++ (blank_line ++ (description ++ end)) =
      append_assoc title (blank_line ++ description) end in
    let parts : AreParts title (description ++ end)
        (partition blank_line (title ++ (blank_line ++ (description ++ end)))) =
      partition-AreParts title (description ++ end) h in
    let same : strip (description ++ end) ≡ strip description =
      strip-rstrip_eq (description ++ end) description
        (rstrip-append_blank description end blank) in
    rw assoc (stripped_parts title (description ++ end) description _ parts same)
