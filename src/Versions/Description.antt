-- ===== src/Versions/Description.antt =====
-- versions.py: `automatic_description` and `read_description`, the marker of versions that
-- nobody asked for.
use ha_dashboard_history.Base.{
  ℕ, ◌≡◌, refl, ap, sym, ◌∙◌, [], ◌∷◌, ◌++◌, Bool, true, false, Text, codes, if◌then◌else◌, is_nil,
  strip, lstrip, rstrip, partition_at, list_beq, ◌==◌, nat_eq, list_eq, rstrip_idem,
  rstrip-append_blank, rstrip-append_cons, is_space,
}

abbrev pub automatic : Text
automatic = codes "dashboard-history: automatic"

-- `f"{AUTOMATIC}\n{text}".rstrip() if text else AUTOMATIC`
unfoldable pub automatic_description : Text → Text
automatic_description text = if is_nil text then automatic else rstrip (automatic ++ (b'\n' ∷ text))

-- What a person wrote, and whether the version was made automatically.
unfoldable pub read_description : Text → Text × Bool
read_description text =
    let (head, rest) = partition_at b'\n' text in
    if strip head == automatic then (strip rest, true) else (strip text, false)

strip-rstrip : (s : Text) → strip (rstrip s) ≡ strip s
unfolding strip
strip-rstrip s = ap lstrip (rstrip_idem s)

read-marker : (r : Text) → read_description (automatic ++ (b'\n' ∷ r)) ≡ (strip r, true)
unfolding read_description partition_at strip lstrip rstrip is_space list_beq
read-marker r = refl

read-automatic : read_description automatic ≡ ([], true)
unfolding read_description partition_at strip lstrip rstrip is_space list_beq
read-automatic = refl

rstrip-newline-blank : (t : Text) → rstrip t ≡ [] → rstrip (b'\n' ∷ t) ≡ []
unfolding rstrip is_space
rstrip-newline-blank t h = rw h

rstrip-newline-cons :
    (t : Text) (x : ℕ) (r : Text) → rstrip t ≡ x ∷ r → rstrip (b'\n' ∷ t) ≡ b'\n' ∷ x ∷ r
unfolding rstrip
rstrip-newline-cons t x r h = rw h

read-stripped :
    (t r : Text)
    → rstrip t ≡ r
    → read_description (rstrip (automatic ++ (b'\n' ∷ t))) ≡ (strip t, true)
read-stripped t [] h =
    let blank : rstrip automatic ≡ automatic = unfold rstrip is_space in refl in
    let none_left : strip t ≡ [] = unfold strip lstrip in rw h in
    rw (rstrip-append_blank automatic (b'\n' ∷ t) (rstrip-newline-blank t h), blank)
      (rw none_left read-automatic)
read-stripped t (x ∷ r) h =
    rw (rstrip-append_cons automatic (b'\n' ∷ t) b'\n' (x ∷ r) (rstrip-newline-cons t x r h))
      (read-marker (x ∷ r) ∙ ap (λ s. (s, true)) (ap strip (sym h) ∙ strip-rstrip t))

-- Whatever somebody wrote into an automatic version, its stored description reads back as that
-- text, less the spaces around it, and as automatic.
pub read_description-automatic_description :
    (text : Text) → read_description (automatic_description text) ≡ (strip text, true)
unfolding automatic_description
read_description-automatic_description [] =
    let e : strip [] ≡ [] = unfold strip lstrip rstrip in refl in rw e read-automatic
read_description-automatic_description (c ∷ s) = read-stripped (c ∷ s) _ refl
