-- ===== src/Http/Dial/Names.antt =====
-- What URL a name stands for.
use encarno.Base.{arith, sym, ◌≢◌, ◌∷◌, ◌++◌, ◌≡◌, refl, ap, ◌∙◌, inl, inr, true, [], Bool-cases}
use mathlib.Core.Path.{ap₂}
use encarno.Base.Bytes.{Bytes, codes}
use encarno.Http.Dial.{with_scheme, begins_with, has_text}

-- The URL of a name: the name if it has a scheme in it, or else `http://` and the name.
pub data Named (hostname : Bytes) : Bytes → Type 0 where
  has_scheme :
      (before after : Bytes) → hostname ≡ before ++ codes "://" ++ after → Named hostname hostname
  no_scheme :
      ((before after : Bytes) → hostname ≢ before ++ codes "://" ++ after)
      → Named hostname (codes "http://" ++ hostname)

begins_with_prefix : (text after : Bytes) → begins_with text (text ++ after) ≡ true
unfolding begins_with
begins_with_prefix [] after = refl
begins_with_prefix (c ∷ text) after = ground (arith, begins_with_prefix text after)

has_text_inside : (text before after : Bytes) → has_text text (before ++ text ++ after) ≡ true
unfolding has_text begins_with
has_text_inside [] [] [] = refl
has_text_inside [] [] (x ∷ after) = refl
has_text_inside (c ∷ text) [] after = ground (arith, begins_with_prefix (c ∷ text) after)
has_text_inside text (b ∷ before) after = ground (arith, has_text_inside text before after)

begins_with_split :
    (text s : Bytes) → begins_with text s ≡ true → (after : Bytes) × (s ≡ text ++ after)
unfolding begins_with
begins_with_split [] s h = (s, refl)
begins_with_split (c ∷ text) [] h = absurd (ground (arith, h))
begins_with_split (c ∷ text) (d ∷ s) h =
    let same : c ≡ d = ground (arith, h) in
    let (after, e) = begins_with_split text s (ground (arith, h)) in (after, ap₂ ◌∷◌ (sym same) e)

has_text_split :
    (text s : Bytes)
    → has_text text s ≡ true
    → (before : Bytes) × (after : Bytes) × (s ≡ before ++ text ++ after)
unfolding has_text
has_text_split text [] h = let (after, e) = begins_with_split text [] h in ([], after, e)
has_text_split text (c ∷ s) h = elim (Bool-cases (begins_with text (c ∷ s))) [
  | inl b ↦ let (after, e) = begins_with_split text (c ∷ s) b in ([], after, e)
  | inr b ↦
      let (before, after, e) = has_text_split text s (ground (arith, b, h)) in
      (c ∷ before, after, ap (◌∷◌ c) e)
]

-- Every name has one.
pub with_scheme-Named : (hostname : Bytes) → Named hostname (with_scheme hostname)
unfolding with_scheme
with_scheme-Named hostname = elim (Bool-cases (has_text (codes "://") hostname)) [
  | inl b ↦
      let (before, after, e) = has_text_split (codes "://") hostname b in
      rw b (has_scheme before after e)
  | inr b ↦ rw b (
      no_scheme (λ before after e.
        ground
          (arith, b, ap (has_text (codes "://")) e, has_text_inside (codes "://") before after)))
]

pub Named-with_scheme : (hostname url : Bytes) → Named hostname url → with_scheme hostname ≡ url
unfolding with_scheme
Named-with_scheme hostname url (has_scheme before after e) =
    rw (ap (has_text (codes "://")) e ∙ has_text_inside (codes "://") before after) refl
Named-with_scheme hostname url (no_scheme none_such) =
    elim (Bool-cases (has_text (codes "://") hostname)) [
      | inl b ↦
          let (before, after, e) = has_text_split (codes "://") hostname b in
          absurd (none_such before after e)
      | inr b ↦ rw b refl
    ]
