-- ===== src/Core/Input/Resolved.antt =====
-- pkg/core/input.go: what `ResolveStrings` makes of an item.
use encarno.Base.{
  ℕ, zero, suc, ◌<◌, ◌≡◌, refl, ◌≢◌, ◌⊎◌, inl, inr, Option, [], ◌∷◌, arith, Result, ok, ◌>>=◌,
  Result-cases, bind-eq-ok,
}
use encarno.Base.Bytes.{Bytes, equal, equal_iff}
use encarno.Core.Input.{PayloadItem, get_string, resolve_text, resolve_strings}
use encarno.Core.StrIndex.{StrIndex}

-- The text that an item has, given or by its index.
abbrev pub TextOf : Option StrIndex → ℕ → Bytes → Bytes → Type 0
TextOf index idx given text =
    ((given ≢ []) × (text ≡ given))
    ⊎ ((given ≡ []) × (idx ≡ 0) × (text ≡ []))
    ⊎ ((given ≡ []) × (0 < idx) × (get_string index idx ≡ ok text))

resolve_text-TextOf :
    (index : Option StrIndex) (idx : ℕ) (given : Bytes) (idx' : ℕ) (text : Bytes)
    → resolve_text index idx given ≡ ok (idx', text)
    → TextOf index idx given text × (resolve_text index idx' text ≡ ok (idx', text))
unfolding resolve_text
resolve_text-TextOf index idx given idx' text h = elim (Result-cases (get_string index idx)) [
  | inl (t, e) ↦ ground (arith, h, e, equal_iff given [], equal_iff text [])
  | inr (p, e) ↦ ground (arith, h, e, equal_iff given [], equal_iff text [])
]

-- When `ResolveStrings` returns, the address and the label are the given ones, or what their
-- indexes stand for, the payload is as it was, and calling it once more changes nothing.
pub resolve_strings_lem :
    {Re : Type 0} (i j : PayloadItem Re)
    → resolve_strings i ≡ ok j
    → TextOf i.str_index i.address_idx i.address j.address
      × TextOf i.str_index i.label_idx i.label j.label
      × (j.payload ≡ i.payload)
      × (resolve_strings j ≡ ok j)
unfolding resolve_strings
resolve_strings_lem i j h =
    let (a, ea, ha) = bind-eq-ok (resolve_text i.str_index i.address_idx i.address) _ h in
    let (l, el, hl) = bind-eq-ok (resolve_text i.str_index i.label_idx i.label) _ ha in
    let (ta, again_a) = resolve_text-TextOf i.str_index i.address_idx i.address a.0 a.1 ea in
    let (tl, again_l) = resolve_text-TextOf i.str_index i.label_idx i.label l.0 l.1 el in
    ground (arith, hl, ta, tl, again_a, again_l)

-- The index and the text of an item, resolved: a given text goes before its index, and neither is
-- the empty text.
abbrev pub given_text : Option StrIndex → ℕ → Bytes → Result (ℕ × Bytes)
given_text index idx (c ∷ cs) = ok (idx, c ∷ cs)
given_text index zero [] = ok (zero, [])
given_text index (suc n) [] = get_string index (suc n) >>= λ text. ok (zero, text)

resolve_text-given_text :
    (index : Option StrIndex) (idx : ℕ) (given : Bytes)
    → resolve_text index idx given ≡ given_text index idx given
unfolding resolve_text equal
resolve_text-given_text index idx (c ∷ cs) = refl
resolve_text-given_text index zero [] = refl
resolve_text-given_text index (suc n) [] = elim (Result-cases (get_string index (suc n))) [
  | inl (t, e) ↦ ground (arith, e)
  | inr (why, e) ↦ ground (arith, e)
]

pub resolve_strings_given :
    {Re : Type 0} (i : PayloadItem Re)
    → resolve_strings i ≡ (
        given_text i.str_index i.address_idx i.address >>= λ addr.
        given_text i.str_index i.label_idx i.label >>= λ lab.
        ok (record i { address_idx = addr.0; address = addr.1; label_idx = lab.0; label = lab.1 }))
unfolding resolve_strings
resolve_strings_given i =
    rw
      (
        resolve_text-given_text i.str_index i.address_idx i.address,
        resolve_text-given_text i.str_index i.label_idx i.label,
      )
      refl
