-- ===== src/Main/Labels.antt =====
-- The numbers of the input's strings in the output.
use encarno.Base.{
  arith, ◌≤◌, length, get_elem?-some, ℕ, ◌≡◌, ◌≢◌, refl, ap, sym, ◌∙◌, subst, Bool, false, Option,
  none, some, List, [], ◌∷◌, ok, bind-eq-ok, get_elem?-append, get_elem?,
}
use encarno.Base.Bytes.{Bytes, equal_ne}
use encarno.Base.Double.{Double}
use encarno.Base.Scanner.{scan}
use encarno.Core.Config.{Configuration}
use encarno.Core.Output.{OutputItem}
use encarno.Core.Output.Pipe.{Output, OutputConf, new_output, push_items}
use encarno.Core.Output.Pipe.Growth.{Grows, push_items-Grows}
use encarno.Core.StrIndex.{
  StrIndex, get, new_string_index, load_existing, load, placeholder, add_lines,
}
use encarno.Core.StrIndex.Lookup.{get_indexed}
use encarno.Core.StrIndex.Reload.{index-add_lines}
use encarno.Main.Starts.{CanStart, start_lem}
use encarno.Main.{Files, new_input, Started, start}

new_string_index-scan :
    (name : Bytes) (readonly : Bool) (content : Bytes) (s : StrIndex)
    → name ≢ []
    → new_string_index name readonly (some content) ≡ ok s
    → (texts : List Bytes) × (scan content ≡ ok texts) × (s.index ≡ [] ∷ texts)
unfolding new_string_index load_existing load
new_string_index-scan name readonly content s e h =
    let ret = placeholder name readonly (some content) in
    let (texts, q, r) = bind-eq-ok (scan content) _ (rw (equal_ne name [] e) at h) in
    let same : add_lines ret texts ≡ s = cc in
    (texts, q, ap (λ (s : StrIndex). s.index) (sym same) ∙ index-add_lines ret texts)

same_str_index : {m n : Output} → ok n ≡ ok m → m.str_index ≡ n.str_index
same_str_index {m = m} {n = n} h = let same : m ≡ n = cc in ap (λ (m : Output). m.str_index) same

new_output-index :
    (conf : OutputConf) (disk : Option Bytes) (m : Output)
    → conf.strings_file ≢ []
    → new_output conf disk ≡ ok m
    → (t : StrIndex) × (new_string_index conf.strings_file false disk ≡ ok t)
      × (m.str_index ≡ some t)
unfolding new_output
new_output-index conf disk m e h =
    let (t, q, r) =
      bind-eq-ok (new_string_index conf.strings_file false disk) _
        (rw (equal_ne conf.strings_file [] e) at h) in
    (t, q, same_str_index r)

ok_same : {A : Type 0} {a b : A} → ok a ≡ ok b → a ≡ b
ok_same h = cc

still_found :
    (t : StrIndex) (x : Option StrIndex) (i : ℕ) (l : Bytes)
    → Grows (some t) x
    → get_elem? t.index i ≡ some l
    → (u : StrIndex) × (x ≡ some u) × (get u i ≡ ok l)
still_found t none i l g h = elim g [ ]
still_found t (some u) i l (more, e) h =
    (u, refl, get_indexed u i l (rw e (get_elem?-append t.index more i h)))

module _ (D : Double) where
  -- The configuration names strings files for the input and the output, a driver and a mode that
  -- there are, and files that can be read, and the output can be opened on the strings of the
  -- input; and the output takes some results. Then the program starts with that output. Every number up
  -- to the count of the texts in the strings file of the input leads to a text in the index that a
  -- reader of the input loads, and to the same text in the index of the output, whatever the results have
  -- added to it.
  pub start-get :
      (marshal : OutputItem → Bytes) (seconds : ℕ → ℕ) (config : Configuration D) (files : Files)
      (now : ℕ) (items : List OutputItem) (m n : Output) (i : ℕ) (c : CanStart D config files m)
      → push_items marshal seconds m items ≡ ok n
      → i ≤ length c.texts
      → (st : Started D) × (s : StrIndex) × (t : StrIndex) × (l : Bytes) × (start D config files now
          ≡ ok st)
        × (st.output ≡ m)
        × (new_input config.input st.files ≡ ok (some s))
        × (n.str_index ≡ some t)
        × (get s i ≡ ok l)
        × (get t i ≡ ok l)
  start-get marshal seconds config files now items m n i c p h =
      let (st, s, starts, same_output, opened, index) = start_lem D config files now m c in
      let (l, e) = get_elem?-some ([] ∷ c.texts) i (omega arith) in
      let (t, loaded, t_index) =
        new_output-index config.output (some c.content) m c.output_named c.output_opened in
      let (texts, scanned, texts_index) =
        new_string_index-scan config.output.strings_file false c.content t c.output_named loaded in
      let same : texts ≡ c.texts = ok_same (sym scanned ∙ c.scanned) in
      let grows =
        subst (λ (x : Option StrIndex). Grows x n.str_index) t_index
          (push_items-Grows marshal seconds m n items p) in
      let (u, u_index, found) =
        still_found t n.str_index i l grows
          (ap (λ (xs : List Bytes). get_elem? xs i) (texts_index ∙ ap (λ xs. [] ∷ xs) same) ∙ e) in
      (
        st,
        s,
        u,
        l,
        starts,
        same_output,
        opened,
        u_index,
        get_indexed s i l (ap (λ (xs : List Bytes). get_elem? xs i) index ∙ e),
        found,
      )
