-- ===== src/Main/Starts.antt =====
-- When the program starts.
use encarno.Base.{
  ℕ, ◌≡◌, ◌≢◌, refl, ap, ◌∙◌, ◌⊎◌, inl, inr, Bool, true, false, Option, none, some, List, [], ◌∷◌,
  if◌then◌else◌, Bool-cases, Result, ok, ◌>>=◌,
}
use encarno.Base.Bytes.{Bytes, codes, equal, equal_ne, equal_refl}
use encarno.Base.Double.{Double}
use encarno.Base.Scanner.{scan}
use encarno.Core.Config.{InputConf, ProtoConf, Configuration}
use encarno.Core.Output.Pipe.{Output, OutputConf, new_output}
use encarno.Core.Status.{new_status}
use encarno.Core.StrIndex.{StrIndex, new_string_index, load_existing, load, placeholder, add_lines}
use encarno.Core.StrIndex.Reload.{index-add_lines}
use encarno.Core.Workload.{WorkerConf, BaseWorkload, new_base_workload}
use encarno.Main.{
  Files, write_file, copy_strings, new_nib_maker, new_input, WorkerSpawner, spawner_for,
  new_workload, Started, start,
}

abbrev pub IsDriver : Bytes → Type 0
IsDriver driver = (driver ≡ codes "dummy") ⊎ (driver ≡ codes "http")

abbrev pub IsMode : Bytes → Type 0
IsMode mode = (mode ≡ codes "open") ⊎ (mode ≡ codes "closed")

equal_to : {b : Bytes} (a : Bytes) → b ≡ a → equal b a ≡ true
equal_to a e = ap (λ b. equal b a) e ∙ equal_refl a

new_string_index_lem :
    (name : Bytes) (readonly : Bool) (content : Bytes) (texts : List Bytes)
    → name ≢ []
    → scan content ≡ ok texts
    → (s : StrIndex) × (new_string_index name readonly (some content) ≡ ok s)
      × (s.index ≡ [] ∷ texts)
unfolding new_string_index load_existing load
new_string_index_lem name readonly content texts e h =
    let ret = placeholder name readonly (some content) in
    (add_lines ret texts, rw (equal_ne name [] e, h) refl, index-add_lines ret texts)

pub copy_strings_lem :
    (input : InputConf) (output : OutputConf) (files : Files) (content : Bytes)
    → input.strings_file ≢ []
    → output.strings_file ≢ []
    → files input.strings_file ≡ some content
    → copy_strings input output files ≡ ok (write_file files output.strings_file content)
unfolding copy_strings
copy_strings_lem input output files content e f q =
    rw (q, equal_ne input.strings_file [] e, equal_ne output.strings_file [] f) refl

-- A call that does not panic.
abbrev pub Returns : {A : Type 0} → Result A → Type 0
Returns {A = A} r = (a : A) × (r ≡ ok a)

if_Returns :
    {A : Type 0} (b : Bool) (a : A) (r : Result A)
    → (b ≡ true) ⊎ Returns r
    → Returns (if b then ok a else r)
if_Returns true a r h = (a, refl)
if_Returns false a r (inl e) = absurd (cc e)
if_Returns false a r (inr h) = h

new_nib_maker_lem :
    (protocol : ProtoConf) → IsDriver protocol.driver → Returns (new_nib_maker protocol)
unfolding new_nib_maker
new_nib_maker_lem protocol (inl e) = if_Returns _ _ _ (inl (equal_to (codes "dummy") e))
new_nib_maker_lem protocol (inr e) =
    if_Returns _ _ _ (inr (if_Returns _ _ _ (inl (equal_to (codes "http") e))))

new_input_lem :
    (conf : InputConf) (files : Files) (payload : Bytes) (s : StrIndex)
    → conf.strings_file ≢ []
    → files conf.payload_file ≡ some payload
    → new_string_index conf.strings_file true (files conf.strings_file) ≡ ok s
    → new_input conf files ≡ ok (some s)
unfolding new_input
new_input_lem conf files payload s e q h =
    rw (q, new_input) (rw (equal_ne conf.strings_file [] e) (rw h refl))

write_file-same :
    (files : Files) (name content other : Bytes)
    → files other ≡ some content
    → write_file files name content other ≡ some content
write_file-same files name content other q = elim (Bool-cases (equal name other)) [
  | inl b ↦ rw b refl
  | inr b ↦ rw b q
]

write_file_keeps :
    (files : Files) (name content other : Bytes) {old : Bytes}
    → files other ≡ some old
    → (new : Bytes) × (write_file files name content other ≡ some new)
write_file_keeps files name content other {old = old} q = elim (Bool-cases (equal name other)) [
  | inl b ↦ (content, rw b refl)
  | inr b ↦ (old, rw b q)
]

module _ (D : Double) where
  spawner_for_lem :
      (workers : WorkerConf D) (base : BaseWorkload D)
      → IsMode workers.mode
      → Returns (spawner_for D workers base)
  unfolding spawner_for
  spawner_for_lem workers base (inl e) = if_Returns _ _ _ (inl (equal_to (codes "open") e))
  spawner_for_lem workers base (inr e) =
      if_Returns _ _ _ (inr (if_Returns _ _ _ (inl (equal_to (codes "closed") e))))

  new_workload_lem :
      (workers : WorkerConf D) (input : InputConf) (files : Files) (now : ℕ) (s : Option StrIndex)
      → IsMode workers.mode
      → new_input input files ≡ ok s
      → Returns (new_workload D workers input files new_status now)
  unfolding new_workload
  new_workload_lem workers input files now s mode h = by_sharing input.enable_regexes
    where
      by_sharing :
          (own : Bool)
          → Returns {A = WorkerSpawner D} (
              (if own then ok none else new_input input files) >>= λ (opened : Option StrIndex).
              spawner_for D workers
                (new_base_workload D input.enable_regexes workers new_status now))
      by_sharing true = spawner_for_lem workers _ mode
      by_sharing false = rw h (spawner_for_lem workers _ mode)

  -- The configuration names strings files for the input and the output, a driver and a mode that
  -- there are, and files that can be read, and the output can be opened on the strings of the input.
  pub record CanStart (config : Configuration D) (files : Files) (m : Output) : Type 0 where
    pub content : Bytes
    pub texts : List Bytes
    pub payload : Bytes
    pub input_named : config.input.strings_file ≢ []
    pub output_named : config.output.strings_file ≢ []
    pub read : files config.input.strings_file ≡ some content
    pub scanned : scan content ≡ ok texts
    pub input_read : files config.input.payload_file ≡ some payload
    pub driver : IsDriver config.protocol.driver
    pub mode : IsMode config.workers.mode
    pub output_opened : new_output config.output (some content) ≡ ok m

  pub start_lem :
      (config : Configuration D) (files : Files) (now : ℕ) (m : Output)
      (c : CanStart config files m)
      → (st : Started D) × (s : StrIndex) × (start D config files now ≡ ok st)
        × (st.output ≡ m)
        × (new_input config.input st.files ≡ ok (some s))
        × (s.index ≡ [] ∷ c.texts)
  unfolding start
  start_lem config files now m c =
      let files' = write_file files config.output.strings_file c.content in
      let (s, loaded, index) =
        new_string_index_lem config.input.strings_file true c.content c.texts c.input_named
          c.scanned in
      let input_same =
        write_file-same files config.output.strings_file c.content config.input.strings_file
          c.read in
      let output_same : files' config.output.strings_file ≡ some c.content =
        rw (equal_refl config.output.strings_file) refl in
      let (payload, kept) =
        write_file_keeps files config.output.strings_file c.content config.input.payload_file
          c.input_read in
      let opened =
        new_input_lem config.input files' payload s c.input_named kept
          (ap (new_string_index config.input.strings_file true) input_same ∙ loaded) in
      let copied =
        copy_strings_lem config.input config.output files c.content c.input_named c.output_named
          c.read in
      let (nib_maker, n) = new_nib_maker_lem config.protocol c.driver in
      let (controller, w) =
        new_workload_lem config.workers config.input files' now (some s) c.mode opened in
      (
        record { files = files'; output = m; nib_maker = nib_maker; controller = controller },
        s,
        rw copied (rw output_same (rw c.output_opened (rw n (rw w refl)))),
        refl,
        opened,
        index,
      )
