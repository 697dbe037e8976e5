-- ===== src/Main.antt =====
-- cmd/encarno/main.go: what is put together from a configuration.
-- The file system is a function from names to contents. Files that cannot be opened are those that
-- do not exist.
pub mod Starts
pub mod Labels
pub mod Shutdown
mod Tests
use encarno.Base.{
  ℕ, Bool, true, false, ◌&&◌, ◌||◌, not, Option, none, some, [], if◌then◌else◌, Result, ok, panic,
  unsupported, no_file, ◌>>=◌,
}
use encarno.Base.Bytes.{Bytes, codes, equal}
use encarno.Base.Double.{Double}
use encarno.Core.Config.{InputConf, ProtoConf, Configuration}
use encarno.Core.Output.Pipe.{Output, OutputConf, new_output}
use encarno.Core.Status.{Status, new_status}
use encarno.Core.StrIndex.{StrIndex, new_string_index}
use encarno.Core.Workload.{WorkerConf, BaseWorkload, new_base_workload}
use encarno.Http.Pool.{ConnPool}
use encarno.Scenario.Closed.{ClosedWorkload, new_closed_workload}
use encarno.Scenario.Open.{OpenWorkload, new_open_workload}

abbrev pub Files : Type 0
Files = Bytes → Option Bytes

abbrev pub write_file : Files → Bytes → Bytes → Files
write_file files name content other = if equal name other then some content else files other

-- The head of `Run`: the output goes on with the strings of the input.
unfoldable pub copy_strings : InputConf → OutputConf → Files → Result Files
copy_strings input output files =
    let copied : Result Files = elim (files input.strings_file) [
      | none ↦ panic (no_file input.strings_file)
      | some content ↦ ok (write_file files output.strings_file content)
    ] in
    if not (equal input.strings_file []) && not (equal output.strings_file [])
    then copied
    else ok files

-- What `NewNibMaker` makes: nibs that share a pool, or dummies.
pub data NibMaker : Type 0 where
  dummy_maker : NibMaker
  http_maker : ConnPool → NibMaker

-- `NewConnectionPool`, as far as a pool keeps connections.
abbrev pub new_connection_pool : ℕ → ConnPool
new_connection_pool max_connections = record { idle = []; max_connections = max_connections }

unfoldable pub new_nib_maker : ProtoConf → Result NibMaker
new_nib_maker protocol =
    if equal protocol.driver (codes "dummy")
    then ok dummy_maker
    else if equal protocol.driver (codes "http")
    then ok (http_maker (new_connection_pool protocol.max_connections))
    else panic (unsupported protocol.driver)

-- `NewInput` up to its goroutine: the file of payloads is opened, and the strings are loaded.
unfoldable pub new_input : InputConf → Files → Result (Option StrIndex)
new_input config files =
    let strings : Result (Option StrIndex) =
      if equal config.strings_file []
      then ok none
      else new_string_index config.strings_file true (files config.strings_file) >>= λ s.
          ok (some s) in
    elim (files config.payload_file) [
      | none ↦ panic (no_file config.payload_file)
      | some payload ↦ strings
    ]

module _ (D : Double) where
  pub data WorkerSpawner : Type 0 where
    open_spawner : OpenWorkload D → WorkerSpawner
    closed_spawner : ClosedWorkload D → WorkerSpawner

  -- The `switch` of `NewWorkload`.
  unfoldable pub spawner_for : WorkerConf D → BaseWorkload D → Result WorkerSpawner
  spawner_for workers base =
      if equal workers.mode (codes "open")
      then ok (open_spawner (new_open_workload D workers base))
      else if equal workers.mode (codes "closed")
      then ok (closed_spawner (new_closed_workload D base))
      else panic (unsupported workers.mode)

  -- `NewWorkload`. A shared input is opened at once, before the mode is looked at.
  unfoldable pub new_workload : WorkerConf D → InputConf → Files → Status → ℕ → Result WorkerSpawner
  new_workload workers input files status now = do
    opened ← if input.enable_regexes then ok none else new_input input files
    spawner_for workers (new_base_workload D input.enable_regexes workers status now)

  -- What `Run` has when it starts the controller.
  pub record Started : Type 0 where
    pub files : Files
    pub output : Output
    pub nib_maker : NibMaker
    pub controller : WorkerSpawner

  unfoldable pub start : Configuration D → Files → ℕ → Result Started
  start config files now = do
    files' ← copy_strings config.input config.output files
    output ← new_output config.output (files' config.output.strings_file)
    nib_maker ← new_nib_maker config.protocol
    controller ← new_workload config.workers config.input files' new_status now
    ok (record { files = files'; output = output; nib_maker = nib_maker; controller = controller })
