-- ===== src/Core/Config.antt =====
-- pkg/core/config.go, and the configuration of the input in pkg/core/input.go.
use encarno.Base.{ℕ, Bool, List}
use encarno.Base.Bytes.{Bytes}
use encarno.Base.Double.{Double}
use encarno.Base.Int.{ℤ}
use encarno.Core.Output.Pipe.{OutputConf}
use encarno.Core.Workload.{WorkerConf}

-- `Predefined` cannot be configured.
pub record InputConf : Type 0 where
  pub payload_file : Bytes
  pub strings_file : Bytes
  pub enable_regexes : Bool
  pub iteration_limit : ℤ

pub record TlsConf : Type 0 where
  pub insecure_skip_verify : Bool
  pub tls_cipher_suites : List Bytes
  pub min_version : ℕ
  pub max_version : ℕ

pub record ProtoConf : Type 0 where
  pub driver : Bytes
  pub max_connections : ℕ
  pub timeout : ℕ
  pub tls_conf : TlsConf

pub record Configuration (D : Double) : Type 0 where
  pub input : InputConf
  pub output : OutputConf
  pub workers : WorkerConf D
  pub protocol : ProtoConf
