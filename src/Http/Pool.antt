-- ===== src/Http/Pool.antt =====
-- pkg/http/conn.go: the idle connections of a pool.
-- Connections are objects that several parts of the program hold: here numbers, with a store of what
-- they are. A channel of idle connections is the list of what its buffer holds, of at least one place;
-- a send that blocks is `none`.
pub mod Channels
pub mod Sharing
mod Tests
use encarno.Base.{
  ℕ, Bool, true, false, Option, none, some, List, [], ◌∷◌, ◌++◌, ltb, ◌==◌, if◌then◌else◌, length,
}
use encarno.Base.Bytes.{Bytes}
use encarno.Base.Map.{Map, lookup, insert}

-- The fields of `BufferedConn` that outlive a request, or that `Reset` clears.
pub record Conn : Type 0 where
  pub read_recorded : Bytes
  pub read_len : ℕ
  pub first_read : Option ℕ
  pub err : Option Bytes
  pub canceled : Bool

unfoldable pub set_err : Bytes → Conn → Conn
set_err err r = record r { err = some err; canceled = true }

unfoldable pub reset : Conn → Conn
reset r = record r { read_len = 0; read_recorded = []; first_read = none }

abbrev pub new_conn : Conn
new_conn = record {
  read_recorded = [];
  read_len = 0;
  first_read = none;
  err = none;
  canceled = false;
}

pub record ConnPool : Type 0 where
  pub idle : Map (List ℕ)
  pub max_connections : ℕ

-- The start of `Get`, under its mutex.
unfoldable pub channel_for : ConnPool → Bytes → ConnPool × List ℕ
channel_for p hostname = elim (lookup hostname p.idle) [
  | some ch ↦ (p, ch)
  | none ↦ (record p { idle = insert hostname [] p.idle }, [])
]

-- The `select` of `Get`: the connection to reuse, or `none` where a new one has to be opened. One
-- that has failed is taken out and not used.
unfoldable pub get_idle : ConnPool → (ℕ → Conn) → Bytes → ConnPool × Option ℕ
get_idle p conns hostname =
    let (p', ch) = channel_for p hostname in
    elim ch [
      | [] ↦ (p', none)
      | conn ∷ rest ↦ (
        record p' { idle = insert hostname rest p'.idle },
        elim (conns conn).err [ none ↦ some conn | some _ ↦ none ],
      )
    ]

-- `Return`.
unfoldable pub return_conn : ConnPool → (ℕ → Conn) → Bytes → ℕ → Option ConnPool
return_conn p conns hostname conn =
    let sent : Option ConnPool = elim (lookup hostname p.idle) [
      | none ↦ none
      | some ch ↦
          if ltb (length ch) p.max_connections
          then some (record p { idle = insert hostname (ch ++ conn ∷ []) p.idle })
          else none
    ] in
    if (conns conn).canceled then some p else sent
