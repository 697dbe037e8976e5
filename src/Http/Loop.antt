-- ===== src/Http/Loop.antt =====
-- pkg/http/conn.go: a connection, with the goroutine that reads from the network.
-- What it reads goes to `Read` through a channel with no buffer. Times are nanoseconds since the
-- epoch.
pub mod Invariant
pub mod Steps
pub mod Streams
pub mod Tallies
mod Tests
use encarno.Base.{
  ℕ, ◌+◌, Bool, true, false, ◌&&◌, ◌||◌, Option, none, some, List, [], ◌++◌, ltb, leb, ◌==◌,
  if◌then◌else◌, length,
}
use encarno.Base.Bytes.{Bytes}
use encarno.Base.Int.{ℤ, pos, negsuc}
use encarno.Http.Pool.{Conn, new_conn}

-- `closes` counts the calls of `Close` of the underlying connection.
pub record BufferedConn : Type 0 where
  pub conn : Conn
  pub read_record_limit : ℤ
  pub closed : Bool
  pub closes : ℕ

abbrev pub new_buffered_conn : BufferedConn
new_buffered_conn = record {
  conn = new_conn;
  read_record_limit = negsuc 0;
  closed = false;
  closes = 0;
}

-- The size of `buf`.
abbrev pub chunk_size : ℕ
chunk_size = 4096

-- Where `readLoop` stands: at the head of its loop, in the read from the network, with what it has
-- read and has still to time, to count, and to record, in the send to the channel, after the loop,
-- and at its end. A send to a closed channel is a panic.
pub data Loop : Type 0 where
  checking : Loop
  reading : Loop
  got : Bytes → Loop
  timed : Bytes → Loop
  counted : Bytes → Loop
  sending : Bytes → Loop
  closing : Loop
  ended : Loop
  crashed : Bytes → Loop

unfoldable pub check : Conn → Loop
check r = if r.canceled then closing else reading

-- `r.ReadRecordLimit <= 0 || r.ReadLen <= r.ReadRecordLimit`
unfoldable pub is_within : ℤ → ℕ → Bool
is_within (pos limit) read_len = limit == 0 || leb read_len limit
is_within (negsuc limit) read_len = true

abbrev pub first_or : Option ℕ → ℕ → ℕ
first_or none now = now
first_or (some first_read) now = first_read

-- `readLoop` from a read that has no error to the send, in three steps.
unfoldable pub time_chunk : BufferedConn → ℕ → BufferedConn
time_chunk r now = record r {
  conn = record r.conn { first_read = some (first_or r.conn.first_read now) };
}

unfoldable pub count_chunk : BufferedConn → Bytes → BufferedConn
count_chunk r buf = record r { conn = record r.conn { read_len = r.conn.read_len + length buf } }

unfoldable pub record_chunk : BufferedConn → Bytes → BufferedConn
record_chunk r buf = record r {
  conn = record r.conn {
    read_recorded =
        if is_within r.read_record_limit r.conn.read_len && ltb 0 (length buf)
        then r.conn.read_recorded ++ buf
        else r.conn.read_recorded;
  };
}

-- `Close`.
unfoldable pub close_conn : BufferedConn → BufferedConn
close_conn r =
    let r' = record r { conn = record r.conn { canceled = true } } in
    if r.closed then r' else record r' { closed = true; closes = r.closes + 1 }
