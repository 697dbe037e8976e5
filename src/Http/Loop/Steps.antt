-- ===== src/Http/Loop/Steps.antt =====
-- pkg/http/conn.go: the steps of a connection's goroutines, one assignment to a shared field each.
use encarno.Base.{
  ℕ, ◌+◌, ◌-◌, ◌≤◌, ◌≡◌, Bool, true, false, ◌||◌, Option, none, some, [], ◌++◌, length, take,
}
use encarno.Base.Bytes.{Bytes}
use encarno.Http.Loop.{
  BufferedConn, Loop, checking, reading, got, timed, counted, sending, closing, ended, crashed,
  chunk_size, check, time_chunk, count_chunk, record_chunk, close_conn,
}
use encarno.Http.Pool.{set_err}

-- Where a `Reset` stands: there is none, or it has set the length, or has emptied the record too.
pub data Resetting : Type 0 where
  calm : Resetting
  zeroed : Resetting
  emptied : Resetting

abbrev pub is_resetting : Resetting → Bool
is_resetting calm = false
is_resetting g = true

-- What `readLoop` has in its hands that is still to be counted, or to be recorded.
pub data Stage : Type 0 where
  quiet : Stage
  fresh : Bytes → Stage
  counting : Bytes → Stage

abbrev pub stage : Loop → Stage
stage checking = quiet
stage reading = quiet
stage (got buf) = fresh buf
stage (timed buf) = fresh buf
stage (counted buf) = counting buf
stage (sending buf) = quiet
stage closing = quiet
stage ended = quiet
stage (crashed buf) = quiet

abbrev pub is_taking : Stage → Bool
is_taking quiet = false
is_taking g = true

-- `reader` is the length of the slice of a `Read` that waits at the channel. The other fields
-- are what came from the network, in all and since the last `Reset` began, what `Read` has given,
-- how many bytes it has dropped, and whether a `Reset`, which takes no lock, has overlapped with
-- `readLoop` taking a chunk since one did not.
pub record System : Type 0 where
  pub conn : BufferedConn
  pub loop : Loop
  pub reader : Option ℕ
  pub resetting : Resetting
  pub arrived : Bytes
  pub current : Bytes
  pub delivered : Bytes
  pub lost : ℕ
  pub disturbed : Bool

-- What can happen: a step of `readLoop`, of a `Read` or of a `Reset`, or a `Close`. A `Read` of a
-- connection that has met an error does nothing. The limit of what is recorded stays as it is.
pub data Step (s : System) : System → Type 0 where
  checks : s.loop ≡ checking → Step s (record s { loop = check s.conn.conn })
  arrives :
      (buf : Bytes)
      → s.loop ≡ reading
      → length buf ≤ chunk_size
      → Step s (record s {
        loop = got buf;
        arrived = s.arrived ++ buf;
        current = s.current ++ buf;
        disturbed = s.disturbed || is_resetting s.resetting;
      })
  times :
      (now : ℕ) (buf : Bytes)
      → s.loop ≡ got buf
      → Step s (record s { conn = time_chunk s.conn now; loop = timed buf })
  counts :
      (buf : Bytes)
      → s.loop ≡ timed buf
      → Step s (record s { conn = count_chunk s.conn buf; loop = counted buf })
  records :
      (buf : Bytes)
      → s.loop ≡ counted buf
      → Step s (record s { conn = record_chunk s.conn buf; loop = sending buf })
  fails :
      (err : Bytes)
      → s.loop ≡ reading
      → Step s
          (record s { conn = record s.conn { conn = set_err err s.conn.conn }; loop = closing })
  ends : s.loop ≡ closing → Step s (record s { conn = close_conn s.conn; loop = ended })
  reads :
      (size : ℕ)
      → s.reader ≡ none
      → s.conn.conn.err ≡ none
      → Step s (record s { reader = some size })
  hands_over :
      (buf : Bytes) (size : ℕ)
      → s.loop ≡ sending buf
      → s.reader ≡ some size
      → s.conn.closed ≡ false
      → Step s (record s {
        loop = checking;
        reader = none;
        delivered = s.delivered ++ take size buf;
        lost = s.lost + (length buf - size);
      })
  reads_nothing :
      (size : ℕ) → s.reader ≡ some size → s.conn.closed ≡ true → Step s (record s { reader = none })
  crashes :
      (buf : Bytes)
      → s.loop ≡ sending buf
      → s.conn.closed ≡ true
      → Step s (record s { loop = crashed buf })
  closes : Step s (record s { conn = close_conn s.conn })
  zeroes :
      s.resetting ≡ calm
      → Step s (record s {
        conn = record s.conn { conn = record s.conn.conn { read_len = 0 } };
        resetting = zeroed;
        current = [];
        disturbed = is_taking (stage s.loop);
      })
  empties :
      s.resetting ≡ zeroed
      → Step s (record s {
        conn = record s.conn { conn = record s.conn.conn { read_recorded = [] } };
        resetting = emptied;
      })
  forgets :
      s.resetting ≡ emptied
      → Step s (record s {
        conn = record s.conn { conn = record s.conn.conn { first_read = none } };
        resetting = calm;
      })

pub data Reach (s : System) : System → Type 0 where
  stay : Reach s s
  then_step : {t u : System} → Reach s t → Step t u → Reach s u

-- A connection before anything comes.
abbrev pub new_system : BufferedConn → System
new_system conn = record {
  conn = conn;
  loop = checking;
  reader = none;
  resetting = calm;
  arrived = [];
  current = [];
  delivered = [];
  lost = 0;
  disturbed = false;
}

-- What has been read from the network and has not gone through the channel.
abbrev pub pending : Loop → Bytes
pending checking = []
pending reading = []
pending (got buf) = buf
pending (timed buf) = buf
pending (counted buf) = buf
pending (sending buf) = buf
pending closing = []
pending ended = []
pending (crashed buf) = buf

abbrev pub has_ended : Loop → Bool
has_ended checking = false
has_ended reading = false
has_ended (got buf) = false
has_ended (timed buf) = false
has_ended (counted buf) = false
has_ended (sending buf) = false
has_ended closing = false
has_ended ended = true
has_ended (crashed buf) = false
