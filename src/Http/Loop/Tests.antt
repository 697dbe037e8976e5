-- ===== src/Http/Loop/Tests.antt =====
-- A connection that gives two chunks, and is closed while the second one waits.
use encarno.Base.{refl, none, ◌++◌}
use encarno.Base.Bytes.{Bytes, codes}
use encarno.Base.Int.{pos}
use encarno.Base.{ℕ, false}
use encarno.Http.Loop.{
  BufferedConn, new_buffered_conn, time_chunk, count_chunk, record_chunk, close_conn, sending,
}
use encarno.Http.Loop.Steps.{System, Step, crashes, new_system, calm}

abbrev conn : BufferedConn
conn = record new_buffered_conn { read_record_limit = pos 1_048_576 }

abbrev start : System
start = new_system conn

abbrev first_chunk : Bytes
first_chunk = codes "HTTP/1.1 200 OK\r\n\r\n"

abbrev second_chunk : Bytes
second_chunk = codes "more"

abbrev take_chunk : BufferedConn → ℕ → Bytes → BufferedConn
take_chunk r now buf = record_chunk (count_chunk (time_chunk r now) buf) buf

abbrev filled : BufferedConn
filled = take_chunk (take_chunk conn 1000 first_chunk) 2000 second_chunk

abbrev end : System
end = record {
  conn = close_conn filled;
  loop = sending second_chunk;
  reader = none;
  resetting = calm;
  arrived = first_chunk ++ second_chunk;
  current = first_chunk ++ second_chunk;
  delivered = first_chunk;
  lost = 0;
  disturbed = false;
}

-- The send that waits is then a panic.
end-crashed : (t : System) × Step end t
unfolding close_conn time_chunk count_chunk record_chunk
end-crashed = (_, crashes second_chunk refl refl)
