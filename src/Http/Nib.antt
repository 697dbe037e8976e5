-- ===== src/Http/Nib.antt =====
-- pkg/http/nib.go: one request over a connection of the pool.
-- The network is a parameter: what a dialed connection, its deadline, a write and the reading of
-- a response give. Times are nanoseconds since the epoch.
pub mod Fields
pub mod Journeys
pub mod Outcomes
pub mod Verdicts
mod Tests
use encarno.Base.{
  ℕ, ◌+◌, ◌-◌, ◌*◌, ◌%◌, ◌^◌, Bool, true, false, ◌||◌, not, Option, none, some, List, [], ◌∷◌,
  if◌then◌else◌, u16, u64, Result, ok, panic, blocked,
}
use encarno.Base.Bytes.{Bytes, codes}
use encarno.Base.Decimal.{itoa}
use encarno.Base.Int.{pos}
use encarno.Core.Input.{PayloadItem}
use encarno.Core.Output.{OutputItem, end_with_error}
use encarno.Core.Regexp.{Regexp}
use encarno.Core.Worker.{Nib}
use encarno.Http.Headers.{get_host_and_conn_header_values}
use encarno.Http.Pool.{Conn, ConnPool, return_conn}

-- What `http.ReadResponse` gives, and `io.Copy` of its body: an error instead of a response, or the
-- response's status code, whether it closes the connection, the error of the copy, and the
-- connection after it.
pub data Response : Type 0 where
  failed : Bytes → Response
  answered : ℕ → Bool → Option Bytes → Conn → Response

-- What the calls of `time.Now` give.
pub record Times : Type 0 where
  pub start : ℕ
  pub before : ℕ
  pub connected : ℕ
  pub sent : ℕ
  pub begin : ℕ
  pub read : ℕ
  pub finish : ℕ

-- `get` is the error of `ConnPool.Get` for an address and a host hint, `write` tells how many bytes
-- were written, and `read_response` depends on the bytes sent and on what is to be recorded. `pool`
-- is what the pool is when the connection, numbered `conn`, goes into it, or what it stays if the
-- connection never does.
pub record Network : Type 0 where
  pub get : Bytes → Bytes → Option Bytes
  pub set_deadline : Option Bytes
  pub write : Bytes → ℕ × Option Bytes
  pub read_response : Bytes → ℕ → Response
  pub times : Times
  pub pool : ConnPool
  pub conn : ℕ

-- What `Punch` does with its connection: there is none, it leaves it to the connection's reading
-- loop, it starts a goroutine that closes it, `Return` came back and this is the pool then, or
-- `Return` waits for ever for room in the pool's channel.
pub data Fate : Type 0 where
  unconnected : Fate
  dropped : Fate
  closing : Fate
  returned : ConnPool → Fate
  waiting : Fate

-- A call that leaves its connection so: it does not come back while `Return` waits.
unfoldable pub comes_back {ℓ} : {A : Type ℓ} → Fate → A → Result A
comes_back unconnected a = ok a
comes_back dropped a = ok a
comes_back closing a = ok a
comes_back (returned pool) a = ok a
comes_back waiting a = panic blocked

-- `Sub` of two times, as an int64.
abbrev pub since : ℕ → ℕ → ℕ
since t u = u64 (t + (2 ^ 64 - u % 2 ^ 64))

-- The same from a time that may be the zero `time.Time`, from which any other is too far.
abbrev pub since_first : ℕ → Option ℕ → ℕ
since_first t none = 2 ^ 63 - 1
since_first t (some u) = since t u

abbrev pub is_empty {ℓ} : {A : Type ℓ} → List A → Bool
is_empty [] = true
is_empty (x ∷ xs) = false

-- The item that `Punch` starts with.
abbrev pub new_item : ℕ → OutputItem
new_item start_time = record {
  start_time = start_time;
  start_ts = 0;
  status = 0;
  error = none;
  error_str = [];
  error_str_idx = 0;
  concurrency = 0;
  elapsed = 0;
  connect_time = 0;
  sent_time = 0;
  first_byte_time = 0;
  read_time = 0;
  worker = 0;
  label = [];
  label_idx = 0;
  sent_bytes_count = 0;
  resp_bytes_count = 0;
  req_bytes = [];
  resp_bytes = [];
}

abbrev pub content_length_pattern : Bytes
content_length_pattern = codes "(?m:\\$\\{:content-length:})"

-- `content_length_re` is that pattern compiled.
module _ (R : Regexp) (content_length_re : R.Re) (net : Network) where
  open R use {Re, replace_all}

  -- The head of `sendRequest`: the length of the body takes the place of its variable.
  unfoldable pub with_content_length : PayloadItem Re → PayloadItem Re
  with_content_length item =
      let (host_hint, conn_close, body_len) = get_host_and_conn_header_values item.payload in
      if is_empty item.replaces then item else record item {
        payload = replace_all content_length_re item.payload (itoa (pos body_len));
      }

  -- `ReadRecordLimit`: no limit, written 0, if the response is looked at.
  unfoldable pub record_limit : PayloadItem Re → ℕ
  record_limit item =
      if not (is_empty item.regex_out) || not (is_empty item.asserts) then 0 else 1024 * 1024

  -- The end of `sendRequest`: the dialing, the deadline and the writing may each fail. The item is
  -- `out` until the request is written, and `written` from then on.
  unfoldable pub end_sending :
      OutputItem → OutputItem → Option Bytes → Option Bytes → Option Bytes → OutputItem
  end_sending out written (some err) set_err write_err = end_with_error out err
  end_sending out written none (some err) write_err = end_with_error out err
  end_sending out written none none (some err) = end_with_error written err
  end_sending out written none none none = written

  -- `sendRequest` from the dialing on.
  unfoldable pub send_request : PayloadItem Re → Bytes → OutputItem → OutputItem
  send_request item host_hint out =
      let out' = record out { connect_time = since net.times.connected net.times.before } in
      let (write, write_err) = net.write item.payload in
      let written = record out' {
        sent_bytes_count = u64 write;
        sent_time = since net.times.sent net.times.connected;
      } in
      end_sending out' written (net.get item.address host_hint) net.set_deadline write_err

  abbrev pub first_byte_time : Option ℕ → ℕ → ℕ
  first_byte_time none time = time
  first_byte_time (some first_read) time = since first_read net.times.begin

  -- What is done with a connection whose response has been read.
  unfoldable pub leave_conn : Bytes → Bool → Conn → Fate
  leave_conn address true conn = closing
  leave_conn address false conn = elim (return_conn net.pool (λ i. conn) address net.conn) [
    | none ↦ waiting
    | some pool ↦ returned pool
  ]

  -- The end of `readResponse`: the body has been read or an error was met there.
  unfoldable pub end_reading : Bytes → OutputItem → Bool → Option Bytes → Conn → OutputItem × Fate
  end_reading address result close (some err) conn = (end_with_error result err, dropped)
  end_reading address result close none conn = (
    record result {
      read_time = since_first net.times.finish conn.first_read;
      elapsed = since net.times.finish result.start_time;
      resp_bytes_count = u64 conn.read_len;
      resp_bytes = conn.read_recorded;
    },
    leave_conn address close conn,
  )

  -- `readResponse` from the response on.
  unfoldable pub receive : Bytes → OutputItem → Bool → Response → OutputItem × Fate
  receive address result conn_close (failed err) = (end_with_error result err, dropped)
  receive address result conn_close (answered code close copy_err conn) =
      let result' = record result {
        status = u16 code;
        first_byte_time = first_byte_time conn.first_read result.first_byte_time;
      } in
      end_reading address result' (close || conn_close) copy_err conn

  unfoldable pub read_response : PayloadItem Re → OutputItem → Bool → OutputItem × Fate
  read_response item result conn_close =
      let result' = record result { read_time = since net.times.read net.times.begin } in
      receive item.address result' conn_close (net.read_response item.payload (record_limit item))

  -- The connection of a request that was not sent: there is none if the dialing failed.
  abbrev pub fate_unsent : Option Bytes → Fate
  fate_unsent none = dropped
  fate_unsent (some err) = unconnected

  -- `Punch` after `sendRequest`: the response is read if there is no error.
  unfoldable pub end_punch :
      PayloadItem Re → Option Bytes → Bool → OutputItem → Option Bytes → OutputItem × Fate
  end_punch item get_err conn_close out (some err) = (out, fate_unsent get_err)
  end_punch item get_err conn_close out none = read_response item out conn_close

  unfoldable pub punch : PayloadItem Re → PayloadItem Re × OutputItem × Fate
  punch item =
      let (host_hint, conn_close, body_len) = get_host_and_conn_header_values item.payload in
      let item' = with_content_length item in
      let out = send_request item' host_hint (new_item net.times.start) in
      let (out', fate) =
        end_punch item' (net.get item'.address host_hint) conn_close out out.error in
      (item', out', fate)

  -- The nib that a worker has.
  unfoldable pub http_nib : Nib Re
  http_nib = record {
    punch = λ item. let (item', out, fate) = punch item in comes_back fate (item', out);
  }
