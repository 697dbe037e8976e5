-- ===== src/Http/Nib/Outcomes.antt =====
-- How a request ends: with the first error on its way, or with the response.
use encarno.Base.{
  ℕ, ◌≡◌, refl, Bool, ◌||◌, Option, none, some, true, false, if◌then◌else◌, Bool-cases, inl, inr,
  ltb, [], ◌∷◌, ◌++◌, ◌<◌, ◌≤◌, List, length, u16, u64, arith,
}
use encarno.Base.Bytes.{Bytes}
use encarno.Core.Input.{PayloadItem}
use encarno.Core.Output.{OutputItem, end_with_error}
use encarno.Core.Regexp.{Regexp}
use encarno.Http.Headers.{get_host_and_conn_header_values}
use encarno.Http.Nib.{
  Response, failed, answered, Network, Fate, unconnected, dropped, closing, returned, new_item,
  with_content_length, record_limit, end_sending, send_request, end_reading, receive, read_response,
  leave_conn, waiting, since, end_punch, punch,
}
use encarno.Http.Pool.{Conn, ConnPool, return_conn}
use encarno.Base.Map.{lookup, insert}

-- A request that fails with an error.
pub record Failed (err : Bytes) (left : Fate) (end : OutputItem × Fate) : Type 0 where
  pub error : end.0.error ≡ some err
  pub status : end.0.status ≡ 999
  pub resp_bytes : end.0.resp_bytes ≡ []
  pub fate : end.1 ≡ left

-- What is done with the connection of a response: it is closed if that is asked for. Otherwise a
-- canceled one is left out of the pool; any other is put last in its channel, if that has room, and
-- has to wait if it has none.
pub data Leaves (net : Network) (address : Bytes) : Bool → Bool → Fate → Type 0 where
  closes : {canceled : Bool} → Leaves net address true canceled closing
  leaves_out : Leaves net address false true (returned net.pool)
  puts :
      (ch : List ℕ)
      → lookup address net.pool.idle ≡ some ch
      → length ch < net.pool.max_connections
      → Leaves net address false false
          (returned (record net.pool { idle = insert address (ch ++ net.conn ∷ []) net.pool.idle }))
  waits :
      ((ch : List ℕ)
        → lookup address net.pool.idle ≡ some ch
        → net.pool.max_connections ≤ length ch)
      → Leaves net address false false waiting

-- One that gets its response.
pub record Received (net : Network) (address : Bytes) (code : ℕ) (close : Bool) (conn : Conn)
    (end : OutputItem × Fate) : Type 0 where
  pub error : end.0.error ≡ none
  pub status : end.0.status ≡ u16 code
  pub resp_bytes : end.0.resp_bytes ≡ conn.read_recorded
  pub fate : Leaves net address close conn.canceled end.1

-- What has to be the end of a request, given the errors of the dialing, the deadline and the
-- writing, the response, and whether the request asks to close the connection.
unfoldable pub IsEnd :
    Network
    → Bytes
    → Option Bytes
    → Option Bytes
    → Option Bytes
    → Response
    → Bool
    → OutputItem × Fate
    → Type 0
IsEnd net address (some err) set_err write_err response conn_close = Failed err unconnected
IsEnd net address none (some err) write_err response conn_close = Failed err dropped
IsEnd net address none none (some err) response conn_close = Failed err dropped
IsEnd net address none none none (failed err) conn_close = Failed err dropped
IsEnd net address none none none (answered code close (some err) conn) conn_close =
    Failed err dropped
IsEnd net address none none none (answered code close none conn) conn_close =
    Received net address code (close || conn_close) conn

Failed-end_with_error :
    (err : Bytes) (left : Fate) (out : OutputItem)
    → out.resp_bytes ≡ []
    → Failed err left (end_with_error out err, left)
unfolding end_with_error
Failed-end_with_error err left out none_yet = record {
  error = refl;
  status = refl;
  resp_bytes = none_yet;
  fate = refl;
}

module _ (R : Regexp) (content_length_re : R.Re) (net : Network) where
  -- An item before its response.
  abbrev sent_item : ℕ → ℕ → ℕ → ℕ → OutputItem
  sent_item start_time connect_time sent_bytes_count sent_time = record (new_item start_time) {
    connect_time = connect_time;
    sent_bytes_count = sent_bytes_count;
    sent_time = sent_time;
  }

  return_lem :
      (address : Bytes) (canceled : Bool) (found : Option (List ℕ))
      → lookup address net.pool.idle ≡ found
      → Leaves net address false canceled (
          let sent : Option ConnPool = elim found [
            | none ↦ none
            | some ch ↦
                if ltb (length ch) net.pool.max_connections
                then some
                    (record net.pool { idle = insert address (ch ++ net.conn ∷ []) net.pool.idle })
                else none
          ] in
          let kept : Option ConnPool = if canceled then some net.pool else sent in
          let fate : Fate = elim kept [ none ↦ waiting | some pool ↦ returned pool ] in fate)
  return_lem address true found e = leaves_out
  return_lem address false none e = waits (λ ch h. cc)
  return_lem address false (some ch) e =
      elim (Bool-cases (ltb (length ch) net.pool.max_connections)) [
        | inl b ↦ rw b (puts ch e (ground (arith, b)))
        | inr b ↦ rw b (waits (λ ch' h. ground (arith, b, h, e)))
      ]

  leave_conn_lem :
      (address : Bytes) (close : Bool) (conn : Conn)
      → Leaves net address close conn.canceled
          (leave_conn R content_length_re net address close conn)
  unfolding leave_conn return_conn
  leave_conn_lem address true conn = closes
  leave_conn_lem address false conn =
      return_lem address conn.canceled (lookup address net.pool.idle) refl

  receive_lem :
      (address : Bytes) (t c b s r : ℕ) (conn_close : Bool) (response : Response)
      → IsEnd net address none none none response conn_close (
          receive R content_length_re net address
            (record (sent_item t c b s) { read_time = r })
            conn_close
            response)
  unfolding IsEnd receive end_reading
  receive_lem address t c b s r conn_close (failed err) = Failed-end_with_error err dropped _ refl
  receive_lem address t c b s r conn_close (answered code close (some err) conn) =
      Failed-end_with_error err dropped _ refl
  receive_lem address t c b s r conn_close (answered code close none conn) = record {
    error = refl;
    status = refl;
    resp_bytes = refl;
    fate = leave_conn_lem address (close || conn_close) conn;
  }

  end_punch_lem :
      (item : PayloadItem R.Re) (conn_close : Bool) (t c b s : ℕ)
      (get_err set_err write_err : Option Bytes)
      → IsEnd net item.address get_err set_err write_err
          (net.read_response item.payload (record_limit R content_length_re net item))
          conn_close
          (let out =
              end_sending R content_length_re net
                (record (new_item t) { connect_time = c })
                (sent_item t c b s)
                get_err
                set_err
                write_err in
            end_punch R content_length_re net item get_err conn_close out out.error)
  unfolding IsEnd end_punch end_sending end_with_error read_response
  end_punch_lem item conn_close t c b s (some err) set_err write_err =
      Failed-end_with_error err unconnected (record (new_item t) { connect_time = c }) refl
  end_punch_lem item conn_close t c b s none (some err) write_err =
      Failed-end_with_error err dropped (record (new_item t) { connect_time = c }) refl
  end_punch_lem item conn_close t c b s none none (some err) =
      Failed-end_with_error err dropped (sent_item t c b s) refl
  end_punch_lem item conn_close t c b s none none none =
      receive_lem item.address t c b s (since net.times.read net.times.begin) conn_close
        (net.read_response item.payload (record_limit R content_length_re net item))

  pub punch_lem :
      (item : PayloadItem R.Re)
      → (let (host_hint, conn_close, body_len) = get_host_and_conn_header_values item.payload in
          let item' = with_content_length R content_length_re net item in
          ((punch R content_length_re net item).0 ≡ item')
          × IsEnd net item'.address
              (net.get item'.address host_hint)
              net.set_deadline
              (net.write item'.payload).1
              (net.read_response item'.payload (record_limit R content_length_re net item'))
              conn_close
              ((punch R content_length_re net item).1, (punch R content_length_re net item).2))
  unfolding punch send_request
  punch_lem item =
      let (host_hint, conn_close, body_len) = get_host_and_conn_header_values item.payload in
      let item' = with_content_length R content_length_re net item in
      (
        refl,
        end_punch_lem item' conn_close net.times.start (since net.times.connected net.times.before)
            (u64 (net.write item'.payload).0) (since net.times.sent net.times.connected)
            (net.get item'.address host_hint) net.set_deadline (net.write item'.payload).1,
      )
