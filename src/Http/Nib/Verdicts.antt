-- ===== src/Http/Nib/Verdicts.antt =====
-- A worker with the nib of HTTP: when the result that it pushes has no error.
use encarno.Base.{
  ℕ, ◌+◌, ◌<◌, ◌^◌, ◌≡◌, ◌≢◌, sym, subst, ◌↔◌, Bool, Option, none, some, [], ok, arith,
}
use encarno.Base.Bytes.{Bytes}
use encarno.Base.Map.{Map}
use encarno.Core.Input.{PayloadItem}
use encarno.Core.Output.{OutputItem, extract_values}
use encarno.Core.Output.Checks.{AllHold, assert_lem}
use encarno.Core.Regexp.{Regexp}
use encarno.Core.Worker.{Worker, do_busy, complete}
use encarno.Core.Worker.Iterations.{result_of, do_busy_lem}
use encarno.Core.Status.{inc_busy}
use encarno.Http.Headers.{get_host_and_conn_header_values}
use encarno.Http.Nib.{
  Response, failed, answered, Network, Fate, unconnected, dropped, with_content_length,
  record_limit, punch, http_nib, waiting,
}
use encarno.Http.Nib.Fields.{comes_back_ok}
use encarno.Http.Nib.Outcomes.{IsEnd, Failed, punch_lem}

-- The network has no error for a request, and its response is read to its end.
pub Answers : Option Bytes → Option Bytes → Option Bytes → Response → Type 0
Answers (some err) set_err write_err response = ⊥
Answers none (some err) write_err response = ⊥
Answers none none (some err) response = ⊥
Answers none none none (failed err) = ⊥
Answers none none none (answered code close (some err) conn) = ⊥
Answers none none none (answered code close none conn) = Unit

abbrev pub recorded : Response → Bytes
recorded (failed err) = []
recorded (answered code close copy_err conn) = conn.read_recorded

failed_lem :
    (err : Bytes) (left : Fate) (end : OutputItem × Fate) (P : Bytes → Type 0) (resp : Bytes)
    → Failed err left end
    → ((end.0.error ≡ none) × P end.0.resp_bytes) ↔ (⊥ × P resp)
failed_lem err left end P resp f = (λ p. ground (arith, p.0, f.error), λ p. absurd p.0)

IsEnd-Answers :
    (net : Network) (address : Bytes) (get_err set_err write_err : Option Bytes)
    (response : Response) (conn_close : Bool) (end : OutputItem × Fate) (P : Bytes → Type 0)
    → IsEnd net address get_err set_err write_err response conn_close end
    → ((end.0.error ≡ none) × P end.0.resp_bytes)
      ↔ (Answers get_err set_err write_err response × P (recorded response))
unfolding IsEnd Answers
IsEnd-Answers net address (some err) set_err write_err response conn_close end P e =
    failed_lem err unconnected end P (recorded response) e
IsEnd-Answers net address none (some err) write_err response conn_close end P e =
    failed_lem err dropped end P (recorded response) e
IsEnd-Answers net address none none (some err) response conn_close end P e =
    failed_lem err dropped end P (recorded response) e
IsEnd-Answers net address none none none (failed err) conn_close end P e =
    failed_lem err dropped end P [] e
IsEnd-Answers net address none none none (answered code close (some err) conn) conn_close end P e =
    failed_lem err dropped end P conn.read_recorded e
IsEnd-Answers net address none none none (answered code close none conn) conn_close end P e =
    (λ p. (tt, subst P e.resp_bytes p.1), λ p. (e.error, subst P (sym e.resp_bytes) p.1))

module _ (R : Regexp) (content_length_re : R.Re) (net : Network) (rand : ℕ → ℕ) where
  -- There is room in the counter of busy workers, `Punch` does not wait for room in the pool, and
  -- the values of the request's response can be extracted. Then a worker with the nib of HTTP pushes
  -- a result, with the values of the response in its own. The result has no error exactly if the
  -- network has none for the request, its response is read to its end, and every assertion of the
  -- item holds for what is recorded of the response.
  pub do_busy-http_nib :
      (w : Worker) (item : PayloadItem R.Re) (values : Map Bytes)
      → w.status.busy + 1 < 2 ^ 63
      → (punch R content_length_re net item).2 ≢ waiting
      → (let (sent, out, fate) = punch R content_length_re net item in
          extract_values R rand out.resp_bytes sent.regex_out w.values ≡ ok values)
      → (let (host_hint, conn_close, body_len) = get_host_and_conn_header_values item.payload in
          let sent = with_content_length R content_length_re net item in
          let response =
            net.read_response sent.payload (record_limit R content_length_re net sent) in
          (res : OutputItem) × (do_busy R (http_nib R content_length_re net) rand w item
            ≡ ok (record w { values = values }, res))
          × ((res.error ≡ none) ↔ (
              Answers
                (net.get sent.address host_hint)
                net.set_deadline
                (net.write sent.payload).1
                response
              × AllHold R (recorded response) sent.asserts)))
  unfolding http_nib complete
  do_busy-http_nib w item values s back x =
      let (host_hint, conn_close, body_len) = get_host_and_conn_header_values item.payload in
      let (sent, out, fate) = punch R content_length_re net item in
      let ends = punch_lem R content_length_re net item in
      let sent' = with_content_length R content_length_re net item in
      let response = net.read_response sent'.payload (record_limit R content_length_re net sent') in
      let busy = record w { status = inc_busy w.status } in
      let result = result_of R w sent out in
      let verdict = assert_lem R sent.asserts (complete busy sent out) in
      let holds =
        IsEnd-Answers net sent'.address (net.get sent'.address host_hint) net.set_deadline
          (net.write sent'.payload).1 response conn_close (out, fate)
          (λ resp. AllHold R resp sent.asserts) ends.1 in
      (
        result,
        do_busy_lem R (http_nib R content_length_re net) rand w item sent out values s
            (comes_back_ok fate (sent, out) back) x,
        subst
            (λ (i : PayloadItem R.Re). (result.error ≡ none) ↔ (
              Answers (net.get sent'.address host_hint) net.set_deadline (net.write sent'.payload).1
                response
              × AllHold R (recorded response) i.asserts))
            ends.0 (λ p. holds.0 (verdict.0 p), λ p. verdict.1 (holds.1 p)),
      )
