-- ===== src/Http/Nib/Fields.antt =====
-- The fields of a result that comes from the nib of HTTP, and from there to the output.
use encarno.Base.{
  get_elem?, List, if◌then◌else◌, ◌==◌, ℕ, ◌<◌, ◌^◌, ◌≡◌, refl, ap, ◌∙◌, Bool, Option, none, some,
  [], arith, Bool-cases, inl, inr, ok, ◌≢◌,
}
use encarno.Base.Bytes.{Bytes, equal}
use encarno.Base.Trim.{trim_space}
use encarno.Core.Input.{PayloadItem, AssertItem}
use encarno.Core.Output.{OutputItem, problems_of, end_with_error, assert}
use encarno.Core.Output.Binary.{HasTypes}
use encarno.Core.Output.Texts.{Stands}
use encarno.Core.Regexp.{Regexp}
use encarno.Core.StrIndex.{StrIndex}
use encarno.Core.Worker.{Worker, complete}
use encarno.Http.Headers.{get_host_and_conn_header_values}
use encarno.Http.Nib.{
  Response, failed, answered, Network, since, with_content_length, end_sending, end_reading,
  receive, read_response, end_punch, send_request, punch, is_empty, Fate, unconnected, dropped,
  closing, returned, waiting, comes_back, http_nib, record_limit,
}

-- What the nib leaves to the worker is not set, and what it sets has its type.
pub record FromNib (i : OutputItem) : Type 0 where
  pub status : i.status < 2 ^ 16
  pub sent_bytes_count : i.sent_bytes_count < 2 ^ 64
  pub resp_bytes_count : i.resp_bytes_count < 2 ^ 64
  pub error_str_idx : i.error_str_idx ≡ 0
  pub label : i.label ≡ []
  pub label_idx : i.label_idx ≡ 0

-- What comes to the output.
pub record Fits (i : OutputItem) (text : Bytes) (number : ℕ) : Type 0 where
  pub types : HasTypes i
  pub fresh : i.error_str_idx ≡ 0
  pub label : i.label ≡ text
  pub label_idx : i.label_idx ≡ number

FromNib-end_with_error : (i : OutputItem) (err : Bytes) → FromNib i → FromNib (end_with_error i err)
unfolding end_with_error
FromNib-end_with_error i err h = record {
  status = omega arith;
  sent_bytes_count = h.sent_bytes_count;
  resp_bytes_count = h.resp_bytes_count;
  error_str_idx = h.error_str_idx;
  label = h.label;
  label_idx = h.label_idx;
}

comes_back_lem : {A : Type 0} (fate : Fate) (a b : A) → comes_back fate a ≡ ok b → a ≡ b
unfolding comes_back
comes_back_lem unconnected a b h = cc
comes_back_lem dropped a b h = cc
comes_back_lem closing a b h = cc
comes_back_lem (returned pool) a b h = cc
comes_back_lem waiting a b h = cc

pub comes_back_ok : {A : Type 0} (fate : Fate) (a : A) → fate ≢ waiting → comes_back fate a ≡ ok a
unfolding comes_back
comes_back_ok unconnected a h = refl
comes_back_ok dropped a h = refl
comes_back_ok closing a h = refl
comes_back_ok (returned pool) a h = refl
comes_back_ok waiting a h = absurd (h refl)

module _ (R : Regexp) (content_length_re : R.Re) (net : Network) where
  FromNib-receive :
      (address : Bytes) (i : OutputItem) (conn_close : Bool) (response : Response)
      → FromNib i
      → FromNib (receive R content_length_re net address i conn_close response).0
  unfolding receive end_reading
  FromNib-receive address i conn_close (failed err) h = FromNib-end_with_error i err h
  FromNib-receive address i conn_close (answered code close (some err) conn) h =
      FromNib-end_with_error _ err (record {
        status = omega arith;
        sent_bytes_count = h.sent_bytes_count;
        resp_bytes_count = h.resp_bytes_count;
        error_str_idx = h.error_str_idx;
        label = h.label;
        label_idx = h.label_idx;
      })
  FromNib-receive address i conn_close (answered code close none conn) h = record {
    status = omega arith;
    sent_bytes_count = h.sent_bytes_count;
    resp_bytes_count = omega arith;
    error_str_idx = h.error_str_idx;
    label = h.label;
    label_idx = h.label_idx;
  }

  FromNib-end_punch :
      (item : PayloadItem R.Re) (get_err : Option Bytes) (conn_close : Bool) (i : OutputItem)
      (err : Option Bytes)
      → FromNib i
      → FromNib (end_punch R content_length_re net item get_err conn_close i err).0
  unfolding end_punch read_response
  FromNib-end_punch item get_err conn_close i (some err) h = h
  FromNib-end_punch item get_err conn_close i none h =
      FromNib-receive item.address (record i { read_time = since net.times.read net.times.begin })
        conn_close (net.read_response item.payload (record_limit R content_length_re net item))
        (record {
          status = h.status;
          sent_bytes_count = h.sent_bytes_count;
          resp_bytes_count = h.resp_bytes_count;
          error_str_idx = h.error_str_idx;
          label = h.label;
          label_idx = h.label_idx;
        })

  FromNib-end_sending :
      (i j : OutputItem) (get_err set_err write_err : Option Bytes)
      → FromNib i
      → FromNib j
      → FromNib (end_sending R content_length_re net i j get_err set_err write_err)
  unfolding end_sending
  FromNib-end_sending i j (some err) set_err write_err hi hj = FromNib-end_with_error i err hi
  FromNib-end_sending i j none (some err) write_err hi hj = FromNib-end_with_error i err hi
  FromNib-end_sending i j none none (some err) hi hj = FromNib-end_with_error j err hj
  FromNib-end_sending i j none none none hi hj = hj

  pub punch-FromNib : (item : PayloadItem R.Re) → FromNib (punch R content_length_re net item).1
  unfolding punch send_request
  punch-FromNib item =
      let (host_hint, conn_close, body_len) = get_host_and_conn_header_values item.payload in
      let sent = with_content_length R content_length_re net item in
      FromNib-end_punch sent (net.get sent.address host_hint) conn_close _ _ (
        FromNib-end_sending _ _ (net.get sent.address host_hint) net.set_deadline
          (net.write sent.payload).1
          (record {
            status = omega arith;
            sent_bytes_count = omega arith;
            resp_bytes_count = omega arith;
            error_str_idx = refl;
            label = refl;
            label_idx = refl;
          })
          (record {
            status = omega arith;
            sent_bytes_count = omega arith;
            resp_bytes_count = omega arith;
            error_str_idx = refl;
            label = refl;
            label_idx = refl;
          }))

  -- A call of the nib that comes back.
  pub http_nib-punch :
      (item sent : PayloadItem R.Re) (res : OutputItem)
      → (http_nib R content_length_re net).punch item ≡ ok (sent, res)
      → ((punch R content_length_re net item).0 ≡ sent)
        × ((punch R content_length_re net item).1 ≡ res)
  unfolding http_nib
  http_nib-punch item sent res h =
      let (sent', out, fate) = punch R content_length_re net item in
      let pair = comes_back_lem fate (sent', out) (sent, res) h in
      (
        ap (λ (p : PayloadItem R.Re × OutputItem). p.0) pair,
        ap (λ (p : PayloadItem R.Re × OutputItem). p.1) pair,
      )

  -- The label of an item is the same in what is sent.
  pub punch_label :
      (item : PayloadItem R.Re)
      → (let sent = (punch R content_length_re net item).0 in
          (sent.label ≡ item.label) × (sent.label_idx ≡ item.label_idx))
  unfolding punch with_content_length
  punch_label item = elim (Bool-cases (is_empty item.replaces)) [
    | inl e ↦ rw e (refl, refl)
    | inr e ↦ rw e (refl, refl)
  ]

-- The worker's own data.
pub Fits-complete :
    {Re : Type 0} (w : Worker) (item : PayloadItem Re) (i : OutputItem)
    → FromNib i
    → item.label_idx < 2 ^ 16
    → Fits (complete w item i) item.label item.label_idx
unfolding complete equal
Fits-complete w item i h small =
    let label : (if equal i.label [] then item.label else i.label) ≡ item.label =
      ap (λ (l : Bytes). if equal l [] then item.label else l) h.label in
    let label_idx : (if i.label_idx == 0 then item.label_idx else i.label_idx) ≡ item.label_idx =
      ap (λ (n : ℕ). if n == 0 then item.label_idx else n) h.label_idx in
    record {
      types = record {
        start_ts = omega arith;
        status = h.status;
        error_str_idx = omega (arith, h.error_str_idx);
        concurrency = omega arith;
        worker = omega arith;
        label_idx = omega (arith, label_idx);
        sent_bytes_count = h.sent_bytes_count;
        resp_bytes_count = h.resp_bytes_count;
      };
      fresh = h.error_str_idx;
      label = label;
      label_idx = label_idx;
    }

Fits-error :
    (i : OutputItem) (err : Option Bytes) (text : Bytes) (number : ℕ)
    → Fits i text number
    → Fits (record i { error = err }) text number
Fits-error i err text number h = record {
  types = record {
    start_ts = h.types.start_ts;
    status = h.types.status;
    error_str_idx = h.types.error_str_idx;
    concurrency = h.types.concurrency;
    worker = h.types.worker;
    label_idx = h.types.label_idx;
    sent_bytes_count = h.types.sent_bytes_count;
    resp_bytes_count = h.types.resp_bytes_count;
  };
  fresh = h.fresh;
  label = h.label;
  label_idx = h.label_idx;
}

pub Fits-assert :
    (R : Regexp) (asserts : List (AssertItem R.Re)) (i : OutputItem) (text : Bytes) (number : ℕ)
    → Fits i text number
    → Fits (assert R asserts i) text number
unfolding assert
Fits-assert R asserts i text number h =
    let before : Bytes = elim i.error [ none ↦ [] | some err ↦ err ] in
    let problems = problems_of R i.resp_bytes asserts before in
    elim (Bool-cases (equal problems [])) [
      | inl e ↦ rw e h
      | inr e ↦ rw e (Fits-error i (some (trim_space problems)) text number h)
    ]

pub Stands-same :
    (s : StrIndex) (i j : ℕ) (text text' l : Bytes)
    → i ≡ j
    → text ≡ text'
    → Stands s j text' l
    → Stands s i text l
Stands-same s i j text text' l e f (inl (h, g)) = inl (e ∙ h, f ∙ g)
Stands-same s i j text text' l e f (inr (h, g)) = inr (f ∙ h, ap (get_elem? s.index) e ∙ g)
