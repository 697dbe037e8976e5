-- ===== src/Http/Headers.antt =====
-- pkg/http/nib.go: what `sendRequest` takes from the headers of a request.
pub mod Requests
mod Tests
use encarno.Base.{
  ℕ, zero, suc, Bool, true, false, not, ◌||◌, List, [], ◌∷◌, ltb, if◌then◌else◌, length,
}
use encarno.Base.Bytes.{Bytes, codes, equal, cut}
use encarno.Base.Trim.{trim_space}

-- The named results of `getHostAndConnHeaderValues` that the loop sets.
pub record Values : Type 0 where
  pub host : Bytes
  pub close : Bool

-- What one header line does to them.
unfoldable pub header_line : Values → Bytes → Values
header_line v before =
    let (hname, hval, _) = cut b':' before in
    let with_host =
      if equal hname (codes "Host") || equal hname (codes "host")
      then record v { host = trim_space hval }
      else v in
    if equal hname (codes "Connection") || equal hname (codes "connection")
    then record with_host { close = equal (trim_space hval) (codes "close") }
    else with_host

-- The loop. Every round takes a newline off the payload, so its length is enough fuel.
unfoldable pub read_headers : ℕ → Values → Bytes → Values × Bytes
unfolding header_line
read_headers zero v payload = (v, payload)
read_headers (suc fuel) v payload =
    let (before, after, found) = cut 10 payload in
    let rest = read_headers fuel (header_line v before) after in
    if not found || ltb (length before) 2 then (v, after) else rest

unfoldable pub get_host_and_conn_header_values : Bytes → Bytes × Bool × ℕ
unfolding read_headers
get_host_and_conn_header_values payload =
    let (_, after, _) = cut 10 payload in
    let (v, body) = read_headers (suc (length after)) (record { host = []; close = false }) after in
    (v.host, v.close, length body)
