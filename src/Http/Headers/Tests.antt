-- ===== src/Http/Headers/Tests.antt =====
-- A request and what is taken from it.
use encarno.Base.{◌≡◌, refl, true, false, List, [], ◌∷◌, ◌++◌, arith}
use encarno.Base.Bytes.{codes, equal}
use encarno.Base.Trim.{trim_space}
use encarno.Http.Headers.{get_host_and_conn_header_values}
use encarno.Http.Headers.Requests.{
  Header, AllHeaders, render_headers, last_value, host_of, close_of,
  get_host_and_conn_header_values_lem,
}

abbrev headers : List Header
headers =
    record { name = codes "Host"; value = codes " localhost:8070\r" }
    ∷ record { name = codes "Connection"; value = codes " close\r" }
    ∷ record { name = codes "X"; value = codes ":\r" }
    ∷ []

headers-AllHeaders : AllHeaders headers
headers-AllHeaders = (
  record { one_line = refl; no_colon = refl; minimal = omega arith },
  (
    record { one_line = refl; no_colon = refl; minimal = omega arith },
    (record { one_line = refl; no_colon = refl; minimal = omega arith }, tt),
  ),
)

host_of-headers : host_of [] headers ≡ codes "localhost:8070"
unfolding last_value trim_space equal
host_of-headers = refl

close_of-headers : close_of false headers ≡ true
unfolding last_value trim_space equal
close_of-headers = refl

get_host_and_conn_header_values_lem_example :
    get_host_and_conn_header_values
      (codes "POST / HTTP/1.1\r" ++ 10 ∷ render_headers headers (codes "\r") (codes "a\nb"))
    ≡ (host_of [] headers, close_of false headers, 3)
get_host_and_conn_header_values_lem_example =
    get_host_and_conn_header_values_lem (codes "POST / HTTP/1.1\r") headers (codes "\r")
      (codes "a\nb") refl headers-AllHeaders refl (omega arith)
