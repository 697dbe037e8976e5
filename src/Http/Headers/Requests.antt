-- ===== src/Http/Headers/Requests.antt =====
-- Requests as text/http lays them out: a request line, headers, an empty line and the body.
use encarno.Base.{
  ℕ, zero, suc, ◌+◌, ◌≤◌, ◌<◌, ◌≡◌, refl, Bool, false, ◌||◌, List, [], ◌∷◌, ◌++◌, arith,
  if◌then◌else◌, length, length-append, Option, none, some, Option-cases,
}
use encarno.Base.Bytes.{Bytes, codes, equal, count, cut-append}
use encarno.Base.Trim.{trim_space}
use encarno.Http.Headers.{Values, header_line, read_headers, get_host_and_conn_header_values}

-- A header: its name, and all that follows the colon on its line.
pub record Header : Type 0 where
  pub name : Bytes
  pub value : Bytes

abbrev pub line_of : Header → Bytes
line_of h = h.name ++ b':' ∷ h.value

pub record IsHeader (h : Header) : Type 0 where
  pub one_line : count 10 (line_of h) ≡ 0
  pub no_colon : count b':' h.name ≡ 0
  pub minimal : 1 ≤ length h.name + length h.value

abbrev pub AllHeaders : List Header → Type 0
AllHeaders [] = Unit
AllHeaders (h ∷ hs) = IsHeader h × AllHeaders hs

-- The value of the last header with either name.
unfoldable pub last_value : Bytes → Bytes → List Header → Option Bytes
last_value a b [] = none
last_value a b (h ∷ hs) = elim (last_value a b hs) [
  | some value ↦ some value
  | none ↦ if equal h.name a || equal h.name b then some h.value else none
]

-- The headers, the line that ends them, and the body.
abbrev pub render_headers : List Header → Bytes → Bytes → Bytes
render_headers [] blank body = blank ++ 10 ∷ body
render_headers (h ∷ hs) blank body = line_of h ++ 10 ∷ render_headers hs blank body

-- What the headers say, over what was known before.
abbrev pub host_of : Bytes → List Header → Bytes
host_of before hs = elim (last_value (codes "Host") (codes "host") hs) [
  | none ↦ before
  | some value ↦ trim_space value
]

abbrev pub close_of : Bool → List Header → Bool
close_of before hs = elim (last_value (codes "Connection") (codes "connection") hs) [
  | none ↦ before
  | some value ↦ equal (trim_space value) (codes "close")
]

header_line_lem :
    (v : Values) (h : Header)
    → count b':' h.name ≡ 0
    → header_line v (line_of h)
      ≡ record { host = host_of v.host (h ∷ []); close = close_of v.close (h ∷ []) }
unfolding header_line last_value
header_line_lem v h n = rw (cut-append b':' h.name h.value n) (ground arith)

host_of-cons :
    (x : Bytes) (h : Header) (hs : List Header)
    → host_of (host_of x (h ∷ [])) hs ≡ host_of x (h ∷ hs)
unfolding last_value
host_of-cons x h hs = ground (arith, Option-cases (last_value (codes "Host") (codes "host") hs))

close_of-cons :
    (x : Bool) (h : Header) (hs : List Header)
    → close_of (close_of x (h ∷ [])) hs ≡ close_of x (h ∷ hs)
unfolding last_value
close_of-cons x h hs =
    ground (arith, Option-cases (last_value (codes "Connection") (codes "connection") hs))

read_headers-render :
    (fuel : ℕ) (hs : List Header) (v : Values) (blank body : Bytes)
    → AllHeaders hs
    → count 10 blank ≡ 0
    → length blank < 2
    → length hs < fuel
    → read_headers fuel v (render_headers hs blank body)
      ≡ (record { host = host_of v.host hs; close = close_of v.close hs }, body)
unfolding read_headers
read_headers-render zero hs v blank body w n b e = absurd (omega arith)
read_headers-render (suc fuel) [] v blank body w n b e =
    unfold last_value in rw (cut-append 10 blank body n) (ground arith)
read_headers-render (suc fuel) (h ∷ hs) v blank body (w, ws) n b e =
    rw
      (
        cut-append 10 (line_of h) (render_headers hs blank body) w.one_line,
        header_line_lem v h w.no_colon,
      )
      (ground (
        arith,
        w.minimal,
        length-append h.name (b':' ∷ h.value),
        read_headers-render fuel hs
            (record { host = host_of v.host (h ∷ []); close = close_of v.close (h ∷ []) }) blank
            body ws n b (omega arith),
        host_of-cons v.host h hs,
        close_of-cons v.close h hs,
      ))

length-render_headers :
    (hs : List Header) (blank body : Bytes) → length hs ≤ length (render_headers hs blank body)
length-render_headers [] blank body = omega arith
length-render_headers (h ∷ hs) blank body = omega (
  arith,
  length-append (line_of h) (10 ∷ render_headers hs blank body),
  length-render_headers hs blank body,
)

-- For a request line, headers, a line of at most one byte and a body, each line ending in a
-- newline and no name having a colon: the host is the value of the last header named Host or
-- host, without white space around it, and empty if there is none; the connection is to be closed
-- exactly if the last header named Connection or connection says close; and the length is the
-- body's, whatever the body holds.
pub get_host_and_conn_header_values_lem :
    (request_line : Bytes) (hs : List Header) (blank body : Bytes)
    → count 10 request_line ≡ 0
    → AllHeaders hs
    → count 10 blank ≡ 0
    → length blank < 2
    → get_host_and_conn_header_values (request_line ++ 10 ∷ render_headers hs blank body)
      ≡ (host_of [] hs, close_of false hs, length body)
unfolding get_host_and_conn_header_values
get_host_and_conn_header_values_lem request_line hs blank body r w n b =
    rw (cut-append 10 request_line (render_headers hs blank body) r) (
      rw
        (read_headers-render (suc (length (render_headers hs blank body))) hs
          (record { host = []; close = false }) blank body w n b
          (omega (arith, length-render_headers hs blank body)))
        refl)
