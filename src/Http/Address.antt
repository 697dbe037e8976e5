-- ===== src/Http/Address.antt =====
-- pkg/http/conn.go: the address that a connection is dialed at.
pub mod Authorities
mod Tests
use encarno.Base.{ℕ, Bool, true, false, ◌&&◌, List, [], ◌∷◌, ◌++◌, ltb, ◌==◌, if◌then◌else◌, not}
use encarno.Base.Bytes.{Bytes, codes, equal, cut, count}

-- `IndexByte(host, '[') == 0`
unfoldable pub starts_with_bracket : Bytes → Bool
starts_with_bracket [] = false
starts_with_bracket (c ∷ cs) = c == b'['

-- A byte is at an index, for `IndexByte(host, ']') > 0` behind a first byte that is another, and for
-- `Contains(host, ":")`.
abbrev pub contains : ℕ → Bytes → Bool
contains c s = ltb 0 (count c s)

unfoldable pub split_host_port : Bytes → Bytes × Bytes
unfolding starts_with_bracket
split_host_port host =
    let (before, after, _) = cut b']' host in
    let (_, port, _) = cut b':' after in
    let (_, host', _) = cut b'[' before in
    let (plain_host, plain_port, _) = cut b':' host in
    if starts_with_bracket host && contains b']' host
    then (host', port)
    else (plain_host, plain_port)

unfoldable pub improve_host : Bytes → Bytes → Bytes → Bytes
improve_host host port def_port =
    let host' = if contains b':' host then b'[' ∷ host ++ b']' ∷ [] else host in
    if not (equal port []) then host' ++ b':' ∷ port else host' ++ b':' ∷ def_port
