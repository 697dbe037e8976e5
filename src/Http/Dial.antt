-- ===== src/Http/Dial.antt =====
-- pkg/http/conn.go: how a new connection of the pool is dialed.
-- `url.Parse` and the cipher suites of crypto/tls are parameters; a dialer and the address that it is
-- called with stand for the connection.
pub mod Names
pub mod Targets
mod Tests
use encarno.Base.{
  ℕ, Bool, true, false, ◌&&◌, ◌||◌, Option, none, some, List, [], ◌∷◌, ◌++◌, ◌==◌, if◌then◌else◌,
}
use encarno.Base.Bytes.{Bytes, codes, equal}
use encarno.Base.Map.{Map, lookup, insert}
use encarno.Core.Config.{TlsConf}
use encarno.Http.Address.{split_host_port, improve_host}
use encarno.Http.Pool.{Conn, ConnPool, get_idle}

-- What `url.Parse` gives: an error, or the scheme and the host.
pub data Url : Type 0 where
  unparsed : Bytes → Url
  parsed : Bytes → Bytes → Url

-- The `tls.Config` of a dialer.
pub record TlsDialer : Type 0 where
  pub server_name : Bytes
  pub cipher_suites : List ℕ
  pub insecure_skip_verify : Bool
  pub min_version : ℕ
  pub max_version : ℕ

pub data Opening : Type 0 where
  refused : Bytes → Opening
  dials_tls : TlsDialer → Bytes → Opening
  dials_plain : Bytes → Opening

-- `Contains(hostname, "://")`
unfoldable pub begins_with : Bytes → Bytes → Bool
begins_with [] s = true
begins_with (c ∷ cs) [] = false
begins_with (c ∷ cs) (d ∷ ds) = c == d && begins_with cs ds

unfoldable pub has_text : Bytes → Bytes → Bool
has_text text [] = begins_with text []
has_text text (c ∷ cs) = begins_with text (c ∷ cs) || has_text text cs

unfoldable pub with_scheme : Bytes → Bytes
with_scheme hostname =
    if has_text (codes "://") hostname then hostname else codes "http://" ++ hostname

-- `slices.Contains`
abbrev pub is_listed : Bytes → List Bytes → Bool
is_listed name [] = false
is_listed name (n ∷ names) = equal n name || is_listed name names

-- One of the loops over the suites of crypto/tls, which are pairs of a name and a number.
unfoldable pub chosen_suites : List Bytes → List (Bytes × ℕ) → List ℕ
chosen_suites names [] = []
chosen_suites names ((name, id) ∷ suites) =
    let rest = chosen_suites names suites in if is_listed name names then id ∷ rest else rest

module _ (parse : Bytes → Url) (suites insecure_suites : List (Bytes × ℕ)) where
  unfoldable pub new_tls_dialer : TlsConf → Bytes → TlsDialer
  new_tls_dialer conf hint = record {
    server_name = hint;
    cipher_suites =
        chosen_suites conf.tls_cipher_suites suites
        ++ chosen_suites conf.tls_cipher_suites insecure_suites;
    insecure_skip_verify = conf.insecure_skip_verify;
    min_version = conf.min_version;
    max_version = conf.max_version;
  }

  -- `tlsDialerForHost`: the dialers of the pool after it, and the one that it returns.
  unfoldable pub tls_dialer_for_host :
      TlsConf → Map TlsDialer → Bytes → Bytes → Map TlsDialer × TlsDialer
  tls_dialer_for_host conf dialers host hint = elim (lookup host dialers) [
    | some obj ↦ (dialers, obj)
    | none ↦ let dialer = new_tls_dialer conf hint in (insert host dialer dialers, dialer)
  ]

  -- `openConnection` once the name is parsed.
  unfoldable pub open_parsed :
      TlsConf → Map TlsDialer → Bytes → Bytes → Url → Map TlsDialer × Opening
  open_parsed conf dialers hostname hint (unparsed err) = (
    dialers,
    refused (codes "Failed to parse hostname '" ++ (hostname ++ (codes "' as URL: " ++ err))),
  )
  open_parsed conf dialers hostname hint (parsed scheme url_host) =
      let (host, port) = split_host_port url_host in
      let hint' = if equal hint [] then url_host else hint in
      let (dialers', dialer) = tls_dialer_for_host conf dialers url_host hint' in
      if equal scheme (codes "https")
      then (dialers', dials_tls dialer (improve_host host port (codes "443")))
      else (dialers, dials_plain (improve_host host port (codes "80")))

  unfoldable pub open_connection : TlsConf → Map TlsDialer → Bytes → Bytes → Map TlsDialer × Opening
  open_connection conf dialers hostname hint =
      let hostname' = with_scheme hostname in
      open_parsed conf dialers hostname' hint (parse hostname')

  pub data Got : Type 0 where
    reused : ℕ → Got
    opened : Opening → Got

  -- `Get`, all of it.
  unfoldable pub get_conn :
      ConnPool
      → Map TlsDialer
      → TlsConf
      → (ℕ → Conn)
      → Bytes
      → Bytes
      → ConnPool × Map TlsDialer × Got
  get_conn p dialers conf conns hostname hint =
      let (p', idle) = get_idle p conns hostname in
      let (dialers', opening) = open_connection conf dialers hostname hint in
      elim idle [ some conn ↦ (p', dialers, reused conn) | none ↦ (p', dialers', opened opening) ]
