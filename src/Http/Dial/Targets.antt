-- ===== src/Http/Dial/Targets.antt =====
-- Where the connections for an authority are dialed, and with which dialer.
use encarno.Base.{
  ◌∷◌, ◌++◌, ◌≡◌, refl, ap, ◌∙◌, inl, inr, Bool, true, false, ℕ, Option, none, some, List, [],
  if◌then◌else◌, Bool-cases,
}
use mathlib.Core.Path.{ap₂}
use encarno.Base.Bytes.{Bytes, codes, equal, equal_refl}
use encarno.Base.Map.{Map, lookup, insert, lookup-insert}
use encarno.Core.Config.{TlsConf}
use encarno.Http.Address.{split_host_port, improve_host}
use encarno.Http.Address.Authorities.{
  Host, authority, port_or, IsHost, IsPort, improve_host-split_host_port,
}
use encarno.Http.Dial.Names.{Named, Named-with_scheme}
use encarno.Http.Dial.{
  Url, parsed, TlsDialer, Opening, dials_tls, dials_plain, is_listed, chosen_suites, new_tls_dialer,
  tls_dialer_for_host, open_parsed, open_connection,
}

-- The numbers of the suites whose names are listed.
abbrev pub ids_of : List Bytes → List (Bytes × ℕ) → List ℕ
ids_of names [] = []
ids_of names ((name, id) ∷ suites) =
    if is_listed name names then id ∷ ids_of names suites else ids_of names suites

chosen_suites-ids_of :
    (names : List Bytes) (suites : List (Bytes × ℕ))
    → chosen_suites names suites ≡ ids_of names suites
unfolding chosen_suites
chosen_suites-ids_of names [] = refl
chosen_suites-ids_of names ((name, id) ∷ suites) = rw (chosen_suites-ids_of names suites) refl

module _ (parse : Bytes → Url) (suites insecure_suites : List (Bytes × ℕ)) where
  -- The dialer of a host is the one that was made for its first connection.
  abbrev dialer_of : TlsConf → Map TlsDialer → Bytes → Bytes → TlsDialer
  dialer_of conf dialers host hint = elim (lookup host dialers) [
    | some dialer ↦ dialer
    | none ↦ record {
      server_name = hint;
      cipher_suites =
          ids_of conf.tls_cipher_suites suites ++ ids_of conf.tls_cipher_suites insecure_suites;
      insecure_skip_verify = conf.insecure_skip_verify;
      min_version = conf.min_version;
      max_version = conf.max_version;
    }
  ]

  new_tls_dialer_lem :
      (conf : TlsConf) (hint : Bytes)
      → new_tls_dialer parse suites insecure_suites conf hint ≡ record {
        server_name = hint;
        cipher_suites =
            ids_of conf.tls_cipher_suites suites ++ ids_of conf.tls_cipher_suites insecure_suites;
        insecure_skip_verify = conf.insecure_skip_verify;
        min_version = conf.min_version;
        max_version = conf.max_version;
      }
  unfolding new_tls_dialer
  new_tls_dialer_lem conf hint =
      ap
        (λ (ids : List ℕ). record {
          server_name = hint;
          cipher_suites = ids;
          insecure_skip_verify = conf.insecure_skip_verify;
          min_version = conf.min_version;
          max_version = conf.max_version;
        })
        (ap₂ ◌++◌ (chosen_suites-ids_of conf.tls_cipher_suites suites)
          (chosen_suites-ids_of conf.tls_cipher_suites insecure_suites))

  tls_dialer_for_host_lem :
      (conf : TlsConf) (dialers : Map TlsDialer) (host hint later : Bytes)
      → (let r = tls_dialer_for_host parse suites insecure_suites conf dialers host hint in
          (r.1 ≡ dialer_of conf dialers host hint)
          × (lookup host r.0 ≡ some r.1)
          × (tls_dialer_for_host parse suites insecure_suites conf r.0 host later ≡ r))
  unfolding tls_dialer_for_host
  tls_dialer_for_host_lem conf dialers host hint later = by_found (lookup host dialers) refl
    where
      by_found :
          (found : Option TlsDialer)
          → lookup host dialers ≡ found
          → (let r : Map TlsDialer × TlsDialer = elim found [
            | some obj ↦ (dialers, obj)
            | none ↦
                let dialer = new_tls_dialer parse suites insecure_suites conf hint in
                (insert host dialer dialers, dialer)
          ] in
              (r.1 ≡ elim found [
                | some dialer ↦ dialer
                | none ↦ record {
                  server_name = hint;
                  cipher_suites =
                      ids_of conf.tls_cipher_suites suites
                      ++ ids_of conf.tls_cipher_suites insecure_suites;
                  insecure_skip_verify = conf.insecure_skip_verify;
                  min_version = conf.min_version;
                  max_version = conf.max_version;
                }
              ])
              × (lookup host r.0 ≡ some r.1)
              × (tls_dialer_for_host parse suites insecure_suites conf r.0 host later ≡ r))
      by_found none e =
          let dialer = new_tls_dialer parse suites insecure_suites conf hint in
          let found = lookup-insert host host dialer dialers ∙ rw (equal_refl host) refl in
          (new_tls_dialer_lem conf hint, found, rw (found, tls_dialer_for_host) refl)
      by_found (some dialer) e = (refl, e, rw (e, tls_dialer_for_host) refl)

  -- A connection for an authority and a hint: over TLS it uses the dialer of the authority, which
  -- stays the one for it whatever `later` is the next hint; otherwise there is none.
  pub IsOpened :
      Bool
      → TlsConf
      → Map TlsDialer
      → Host
      → Option Bytes
      → Bytes
      → Bytes
      → Map TlsDialer × Opening
      → Type 0
  IsOpened true conf dialers h port hint later r =
      let host = authority h port in
      let dialer = dialer_of conf dialers host (if equal hint [] then host else hint) in
      (r.1 ≡ dials_tls dialer (authority h (some (port_or port (codes "443")))))
      × (lookup host r.0 ≡ some dialer)
      × (tls_dialer_for_host parse suites insecure_suites conf r.0 host later ≡ (r.0, dialer))
  IsOpened false conf dialers h port hint later r =
      (r.1 ≡ dials_plain (authority h (some (port_or port (codes "80"))))) × (r.0 ≡ dialers)

  -- A name, with `http://` put before it if there is no `://` in it, is parsed to a scheme and the
  -- authority of a host, with a port or none. If the scheme is https, the connection is dialed over
  -- TLS at the authority with the default port 443, with the dialer kept for that authority. If
  -- there is none, a new one is kept: it has the hint for its server name, or the authority if there
  -- is no hint, the versions and the flag of the configuration, and the suites that the configuration
  -- names. That dialer is used again for whatever hint comes later. Any other scheme is dialed
  -- plainly, with the default port 80, and no dialer is made.
  pub open_connection-authority :
      (conf : TlsConf) (dialers : Map TlsDialer) (hostname hint later url scheme : Bytes) (h : Host)
      (port : Option Bytes)
      → Named hostname url
      → parse url ≡ parsed scheme (authority h port)
      → IsHost h
      → IsPort port
      → IsOpened
          (equal scheme (codes "https"))
          conf
          dialers
          h
          port
          hint
          later
          (open_connection parse suites insecure_suites conf dialers hostname hint)
  unfolding IsOpened open_connection open_parsed
  open_connection-authority conf dialers hostname hint later url scheme h port n u w p =
      let e = ap parse (Named-with_scheme hostname url n) ∙ u in
      let host = authority h port in
      let hint' = if equal hint [] then host else hint in
      let (same, kept, again) = tls_dialer_for_host_lem conf dialers host hint' later in
      elim (Bool-cases (equal scheme (codes "https"))) [
        | inl b ↦
            rw (e, b)
              (
                ap
                      (λ (d : TlsDialer). dials_tls d (
                        improve_host (split_host_port host).0 (split_host_port host).1
                          (codes "443")))
                      same
                    ∙ ap (dials_tls (dialer_of conf dialers host hint'))
                        (improve_host-split_host_port h port (codes "443") w p),
                kept ∙ ap some same,
                again
                    ∙ ap
                        (λ (d : TlsDialer). (
                          (tls_dialer_for_host parse suites insecure_suites conf dialers host
                              hint').0,
                          d,
                        ))
                        same,
              )
        | inr b ↦
            rw (e, b) (ap dials_plain (improve_host-split_host_port h port (codes "80") w p), refl)
      ]
