-- ===== src/Http/Dial/Tests.antt =====
-- A host that is dialed over TLS for the first time.
use encarno.Base.{ℕ, ◌≡◌, refl, true, some, List, [], ◌∷◌, arith}
use encarno.Base.Bytes.{Bytes, codes, equal}
use encarno.Core.Config.{TlsConf}
use encarno.Http.Address.Authorities.{Host, ipv6}
use encarno.Http.Dial.{
  Url, parsed, chosen_suites, with_scheme, has_text, begins_with, open_connection,
}
use encarno.Http.Dial.Names.{has_scheme, with_scheme-Named, Named}
use encarno.Http.Dial.Targets.{IsOpened, open_connection-authority}

abbrev loopback : Host
loopback = ipv6 (codes "::1")

abbrev parse : Bytes → Url
parse url = parsed (codes "https") (codes "[::1]:8443")

abbrev suites : List (Bytes × ℕ)
suites = (codes "TLS_AES_128_GCM_SHA256", 4865) ∷ (codes "TLS_AES_256_GCM_SHA384", 4866) ∷ []

abbrev conf : TlsConf
conf = record {
  insecure_skip_verify = true;
  tls_cipher_suites = codes "TLS_AES_256_GCM_SHA384" ∷ codes "TLS_NULL" ∷ [];
  min_version = 771;
  max_version = 0;
}

chosen : chosen_suites conf.tls_cipher_suites suites ≡ 4866 ∷ []
unfolding chosen_suites equal
chosen = refl

localhost-scheme : with_scheme (codes "localhost") ≡ codes "http://localhost"
unfolding with_scheme has_text begins_with
localhost-scheme = refl

open_connection-authority_example :
    IsOpened parse suites [] true conf [] loopback
      (some (codes "8443"))
      (codes "a")
      (codes "b")
      (open_connection parse suites [] conf [] (codes "https://[::1]:8443") (codes "a"))
unfolding equal
open_connection-authority_example =
    open_connection-authority parse suites [] conf [] (codes "https://[::1]:8443") (codes "a")
      (codes "b") (codes "https://[::1]:8443") (codes "https") loopback (some (codes "8443"))
      (has_scheme (codes "https") (codes "[::1]:8443") refl) refl (omega arith, refl) (λ h. cc)

localhost-Named : Named (codes "localhost") (with_scheme (codes "localhost"))
localhost-Named = with_scheme-Named (codes "localhost")
