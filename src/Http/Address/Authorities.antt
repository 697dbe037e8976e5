-- ===== src/Http/Address/Authorities.antt =====
-- The authorities of URLs that `openConnection` makes addresses of.
use mathlib.Core.List.{append_assoc}
use encarno.Base.{ℕ, ◌≡◌, ◌≢◌, ◌<◌, refl, ap, ◌∙◌, false, Option, none, some, [], ◌∷◌, ◌++◌, arith}
use encarno.Base.Bytes.{Bytes, equal, equal_iff, cut, count, cut-append, cut_none}
use encarno.Http.Address.{starts_with_bracket, split_host_port, improve_host}

-- A name or an IPv4 address, or an IPv6 address in brackets.
pub data Host : Type 0 where
  name : Bytes → Host
  ipv6 : Bytes → Host

abbrev pub host_text : Host → Bytes
host_text (name h) = h
host_text (ipv6 h) = b'[' ∷ h ++ b']' ∷ []

abbrev pub authority : Host → Option Bytes → Bytes
authority h none = host_text h
authority h (some port) = host_text h ++ b':' ∷ port

abbrev pub IsHost : Host → Type 0
IsHost (name h) = (count b':' h ≡ 0) × (count b'[' h ≡ 0)
IsHost (ipv6 h) = (0 < count b':' h) × (count b']' h ≡ 0)

abbrev pub IsPort : Option Bytes → Type 0
IsPort none = Unit
IsPort (some port) = port ≢ []

abbrev pub bare : Host → Bytes
bare (name h) = h
bare (ipv6 h) = h

abbrev pub port_or : Option Bytes → Bytes → Bytes
port_or none other = other
port_or (some port) other = port

no_bracket : (h rest : Bytes) → count b'[' h ≡ 0 → starts_with_bracket (h ++ b':' ∷ rest) ≡ false
unfolding starts_with_bracket
no_bracket [] rest n = refl
no_bracket (c ∷ cs) rest n = ground arith

no_bracket_alone : (h : Bytes) → count b'[' h ≡ 0 → starts_with_bracket h ≡ false
unfolding starts_with_bracket
no_bracket_alone [] n = refl
no_bracket_alone (c ∷ cs) n = ground arith

count-append_found : (c : ℕ) (s t : Bytes) → 0 < count c (s ++ c ∷ t)
count-append_found c [] t = ground arith
count-append_found c (x ∷ xs) t = ground (arith, count-append_found c xs t)

split_ipv6 :
    (h rest : Bytes)
    → count b']' h ≡ 0
    → split_host_port (b'[' ∷ h ++ b']' ∷ rest) ≡ (h, (cut b':' rest).1)
unfolding split_host_port starts_with_bracket cut
split_ipv6 h rest n =
    let found = count-append_found b']' h rest in rw (cut-append b']' h rest n) (ground arith)

pub split_host_port_lem :
    (h : Host) (port : Option Bytes)
    → IsHost h
    → split_host_port (authority h port) ≡ (bare h, port_or port [])
unfolding split_host_port
split_host_port_lem (name h) none (c, b) = rw (no_bracket_alone h b, cut_none b':' h c) refl
split_host_port_lem (name h) (some port) (c, b) =
    rw (no_bracket h port b, cut-append b':' h port c) refl
split_host_port_lem (ipv6 h) none (_, b) = split_ipv6 h [] b ∙ (unfold cut in refl)
split_host_port_lem (ipv6 h) (some port) (_, b) =
    ap split_host_port (append_assoc (b'[' ∷ h) (b']' ∷ []) (b':' ∷ port))
    ∙ split_ipv6 h (b':' ∷ port) b
    ∙ (unfold cut in refl)

improve_host_lem :
    (h : Host) (port : Option Bytes) (def_port : Bytes)
    → IsHost h
    → IsPort port
    → improve_host (bare h) (port_or port []) def_port ≡ authority h (some (port_or port def_port))
unfolding improve_host
improve_host_lem (name h) none def_port w p = unfold equal in ground arith
improve_host_lem (name h) (some port) def_port w p = ground (arith, equal_iff port [])
improve_host_lem (ipv6 h) none def_port w p = unfold equal in ground arith
improve_host_lem (ipv6 h) (some port) def_port w p = ground (arith, equal_iff port [])

-- An authority that has no port is dialed at the default port, and any other one as it is, be
-- its host a name or an IPv6 address in brackets: splitting it and putting it together again
-- loses and invents nothing.
pub improve_host-split_host_port :
    (h : Host) (port : Option Bytes) (def_port : Bytes)
    → IsHost h
    → IsPort port
    → improve_host
        (split_host_port (authority h port)).0
        (split_host_port (authority h port)).1
        def_port
      ≡ authority h (some (port_or port def_port))
improve_host-split_host_port h port def_port w p =
    rw (split_host_port_lem h port w) (improve_host_lem h port def_port w p)
