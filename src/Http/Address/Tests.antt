-- ===== src/Http/Address/Tests.antt =====
-- Authorities and the addresses that they are dialed at.
use encarno.Base.{◌≡◌, refl, []}
use encarno.Base.Bytes.{codes, cut, equal}
use encarno.Http.Address.{split_host_port, improve_host}

split_host_port-loopback : split_host_port (codes "[::1]:8070") ≡ (codes "::1", codes "8070")
unfolding split_host_port cut
split_host_port-loopback = refl

improve_host-loopback : improve_host (codes "::1") [] (codes "443") ≡ codes "[::1]:443"
unfolding improve_host equal
improve_host-loopback = refl
