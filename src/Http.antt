-- ===== src/Http.antt =====
-- pkg/http: requests over pooled connections.
pub mod Headers
pub mod Loop
pub mod Address
pub mod Pool
pub mod Dial
pub mod Nib
