-- ===== src/Http/Pool/Channels.antt =====
-- What `Get` and `Return` do to the channels of idle connections.
use encarno.Base.{
  ℕ, ◌+◌, ◌≤◌, ◌<◌, ◌≡◌, refl, Option, none, some, List, [], ◌∷◌, ◌++◌, arith, ◌==◌, if◌then◌else◌,
  length, length-append, Option-cases, Bool-cases, inl, inr, ◌⊎◌,
}
use encarno.Base.Bytes.{Bytes, count}
use encarno.Base.Map.{Map, lookup, insert, lookup-insert}
use encarno.Http.Pool.{Conn, ConnPool, channel_for, get_idle, return_conn}

-- How often a connection is idle, in all channels.
abbrev pub idle_count : ℕ → Map (List ℕ) → ℕ
idle_count conn [] = 0
idle_count conn ((hostname, ch) ∷ rest) = count conn ch + idle_count conn rest

abbrev pub or_empty : Option (List ℕ) → List ℕ
or_empty none = []
or_empty (some ch) = ch

idle_count-insert :
    (conn : ℕ) (hostname : Bytes) (ch : List ℕ) (m : Map (List ℕ))
    → idle_count conn (insert hostname ch m) + count conn (or_empty (lookup hostname m))
      ≡ idle_count conn m + count conn ch
unfolding insert lookup
idle_count-insert conn hostname ch [] = omega arith
idle_count-insert conn hostname ch ((key, ch') ∷ rest) =
    ground (arith, idle_count-insert conn hostname ch rest)

pub count-append :
    (conn : ℕ) (xs ys : List ℕ) → count conn (xs ++ ys) ≡ count conn xs + count conn ys
count-append conn [] ys = omega arith
count-append conn (x ∷ xs) ys = omega (arith, count-append conn xs ys)

-- One, if it is the connection that is handed out.
abbrev pub handed : Option ℕ → ℕ → ℕ
handed none conn = 0
handed (some c) conn = if c == conn then 1 else 0

abbrev pub IsBounded : ConnPool → Type 0
IsBounded p =
    (hostname : Bytes) (ch : List ℕ)
    → lookup hostname p.idle ≡ some ch
    → length ch ≤ p.max_connections

-- What `Get` leaves in the pool.
pub record Takes (p : ConnPool) (conns : ℕ → Conn) (q : ConnPool) (got : Option ℕ) : Type 0 where
  pub counts : (conn : ℕ) → idle_count conn q.idle + handed got conn ≤ idle_count conn p.idle
  pub bounded : IsBounded p → IsBounded q
  pub healthy : (conn : ℕ) → got ≡ some conn → (conns conn).err ≡ none

insert-IsBounded :
    (p : ConnPool) (hostname : Bytes) (ch : List ℕ)
    → length ch ≤ p.max_connections
    → IsBounded p
    → IsBounded (record p { idle = insert hostname ch p.idle })
insert-IsBounded p hostname ch h b hostname' ch' e =
    ground (arith, lookup-insert hostname hostname' ch p.idle, b hostname' ch', e)

channel_for_missing :
    (p : ConnPool) (hostname : Bytes)
    → lookup hostname p.idle ≡ none
    → channel_for p hostname ≡ (record p { idle = insert hostname [] p.idle }, [])
unfolding channel_for
channel_for_missing p hostname e = rw (e, channel_for) refl

channel_for_known :
    (p : ConnPool) (hostname : Bytes) (ch : List ℕ)
    → lookup hostname p.idle ≡ some ch
    → channel_for p hostname ≡ (p, ch)
unfolding channel_for
channel_for_known p hostname ch e = rw (e, channel_for) refl

get_idle_missing :
    (p : ConnPool) (conns : ℕ → Conn) (hostname : Bytes)
    → lookup hostname p.idle ≡ none
    → get_idle p conns hostname ≡ (record p { idle = insert hostname [] p.idle }, none)
unfolding get_idle
get_idle_missing p conns hostname e =
    rw (channel_for_missing p hostname e, get_idle) (rw (channel_for_missing p hostname e) refl)

get_idle_empty :
    (p : ConnPool) (conns : ℕ → Conn) (hostname : Bytes)
    → lookup hostname p.idle ≡ some []
    → get_idle p conns hostname ≡ (p, none)
unfolding get_idle
get_idle_empty p conns hostname e =
    rw (channel_for_known p hostname [] e, get_idle) (rw (channel_for_known p hostname [] e) refl)

-- The first idle connection, unless it has failed.
abbrev if_healthy : (ℕ → Conn) → ℕ → Option ℕ
if_healthy conns conn = elim (conns conn).err [ none ↦ some conn | some _ ↦ none ]

get_idle_first :
    (p : ConnPool) (conns : ℕ → Conn) (hostname : Bytes) (conn : ℕ) (rest : List ℕ)
    → lookup hostname p.idle ≡ some (conn ∷ rest)
    → get_idle p conns hostname
      ≡ (record p { idle = insert hostname rest p.idle }, if_healthy conns conn)
unfolding get_idle
get_idle_first p conns hostname conn rest e =
    rw (channel_for_known p hostname (conn ∷ rest) e, get_idle)
      (rw (channel_for_known p hostname (conn ∷ rest) e) refl)

pub get_idle-Takes :
    (p : ConnPool) (conns : ℕ → Conn) (hostname : Bytes)
    → Takes p conns (get_idle p conns hostname).0 (get_idle p conns hostname).1
get_idle-Takes p conns hostname = elim (Option-cases (lookup hostname p.idle)) [
  | inl e ↦ rw (get_idle_missing p conns hostname e) (record {
    counts = λ conn. ground (arith, idle_count-insert conn hostname [] p.idle, e);
    bounded = insert-IsBounded p hostname [] (omega arith);
    healthy = λ conn h. cc;
  })
  | inr ([], e) ↦
      rw (get_idle_empty p conns hostname e)
        (record { counts = λ conn. omega arith; bounded = λ b. b; healthy = λ conn h. cc })
  | inr (c ∷ rest, e) ↦ rw (get_idle_first p conns hostname c rest e) (record {
    counts = λ conn.
        ground (arith, idle_count-insert conn hostname rest p.idle, e, Option-cases (conns c).err);
    bounded = λ b. insert-IsBounded p hostname rest (omega (arith, b hostname (c ∷ rest) e)) b;
    healthy = λ conn h. ground (arith, h, Option-cases (conns c).err);
  })
]

-- What `Return` leaves in the pool, if it does not block.
return_conn_cases :
    (p q : ConnPool) (conns : ℕ → Conn) (hostname : Bytes) (conn : ℕ)
    → return_conn p conns hostname conn ≡ some q
    → (q ≡ p)
      ⊎ ((ch : List ℕ) × (lookup hostname p.idle ≡ some ch)
          × (length ch < p.max_connections)
          × (q ≡ record p { idle = insert hostname (ch ++ conn ∷ []) p.idle }))
unfolding return_conn
return_conn_cases p q conns hostname conn e = elim (Bool-cases (conns conn).canceled) [
  | inl c ↦ inl (ground (arith, e, c))
  | inr c ↦ elim (Option-cases (lookup hostname p.idle)) [
    | inl h ↦ absurd (ground (arith, e, c, h))
    | inr (ch, h) ↦ inr (ch, h, ground (arith, e, c, h), ground (arith, e, c, h))
  ]
]

pub return_conn_lem :
    (p q : ConnPool) (conns : ℕ → Conn) (hostname : Bytes) (conn : ℕ)
    → return_conn p conns hostname conn ≡ some q
    → ((other : ℕ) → idle_count other q.idle ≤ idle_count other p.idle + handed (some conn) other)
      × (IsBounded p → IsBounded q)
return_conn_lem p q conns hostname conn e = elim (return_conn_cases p q conns hostname conn e) [
  | inl h ↦ rw h (λ other. omega arith, λ b. b)
  | inr (ch, l, room, h) ↦ rw h (
    λ other. ground (
      arith,
      l,
      idle_count-insert other hostname (ch ++ conn ∷ []) p.idle,
      count-append other ch (conn ∷ []),
    ),
    insert-IsBounded p hostname (ch ++ conn ∷ []) (omega (arith, length-append ch (conn ∷ []))),
  )
]
