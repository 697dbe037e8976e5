-- ===== src/Http/Pool/Sharing.antt =====
-- Workers that share a pool: no connection is in two hands.
use encarno.Base.{
  ℕ, suc, ◌+◌, ◌≤◌, ◌≡◌, refl, ap, subst, Option, none, some, List, ◌∷◌, ◌++◌, arith, ◌==◌,
  if◌then◌else◌, length,
}
use encarno.Base.Bytes.{Bytes, count}
use encarno.Base.Map.{lookup}
use encarno.Http.Pool.{Conn, ConnPool, new_conn, reset, set_err, get_idle, return_conn}
use encarno.Http.Pool.Channels.{
  idle_count, count-append, IsBounded, Takes, get_idle-Takes, return_conn_lem,
}

-- The pool, the store of connections, those in the hands of a worker, and the number of the next
-- one to be opened.
pub record System : Type 0 where
  pub pool : ConnPool
  pub conns : ℕ → Conn
  pub in_use : List ℕ
  pub next : ℕ

abbrev pub set : (ℕ → Conn) → ℕ → Conn → ℕ → Conn
set conns conn r other = if other == conn then r else conns other

-- What can happen: `Get` gives an idle connection, opens one or fails to; a worker returns a
-- connection, or lets go of it; and a connection's reading loop meets an error.
pub data Step (s : System) : System → Type 0 where
  reuse :
      (hostname : Bytes) (p : ConnPool) (conn : ℕ)
      → get_idle s.pool s.conns hostname ≡ (p, some conn)
      → Step s (record s {
        pool = p;
        conns = set s.conns conn (reset (s.conns conn));
        in_use = conn ∷ s.in_use;
      })
  open_new :
      (hostname : Bytes) (p : ConnPool)
      → get_idle s.pool s.conns hostname ≡ (p, none)
      → Step s (record s {
        pool = p;
        conns = set s.conns s.next new_conn;
        in_use = s.next ∷ s.in_use;
        next = suc s.next;
      })
  dial_fails :
      (hostname : Bytes) (p : ConnPool)
      → get_idle s.pool s.conns hostname ≡ (p, none)
      → Step s (record s { pool = p })
  give_back :
      (hostname : Bytes) (conn : ℕ) (before after : List ℕ) (p : ConnPool)
      → s.in_use ≡ before ++ conn ∷ after
      → return_conn s.pool s.conns hostname conn ≡ some p
      → Step s (record s { pool = p; in_use = before ++ after })
  let_go :
      (conn : ℕ) (before after : List ℕ)
      → s.in_use ≡ before ++ conn ∷ after
      → Step s (record s { in_use = before ++ after })
  breaks :
      (conn : ℕ) (err : Bytes)
      → Step s (record s { conns = set s.conns conn (set_err err (s.conns conn)) })

pub data Reach (s : System) : System → Type 0 where
  stay : Reach s s
  then_step : {t u : System} → Reach s t → Step t u → Reach s u

-- A connection is in one place, those that are not opened are in none, and no channel holds more
-- than its buffer takes.
pub record Inv (s : System) : Type 0 where
  pub one_place : (conn : ℕ) → count conn s.in_use + idle_count conn s.pool.idle ≤ 1
  pub not_opened :
      (conn : ℕ) → s.next ≤ conn → count conn s.in_use + idle_count conn s.pool.idle ≡ 0
  pub bounded : IsBounded s.pool

-- Nothing is put into more places than it was in.
Inv-fewer :
    (s t : System)
    → t.next ≡ s.next
    → ((conn : ℕ)
        → count conn t.in_use + idle_count conn t.pool.idle
          ≤ count conn s.in_use + idle_count conn s.pool.idle)
    → (IsBounded s.pool → IsBounded t.pool)
    → Inv s
    → Inv t
Inv-fewer s t n fewer b i = record {
  one_place = λ conn. omega (arith, fewer conn, i.one_place conn);
  not_opened = λ conn h. omega (arith, n, fewer conn, i.not_opened conn (omega (arith, n)));
  bounded = b i.bounded;
}

get_idle-result :
    (s : System) (hostname : Bytes) (p : ConnPool) (got : Option ℕ)
    → get_idle s.pool s.conns hostname ≡ (p, got)
    → Takes s.pool s.conns p got
get_idle-result s hostname p got e =
    subst (λ (r : ConnPool × Option ℕ). Takes s.pool s.conns r.0 r.1) e
      (get_idle-Takes s.pool s.conns hostname)

pub Step-Inv : {s t : System} → Inv s → Step s t → Inv t
Step-Inv {s = s} i (reuse hostname p conn e) =
    let x = get_idle-result s hostname p (some conn) e in
    Inv-fewer s _ refl (λ other. omega (arith, x.counts other)) x.bounded i
Step-Inv {s = s} i (open_new hostname p e) =
    let x = get_idle-result s hostname p none e in
    record {
      one_place = λ conn. ground (arith, x.counts conn, i.one_place conn, i.not_opened conn);
      not_opened = λ conn h. ground (arith, x.counts conn, i.not_opened conn);
      bounded = x.bounded i.bounded;
    }
Step-Inv {s = s} i (dial_fails hostname p e) =
    let x = get_idle-result s hostname p none e in
    Inv-fewer s _ refl (λ other. omega (arith, x.counts other)) x.bounded i
Step-Inv {s = s} i (give_back hostname conn before after p h e) =
    let (counts, b) = return_conn_lem s.pool p s.conns hostname conn e in
    Inv-fewer s _ refl
      (λ other. omega (
        arith,
        counts other,
        ap (count other) h,
        count-append other before (conn ∷ after),
        count-append other before after,
      ))
      b i
Step-Inv {s = s} i (let_go conn before after h) =
    Inv-fewer s _ refl
      (λ other. ground (
        arith,
        ap (count other) h,
        count-append other before (conn ∷ after),
        count-append other before after,
      ))
      (λ b. b) i
Step-Inv {s = s} i (breaks conn err) = Inv-fewer s _ refl (λ other. omega arith) (λ b. b) i

pub Reach-Inv : {s t : System} → Inv s → Reach s t → Inv t
Reach-Inv i stay = i
Reach-Inv i (then_step r x) = Step-Inv (Reach-Inv i r) x

-- From a state in which every connection is in one place at most and the channels keep to their
-- size, however requests, returns, failures and broken connections follow each other: a connection
-- that `Get` gives for reuse is in no other worker's hands, is not idle any more, for any host, and
-- has met no error. No connection is then in use twice, and no channel has more idle connections
-- than the pool's maximum.
pub Reach-get_idle :
    (s t : System) (hostname : Bytes) (p : ConnPool) (conn : ℕ)
    → Inv s
    → Reach s t
    → get_idle t.pool t.conns hostname ≡ (p, some conn)
    → (count conn t.in_use ≡ 0)
      × (idle_count conn p.idle ≡ 0)
      × ((t.conns conn).err ≡ none)
      × ((other : ℕ) → count other (conn ∷ t.in_use) ≤ 1)
      × IsBounded p
Reach-get_idle s t hostname p conn i r e =
    let x = get_idle-result t hostname p (some conn) e in
    let j = Reach-Inv i r in
    (
      ground (arith, x.counts conn, j.one_place conn),
      ground (arith, x.counts conn, j.one_place conn),
      x.healthy conn refl,
      λ other. ground (arith, x.counts conn, j.one_place conn, j.one_place other),
      x.bounded j.bounded,
    )

-- From a state in which every connection is in one place at most and the channels keep to their
-- size, a state that can be reached has no channel with more idle connections than the pool's
-- maximum, and no connection that is in use twice.
pub Reach-Inv_lem :
    (s t : System) (hostname : Bytes) (ch : List ℕ) (conn : ℕ)
    → Inv s
    → Reach s t
    → lookup hostname t.pool.idle ≡ some ch
    → (length ch ≤ t.pool.max_connections) × (count conn t.in_use ≤ 1)
Reach-Inv_lem s t hostname ch conn i r e =
    let j = Reach-Inv i r in (j.bounded hostname ch e, omega (arith, j.one_place conn))
