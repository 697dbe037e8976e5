-- ===== src/Http/Pool/Tests.antt =====
-- A connection that is opened, given back and used again.
use encarno.Base.{ℕ, ◌≤◌, ◌≡◌, refl, none, some, [], ◌∷◌, arith}
use encarno.Base.Bytes.{Bytes, codes, count, equal}
use encarno.Base.Map.{lookup, insert}
use encarno.Http.Pool.{new_conn, channel_for, get_idle, return_conn}
use encarno.Http.Pool.Channels.{idle_count, IsBounded}
use encarno.Http.Pool.Sharing.{
  System, Step, open_new, give_back, Reach, stay, then_step, set, Inv, Reach-get_idle,
}

abbrev start : System
start = record {
  pool = record { idle = []; max_connections = 2 };
  conns = λ conn. new_conn;
  in_use = [];
  next = 0;
}

start-Inv : Inv start
unfolding lookup
start-Inv = record {
  one_place = λ conn. omega arith;
  not_opened = λ conn h. omega arith;
  bounded = λ hostname ch e. cc;
}

abbrev host : Bytes
host = codes "localhost"

abbrev opened : System
opened = record start {
  pool = record start.pool { idle = (host, []) ∷ [] };
  conns = set start.conns 0 new_conn;
  in_use = 0 ∷ [];
  next = 1;
}

abbrev returned : System
returned = record opened { pool = record start.pool { idle = (host, 0 ∷ []) ∷ [] }; in_use = [] }

start-opened : Step start opened
unfolding get_idle channel_for lookup insert equal
start-opened = open_new host opened.pool refl

opened-returned : Step opened returned
unfolding return_conn lookup insert equal
opened-returned = give_back host 0 [] [] returned.pool refl refl

start-returned : Reach start returned
start-returned = then_step (then_step stay start-opened) opened-returned

reused : get_idle returned.pool returned.conns host ≡ (opened.pool, some 0)
unfolding get_idle channel_for lookup insert equal
reused = refl

Reach-get_idle_example :
    (count 0 returned.in_use ≡ 0)
    × (idle_count 0 opened.pool.idle ≡ 0)
    × ((returned.conns 0).err ≡ none)
    × ((other : ℕ) → count other (0 ∷ returned.in_use) ≤ 1)
    × IsBounded opened.pool
Reach-get_idle_example =
    Reach-get_idle start returned host opened.pool 0 start-Inv start-returned reused
