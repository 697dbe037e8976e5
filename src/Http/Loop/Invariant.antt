-- ===== src/Http/Loop/Invariant.antt =====
-- What every step of a connection keeps.
use encarno.Base.{
  ℕ, zero, suc, ◌∷◌, ◌-◌, ◌≡◌, refl, ap, sym, subst, ◌∙◌, true, false, [], ◌++◌, arith,
  if◌then◌else◌, length, take,
}
use encarno.Base.Bytes.{Bytes}
use mathlib.Core.List.{append-nil}
use encarno.Base.Int.{ℤ}
use encarno.Http.Loop.{
  BufferedConn, Loop, checking, reading, timed, counted, closing, ended, crashed, check, time_chunk,
  count_chunk, record_chunk, close_conn,
}
use encarno.Http.Pool.{Conn, set_err}
use encarno.Http.Loop.Steps.{
  System, Step, checks, arrives, times, counts, records, fails, ends, reads, hands_over,
  reads_nothing, crashes, closes, zeroes, empties, forgets, Reach, stay, then_step, new_system,
  pending, has_ended, Resetting, Stage, quiet, stage,
}
use encarno.Http.Loop.Tallies.{
  Tally, arrives-Tally, counts-Tally, records-Tally, zeroes-Tally, empties-Tally, forgets-Tally,
}

-- Bytes are kept in their order unless some are dropped, what is recorded is what came since the
-- last `Reset` while that is within the limit, and the underlying connection is closed once.
pub record Inv (s : System) : Type 0 where
  pub kept : s.lost ≡ 0 → s.arrived ≡ s.delivered ++ pending s.loop
  pub tally :
      s.disturbed ≡ false
      → Tally s.resetting
          (stage s.loop)
          s.conn.read_record_limit
          s.conn.conn.read_len
          s.conn.conn.read_recorded
          s.current
  pub closes : s.conn.closes ≡ (if s.conn.closed then 1 else 0)
  pub ended_closed : has_ended s.loop ≡ true → s.conn.closed ≡ true

take-all : (n : ℕ) (xs : Bytes) → length xs - n ≡ 0 → take n xs ≡ xs
take-all zero [] h = refl
take-all zero (x ∷ xs) h = absurd (omega arith)
take-all (suc n) [] h = refl
take-all (suc n) (x ∷ xs) h = ap (◌∷◌ x) (take-all n xs (omega arith))

check-not_ended :
    (r : Conn)
    → (has_ended (check r) ≡ false) × (pending (check r) ≡ []) × (stage (check r) ≡ quiet)
unfolding check
check-not_ended r = ground arith

-- `Close` closes the underlying connection unless that has been done.
close_conn_lem :
    (r : BufferedConn)
    → r.closes ≡ (if r.closed then 1 else 0)
    → ((close_conn r).closed ≡ true)
      × ((close_conn r).closes ≡ 1)
      × ((close_conn r).conn.read_len ≡ r.conn.read_len)
      × ((close_conn r).conn.read_recorded ≡ r.conn.read_recorded)
      × ((close_conn r).read_record_limit ≡ r.read_record_limit)
unfolding close_conn
close_conn_lem r h = ground arith

-- The tally of a state at another place of the loop, and at a known place of a `Reset`.
abbrev pub TallyAt : Resetting → Stage → System → Type 0
TallyAt g st s =
    Tally g st s.conn.read_record_limit s.conn.conn.read_len s.conn.conn.read_recorded s.current

pub moved :
    (s : System) (l : Loop) (g : Resetting)
    → stage s.loop ≡ stage l
    → TallyAt g (stage s.loop) s
    → TallyAt g (stage l) s
moved s l g e i = subst (λ (st : Stage). TallyAt g st s) e i

pub when :
    (s : System) {g : Resetting} (st : Stage)
    → s.resetting ≡ g
    → TallyAt s.resetting st s
    → TallyAt g st s
when s st e i = subst (λ (g : Resetting). TallyAt g st s) e i

-- A state is as it was but for what closing a connection changes.
Inv-close_conn :
    {s : System}
    → Inv s
    → (l : Loop) → pending s.loop ≡ pending l
    → stage s.loop ≡ stage l
    → Inv (record s { conn = close_conn s.conn; loop = l })
Inv-close_conn {s = s} i l same at =
    let (closed, once, len, rec, limit) = close_conn_lem s.conn i.closes in
    record {
      kept = λ z. i.kept z ∙ ap (λ xs. s.delivered ++ xs) same;
      tally = λ d.
          subst
            (λ (m : ℤ).
              Tally s.resetting (stage l) m (close_conn s.conn).conn.read_len
                (close_conn s.conn).conn.read_recorded s.current)
            (sym limit)
            (subst
              (λ (n : ℕ).
                Tally s.resetting (stage l) s.conn.read_record_limit n
                  (close_conn s.conn).conn.read_recorded s.current)
              (sym len)
              (subst
                (λ (xs : Bytes).
                  Tally s.resetting (stage l) s.conn.read_record_limit s.conn.conn.read_len xs
                    s.current)
                (sym rec) (moved s l s.resetting at (i.tally d))));
      closes = ground (arith, closed, once);
      ended_closed = λ e. closed;
    }

pub Step-Inv : {s t : System} → Inv s → Step s t → Inv t
unfolding time_chunk count_chunk record_chunk set_err
Step-Inv {s = s} i (checks h) =
    let (running, nothing, still) = check-not_ended s.conn.conn in
    record {
      kept = λ z. i.kept z ∙ ap (λ xs. s.delivered ++ xs) (ap pending h ∙ sym nothing);
      tally = λ d. moved s (check s.conn.conn) s.resetting (ap stage h ∙ sym still) (i.tally d);
      closes = i.closes;
      ended_closed = λ e. ground (arith, running);
    }
Step-Inv {s = s} i (arrives buf h b) = record {
  kept = λ z.
      let e = i.kept z ∙ ap (λ l. s.delivered ++ pending l) h in
      ap (λ xs. xs ++ buf) (e ∙ append-nil s.delivered);
  tally = λ d.
      arrives-Tally s.resetting s.disturbed s.conn.read_record_limit s.conn.conn.read_len
        s.conn.conn.read_recorded s.current buf
        (λ e. moved s reading s.resetting (ap stage h) (i.tally e)) d;
  closes = i.closes;
  ended_closed = λ e. ground (arith, e);
}
Step-Inv {s = s} i (times now buf h) = record {
  kept = λ z. i.kept z ∙ ap (λ l. s.delivered ++ pending l) h;
  tally = λ d. moved s (timed buf) s.resetting (ap stage h) (i.tally d);
  closes = i.closes;
  ended_closed = λ e. ground (arith, e);
}
Step-Inv {s = s} i (counts buf h) = record {
  kept = λ z. i.kept z ∙ ap (λ l. s.delivered ++ pending l) h;
  tally = λ d.
      counts-Tally s.resetting s.conn.read_record_limit s.conn.conn.read_len
        s.conn.conn.read_recorded s.current buf
        (moved s (timed buf) s.resetting (ap stage h) (i.tally d));
  closes = i.closes;
  ended_closed = λ e. ground (arith, e);
}
Step-Inv {s = s} i (records buf h) = record {
  kept = λ z. i.kept z ∙ ap (λ l. s.delivered ++ pending l) h;
  tally = λ d.
      records-Tally s.resetting s.conn.read_record_limit s.conn.conn.read_len
        s.conn.conn.read_recorded s.current buf
        (moved s (counted buf) s.resetting (ap stage h) (i.tally d));
  closes = i.closes;
  ended_closed = λ e. ground (arith, e);
}
Step-Inv {s = s} i (fails err h) = record {
  kept = λ z. i.kept z ∙ ap (λ l. s.delivered ++ pending l) h;
  tally = λ d. moved s closing s.resetting (ap stage h) (i.tally d);
  closes = i.closes;
  ended_closed = λ e. ground (arith, e);
}
Step-Inv {s = s} i (ends h) = Inv-close_conn i ended (ap pending h) (ap stage h)
Step-Inv {s = s} i (reads size h e) = record {
  kept = i.kept;
  tally = i.tally;
  closes = i.closes;
  ended_closed = i.ended_closed;
}
Step-Inv {s = s} i (hands_over buf size h r o) = record {
  kept = λ z.
      let whole = take-all size buf (omega (arith, z)) in
      i.kept (omega (arith, z))
      ∙ ap (λ l. s.delivered ++ pending l) h
      ∙ ap (λ xs. s.delivered ++ xs) (sym whole)
      ∙ sym (append-nil (s.delivered ++ take size buf));
  tally = λ d. moved s checking s.resetting (ap stage h) (i.tally d);
  closes = i.closes;
  ended_closed = λ e. ground (arith, e);
}
Step-Inv {s = s} i (reads_nothing size r c) = record {
  kept = i.kept;
  tally = i.tally;
  closes = i.closes;
  ended_closed = i.ended_closed;
}
Step-Inv {s = s} i (crashes buf h c) = record {
  kept = λ z. i.kept z ∙ ap (λ l. s.delivered ++ pending l) h;
  tally = λ d. moved s (crashed buf) s.resetting (ap stage h) (i.tally d);
  closes = i.closes;
  ended_closed = λ e. c;
}
Step-Inv {s = s} i closes = Inv-close_conn i s.loop refl refl
Step-Inv {s = s} i (zeroes h) = record {
  kept = i.kept;
  tally = λ d. zeroes-Tally (stage s.loop) s.conn.read_record_limit s.conn.conn.read_recorded d;
  closes = i.closes;
  ended_closed = i.ended_closed;
}
Step-Inv {s = s} i (empties h) = record {
  kept = i.kept;
  tally = λ d.
      empties-Tally (stage s.loop) s.conn.read_record_limit s.conn.conn.read_len
        s.conn.conn.read_recorded s.current (when s (stage s.loop) h (i.tally d));
  closes = i.closes;
  ended_closed = i.ended_closed;
}
Step-Inv {s = s} i (forgets h) = record {
  kept = i.kept;
  tally = λ d.
      forgets-Tally (stage s.loop) s.conn.read_record_limit s.conn.conn.read_len
        s.conn.conn.read_recorded s.current (when s (stage s.loop) h (i.tally d));
  closes = i.closes;
  ended_closed = i.ended_closed;
}

pub Reach-Inv : {s t : System} → Inv s → Reach s t → Inv t
Reach-Inv i stay = i
Reach-Inv i (then_step r x) = Step-Inv (Reach-Inv i r) x

-- A new connection, and one that is given out again.
pub new_system-Inv :
    (conn : BufferedConn)
    → conn.conn.read_len ≡ 0
    → conn.conn.read_recorded ≡ []
    → conn.closes ≡ (if conn.closed then 1 else 0)
    → Inv (new_system conn)
new_system-Inv conn l r c = record {
  kept = λ z. refl;
  tally = λ d. (l, λ w. r);
  closes = c;
  ended_closed = λ e. ground (arith, e);
}
