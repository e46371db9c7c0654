-- ===== src/Network/Life/TimeOut.antt =====
-- The timeout of a handler in src/networking.c, on a persistent connection.
use cfloor.Base.{
  ℕ, zero, suc, ◌≡◌, refl, ap, ◌∙◌, Bool, true, false, some, Bytes, Memory, ok, arith,
}
use cfloor.Network.{ConnectionState, keep_alive, Connection, Ending, read_opened, data_handler}
use cfloor.Network.Life.{
  by_request, counted_down, safe_end_connection, Server, sweep_state, sweep, begun, Step, reads,
  responds, sends, answers, encodes, sweeps, collects, Reach, here, next, accepted, time_out,
}
use cfloor.Network.Life.Accounts.{Reach-IsAccounted}

-- What a timeout leaves: a persistent connection that no thread works on and that stays listed.
record IsStuck (c : Connection) (s : Server) : Type 0 where
  same : s.connection ≡ c
  state : c.state ≡ keep_alive
  listed : s.listed ≡ true
  queued : s.queued ≡ false
  alive : s.is_freed ≡ false
  requesting : s.requesting ≡ false
  responding : s.responding ≡ false
  encoding : s.encoding ≡ false

read_kept :
    (t : ConnectionState) (spawns running : Bool) (c : Connection) (input : Bytes) (e : Ending)
    (h h' : Memory) (c' : Connection)
    → t ≡ keep_alive
    → read_opened spawns t c input e h ≡ (ok c', h')
    → (c' ≡ c) × (begun t running c' ≡ running)
read_kept t spawns running c input e h h' c' k d = ground arith

sweep_kept :
    (t : ConnectionState) (aged room : Bool) (s : Server)
    → t ≡ keep_alive
    → sweep_state aged room t s ≡ s
sweep_kept t aged room s k = ground arith

state_of : {c : Connection} {s : Server} → IsStuck c s → s.connection.state ≡ keep_alive
state_of i = ap (λ (x : Connection). x.state) i.same ∙ i.state

Step-IsStuck : {c : Connection} {s t : Server} → IsStuck c s → Step s t → IsStuck c t
unfolding data_handler sweep
Step-IsStuck i (reads s spawns input e h c' h' l d) =
    let (kept, running) =
      read_kept s.connection.state spawns s.requesting s.connection input e h h' c' (state_of i)
        d in
    record {
      same = kept ∙ i.same;
      state = i.state;
      listed = i.listed;
      queued = i.queued;
      alive = i.alive;
      requesting = running ∙ i.requesting;
      responding = i.responding;
      encoding = i.encoding;
    }
Step-IsStuck i (responds s q r) = absurd (ground (arith, i.requesting))
Step-IsStuck i (sends s pl defaults status hs h r h' q e) = absurd (ground (arith, i.responding))
Step-IsStuck i (answers s c' r e) = absurd (ground (arith, i.responding))
Step-IsStuck i (encodes s c' e r k d) = absurd (ground (arith, i.encoding))
Step-IsStuck i (sweeps s aged room l) =
    rw (sweep_kept s.connection.state aged room s (state_of i)) i
Step-IsStuck i (collects s q) = absurd (ground (arith, i.queued))

Reach-IsStuck : {c : Connection} {s t : Server} → IsStuck c s → Reach s t → IsStuck c t
Reach-IsStuck i here = i
Reach-IsStuck i (next r st) = Step-IsStuck (Reach-IsStuck i r) st

timed_out_state : (n : ℕ) (c c' : Connection) → counted_down n c ≡ some c' → c'.state ≡ c.state
timed_out_state zero c c' e = cc
timed_out_state (suc n) c c' e = ground arith

-- When a handler times out on a persistent connection, with no encoder at work, the connection is
-- leaked: however the threads go on, it is never freed. It stays listed, its state KEEP_ALIVE, and
-- its sockets closed.
pub time_out_leaks :
    (persistent chunked : Bool) {s t : Server} (c : Connection)
    → Reach (accepted persistent chunked) s
    → s.requesting ≡ true
    → s.listed ≡ true
    → s.encoding ≡ false
    → s.connection.state ≡ keep_alive
    → safe_end_connection by_request s.connection ≡ some c
    → Reach (time_out s c) t
    → (t.is_freed ≡ false) × (t.listed ≡ true) × (t.connection ≡ c)
unfolding safe_end_connection
time_out_leaks persistent chunked {s = s} c r q l e k d r' =
    let a = Reach-IsAccounted persistent chunked r in
    let i =
      Reach-IsStuck
        (record {
          same = refl;
          state = timed_out_state s.connection.in_use _ c d ∙ k;
          listed = l;
          queued = a.placed.listed_once l;
          alive = a.placed.listed_alive l;
          requesting = refl;
          responding = refl;
          encoding = e;
        })
        r' in
    (i.alive, i.listed, i.same)
