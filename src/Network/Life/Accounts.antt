-- ===== src/Network/Life/Accounts.antt =====
-- The count of a connection's users in src/networking.c, in every order of the threads' steps.
use cfloor.Base.{inr, refl, Bool}
use cfloor.Network.{data_handler}
use cfloor.Network.Life.{
  response_end, Server, sweep, Step, reads, responds, sends, answers, encodes, sweeps, collects,
  Reach, here, next, accepted,
}
use cfloor.Network.Life.Sending.{send_header-IsWorking}
use cfloor.Network.Life.Threads.{
  IsAccounted, accepted-IsAccounted, same-IsPlaced, reads-threads, responds-threads, sends-threads,
  answers-threads, encodes-threads, sweeps-threads, collects-threads, sweeps-IsPlaced,
  collects-IsPlaced,
}

Step-IsAccounted : {s t : Server} → Step s t → IsAccounted s → IsAccounted t
unfolding data_handler response_end sweep
Step-IsAccounted (reads s spawns input e h c h' l d) a = record {
  placed = same-IsPlaced s _ refl refl refl a.placed;
  threads =
      reads-threads s s.connection.state spawns input e h h' c refl a.threads
        (a.placed.listed_alive l) d;
}
Step-IsAccounted (responds s q r) a = record {
  placed = same-IsPlaced s _ refl refl refl a.placed;
  threads = responds-threads s q a.threads;
}
Step-IsAccounted (sends s pl defaults status hs h r h' q e) a = record {
  placed = same-IsPlaced s _ refl refl refl a.placed;
  threads =
      sends-threads s r.connection r.connection.encoder_thread q
        (λ w. send_header-IsWorking pl defaults status hs s.connection h h' r w e) a.threads;
}
Step-IsAccounted (answers s c r e) a = record {
  placed = same-IsPlaced s _ refl refl refl a.placed;
  threads = answers-threads s _ _ c refl r e a.threads;
}
Step-IsAccounted (encodes s c e r k d) a = record {
  placed = same-IsPlaced s _ refl refl refl a.placed;
  threads = inr (encodes-threads s c e r k d a.threads);
}
Step-IsAccounted (sweeps s aged room l) a = record {
  placed = sweeps-IsPlaced s s.connection.state aged room l a.placed;
  threads = sweeps-threads s s.connection.state aged room refl a.threads;
}
Step-IsAccounted (collects s q) a = record {
  placed = collects-IsPlaced s q a.placed;
  threads = collects-threads s a.threads;
}

pub Reach-IsAccounted :
    (persistent chunked : Bool) {s : Server} → Reach (accepted persistent chunked) s → IsAccounted s
Reach-IsAccounted persistent chunked here = accepted-IsAccounted persistent chunked
Reach-IsAccounted persistent chunked (next r st) =
    Step-IsAccounted st (Reach-IsAccounted persistent chunked r)
