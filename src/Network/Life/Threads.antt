-- ===== src/Network/Life/Threads.antt =====
-- The steps of src/networking.c one by one: what each does to the threads and lists of a connection.
use cfloor.Base.{
  ℕ, zero, suc, ◌≡◌, ◌⊎◌, inl, inr, refl, sym, ◌∙◌, Bool, true, false, ◌&&◌, some, Bytes, Memory,
  ok, if◌then◌else◌, ◌==◌, arith,
}
use cfloor.Network.{ConnectionState, opened, Connection, Ending, read_opened}
use cfloor.Network.Life.{
  by_encoder, counted_down, safe_end_connection, reset_persistent_connection, end_response, Server,
  sweep_state, freed_server, collect, respond, answer, begun, accepted,
}
use cfloor.Network.Life.Leaving.{IsWorking, IsResting}
use cfloor.Network.Life.Reading.{read_opened-IsSettled}

-- The connection is on one list at most, and on none once it is freed.
pub record IsPlaced (s : Server) : Type 0 where
  pub listed_once : s.listed ≡ true → s.queued ≡ false
  pub listed_alive : s.listed ≡ true → s.is_freed ≡ false
  pub queued_alive : s.queued ≡ true → s.is_freed ≡ false

-- The threads that run are those that the connection counts.
pub record IsBusy (s : Server) : Type 0 where
  pub working : IsWorking s.connection
  pub requesting : s.requesting ≡ true
  pub alive : s.is_freed ≡ false

pub record IsIdle (s : Server) : Type 0 where
  pub resting : IsResting s.connection
  pub requesting : s.requesting ≡ false
  pub responding : s.responding ≡ false
  pub encoding : (s.encoding && s.reset_okay) ≡ false

pub record IsAccounted (s : Server) : Type 0 where
  pub placed : IsPlaced s
  pub threads : IsBusy s ⊎ IsIdle s

pub accepted-IsAccounted : (p q : Bool) → IsAccounted (accepted p q)
accepted-IsAccounted p q = record {
  placed = ground arith;
  threads = inr (record {
    resting = record { in_use = refl; thread = refl; state = λ e. cc };
    requesting = refl;
    responding = refl;
    encoding = refl;
  });
}

counted_down_one :
    (n : ℕ) (c c' : Connection) → n ≡ 1 → counted_down n c ≡ some c' → c' ≡ record c { in_use = 0 }
counted_down_one zero c c' e d = cc
counted_down_one (suc n) c c' e d = ground arith

left_false : (b : Bool) → (b && false) ≡ false
left_false true = refl
left_false false = refl

module _ (s : Server) where
  -- Only an idle connection can be open, for a working one is kept alive or processed.
  pub reads-threads :
      (t : ConnectionState) (spawns : Bool) (input : Bytes) (e : Ending) (h h' : Memory)
      (c : Connection)
      → s.connection.state ≡ t
      → IsBusy s ⊎ IsIdle s
      → s.is_freed ≡ false
      → read_opened spawns t s.connection input e h ≡ (ok c, h')
      → IsBusy (record s { connection = c; requesting = begun t s.requesting c })
        ⊎ IsIdle (record s { connection = c; requesting = begun t s.requesting c })
  reads-threads opened spawns input e h h' c o (inl b) alive done = ground arith
  reads-threads opened spawns input e h h' c o (inr i) alive done =
      elim (read_opened-IsSettled spawns s.connection input e h h' c o i.resting done) [
        | inl r ↦ inr (record {
          resting = r;
          requesting = r.thread;
          responding = i.responding;
          encoding = i.encoding;
        })
        | inr w ↦ inl (record { working = w; requesting = w.thread; alive = alive })
      ]
  reads-threads other spawns input e h h' c o t alive done = ground arith

  pub responds-threads :
      s.requesting ≡ true → IsBusy s ⊎ IsIdle s → IsBusy (respond s) ⊎ IsIdle (respond s)
  responds-threads q (inl b) = ground arith
  responds-threads q (inr i) = ground arith

  pub answers-threads :
      (persistent chunked : Bool) (c : Connection)
      → s.connection.is_persistent ≡ persistent
      → s.responding ≡ true
      → end_response persistent chunked s.connection ≡ some c
      → IsBusy s ⊎ IsIdle s
      → IsBusy (answer s c) ⊎ IsIdle (answer s c)
  unfolding safe_end_connection reset_persistent_connection
  answers-threads true false c p r e (inl b) =
      let ended = counted_down_one _ _ c b.working.in_use e in
      inr (record {
        resting = rw ended (record { in_use = refl; thread = refl; state = λ x. cc });
        requesting = rw ended;
        responding = refl;
        encoding = rw ended (ground arith);
      })
  answers-threads true true c p r e (inl b) = ground arith
  answers-threads false chunked c p r e (inl b) =
      let ended = counted_down_one _ _ c b.working.in_use e in
      inr (record {
        resting = rw ended (record { in_use = refl; thread = refl; state = λ x. ground arith });
        requesting = rw ended;
        responding = refl;
        encoding = rw p (left_false _);
      })
  answers-threads persistent chunked c p r e (inr i) = ground arith

  pub encodes-threads :
      (c : Connection)
      → s.encoding ≡ true
      → s.responding ≡ false
      → s.reset_okay ≡ true
      → reset_persistent_connection by_encoder s.connection ≡ some c
      → IsBusy s ⊎ IsIdle s
      → IsIdle (record s { connection = c; requesting = c.request_thread; encoding = false })
  unfolding reset_persistent_connection
  encodes-threads c e r k d (inl b) =
      let ended = counted_down_one _ _ c b.working.in_use d in
      record {
        resting = rw ended (record { in_use = refl; thread = refl; state = λ x. cc });
        requesting = rw ended;
        responding = r;
        encoding = refl;
      }
  encodes-threads c e r k d (inr i) = ground arith

  pub sweeps-threads :
      (t : ConnectionState) (aged room : Bool)
      → s.connection.state ≡ t
      → IsBusy s ⊎ IsIdle s
      → IsBusy (sweep_state aged room t s) ⊎ IsIdle (sweep_state aged room t s)
  sweeps-threads t aged room o (inl b) = ground arith
  sweeps-threads t aged room o (inr i) = ground arith

  pub collects-threads : IsBusy s ⊎ IsIdle s → IsBusy (collect s) ⊎ IsIdle (collect s)
  unfolding collect
  collects-threads (inl b) = ground arith
  collects-threads (inr i) = ground arith

  pub sweeps-IsPlaced :
      (t : ConnectionState) (aged room : Bool)
      → s.listed ≡ true
      → IsPlaced s
      → IsPlaced (sweep_state aged room t s)
  sweeps-IsPlaced t aged room l p = ground (arith, p.listed_alive l, p.listed_once l)

  freed-IsPlaced :
      (b : Bool) → s.queued ≡ true → IsPlaced s → IsPlaced (if b then freed_server s else s)
  freed-IsPlaced true q p = record {
    listed_once = λ l. refl;
    listed_alive = λ l. cc (p.listed_once l);
    queued_alive = λ e. cc;
  }
  freed-IsPlaced false q p = p

  pub collects-IsPlaced : s.queued ≡ true → IsPlaced s → IsPlaced (collect s)
  unfolding collect
  collects-IsPlaced q p = freed-IsPlaced (s.connection.in_use == 0) q p

pub same-IsPlaced :
    (s t : Server)
    → t.listed ≡ s.listed
    → t.queued ≡ s.queued
    → t.is_freed ≡ s.is_freed
    → IsPlaced s
    → IsPlaced t
same-IsPlaced s t e f g p = record {
  listed_once = λ l. f ∙ p.listed_once (sym e ∙ l);
  listed_alive = λ l. g ∙ p.listed_alive (sym e ∙ l);
  queued_alive = λ q. g ∙ p.queued_alive (sym f ∙ q);
}

pub sends-threads :
    (s : Server) (c : Connection) (encoding : Bool)
    → s.responding ≡ true
    → (IsWorking s.connection → IsWorking c)
    → IsBusy s ⊎ IsIdle s
    → IsBusy (record s { connection = c; encoding = encoding })
      ⊎ IsIdle (record s { connection = c; encoding = encoding })
sends-threads s c encoding r f (inl b) =
    inl (record { working = f b.working; requesting = b.requesting; alive = b.alive })
sends-threads s c encoding r f (inr i) = ground arith
