-- ===== src/Network/Life/Reading.antt =====
-- `dataHandler` of src/networking.c and the count of a connection's users.
use cfloor.Base.{
  ◌≡◌, ◌≢◌, inl, refl, Bool, true, false, Option, none, some, [], ◌∷◌, Bytes, length, leb, Memory,
  Result, ok, err, return, Returned, Ensures, Ensures-intro, Ensures-fail, Ensures-bind,
  Ensures-return, Ensures-if, returned_at, arith,
}
use cfloor.Network.{
  opened, keep_alive, Connection, Fault, Exit, dropped, started, undefined, buffer_length,
  dump_onto, dump_header_buffer, Loop, Ending, again, ended, broken, abort, release, flushed,
  flush_rest, after_loop, end_read, begin_read, read_opened,
}
use cfloor.Network.Life.Leaving.{
  IsResting, IsSettled, IsHeld, IsOpen, Leaves, HasOpen, same-IsOpen, read_bytes-Leaves,
}

-- Still counted, and not in a request.
record IsQuiet (c : Connection) : Type 0 where
  held : IsHeld c
  state : c.state ≢ keep_alive

open-IsQuiet : (c : Connection) → IsOpen c → IsQuiet c
open-IsQuiet c o = record { held = o.held; state = λ e. ground arith }

abort-IsQuiet : (c : Connection) → IsHeld c → IsQuiet (abort c)
abort-IsQuiet c h = record {
  held = record { in_use = h.in_use; thread = h.thread };
  state = λ e. cc;
}

release-IsResting : (c : Connection) → IsQuiet c → IsResting (release c)
release-IsResting c q = record {
  in_use = omega (arith, q.held.in_use);
  thread = q.held.thread;
  state = q.state;
}

module _ (c : Connection) (o : IsOpen c) where
  longer :
      (c' : Connection)
      → c'.in_use ≡ c.in_use
      → c'.request_thread ≡ c.request_thread
      → c'.state ≡ c.state
      → IsQuiet c'
  longer c' e f g = open-IsQuiet c' (same-IsOpen c c' e f g o)

  flushed-dump :
      (line : Option Bytes) (bytes : Bytes) (h : Memory)
      → Returned IsQuiet (flushed (dump_onto c line bytes h)).0
  unfolding Returned
  flushed-dump none bytes [] = longer _ refl refl refl
  flushed-dump none bytes (true ∷ h) = longer _ refl refl refl
  flushed-dump none bytes (false ∷ h) = abort-IsQuiet c o.held
  flushed-dump (some line) bytes [] = longer _ refl refl refl
  flushed-dump (some line) bytes (true ∷ h) = longer _ refl refl refl
  flushed-dump (some line) bytes (false ∷ h) = abort-IsQuiet c o.held

  flush_rest-Returned : (bytes : Bytes) (h : Memory) → Returned IsQuiet (flush_rest c bytes h).0
  unfolding Returned flush_rest dump_header_buffer
  flush_rest-Returned [] h = open-IsQuiet c o
  flush_rest-Returned (b ∷ bytes) h = flushed-dump c.current_header (b ∷ bytes) h

  flush_rest-Ensures : (bytes : Bytes) → Ensures IsQuiet (flush_rest c bytes)
  flush_rest-Ensures bytes = Ensures-intro IsQuiet _ (λ h. flush_rest-Returned bytes h)

quiet_abort : (c : Connection) → IsQuiet c → IsResting (release (abort c))
quiet_abort c q = release-IsResting (abort c) (abort-IsQuiet c q.held)

after_loop-Ensures : (l : Loop) (e : Ending) → HasOpen l → Ensures IsResting (after_loop l e)
unfolding after_loop
after_loop-Ensures l again o =
    Ensures-bind IsQuiet IsResting (λ c. return (release c)) (flush_rest l.connection l.buffer)
      (flush_rest-Ensures l.connection o l.buffer)
      λ c q. Ensures-return Fault IsResting _ (release-IsResting c q)
after_loop-Ensures l ended o =
    Ensures-if IsResting (leb buffer_length (length l.buffer)) _ _ (Ensures-fail IsResting _) (
      Ensures-bind IsQuiet IsResting (λ c. return (release (abort c)))
        (flush_rest l.connection l.buffer) (flush_rest-Ensures l.connection o l.buffer)
        λ c q. Ensures-return Fault IsResting _ (quiet_abort c q))
after_loop-Ensures l broken o =
    Ensures-bind IsQuiet IsResting (λ c. return (release (abort c)))
      (flush_rest l.connection l.buffer) (flush_rest-Ensures l.connection o l.buffer)
      λ c q. Ensures-return Fault IsResting _ (quiet_abort c q)

resting-Returned : (r : Result Fault Connection) → Returned IsResting r → Returned IsSettled r
unfolding Returned
resting-Returned (ok c) p = inl p
resting-Returned (err f) p = tt

end_read-Returned :
    (e : Ending) (r : Result Exit Loop × Memory)
    → Leaves HasOpen r.0
    → Returned IsSettled (end_read e r).0
unfolding Leaves Ensures
end_read-Returned e (ok l, h) o = resting-Returned _ (after_loop-Ensures l e o h)
end_read-Returned e (err (dropped c), h) p =
    unfold Returned in inl (release-IsResting (abort c) (abort-IsQuiet c p))
end_read-Returned e (err (started c), h) p = unfold Returned in p
end_read-Returned e (err (undefined f), h) p = unfold Returned in tt

-- Whatever comes on a resting connection that is open, and whatever the memory: the handler leaves it
-- at rest or with a request at work.
pub read_opened-IsSettled :
    (spawns : Bool) (c : Connection) (input : Bytes) (e : Ending) (h h' : Memory) (c' : Connection)
    → c.state ≡ opened
    → IsResting c
    → read_opened spawns opened c input e h ≡ (ok c', h')
    → IsSettled c'
read_opened-IsSettled spawns c input e h h' c' o r done =
    let begins : HasOpen (begin_read c) = record {
      held = record { in_use = omega (arith, r.in_use); thread = r.thread };
      state = o;
    } in
    returned_at IsSettled _
      (end_read-Returned e _ (read_bytes-Leaves spawns (begin_read c) input h begins)) done
