-- ===== src/Network/Life/Ends.antt =====
-- How a connection of src/networking.c ends: `cleanup` frees what no thread works on.
use cfloor.Base.{ℕ, zero, suc, ◌≡◌, ◌⊎◌, inl, inr, refl, Bool, true, false, some, arith}
use cfloor.Network.{aborted, Connection}
use cfloor.Network.Life.{
  counted_down, safe_end_connection, reset_persistent_connection, end_response, response_end,
  Server, Reach, accepted,
}
use cfloor.Network.Life.Threads.{IsBusy, IsIdle}
use cfloor.Network.Life.Accounts.{Reach-IsAccounted}

counted_down-some :
    (n : ℕ) (c : Connection) → n ≡ 1 → (c' : Connection) × (counted_down n c ≡ some c')
counted_down-some zero c e = cc
counted_down-some (suc n) c e = (_, refl)

end_response-some :
    (persistent chunked : Bool) (c : Connection)
    → c.in_use ≡ 1
    → (c' : Connection) × (end_response persistent chunked c ≡ some c')
unfolding safe_end_connection reset_persistent_connection
end_response-some true true c e = (c, refl)
end_response-some true false c e = counted_down-some c.in_use _ e
end_response-some false chunked c e = counted_down-some c.in_use _ e

is_busy : {s : Server} → s.requesting ≡ true → IsBusy s ⊎ IsIdle s → IsBusy s
is_busy q (inl b) = b
is_busy q (inr i) = absurd (ground arith)

responding_busy : {s : Server} → s.responding ≡ true → IsBusy s ⊎ IsIdle s → s.requesting ≡ true
responding_busy q (inl b) = b.requesting
responding_busy q (inr i) = ground arith

abbrev given_up : Server → Server
given_up s = record s { connection = record s.connection { state = aborted } }

module _ (persistent chunked : Bool) {s : Server} (r : Reach (accepted persistent chunked) s) where
  Reach-IsBusy : s.requesting ≡ true → IsBusy s
  Reach-IsBusy q = is_busy q (Reach-IsAccounted persistent chunked r).threads

  -- Without timeouts the count of users never falls below zero when a handler returns: it can be taken
  -- down where it is.
  pub response_end-counted_down :
      s.responding ≡ true → (c : Connection) × (response_end s.connection ≡ some c)
  unfolding response_end
  response_end-counted_down q =
      let b = Reach-IsBusy (responding_busy q (Reach-IsAccounted persistent chunked r).threads) in
      end_response-some s.connection.is_persistent s.connection.is_chunked s.connection
        b.working.in_use
