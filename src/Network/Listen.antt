-- ===== src/Network/Listen.antt =====
-- The accept loop of `listenThread` in src/networking.c, from the arrival of a client to the list of
-- connections. The answers of the system are parameters.
pub mod Kept
mod Tests
use cfloor.Base.{ℕ, ◌+◌, ◌-◌, Bool, true, false, Option, none, some, List, [], ◌∷◌, if◌then◌else◌}
use cfloor.Linked.{LinkedList, linked_push}

-- `accept`: an error that passes, another one, or a socket.
pub data Accept : Type 0 where
  passing fatal client : Accept

-- What the calls answer for one client, in the order in which they are made. `connection` and
-- `link` are the allocations of the connection and of its link, `host` says whether the client has a
-- host name, the names are the calls of strdup, and `plumbed` stands for ssl_initConnection where the
-- bind has SSL and for dup where it has not.
pub record Arrival : Type 0 where
  pub accept : Accept
  pub connection : Option ℕ
  pub address : Bool
  pub host : Bool
  pub host_name : Bool
  pub empty_name : Bool
  pub plumbed : Bool
  pub link : Bool

-- The list, and how many sockets, connections and names of peers have not been given back.
pub record Listener : Type 0 where
  pub connections : LinkedList
  pub sockets : ℕ
  pub objects : ℕ
  pub names : ℕ

-- Whether the loop goes on.
pub data Turn : Type 0 where
  goes_on stops : Listener → Turn

abbrev pub on_list : Listener → Option (ℕ × LinkedList) → Option Turn
on_list s none = none
on_list s (some (i, list)) = some (goes_on (record s { connections = list }))

-- The result of linked_push is not looked at.
abbrev pub list_connection : Listener → ℕ → Bool → Option Turn
list_connection s c true = on_list s (linked_push s.connections c)
list_connection s c false = some (goes_on s)

-- Without the plumbing, the connection is freed and the socket closed; the name stays.
abbrev pub plumb : Listener → ℕ → Arrival → Option Turn
plumb s c a =
    if a.plumbed
    then list_connection s c a.link
    else some (goes_on (record s { sockets = s.sockets - 1; objects = s.objects - 1 }))

-- The name of the client's host, or an empty one where there is none or no memory for it.
abbrev pub is_named : Arrival → Bool
is_named a = if a.host then if a.host_name then true else a.empty_name else a.empty_name

abbrev pub name_client : Listener → ℕ → Arrival → Option Turn
name_client s c a =
    if is_named a
    then plumb (record s { names = s.names + 1 }) c a
    else some (goes_on (record s { sockets = s.sockets - 1; objects = s.objects - 1 }))

-- Where the address cannot be printed, the thread ends, and the socket stays open.
abbrev pub print_address : Listener → ℕ → Arrival → Option Turn
print_address s c a =
    if a.address then name_client s c a else some (stops (record s { objects = s.objects - 1 }))

-- Without memory for a connection the loop goes on, and the socket stays open.
abbrev pub allocate_connection : Listener → Arrival → Option ℕ → Option Turn
allocate_connection s a none = some (goes_on s)
allocate_connection s a (some c) = print_address (record s { objects = s.objects + 1 }) c a

abbrev pub accept_from : Listener → Arrival → Accept → Option Turn
accept_from s a passing = some (goes_on s)
accept_from s a fatal = some (stops s)
accept_from s a client = allocate_connection (record s { sockets = s.sockets + 1 }) a a.connection

abbrev pub then_listen : (Listener → Option Listener) → Option Turn → Option Listener
then_listen on none = none
then_listen on (some (stops s)) = some s
then_listen on (some (goes_on s)) = on s

-- `none` where linked_push reads a freed link.
unfoldable pub listen : List Arrival → Listener → Option Listener
listen [] s = some s
listen (a ∷ xs) s = then_listen (λ s'. listen xs s') (accept_from s a a.accept)
