-- ===== src/Network/Listen/Tests.antt =====
-- The accept loop of `listenThread` in src/networking.c on a few clients.
use cfloor.Base.{◌≡◌, refl, true, false, none, some, [], ◌∷◌}
use cfloor.Linked.{linked_create}
use cfloor.Network.Listen.{Arrival, Listener, client, listen}

abbrev first_client : Arrival
first_client = record {
  accept = client;
  connection = some 7;
  address = true;
  host = false;
  host_name = true;
  empty_name = true;
  plumbed = true;
  link = true;
}

-- There is no memory for its connection.
abbrev second_client : Arrival
second_client = record first_client { connection = none }

abbrev third_client : Arrival
third_client = record first_client { connection = some 8 }

abbrev nobody : Listener
nobody = record { connections = linked_create; sockets = 0; objects = 0; names = 0 }

-- A socket without a connection is never closed.
socket_leaks :
    listen (second_client ∷ []) nobody
    ≡ some (record { connections = linked_create; sockets = 1; objects = 0; names = 0 })
unfolding listen
socket_leaks = refl

-- The name of a client without plumbing is never freed.
name_leaks :
    listen (record first_client { plumbed = false } ∷ []) nobody
    ≡ some (record { connections = linked_create; sockets = 0; objects = 0; names = 1 })
unfolding listen
name_leaks = refl
