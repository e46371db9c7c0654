-- ===== src/Startup/Found.antt =====
-- `config_getHandler` of src/config.c for the binds that `config_getNetworkingConfig` sets up.
use cfloor.Base.{
  ◌≡◌, refl, ap, ◌∙◌, Bool, true, false, Option, none, some, List, [], ◌∷◌, map, Bytes, equal,
  equal_iff, equal_refl, Memory, ok, Ensures, Ensures-ok, Ensures-allocate, All,
}
use cfloor.Config.{Bind, Config, Surroundings}
use cfloor.Config.Reader.{config_parse}
use cfloor.Config.Shape.{Present}
use cfloor.Config.Shape.Parse.{config_parse-IsValid}
use cfloor.Config.Valid.{IsReachable, IsValid}
use cfloor.Routing.{strcmp, same_bind, find_bind}
use cfloor.Startup.Binds.{ListenBind, NetworkingConfig, to_listen, config_get_networking_config}

-- The search has ended at a bind with this address and port.
abbrev pub IsAt : Bytes → Bytes → Option (Option Bind) → Type 0
IsAt addr port o = (b : Bind) × (o ≡ some (some b)) × (b.addr ≡ some addr) × (b.port ≡ some port)

-- What the search for a bind that connections come in on leads to.
abbrev pub IsFound : List Bind → ListenBind → Type 0
IsFound bs l =
    (addr port : Bytes) × (l.address ≡ some addr)
    × (l.port ≡ some port)
    × IsAt addr port (find_bind bs addr port)

same_bind-IsAt :
    (x y : Option Bytes) (addr port : Bytes) (b : Bind) (rest : Option (Option Bind))
    → b.addr ≡ x
    → b.port ≡ y
    → Present x
    → Present y
    → IsAt addr port rest
    → IsAt addr port (same_bind (strcmp x addr) (strcmp y port) b rest)
same_bind-IsAt none y addr port b rest e f p q r = absurd p
same_bind-IsAt (some x) none addr port b rest e f p q r = absurd q
same_bind-IsAt (some x) (some y) addr port b rest e f p q r =
    by_tests (equal x addr) (equal y port) refl refl
  where
    by_tests :
        (s t : Bool)
        → equal x addr ≡ s
        → equal y port ≡ t
        → IsAt addr port (same_bind (some s) (some t) b rest)
    by_tests true true k l =
        (b, refl, e ∙ ap some ((equal_iff x addr).0 k), f ∙ ap some ((equal_iff y port).0 l))
    by_tests true false k l = r
    by_tests false t k l = r

found_first :
    (b : Bind) (bs : List Bind) (addr port : Bytes)
    → b.addr ≡ some addr
    → b.port ≡ some port
    → IsAt addr port (find_bind (b ∷ bs) addr port)
unfolding find_bind
found_first b bs addr port e f = (b, rw (e, f, equal_refl addr, equal_refl port), e, f)

one_more :
    (w : Surroundings) (b : Bind) (bs : List Bind) (l : ListenBind)
    → IsReachable w b
    → IsFound bs l
    → IsFound (b ∷ bs) l
unfolding find_bind
one_more w b bs l v (addr, port, e, f, r) = (
  addr,
  port,
  e,
  f,
  same_bind-IsAt b.addr b.port addr port b (find_bind bs addr port) refl refl v.addr v.port r,
)

each_more :
    (w : Surroundings) (b : Bind) (bs : List Bind) (ls : List ListenBind)
    → IsReachable w b
    → All (IsFound bs) ls
    → All (IsFound (b ∷ bs)) ls
each_more w b bs [] v p = tt
each_more w b bs (l ∷ ls) v p = (one_more w b bs l v p.0, each_more w b bs ls v p.1)

-- A string that is there.
string_of : (o : Option Bytes) → Present o → (s : Bytes) × (o ≡ some s)
string_of none p = absurd p
string_of (some s) p = (s, refl)

address_of : (ssl : Bool) (c : Config) (b : Bind) → (to_listen ssl c b).address ≡ b.addr
address_of true c b = refl
address_of false c b = refl

port_of : (ssl : Bool) (c : Config) (b : Bind) → (to_listen ssl c b).port ≡ b.port
port_of true c b = refl
port_of false c b = refl

to_listen-IsFound :
    (w : Surroundings) (ssl : Bool) (c : Config) (bs : List Bind)
    → All (IsReachable w) bs
    → All (IsFound bs) (map (to_listen ssl c) bs)
to_listen-IsFound w ssl c [] p = tt
to_listen-IsFound w ssl c (b ∷ bs) p =
    let (addr, e) = string_of b.addr p.0.addr in
    let (port, f) = string_of b.port p.0.port in
    (
      (addr, port, address_of ssl c b ∙ e, port_of ssl c b ∙ f, found_first b bs addr port e f),
      each_more w b bs (map (to_listen ssl c) bs) p.0 (to_listen-IsFound w ssl c bs p.1),
    )

-- From the file to the sockets and back: on a configuration that `config_parse` returned, if there is
-- memory for the binds, each of them has an address and a port, and `config_getHandler` finds for
-- these a bind of the configuration with this address and port.
pub config_get_networking_config-IsFound :
    (w : Surroundings) (file : Bytes) (h h' k k' : Memory) (c : Config) (ssl : Bool)
    (n : NetworkingConfig)
    → config_parse w file h ≡ (ok c, h')
    → config_get_networking_config ssl c k ≡ (ok n, k')
    → All (IsFound c.binds) n.binds
unfolding config_get_networking_config IsValid Ensures
config_get_networking_config-IsFound w file h h' k k' c ssl n e f =
    let valid =
      Ensures-ok (IsValid w) (config_parse w file) h h' c (config_parse-IsValid w file) e in
    Ensures-ok (λ m. All (IsFound c.binds) m.binds) (config_get_networking_config ssl c) k k' n
      (Ensures-allocate (λ (m : NetworkingConfig). All (IsFound c.binds) m.binds) tt _
        (λ k. to_listen-IsFound w ssl c c.binds valid))
      f
