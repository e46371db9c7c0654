-- ===== src/Network/Listen/Kept.antt =====
-- Which clients the accept loop of `listenThread` in src/networking.c puts on the list.
use cfloor.Base.{
  ℕ, ◌+◌, ◌-◌, ◌≡◌, refl, sym, ap, ◌∙◌, Bool, true, false, ◌&&◌, Option, none, some, List, [], ◌∷◌,
  ◌++◌, append-nil, append_assoc, length, if◌then◌else◌, arith,
}
use cfloor.Linked.{linked_push}
use cfloor.Linked.Chain.{Entry, IsList, payloads}
use cfloor.Linked.Pushed.{linked_push-IsList}
use cfloor.Network.Listen.{
  Accept, passing, fatal, client, Arrival, Listener, goes_on, on_list, is_named, print_address,
  then_listen,
}

-- Everything that a client needs is there.
abbrev pub suits : Arrival → Bool
suits a = a.address && is_named a && a.plumbed && a.link

abbrev pub kept : Arrival → Option ℕ → List ℕ
kept a none = []
kept a (some c) = if suits a then c ∷ [] else []

-- The thread ends at this client.
abbrev pub goes_behind : Arrival → Option ℕ → List ℕ → List ℕ
goes_behind a none rest = rest
goes_behind a (some c) rest = if a.address then kept a (some c) ++ rest else []

abbrev pub kept_from : Arrival → List ℕ → Accept → List ℕ
kept_from a rest passing = rest
kept_from a rest fatal = []
kept_from a rest client = goes_behind a a.connection rest

-- The connections of the clients that are kept, up to where the thread ends.
abbrev pub kept_clients : List Arrival → List ℕ
kept_clients [] = []
kept_clients (a ∷ xs) = kept_from a (kept_clients xs) a.accept

payloads-append : (es fs : List Entry) → payloads (es ++ fs) ≡ payloads es ++ payloads fs
payloads-append [] fs = refl
payloads-append (e ∷ es) fs = ap (◌∷◌ e.1) (payloads-append es fs)

-- The list has the links that it had, and behind them one for each of the new connections.
abbrev pub IsGrown : List Entry → List ℕ → Listener → Type 0
IsGrown es news s =
    (es' : List Entry) × IsList s.connections es' × (payloads es' ≡ payloads es ++ news)

unsuited :
    (s : Listener) (c : ℕ) (a : Arrival)
    → a.address ≡ true
    → suits a ≡ false
    → (s' : Listener) × (print_address s c a ≡ some (goes_on s')) × (s'.connections ≡ s.connections)
unsuited s c a e f = by_tests (is_named a) a.plumbed a.link refl refl refl
  where
    by_tests :
        (n p l : Bool)
        → is_named a ≡ n
        → a.plumbed ≡ p
        → a.link ≡ l
        → (s' : Listener) × (print_address s c a ≡ some (goes_on s'))
          × (s'.connections ≡ s.connections)
    by_tests false p l g h k =
        (record s { sockets = s.sockets - 1; objects = s.objects - 1 }, rw (e, g), refl)
    by_tests true false l g h k = (
      record s { names = s.names + 1; sockets = s.sockets - 1; objects = s.objects - 1 },
      rw (e, g, h),
      refl,
    )
    by_tests true true false g h k = (record s { names = s.names + 1 }, rw (e, g, h, k), refl)
    by_tests true true true g h k = absurd (ground (arith, e, f, g, h, k))

suited :
    (s : Listener) (c : ℕ) (a : Arrival)
    → suits a ≡ true
    → print_address s c a ≡ on_list (record s { names = s.names + 1 }) (linked_push s.connections c)
suited s c a e = by_tests a.address (is_named a) a.plumbed a.link refl refl refl refl
  where
    by_tests :
        (d n p l : Bool)
        → a.address ≡ d
        → is_named a ≡ n
        → a.plumbed ≡ p
        → a.link ≡ l
        → print_address s c a
          ≡ on_list (record s { names = s.names + 1 }) (linked_push s.connections c)
    by_tests true true true true f g h k = rw (f, g, h, k)
    by_tests false n p l f g h k = absurd (ground (arith, e, f))
    by_tests true false p l f g h k = absurd (ground (arith, e, f, g))
    by_tests true true false l f g h k = absurd (ground (arith, e, f, g, h))
    by_tests true true true false f g h k = absurd (ground (arith, e, f, g, h, k))

-- The links of one turn and of those behind it.
IsGrown-append :
    (es es' : List Entry) (news rest : List ℕ) (s : Listener)
    → payloads es' ≡ payloads es ++ news
    → IsGrown es' rest s
    → IsGrown es (news ++ rest) s
IsGrown-append es es' news rest s e (fs, i, f) =
    (fs, i, f ∙ ap (λ (ys : List ℕ). ys ++ rest) e ∙ append_assoc (payloads es) news rest)

-- A listener goes on from every list, as `listen` does behind a turn.
abbrev pub Continues : List ℕ → (Listener → Option Listener) → Type 0
Continues rest on =
    (s : Listener) (es : List Entry)
    → IsList s.connections es
    → (s' : Listener) × (on s ≡ some s') × IsGrown es rest s'

IsGrown_by :
    (es : List Entry) (news news' : List ℕ) (s : Listener)
    → news ≡ news'
    → IsGrown es news' s
    → IsGrown es news s
IsGrown_by es news news' s e g = rw e g

at_the_end :
    (a : Arrival) (c : ℕ) (rest : List ℕ) → a.address ≡ false → goes_behind a (some c) rest ≡ []
at_the_end a c rest e = rw e

without_it :
    (a : Arrival) (c : ℕ) (rest : List ℕ)
    → a.address ≡ true
    → suits a ≡ false
    → goes_behind a (some c) rest ≡ rest
without_it a c rest e f = rw (f, e)

with_it :
    (a : Arrival) (c : ℕ) (rest : List ℕ)
    → a.address ≡ true
    → suits a ≡ true
    → goes_behind a (some c) rest ≡ c ∷ rest
with_it a c rest e f = rw (f, e)

unchanged : (s : Listener) (es : List Entry) → IsList s.connections es → IsGrown es [] s
unchanged s es i = (es, i, sym (append-nil (payloads es)))

module _ (rest : List ℕ) (on : Listener → Option Listener) (go : Continues rest on) where
  listed :
      (s : Listener) (es : List Entry) (c : ℕ)
      → IsList s.connections es
      → (s' : Listener) × (then_listen on (on_list s (linked_push s.connections c)) ≡ some s')
        × IsGrown es (c ∷ rest) s'
  listed s es c i =
      let (list, e, j) = linked_push-IsList s.connections c es i in
      let new : Entry = (length s.connections.links, c) in
      let (s', f, g) = go (record s { connections = list }) (es ++ (new ∷ [])) j in
      (
        s',
        rw e f,
        IsGrown-append es (es ++ (new ∷ [])) (c ∷ []) rest s' (payloads-append es (new ∷ [])) g,
      )

  printed :
      (s : Listener) (es : List Entry) (c : ℕ) (a : Arrival)
      → IsList s.connections es
      → (s' : Listener) × (then_listen on (print_address s c a) ≡ some s')
        × IsGrown es (goes_behind a (some c) rest) s'
  printed s es c a i = by_tests a.address (suits a) refl refl
    where
      by_tests :
          (d t : Bool)
          → a.address ≡ d
          → suits a ≡ t
          → (s' : Listener) × (then_listen on (print_address s c a) ≡ some s')
            × IsGrown es (goes_behind a (some c) rest) s'
      by_tests false t e f =
          let s' = record s { objects = s.objects - 1 } in
          (
            s',
            rw e,
            IsGrown_by es (goes_behind a (some c) rest) [] s' (at_the_end a c rest e)
                (unchanged s' es i),
          )
      by_tests true false e f =
          let (t, g, same) = unsuited s c a e f in
          let (s', h, k) = go t es (rw same i) in
          (
            s',
            ap (then_listen on) g ∙ h,
            IsGrown_by es (goes_behind a (some c) rest) rest s' (without_it a c rest e f) k,
          )
      by_tests true true e f =
          let (s', h, k) = listed (record s { names = s.names + 1 }) es c i in
          (
            s',
            ap (then_listen on) (suited s c a f) ∙ h,
            IsGrown_by es (goes_behind a (some c) rest) (c ∷ rest) s' (with_it a c rest e f) k,
          )
