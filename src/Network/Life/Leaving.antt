-- ===== src/Network/Life/Leaving.antt =====
-- The loop of `dataHandler` in src/networking.c and the count of a connection's users.
use cfloor.Base.{
  ℕ, zero, suc, ◌≡◌, ◌≢◌, ◌⊎◌, inl, inr, refl, Bool, true, false, ◌&&◌, Option, none, some, [], ◌∷◌,
  Bytes, length, leb, ◌==◌, if◌then◌else◌, Memory, Result, ok, err, Alloc, resume, Bool-cases,
  arith,
}
use cfloor.Headers.{Headers, HeadersError, parse_error, alloc_error, end}
use cfloor.Headers.Field.{parse}
use cfloor.Request.{MetaData, MetaError, null_string, headers_metadata}
use cfloor.Network.{
  opened, processing, keep_alive, Connection, Exit, dropped, started, undefined, buffer_length,
  text_of, forget_line, dump_onto, dump_header_buffer, chop_at, after_metadata, after_parse,
  persists, start_request_handler, headers_complete, read_line, Loop, line_end, flush_full,
  read_byte, read_bytes,
}

-- A request is being handled.
pub record IsWorking (c : Connection) : Type 0 where
  pub in_use : c.in_use ≡ 1
  pub thread : c.request_thread ≡ true
  pub state : ((c.state ≡ keep_alive) × (c.is_persistent ≡ true)) ⊎ (c.state ≡ processing)

-- None is.
pub record IsResting (c : Connection) : Type 0 where
  pub in_use : c.in_use ≡ 0
  pub thread : c.request_thread ≡ false
  pub state : c.state ≢ keep_alive

abbrev pub IsSettled : Connection → Type 0
IsSettled c = IsResting c ⊎ IsWorking c

-- The reader has it.
pub record IsHeld (c : Connection) : Type 0 where
  pub in_use : c.in_use ≡ 1
  pub thread : c.request_thread ≡ false

pub record IsOpen (c : Connection) : Type 0 where
  pub held : IsHeld c
  pub state : c.state ≡ opened

module _ {A : Type 0} where
  -- A step of the loop leaves a value that holds `P`, or leaves the loop.
  unfoldable pub Leaves : (A → Type 0) → Result Exit A → Type 0
  Leaves P (ok a) = P a
  Leaves P (err (dropped c)) = IsHeld c
  Leaves P (err (started c)) = IsSettled c
  Leaves P (err (undefined f)) = Unit {0}

  Leaves-ok : (P : A → Type 0) (a : A) → P a → Leaves P (ok a)
  unfolding Leaves
  Leaves-ok P a p = p

module _ {A B : Type 0} (P : A → Type 0) (R : B → Type 0) where
  resume-Leaves :
      (f : A → Alloc Exit B) (r : Result Exit A × Memory)
      → Leaves P r.0
      → ((a : A) (h : Memory) → P a → Leaves R (f a h).0)
      → Leaves R (resume r f).0
  unfolding Leaves
  resume-Leaves f (ok a, h) p k = k a h p
  resume-Leaves f (err (dropped c), h) p k = p
  resume-Leaves f (err (started c), h) p k = p
  resume-Leaves f (err (undefined x), h) p k = tt

dump_onto-Leaves :
    (c : Connection) (o : Option Bytes) (bytes : Bytes) (h : Memory)
    → IsOpen c
    → Leaves IsOpen (dump_onto c o bytes h).0
unfolding Leaves
dump_onto-Leaves c none bytes [] o = ground arith
dump_onto-Leaves c none bytes (true ∷ h) o = ground arith
dump_onto-Leaves c none bytes (false ∷ h) o = ground arith
dump_onto-Leaves c (some line) bytes [] o = ground arith
dump_onto-Leaves c (some line) bytes (true ∷ h) o = ground arith
dump_onto-Leaves c (some line) bytes (false ∷ h) o = o.held

chop_at-Leaves :
    (c : Connection) (o : Option Bytes) (n : ℕ) (h : Memory)
    → IsOpen c
    → Leaves IsOpen (chop_at c o n h).0
unfolding Leaves
chop_at-Leaves c none n h o = tt
chop_at-Leaves c (some line) zero h o = tt
chop_at-Leaves c (some line) (suc n) h o = ground arith

start-IsSettled :
    (spawns persistent : Bool) (c : Connection)
    → IsHeld c
    → IsSettled (
        start_request_handler spawns (record c {
          is_persistent = persistent;
          state = if persistent then keep_alive else processing;
        }))
unfolding start_request_handler
start-IsSettled true true c h =
    inr (record { in_use = h.in_use; thread = refl; state = inl (refl, refl) })
start-IsSettled true false c h = inr (record { in_use = h.in_use; thread = refl; state = inr refl })
start-IsSettled false persistent c h =
    inl (record { in_use = omega (arith, h.in_use); thread = h.thread; state = λ e. cc })

after_metadata-Leaves :
    (c : Connection) (r : Result MetaError MetaData × Memory)
    → IsOpen c
    → Leaves IsOpen (after_metadata c r).0
unfolding Leaves
after_metadata-Leaves c (ok m, h) o = ground arith
after_metadata-Leaves c (err null_string, h) o = tt
after_metadata-Leaves c (err MetaError.parse_error, h) o = o.held
after_metadata-Leaves c (err MetaError.alloc_error, h) o = o.held

after_parse-Leaves :
    (spawns : Bool) (m : MetaData) (c : Connection) (r : Result HeadersError (ℕ × Headers) × Memory)
    → IsOpen c
    → Leaves IsOpen (after_parse spawns m c r).0
unfolding Leaves headers_complete
after_parse-Leaves spawns m c (ok (i, hs), h) o = ground arith
after_parse-Leaves spawns m c (err end, h) o =
    start-IsSettled spawns (persists c.headers m.protocol) (forget_line c)
      (record { in_use = o.held.in_use; thread = o.held.thread })
after_parse-Leaves spawns m c (err parse_error, h) o = o.held
after_parse-Leaves spawns m c (err alloc_error, h) o = o.held

read_line-Leaves :
    (spawns : Bool) (m : Option MetaData) (c : Connection) (line : Bytes) (h : Memory)
    → IsOpen c
    → Leaves IsOpen (read_line spawns m c line h).0
unfolding read_line
read_line-Leaves spawns none c line h o = after_metadata-Leaves c (headers_metadata line h) o
read_line-Leaves spawns (some m) c line h o =
    after_parse-Leaves spawns m c (parse c.headers line h) o

abbrev pub HasOpen : Loop → Type 0
HasOpen l = IsOpen l.connection

pub same-IsOpen :
    (c c' : Connection)
    → c'.in_use ≡ c.in_use
    → c'.request_thread ≡ c.request_thread
    → c'.state ≡ c.state
    → IsOpen c
    → IsOpen c'
same-IsOpen c c' e f g o = ground arith

dump_header_buffer-Leaves :
    (c : Connection) (bytes : Bytes) (h : Memory)
    → IsOpen c
    → Leaves IsOpen (dump_header_buffer c bytes h).0
unfolding dump_header_buffer
dump_header_buffer-Leaves c bytes h o = dump_onto-Leaves c c.current_header bytes h o

module _ (spawns : Bool) (l : Loop) (o : HasOpen l) where
  line_end-Leaves : (h : Memory) → Leaves HasOpen (line_end spawns l h).0
  unfolding line_end
  line_end-Leaves h =
      resume-Leaves IsOpen HasOpen _ (dump_header_buffer l.connection l.buffer h)
        (dump_header_buffer-Leaves l.connection l.buffer h o)
        λ c h' p.
          resume-Leaves IsOpen HasOpen _ (chop_at c c.current_header c.current_header_length h')
            (chop_at-Leaves c c.current_header c.current_header_length h' p)
            λ c' h'' p'.
              resume-Leaves IsOpen HasOpen _
                (read_line spawns c'.meta_data c' (text_of c'.current_header) h'')
                (read_line-Leaves spawns c'.meta_data c' _ h'' p')
                λ c'' h3 p''. Leaves-ok HasOpen _ (same-IsOpen c'' _ refl refl refl p'')

  flush_full-Leaves : (h : Memory) → Leaves HasOpen (flush_full l h).0
  unfolding flush_full
  flush_full-Leaves h =
      resume-Leaves IsOpen HasOpen _ (dump_header_buffer l.connection l.buffer h)
        (dump_header_buffer-Leaves l.connection l.buffer h o) λ c h' p. Leaves-ok HasOpen _ p

  read_byte-Leaves : (b : ℕ) (h : Memory) → Leaves HasOpen (read_byte spawns l b h).0
  unfolding read_byte
  read_byte-Leaves b h = elim (Bool-cases (l.last == b'\r' && b == b'\n')) [
    | inl ends ↦ rw ends (line_end-Leaves h)
    | inr puts ↦ rw puts (elim (Bool-cases (leb buffer_length (length l.buffer))) [
      | inl full ↦ rw full (
          resume-Leaves HasOpen HasOpen _ (flush_full l h) (flush_full-Leaves h)
            λ l' h' p. Leaves-ok HasOpen _ p)
      | inr room ↦ rw room (Leaves-ok HasOpen _ o)
    ])
  ]

pub read_bytes-Leaves :
    (spawns : Bool) (l : Loop) (input : Bytes) (h : Memory)
    → HasOpen l
    → Leaves HasOpen (read_bytes spawns l input h).0
unfolding read_bytes
read_bytes-Leaves spawns l [] h o = Leaves-ok HasOpen l o
read_bytes-Leaves spawns l (b ∷ input) h o =
    resume-Leaves HasOpen HasOpen _ (read_byte spawns l b h) (read_byte-Leaves spawns l o b h)
      λ l' h' p. read_bytes-Leaves spawns l' input h' p
