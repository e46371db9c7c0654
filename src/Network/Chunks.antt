-- ===== src/Network/Chunks.antt =====
-- Bytes that arrive in several pieces: a call of `dataHandler` of src/networking.c for each.
use cfloor.Base.{
  ℕ, ◌≡◌, ◌≢◌, ◌⊎◌, inl, inr, refl, sym, ap, ◌∙◌, Bool, List, [], ◌∷◌, ◌++◌, Bytes, Result, ok, err,
  Alloc, ◌>>=◌, resume, arith,
}
use mathlib.Core.Path.{fun_ext}
use cfloor.Dir.{last_byte}
use cfloor.Network.{
  ConnectionState, opened, Connection, Fault, out_of_bounds, Exit, dropped, started, undefined,
  again, abort, release, read_opened, data_handler,
}
use cfloor.Network.Lines.{
  with_line, Reading, text_end, text_byte, carry_on, text_bytes, settle, reading_of,
}
use cfloor.Network.Held.{IsHeld, taken-release, IsReading, Left, text_bytes-Left}
use cfloor.Network.Buffer.{data_handler-text_bytes}

-- One call of the handler for each piece.
unfoldable pub feed : Bool → Connection → Bytes → List Bytes → Alloc Fault Connection
feed spawns c first [] = data_handler spawns c first again
feed spawns c first (next ∷ rest) = do
  c' ← data_handler spawns c first again
  feed spawns c' next rest

abbrev pub joined : Bytes → List Bytes → Bytes
joined first [] = first
joined first (next ∷ rest) = first ++ joined next rest

carry_on_assoc :
    (q : Result Exit Reading) (f g : Reading → Result Exit Reading)
    → carry_on (carry_on q f) g ≡ carry_on q (λ r. carry_on (f r) g)
carry_on_assoc (ok r) f g = refl
carry_on_assoc (err x) f g = refl

text_bytes-append :
    (spawns : Bool) (r : Reading) (xs ys : Bytes)
    → text_bytes spawns r (xs ++ ys)
      ≡ carry_on (text_bytes spawns r xs) (λ r'. text_bytes spawns r' ys)
unfolding text_bytes
text_bytes-append spawns r [] ys = refl
text_bytes-append spawns r (b ∷ xs) ys =
    ap (carry_on (text_byte spawns r b)) (fun_ext (λ r'. text_bytes-append spawns r' xs ys))
    ∙ sym (carry_on_assoc (text_byte spawns r b) _ _)

-- The byte before matters only where '\n' follows a line's end directly.
text_bytes_restart :
    (spawns : Bool) (c : Connection) (last : ℕ) (input : Bytes)
    → settle (text_bytes spawns (record { connection = c; text = []; last = last }) input)
      ≢ err out_of_bounds
    → settle (text_bytes spawns (record { connection = c; text = []; last = 0 }) input)
      ≡ settle (text_bytes spawns (record { connection = c; text = []; last = last }) input)
unfolding text_bytes text_byte text_end
text_bytes_restart spawns c last [] h = refl
text_bytes_restart spawns c last (b ∷ input) h = ground arith

module _ (spawns : Bool) (c : Connection) (held : IsHeld c) where
  restart :
      (text : Bytes) (last : ℕ) (input : Bytes)
      → (text ≡ []) ⊎ (last ≡ last_byte 0 text)
      → settle (text_bytes spawns (record { connection = c; text = text; last = last }) input)
        ≢ err out_of_bounds
      → settle (text_bytes spawns (reading_of (release c) text) input)
        ≡ settle (text_bytes spawns (record { connection = c; text = text; last = last }) input)
  restart text last input (inl empty) h =
      rw (taken-release c held, empty) (text_bytes_restart spawns c last input (rw empty at h))
  restart text last input (inr same) h = rw (taken-release c held, same)

read_opened-idle :
    (spawns : Bool) (s : ConnectionState) (c : Connection) (input : Bytes)
    → s ≢ opened
    → read_opened spawns s c input again [] ≡ (ok c, [])
read_opened-idle spawns s c input h = ground arith

-- A connection whose request has begun is passed over.
feed-idle :
    (spawns : Bool) (c : Connection) (first : Bytes) (rest : List Bytes)
    → c.state ≢ opened
    → feed spawns c first rest [] ≡ (ok c, [])
unfolding feed data_handler
feed-idle spawns c first [] h = read_opened-idle spawns c.state c first h
feed-idle spawns c first (next ∷ rest) h =
    rw (read_opened-idle spawns c.state c first h) (feed-idle spawns c next rest h)

taken-IsReading : (c : Connection) (text : Bytes) → c.state ≡ opened → IsReading (reading_of c text)
taken-IsReading c text o = record { held = ground arith; last = inr refl }

-- The further pieces give what the reader makes of them at once.
Feeds : Bool → Bytes → List Bytes → Type 0
Feeds spawns first rest =
    (c : Connection) (text : Bytes)
    → c.state ≡ opened
    → settle (text_bytes spawns (reading_of c text) (joined first rest)) ≢ err out_of_bounds
    → feed spawns (with_line c text) first rest []
      ≡ (settle (text_bytes spawns (reading_of c text) (joined first rest)), [])

Left-Feeds :
    (spawns : Bool) (q : Result Exit Reading) (next : Bytes) (rest : List Bytes)
    → Left q
    → Feeds spawns next rest
    → settle (carry_on q (λ r. text_bytes spawns r (joined next rest))) ≢ err out_of_bounds
    → resume {E = Fault} (settle q, []) (λ c. feed spawns c next rest)
      ≡ (settle (carry_on q (λ r. text_bytes spawns r (joined next rest))), [])
unfolding Feeds
Left-Feeds spawns (ok r) next rest i f h =
    let same = restart spawns r.connection i.held r.text r.last (joined next rest) i.last h in
    f (release r.connection) r.text i.held.waits (rw same h) ∙ rw same
Left-Feeds spawns (err (dropped c)) next rest i f h =
    feed-idle spawns (release (abort c)) next rest (λ e. cc)
Left-Feeds spawns (err (started c)) next rest i f h = feed-idle spawns c next rest i
Left-Feeds spawns (err (undefined x)) next rest i f h = refl

all-Feeds : (spawns : Bool) (first : Bytes) (rest : List Bytes) → Feeds spawns first rest
unfolding Feeds feed
all-Feeds spawns first [] c text o h = data_handler-text_bytes spawns c text first o
all-Feeds spawns first (next ∷ rest) c text o h =
    let r = reading_of c text in
    let together = text_bytes-append spawns r first (joined next rest) in
    rw (data_handler-text_bytes spawns c text first o, together)
      (Left-Feeds spawns (text_bytes spawns r first) next rest
        (text_bytes-Left spawns r first (taken-IsReading c text o)) (all-Feeds spawns next rest)
        (rw together at h))

-- However the bytes of a request are cut into pieces, with a call of the handler for each piece: on
-- a connection that waits, with a line begun that holds `text`, and given memory, the connection
-- that is left is the one that a single call leaves for all the bytes, unless that call would write
-- out of bounds.
pub feed-data_handler :
    (spawns : Bool) (c : Connection) (text first : Bytes) (rest : List Bytes)
    → c.state ≡ opened
    → (data_handler spawns (with_line c text) (joined first rest) again []).0 ≢ err out_of_bounds
    → feed spawns (with_line c text) first rest []
      ≡ data_handler spawns (with_line c text) (joined first rest) again []
unfolding all-Feeds Feeds
feed-data_handler spawns c text first rest o h =
    let whole = data_handler-text_bytes spawns c text (joined first rest) o in
    all-Feeds spawns first rest c text o (rw whole at h) ∙ sym whole
