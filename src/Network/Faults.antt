-- ===== src/Network/Faults.antt =====
-- The writes of `dataHandler` of src/networking.c next to its buffers.
use cfloor.Base.{
  ℕ, suc, ◌+◌, ◌≤◌, ◌≡◌, refl, ap, ◌∙◌, Bool, true, false, none, some, [], ◌∷◌, ◌++◌, append-nil,
  append_assoc, Bytes, has, length, length-append, ◌==◌, ok, err, Memory, arith,
}
use cfloor.Request.{Method, Protocol}
use cfloor.Request.RoundTrip.{request_line, IsTarget, with_query}
use cfloor.Network.{
  opened, Connection, out_of_bounds, undefined, Loop, read_byte, read_bytes, after_loop, ended,
  again, begin_read, read_opened, forget_line, data_handler,
}
use cfloor.Network.Lines.{with_line, text_end, text_byte, text_bytes, taken}
use cfloor.Network.Buffer.{data_handler-text_bytes}
use cfloor.Network.LineEnds.{ended_line, reading, text_bytes-line}
use cfloor.Network.Requests.{request_data, request_line_newline, read_line-request}

-- `last` is still the '\r' of the line that has ended.
text_bytes_bare :
    (spawns : Bool) (c : Connection) (input : Bytes)
    → text_bytes spawns (reading c [] b'\r') (b'\n' ∷ input) ≡ err (undefined out_of_bounds)
unfolding text_bytes text_byte text_end
text_bytes_bare spawns c input = refl

-- When '\n' follows directly behind the end of a good request line, on a connection that waits for a
-- request and given memory, the handler takes the '\r' off a line of length 0 and so writes in front
-- of it, whatever the bytes are that follow.
pub data_handler_bare_newline :
    (m : Method) (p : Protocol) (path query : Bytes) (c : Connection) (input : Bytes)
    → IsTarget path query
    → has b'\n' path ≡ false
    → has b'\n' query ≡ false
    → c.state ≡ opened
    → c.meta_data ≡ none
    → data_handler true
        (with_line c [])
        (ended_line (request_line m (with_query path query) p) ++ (b'\n' ∷ input))
        again
        []
      ≡ (err out_of_bounds, [])
data_handler_bare_newline m p path query c input t k l o fresh =
    let line = request_line m (with_query path query) p in
    data_handler-text_bytes true c [] (ended_line line ++ (b'\n' ∷ input)) o
    ∙ rw (
      text_bytes-line true (taken c) line (b'\n' ∷ input) 0
          (request_line_newline m p path query k l),
      read_line-request m p path query c.meta_data
          (record (taken c) { current_header = some line; current_header_length = length line }) t
          fresh,
      text_bytes_bare true
          (record (forget_line (taken c)) { meta_data = some (request_data m p path query) }) input,
    )

abbrev loop : Connection → Bytes → ℕ → Loop
loop c buffer last = record { connection = c; buffer = buffer; last = last }

module _ (spawns : Bool) (c : Connection) (h : Memory) where
  read_byte_room :
      (buffer : Bytes) (last b : ℕ)
      → (b == b'\n') ≡ false
      → suc (length buffer) ≤ 64
      → read_byte spawns (loop c buffer last) b h ≡ (ok (loop c (buffer ++ (b ∷ [])) b), h)
  unfolding read_byte
  read_byte_room buffer last b n r = ground arith

  -- While the buffer has room, bytes without '\n' only go there.
  read_bytes_room :
      (buffer : Bytes) (last : ℕ) (input : Bytes)
      → has b'\n' input ≡ false
      → length buffer + length input ≤ 64
      → (last' : ℕ) × (read_bytes spawns (loop c buffer last) input h
          ≡ (ok (loop c (buffer ++ input) last'), h))
  unfolding read_bytes has
  read_bytes_room buffer last [] n r = (last, rw (append-nil buffer))
  read_bytes_room buffer last (b ∷ input) n r =
      let other : (b == b'\n') ≡ false = ground arith in
      let rest : has b'\n' input ≡ false = ground arith in
      let (last', all) =
        read_bytes_room (buffer ++ (b ∷ [])) b input rest
          (omega (arith, length-append buffer (b ∷ []))) in
      (
        last',
        rw (read_byte_room buffer last b other (omega arith))
            (rw (append_assoc buffer (b ∷ []) input) at all),
      )

-- When a stream ends behind exactly 64 bytes without '\n', then on every connection that waits for a
-- request, and whatever the memory, the NUL that the handler writes goes behind its buffer.
pub data_handler_full :
    (spawns : Bool) (c : Connection) (input : Bytes) (h : Memory)
    → c.state ≡ opened
    → has b'\n' input ≡ false
    → length input ≡ 64
    → data_handler spawns c input ended h ≡ (err out_of_bounds, h)
unfolding data_handler after_loop
data_handler_full spawns c input h o n full =
    let (last, all) =
      read_bytes_room spawns (begin_read c).connection h [] (begin_read c).last input n
        (omega (arith, full)) in
    ap (λ s. read_opened spawns s c input ended h) o ∙ rw (all, full)
