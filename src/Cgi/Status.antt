-- ===== src/Cgi/Status.antt =====
-- The status that `cgiHandler` of src/cgi.c takes from a script.
use cfloor.Base.{
  ℕ, ◌≤◌, ◌≡◌, Bool, true, false, ◌&&◌, Option, none, some, Bytes, codes, leb, Memory, ok, Ensures,
  Ensures-always, Ensures-bind, Ensures-return, Ensures-fail, Ensures-ok, Bool-cases, inl, inr,
  arith,
}
use cfloor.Headers.{Headers, get}
use cfloor.Files.{Reply}
use cfloor.Cgi.{
  Head, read_head, first_reader, strtol_int, with_status, status_field, status_of_head, Response,
  respond, read_output,
}

abbrev pub IsStatus : ℕ → Type 0
IsStatus code = (100 ≤ code) × (code ≤ 600)

abbrev HasStatus : Response → Type 0
HasStatus r = IsStatus r.status_code

respond-HasStatus :
    (body : Bytes) (finished : Bool) (code : ℕ) (hs : Headers)
    → IsStatus code
    → Ensures HasStatus (respond body (finished, code, hs))
respond-HasStatus body true code hs s = Ensures-return Reply HasStatus _ s
respond-HasStatus body false code hs s = Ensures-fail HasStatus _

with_status-HasStatus :
    (head : Head) (code : ℕ) → Ensures HasStatus (respond head.rest (with_status head code))
with_status-HasStatus head code = elim (Bool-cases (leb 100 code && leb code 600)) [
  | inl good ↦ rw good (respond-HasStatus head.rest head.finished code _ (ground arith))
  | inr bad ↦ rw bad (Ensures-fail HasStatus (Reply.status 500))
]

status_field-HasStatus :
    (head : Head) (line : Option Bytes)
    → Ensures HasStatus (respond head.rest (status_field head line))
status_field-HasStatus head none =
    respond-HasStatus head.rest head.finished 200 head.headers (omega arith)
status_field-HasStatus head (some line) = with_status-HasStatus head (strtol_int line)

-- Whatever a script writes, and whatever the memory: the status that its response gets lies between
-- 100 and 600.
pub read_output-IsStatus :
    (output : Bytes) (h h' : Memory) (r : Response)
    → read_output output h ≡ (ok r, h')
    → IsStatus r.status_code
unfolding read_output status_of_head
read_output-IsStatus output h h' r e =
    let answer = λ (head : Head). respond head.rest (status_of_head head) in
    Ensures-ok HasStatus (read_output output) h h' r
      (Ensures-bind (λ x. Unit {0}) HasStatus answer (read_head first_reader output)
        (Ensures-always (λ x. Unit {0}) _ (λ x. tt))
        λ head u. status_field-HasStatus head (get head.headers (codes "Status")))
      e
