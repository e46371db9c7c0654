-- ===== src/Network/Send/Framing.antt =====
-- `sendHeader` of src/networking.c: how a client finds the end of a response, and what happens when
-- the system refuses a call.
use cfloor.Base.{
  ℕ, ◌≡◌, ◌≢◌, refl, ◌∙◌, Bool, true, false, Option, none, some, [], ◌∷◌, Bytes, codes, equal, ok,
  if◌then◌else◌, arith,
}
use cfloor.Headers.{Headers, get}
use cfloor.Headers.Lookup.{Writes, modify-Writes, modify-total}
use cfloor.Network.{Connection}
use cfloor.Network.Send.{
  Plumbing, Sent, put, put_all, protocol_of_request, head_text, chunked_if, frame, open_body,
  send_head, send_framed, send_header,
}

pub put_ample :
    (hs : Headers) (key value : Bytes)
    → (hs' : Headers) × (put hs key value [] ≡ (ok hs', [])) × Writes hs key value hs'
unfolding put
put_ample hs key value =
    let (i, hs', done) = modify-total hs key value in
    (hs', rw done, modify-Writes hs key value [] done)

pub put_all_ample : (hs ds : Headers) → (hs' : Headers) × (put_all hs ds [] ≡ (ok hs', []))
unfolding put_all
put_all_ample hs [] = (hs, refl)
put_all_ample hs (d ∷ ds) =
    let (hs', done, w) = put_ample hs d.key d.value in
    let (hs'', rest) = put_all_ample hs' ds in (hs'', rw done rest)

abbrev pub Says : Headers → Bytes → Bytes → Type 0
Says hs key value = get hs key ≡ some value

-- Where a body ends: at the last chunk, after its length, or with the connection.
pub record IsFramed (persistent chunked : Bool) (hs : Headers) : Type 0 where
  pub connection :
      Says hs (codes "Connection") (if persistent then codes "keep-alive" else codes "close")
  pub in_chunks :
      chunked ≡ true
      → (persistent ≡ true)
        × Says hs (codes "Transfer-Encoding") (codes "chunked")
        × (get hs (codes "Content-Length") ≡ none)
  pub by_length : chunked ≡ false → persistent ≡ true → get hs (codes "Content-Length") ≢ none

chunked_if-IsFramed :
    (hs : Headers) (o : Option Bytes)
    → get hs (codes "Content-Length") ≡ o
    → Says hs (codes "Connection") (codes "keep-alive")
    → (hs' : Headers) × (chunked : Bool) × (chunked_if hs o [] ≡ (ok (hs', chunked), []))
      × IsFramed true chunked hs'
unfolding equal
chunked_if-IsFramed hs none e c =
    let (hs', done, w) = put_ample hs (codes "Transfer-Encoding") (codes "chunked") in
    (
      hs',
      true,
      rw done,
      record {
        connection = w.answers (codes "Connection") ∙ c;
        in_chunks = λ x.
            (refl, w.answers (codes "Transfer-Encoding"), w.answers (codes "Content-Length") ∙ e);
        by_length = λ x. cc;
      },
    )
chunked_if-IsFramed hs (some n) e c = (
  hs,
  false,
  refl,
  record { connection = c; in_chunks = λ x. cc; by_length = λ x y z. ground arith },
)

pub frame-IsFramed :
    (persistent : Bool) (hs : Headers)
    → (hs' : Headers) × (chunked : Bool) × (frame persistent hs [] ≡ (ok (hs', chunked), []))
      × IsFramed persistent chunked hs'
unfolding frame equal
frame-IsFramed true hs =
    let (hs', done, w) = put_ample hs (codes "Connection") (codes "keep-alive") in
    let (hs'', chunked, framed, f) =
      chunked_if-IsFramed hs' (get hs' (codes "Content-Length")) refl
        (w.answers (codes "Connection")) in
    (hs'', chunked, rw done framed, f)
frame-IsFramed false hs =
    let (hs', done, w) = put_ample hs (codes "Connection") (codes "close") in
    (
      hs',
      false,
      rw done,
      record {
        connection = w.answers (codes "Connection");
        in_chunks = λ x. cc;
        by_length = λ x y. cc;
      },
    )

-- The system grants every call.
abbrev pub IsGranted : Plumbing → Type 0
IsGranted pl = (pl.dup ≡ true) × (pl.pipe ≡ true) × (pl.dup_again ≡ true) × (pl.fdopen ≡ true)

send_framed-sent :
    (pl : Plumbing) (status : ℕ) (c : Connection) (hs : Headers) (chunked : Bool)
    → IsGranted pl
    → (c' : Connection) × (send_framed pl status c (hs, chunked) [] ≡ (
      ok (record {
        connection = c';
        headers = hs;
        written = head_text (protocol_of_request c.meta_data) status hs;
        descriptor = true;
      }),
      [],
    ))
      × (c'.is_chunked ≡ chunked)
      × (c'.is_persistent ≡ c.is_persistent)
unfolding send_framed send_head open_body
send_framed-sent pl status c hs true g =
    (record c { encoder_thread = true; is_chunked = true }, rw (g.0, g.1, g.3), refl, refl)
send_framed-sent pl status c hs false g =
    (record c { is_chunked = false }, rw (g.0, g.2, g.3), refl, refl)

-- What a response is, for the handler and the client: a head with fields that say where the body
-- ends, and a way for the body that keeps to them.
pub record IsResponse (c : Connection) (status : ℕ) (r : Sent) : Type 0 where
  pub written : r.written ≡ head_text (protocol_of_request c.meta_data) status r.headers
  pub descriptor : r.descriptor ≡ true
  pub persistent : r.connection.is_persistent ≡ c.is_persistent
  pub framed : IsFramed c.is_persistent r.connection.is_chunked r.headers

-- Given memory, and where the system grants every call, `sendHeader` succeeds, whatever the handler's
-- fields and the defaults of the configuration are: it writes the line of the status and the fields;
-- on a connection that is not persistent they say "Connection: close"; on one that is they say
-- "Connection: keep-alive", and the body is either sent in chunks, with "Transfer-Encoding: chunked"
-- and no length, or has a "Content-Length".
pub send_header-IsResponse :
    (pl : Plumbing) (defaults hs : Headers) (status : ℕ) (c : Connection)
    → IsGranted pl
    → (r : Sent) × (send_header pl defaults status hs c [] ≡ (ok r, [])) × IsResponse c status r
unfolding send_header
send_header-IsResponse pl defaults hs status c g =
    let (hs', put) = put_all_ample hs defaults in
    let (hs'', chunked, framed, f) = frame-IsFramed c.is_persistent hs' in
    let (c', sent, same, kept) = send_framed-sent pl status c hs'' chunked g in
    (
      record {
        connection = c';
        headers = hs'';
        written = head_text (protocol_of_request c.meta_data) status hs'';
        descriptor = true;
      },
      rw (put, framed) sent,
      record { written = refl; descriptor = refl; persistent = kept; framed = rw same f },
    )
