-- ===== src/Network/Send/Refused.antt =====
-- `sendHeader` of src/networking.c where the system refuses a call.
use cfloor.Base.{
  ℕ, ◌≡◌, ◌⊎◌, inl, inr, refl, Bool, true, false, Option, none, some, [], codes, err, if_same,
}
use cfloor.Headers.{Headers, remove}
use cfloor.Network.{Connection, null_read}
use cfloor.Network.Send.{
  Plumbing, put, minimal_error_response, open_body, send_head, send_framed, send_header,
}
use cfloor.Network.Send.Framing.{put_ample, put_all_ample, frame-IsFramed}

minimal_null :
    (pl : Plumbing) (hs : Headers) (c : Connection)
    → minimal_error_response pl hs c [] ≡ (err null_read, [])
unfolding minimal_error_response
minimal_null pl hs c =
    let (hs', done, w) =
      put_ample (remove hs (codes "Content-Encoding")).1 (codes "Connection") (codes "close") in
    rw done

-- The first call of dup, or the last one of fdopen, is refused.
abbrev pub IsRefused : Plumbing → Type 0
IsRefused pl = (pl.dup ≡ false) ⊎ (pl.fdopen ≡ false)

send_head_null :
    (pl : Plumbing) (status : ℕ) (hs : Headers) (chunked : Bool) (c : Connection)
    (o : Option Connection)
    → pl.fdopen ≡ false
    → send_head pl status hs chunked c (o, []) ≡ (err null_read, [])
unfolding send_head
send_head_null pl status hs chunked c none e = minimal_null pl hs c
send_head_null pl status hs chunked c (some c') e =
    rw e (minimal_null _ hs (record c' { is_chunked = chunked }))

open_body_ample :
    (pl : Plumbing) (chunked : Bool) (c : Connection)
    → (o : Option Connection) × (open_body pl chunked c [] ≡ (o, []))
unfolding open_body
open_body_ample pl true c = (_, refl)
open_body_ample pl false c = (_, refl)

send_framed_null :
    (pl : Plumbing) (status : ℕ) (c : Connection) (hs : Headers) (chunked : Bool)
    → IsRefused pl
    → send_framed pl status c (hs, chunked) [] ≡ (err null_read, [])
unfolding send_framed
send_framed_null pl status c hs chunked (inl e) = rw e (minimal_null _ hs c)
send_framed_null pl status c hs chunked (inr e) =
    let (o, body) = open_body_ample pl chunked c in
    rw body (if_same pl.dup (send_head_null pl status hs chunked c o e) (minimal_null pl hs c))

-- Where the system refuses to duplicate the socket, or to open a stream for it, there is no answer
-- with the status 500, as is meant: given memory, `sendHeader` reads NULL, on every connection and for
-- all fields, since the length of that answer is passed to `headers_mod` as the number 0.
pub send_header_null :
    (pl : Plumbing) (defaults hs : Headers) (status : ℕ) (c : Connection)
    → IsRefused pl
    → send_header pl defaults status hs c [] ≡ (err null_read, [])
unfolding send_header
send_header_null pl defaults hs status c r =
    let (hs', put) = put_all_ample hs defaults in
    let (hs'', chunked, framed, f) = frame-IsFramed c.is_persistent hs' in
    rw (put, framed) (send_framed_null pl status c hs'' chunked r)
