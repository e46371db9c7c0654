-- ===== src/Network/Life/Sending.antt =====
-- `sendHeader` of src/networking.c and the count of a connection's users: it leaves a request at work.
use cfloor.Base.{
  ℕ, ◌≡◌, refl, inl, inr, Bool, true, false, Option, none, some, [], ◌∷◌, codes, Memory, ok, ◌>>=◌,
  return, if◌then◌else◌, Returned, Ensures, Ensures-always, Ensures-bind, Ensures-return,
  Ensures-ok, Bool-cases, arith,
}
use cfloor.Headers.{Headers, remove}
use cfloor.Network.{Connection, Fault, processing}
use cfloor.Network.Send.{
  Plumbing, Sent, put, put_all, put_null, give_up, minimal_error_response, frame, open_body,
  send_head, send_framed, send_header, protocol_of_request, head_text,
}
use cfloor.Network.Life.Leaving.{IsWorking}

abbrev Works : Sent → Type 0
Works r = IsWorking r.connection

abbrev Anything : {A : Type 0} → A → Type 0
Anything a = Unit {0}

given_up-IsWorking :
    (c : Connection) (b : Bool)
    → IsWorking c
    → IsWorking (
        if b
        then record c { writefd = false; state = processing; is_persistent = false }
        else record c { writefd = false })
given_up-IsWorking c true w = record { in_use = w.in_use; thread = w.thread; state = inr refl }
given_up-IsWorking c false w = record { in_use = w.in_use; thread = w.thread; state = w.state }

module _ (pl : Plumbing) where
  minimal_answer : Connection → Headers → Sent
  minimal_answer c hs = record {
    connection = give_up c;
    headers = hs;
    written = if pl.fdopen_again then head_text (protocol_of_request c.meta_data) 500 hs else [];
    descriptor = false;
  }

  minimal-Works :
      (hs : Headers) (c : Connection) → IsWorking c → Ensures Works (minimal_error_response pl hs c)
  unfolding minimal_error_response minimal_answer
  minimal-Works hs c w =
      let finish = λ (hs' : Headers). return {E = Fault} (minimal_answer c hs') in
      let length = λ (hs' : Headers). put_null hs' (codes "Content-Length") in
      let close =
        put (remove hs (codes "Content-Encoding")).1 (codes "Connection") (codes "close") in
      Ensures-bind Anything Works (λ hs'. length hs' >>= finish) close
        (Ensures-always Anything close (λ hs'. tt))
        λ hs' u.
          Ensures-bind Anything Works finish (length hs')
            (Ensures-always Anything (length hs') (λ hs''. tt))
            λ hs'' u'.
              Ensures-return Fault Works (minimal_answer c hs'')
                (given_up-IsWorking c c.is_persistent w)

  open_body-IsWorking :
      (chunked : Bool) (c c' : Connection) (h : Memory)
      → IsWorking c
      → (open_body pl chunked c h).0 ≡ some c'
      → IsWorking c'
  unfolding open_body
  open_body-IsWorking true c c' [] w e = ground arith
  open_body-IsWorking true c c' (room ∷ h) w e = ground arith
  open_body-IsWorking false c c' h w e = ground arith

  send_head-Works :
      (status : ℕ) (hs : Headers) (chunked : Bool) (c : Connection) (o : Option Connection)
      (h : Memory)
      → IsWorking c
      → ((c' : Connection) → o ≡ some c' → IsWorking c')
      → Returned Works (send_head pl status hs chunked c (o, h)).0
  unfolding send_head Ensures
  send_head-Works status hs chunked c none h w f = minimal-Works hs c w h
  send_head-Works status hs chunked c (some c') h w f =
      let w' = f c' refl in
      let w'' : IsWorking (record c' { is_chunked = chunked }) = record {
        in_use = w'.in_use;
        thread = w'.thread;
        state = w'.state;
      } in
      elim (Bool-cases pl.fdopen) [
        | inl opens ↦ simp opens (unfold Returned in w'')
        | inr refused ↦ simp refused (minimal-Works hs (record c' { is_chunked = chunked }) w'' h)
      ]

  send_framed-Works :
      (status : ℕ) (c : Connection) (framed : Headers × Bool)
      → IsWorking c
      → Ensures Works (send_framed pl status c framed)
  unfolding send_framed Ensures
  send_framed-Works status c (hs, chunked) w h =
      let body = open_body pl chunked c h in
      elim (Bool-cases pl.dup) [
        | inl opens ↦ simp opens (
            send_head-Works status hs chunked c body.0 body.1 w
              (λ c' e. open_body-IsWorking chunked c c' h w e))
        | inr refused ↦ simp refused (minimal-Works hs c w h)
      ]

  -- On a connection with a request at work, every call that returns leaves the request at work.
  pub send_header-IsWorking :
      (defaults : Headers) (status : ℕ) (hs : Headers) (c : Connection) (h h' : Memory) (r : Sent)
      → IsWorking c
      → send_header pl defaults status hs c h ≡ (ok r, h')
      → IsWorking r.connection
  unfolding send_header
  send_header-IsWorking defaults status hs c h h' r w e =
      let framing = λ (hs' : Headers). frame c.is_persistent hs' in
      Ensures-ok Works (send_header pl defaults status hs c) h h' r
        (Ensures-bind Anything Works (λ hs'. framing hs' >>= send_framed pl status c)
          (put_all hs defaults) (Ensures-always Anything (put_all hs defaults) (λ hs'. tt))
          λ hs' u.
            Ensures-bind Anything Works (send_framed pl status c) (framing hs')
              (Ensures-always Anything (framing hs') (λ x. tt))
              λ framed u'. send_framed-Works status c framed w)
        e
