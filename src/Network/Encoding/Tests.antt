-- ===== src/Network/Encoding/Tests.antt =====
-- The chunked coding of src/networking.c on concrete output.
use cfloor.Base.{◌≡◌, refl, some, List, [], ◌∷◌, ◌++◌, Bytes, codes, length, suc, arith}
use cfloor.Network.Encoding.{closed, encode}
use cfloor.Network.Encoding.Decoder.{decode, concat, decode-encode}

abbrev reads : List Bytes
reads = codes "hello, chunked world" ∷ codes "!" ∷ []

written : encode reads closed ≡ codes "14\r\nhello, chunked world\r\n1\r\n!\r\n0\r\n\r\n"
unfolding encode
written = refl

decode-encode_example :
    decode (suc (length reads)) (encode reads closed ++ codes "HTTP/1.1")
    ≡ some (concat reads, codes "HTTP/1.1")
decode-encode_example =
    decode-encode reads (codes "HTTP/1.1")
      ((omega arith, omega arith), ((omega arith, omega arith), tt))
