-- ===== src/Network/Ample.antt =====
-- The parsers that the reader of a connection calls, with all the memory that they ask for.
use cfloor.Base.{
  ℕ, refl, Bool, Option, none, some, [], ◌∷◌, Bytes, StaysAmple, StaysAmple-bind, c_string,
  Option-cases, inl, inr, arith,
}
use cfloor.Headers.{Header, Headers, find, store, modify}
use cfloor.Headers.Field.{split_colon, parse_field, parse}
use cfloor.Request.{
  MetaData, Parts, split_line, split_query, split_target, meta_data, headers_metadata,
}
use cfloor.Network.{Connection, read_line}

store-ample : (hs : Headers) (h : Header) (o : Option ℕ) → StaysAmple (store hs h o)
unfolding store
store-ample hs h none = refl
store-ample hs h (some i) = refl

modify-ample : (hs : Headers) (key value : Bytes) → StaysAmple (modify hs key value)
unfolding modify
modify-ample hs key value = store-ample hs _ (find hs key)

parse_field-ample : (hs : Headers) (key value : Bytes) → StaysAmple (parse_field hs key value)
unfolding parse_field
parse_field-ample hs key value = modify-ample hs _ _

parse-ample : (hs : Headers) (line : Bytes) → StaysAmple (parse hs line)
unfolding parse
parse-ample hs [] = refl
parse-ample hs (c ∷ cs) = elim (Option-cases (split_colon (c ∷ cs))) [
  | inl e ↦ rw (e, parse)
  | inr ((key, value), e) ↦ rw (e, parse) (parse_field-ample hs key value)
]

split_line-ample : (line : Bytes) → StaysAmple (split_line line)
unfolding split_line
split_line-ample line = ground arith

split_target-ample : (p : Parts) → StaysAmple (split_target p)
unfolding split_target split_query
split_target-ample p = ground arith

headers_metadata-ample : (line : Bytes) → StaysAmple (headers_metadata line)
unfolding headers_metadata meta_data
headers_metadata-ample line =
    StaysAmple-bind (split_line (c_string line)) _ (split_line-ample _)
      λ parts. StaysAmple-bind (split_target parts) _ (split_target-ample parts) λ t. ground arith

pub read_line-ample :
    (spawns : Bool) (m : Option MetaData) (c : Connection) (line : Bytes)
    → StaysAmple (read_line spawns m c line)
unfolding read_line
read_line-ample spawns none c line = ground (arith, headers_metadata-ample line)
read_line-ample spawns (some m) c line = ground (arith, parse-ample c.headers line)
