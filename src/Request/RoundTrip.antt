-- ===== src/Request/RoundTrip.antt =====
-- `headers_metadata` of src/headers.c on a request line that is written from its parts.
use cfloor.Base.{
  ℕ, ◌≡◌, refl, true, false, [], ◌∷◌, ◌++◌, Bytes, has, length, length-append, ltb, Memory, ok,
  has-append, c_string-has, ◌==◌, arith,
}
use cfloor.RealPath.{symbolic_realpath}
use cfloor.Request.{
  Method, Protocol, Parts, method_string, protocol_string, split_line, split_query, split_target,
  meta_data, headers_metadata,
}
use cfloor.Request.Tokens.{
  IsToken, append-ne, skip-IsToken, strtok-append, strtok_last, strtok_empty, leading_token,
  method_of_iff, protocol_of_iff, method_string-IsToken, protocol_string-IsToken,
}

-- `METHOD SP target SP PROTOCOL`
abbrev pub request_line : Method → Bytes → Protocol → Bytes
request_line m target p = method_string m ++ (b' ' ∷ (target ++ (b' ' ∷ protocol_string p)))

has-middle : (d : ℕ) (u v : Bytes) → has d (u ++ (d ∷ v)) ≡ true
unfolding has
has-middle d [] v = ground arith
has-middle d (c ∷ u) v = ground (arith, has-middle d u v)

pub has-other : (d c : ℕ) (v : Bytes) → (c == d) ≡ false → has d v ≡ false → has d (c ∷ v) ≡ false
unfolding has
has-other d c v e h = ground arith

module _ (m : Method) (target : Bytes) (p : Protocol) (h : IsToken b' ' target) where
  abbrev pub parts : Parts
  parts = record {
    method = method_string m;
    target = target;
    protocol = protocol_string p;
    after = protocol_string p;
  }

  pub split_line-request_line :
      (mem : Memory) → split_line (request_line m target p) mem ≡ (ok parts, mem)
  unfolding split_line
  split_line-request_line mem = rw (
    strtok-append b' ' (method_string m) _ (method_string-IsToken m).0,
    strtok-append b' ' target _ h,
    strtok_last b' ' (protocol_string p) (protocol_string-IsToken p).0,
    strtok_empty b' ',
    leading_token b' ' (protocol_string p) (protocol_string-IsToken p).0,
  )

pub request_line_nul :
    (m : Method) (target : Bytes) (p : Protocol)
    → has 0 target ≡ false
    → has 0 (request_line m target p) ≡ false
request_line_nul m target p h = has-append 0 (method_string m) _ (method_string-IsToken m).1 (
    has-other 0 b' ' _ refl (
      has-append 0 target _ h
        (has-other 0 b' ' (protocol_string p) refl (protocol_string-IsToken p).1)))

-- What the request line must be made of for the parser to see it as it is meant: a path and a query
-- with no byte that ends them, the path not empty.
pub record IsTarget (path query : Bytes) : Type 0 where
  pub path_space : IsToken b' ' path
  pub path_hash : has b'#' path ≡ false
  pub path_mark : has b'?' path ≡ false
  pub path_nul : has 0 path ≡ false
  pub query_space : has b' ' query ≡ false
  pub query_hash : has b'#' query ≡ false
  pub query_nul : has 0 query ≡ false

abbrev pub with_query : Bytes → Bytes → Bytes
with_query path query = path ++ (b'?' ∷ query)

abbrev pub no_fragment : Method → Protocol → Bytes → Parts
no_fragment m p target = record {
  method = method_string m;
  target = target;
  protocol = protocol_string p;
  after = protocol_string p;
}

module _ (m : Method) (p : Protocol) (path query : Bytes) (h : IsTarget path query) where
  target-IsToken :
      (d : ℕ) → IsToken d path → has d (b'?' ∷ query) ≡ false → IsToken d (with_query path query)
  target-IsToken d t e = (append-ne path (b'?' ∷ query) t.0, has-append d path (b'?' ∷ query) t.1 e)

  longer : ltb (length path) (length (with_query path query)) ≡ true
  longer = ground (arith, length-append path (b'?' ∷ query))

  split_query-with_query :
      (over : Bytes) (mem : Memory)
      → split_query (with_query path query) over mem ≡ (ok (path, query), mem)
  unfolding split_query
  split_query-with_query over mem =
      let mark : IsToken b'?' path = (h.path_space.0, h.path_mark) in
      rw (
        strtok-append b'?' path query mark,
        skip-IsToken b'?' path (b'?' ∷ query) mark,
        longer,
        has-middle b'?' path query,
      )

  split_target-with_query :
      (mem : Memory)
      → split_target (no_fragment m p (with_query path query)) mem ≡ (ok (path, query), mem)
  unfolding split_target
  split_target-with_query mem =
      rw
        (strtok_last b'#' (with_query path query) (
          target-IsToken b'#' (h.path_space.0, h.path_hash)
            (has-other b'#' b'?' query refl h.query_hash)))
        (split_query-with_query _ mem)

pub headers_metadata-request_line :
    (m : Method) (p : Protocol) (path query : Bytes)
    → IsTarget path query
    → headers_metadata (request_line m (with_query path query) p) [] ≡ (
      ok (record {
        method = m;
        protocol = p;
        path = symbolic_realpath path;
        query_string = query;
        uri = symbolic_realpath path ++ (b'?' ∷ query);
      }),
      [],
    )
unfolding headers_metadata meta_data
headers_metadata-request_line m p path query h =
    let target = with_query path query in
    let one_word =
      target-IsToken m p path query h b' ' h.path_space
        (has-other b' ' b'?' query refl h.query_space) in
    rw (
      c_string-has _ (
          request_line_nul m target p
            (has-append 0 path _ h.path_nul (has-other 0 b'?' query refl h.query_nul))),
      split_line-request_line m target p one_word [],
      split_target-with_query m p path query h [],
      (method_of_iff (method_string m) m).1 refl,
      (protocol_of_iff (protocol_string p) p).1 refl,
    )
