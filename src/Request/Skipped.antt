-- ===== src/Request/Skipped.antt =====
-- Request targets that begin with the delimiters that `strtok` skips.
use cfloor.Base.{
  ℕ, zero, suc, ◌≡◌, refl, ◌∙◌, true, false, some, [], ◌∷◌, ◌++◌, Bytes, has, length, length-append,
  ltb, Memory, ok, err, has-append, c_string-has, ◌==◌, arith,
}
use cfloor.RealPath.{symbolic_realpath}
use cfloor.Request.{
  Method, Protocol, null_string, method_string, protocol_string, headers_metadata, strtok, skip,
  over_read, split_query, split_target, meta_data,
}
use cfloor.Request.Tokens.{
  IsToken, skip_token, strtok_last, strtok-skip, strtok_empty, method_of_iff, protocol_of_iff,
}
use cfloor.Request.RoundTrip.{request_line, split_line-request_line, request_line_nul, parts}

-- `n` times the same byte.
abbrev pub copies : ℕ → ℕ → Bytes
copies zero d = []
copies (suc n) d = d ∷ copies n d

skip-copies : (d n : ℕ) (s : Bytes) → skip d (copies n d ++ s) ≡ skip d s
unfolding skip
skip-copies d zero s = refl
skip-copies d (suc n) s = ground (arith, skip-copies d n s)

skip_first-copies : (d n : ℕ) → skip d (copies n d) ≡ []
unfolding skip
skip_first-copies d zero = refl
skip_first-copies d (suc n) = ground (arith, skip_first-copies d n)

has-copies : (c d n : ℕ) → (d == c) ≡ false → has c (copies n d) ≡ false
unfolding has
has-copies c d zero h = refl
has-copies c d (suc n) h = ground (arith, has-copies c d n)

hashes-IsToken : (n : ℕ) → IsToken b' ' (copies (suc n) b'#')
hashes-IsToken n = ((λ e. cc), has-copies b' ' b'#' (suc n) refl)

split_target_hashes :
    (m : Method) (p : Protocol) (n : ℕ) (mem : Memory)
    → split_target (parts m (copies (suc n) b'#') p (hashes-IsToken n)) mem ≡ (err null_string, mem)
unfolding split_target skip
split_target_hashes m p n mem =
    rw (
      strtok-skip b'#' (copies (suc n) b'#') [] (skip_first-copies b'#' (suc n)),
      strtok_empty b'#',
    )

-- A target of hash signs only, whatever the method and the protocol: `strlen` is called on NULL.
pub headers_metadata_hashes :
    (m : Method) (p : Protocol) (n : ℕ)
    → headers_metadata (request_line m (copies (suc n) b'#') p) [] ≡ (err null_string, [])
unfolding headers_metadata
headers_metadata_hashes m p n = rw (
  c_string-has _ (request_line_nul m _ p (has-copies 0 b'#' (suc n) refl)),
  split_line-request_line m _ p (hashes-IsToken n) [],
  split_target_hashes m p n [],
)

-- A path that the parser takes as one piece.
pub record IsPlain (path : Bytes) : Type 0 where
  pub space : IsToken b' ' path
  pub hash : has b'#' path ≡ false
  pub mark : has b'?' path ≡ false
  pub nul : has 0 path ≡ false

abbrev pub marked : ℕ → Bytes → Bytes
marked n path = copies (suc n) b'?' ++ path

module _ (m : Method) (p : Protocol) (n : ℕ) (path : Bytes) (h : IsPlain path) where
  marked-IsToken : (d : ℕ) → (b'?' == d) ≡ false → has d path ≡ false → IsToken d (marked n path)
  marked-IsToken d e f =
      ((λ e. cc), has-append d (copies (suc n) b'?') path (has-copies d b'?' (suc n) e) f)

  skip-marked : skip b'?' (marked n path) ≡ path
  skip-marked = skip-copies b'?' (suc n) path ∙ skip_token b'?' path (h.space.0, h.mark)

  strtok-marked : strtok b'?' (marked n path) ≡ some (path, [])
  strtok-marked =
      strtok-skip b'?' (marked n path) path (skip-copies b'?' (suc n) path)
      ∙ strtok_last b'?' path (h.space.0, h.mark)

  shorter : ltb (length path) (length (marked n path)) ≡ true
  shorter = ground (arith, length-append (copies n b'?') path)

  split_query-marked :
      (over : Bytes) (mem : Memory) → split_query (marked n path) over mem ≡ (ok (path, over), mem)
  unfolding split_query
  split_query-marked over mem = rw (strtok-marked, skip-marked, shorter, h.mark)

  split_target-marked :
      (mem : Memory)
      → split_target (parts m (marked n path) p (marked-IsToken b' ' refl h.space.1)) mem
        ≡ (ok (path, protocol_string p), mem)
  unfolding split_target over_read
  split_target-marked mem =
      let whole = marked-IsToken b'#' refl h.hash in
      rw (strtok_last b'#' (marked n path) whole, skip_token b'#' (marked n path) whole, whole.1)
        (split_query-marked (protocol_string p) mem)

-- Question marks in front of a path: they are skipped, the path is taken for shorter than the
-- target, and the query is read behind the end of the target. What stands there is the protocol.
pub headers_metadata-marked :
    (m : Method) (p : Protocol) (n : ℕ) (path : Bytes)
    → IsPlain path
    → headers_metadata (request_line m (marked n path) p) [] ≡ (
      ok (record {
        method = m;
        protocol = p;
        path = symbolic_realpath path;
        query_string = protocol_string p;
        uri = symbolic_realpath path ++ (b'?' ∷ protocol_string p);
      }),
      [],
    )
unfolding headers_metadata meta_data
headers_metadata-marked m p n path h = rw (
  c_string-has _ (request_line_nul m _ p (marked-IsToken m p n path h 0 refl h.nul).1),
  split_line-request_line m (marked n path) p (marked-IsToken m p n path h b' ' refl h.space.1) [],
  split_target-marked m p n path h [],
  (method_of_iff (method_string m) m).1 refl,
  (protocol_of_iff (protocol_string p) p).1 refl,
)
