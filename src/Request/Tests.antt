-- ===== src/Request/Tests.antt =====
-- `headers_metadata` of src/headers.c at concrete request lines, and its theorems at them.
use cfloor.Base.{◌≡◌, ◌+◌, ◌<◌, refl, [], ◌∷◌, ◌++◌, ok, codes, c_string, equal, has, length}
use cfloor.RealPath.{symbolic_realpath}
use cfloor.Request.{
  headers_metadata, split_line, split_target, split_query, over_read, strtok, leading, method_of,
  protocol_of, meta_data, get, http10, http11, uri_size,
}
use cfloor.Request.Faults.{uri_overflow}
use cfloor.Request.Skipped.{IsPlain}

plain : headers_metadata (codes "GET /a?b=c#d HTTP/1.1") [] ≡ (
  ok (record {
    method = get;
    protocol = http11;
    path = codes "/a";
    query_string = codes "b=c";
    uri = codes "/a?b=c";
  }),
  [],
)
unfolding headers_metadata split_line split_target split_query over_read strtok leading method_of
    protocol_of meta_data symbolic_realpath c_string equal has
plain = refl

-- The query is read behind the NUL of the target, where the protocol stands.
over : headers_metadata (codes "GET ?a=b  HTTP/1.0") [] ≡ (
  ok (record {
    method = get;
    protocol = http10;
    path = codes "/a=b";
    query_string = codes " HTTP/1.0";
    uri = codes "/a=b? HTTP/1.0";
  }),
  [],
)
unfolding headers_metadata split_line split_target split_query over_read strtok leading method_of
    protocol_of meta_data symbolic_realpath c_string equal has
over = refl

uri_overflow_example :
    uri_size (codes "a") (codes "b")
    < length (symbolic_realpath (codes "a") ++ (b'?' ∷ codes "b")) + 1
unfolding has
uri_overflow_example = uri_overflow (codes "a") (codes "b") refl

a_path : IsPlain (codes "x")
unfolding has
a_path = record { space = ((λ e. cc), refl); hash = refl; mark = refl; nul = refl }
