-- ===== src/RealPath/Tests.antt =====
-- Tests of `symbolicRealpath`, and its theorems at concrete paths.
use cfloor.Base.{◌+◌, ◌≤◌, ◌≡◌, refl, List, [], ◌∷◌, ◌++◌, Bytes, codes, some, length}
use cfloor.RealPath.{symbolic_realpath, Scan, scan, start, byte_at}
use cfloor.RealPath.Bounds.{scan-start}

-- The inputs of src/test.c.
no_mod : symbolic_realpath (codes "/hello/world/") ≡ codes "/hello/world/"
unfolding symbolic_realpath
no_mod = refl

double_slashes : symbolic_realpath (codes "//hello//world//") ≡ codes "/hello/world/"
unfolding symbolic_realpath
double_slashes = refl

no_root : symbolic_realpath (codes "hello/world/") ≡ codes "/hello/world/"
unfolding symbolic_realpath
no_root = refl

dots : symbolic_realpath (codes "/hello/././world/") ≡ codes "/hello/world/"
unfolding symbolic_realpath
dots = refl

up : symbolic_realpath (codes "/hello/../world/") ≡ codes "/world/"
unfolding symbolic_realpath
up = refl

over : symbolic_realpath (codes "hello/../../world/") ≡ codes "../world/"
unfolding symbolic_realpath
over = refl

double_over : symbolic_realpath (codes "/hello/../../../world/") ≡ codes "../../world/"
unfolding symbolic_realpath
double_over = refl

-- The byte that the length misses behind a "/../" at the start is the last slash.
last_slash : symbolic_realpath (codes "/../a/../") ≡ codes "../a/../"
unfolding symbolic_realpath
last_slash = refl

scan-start_example :
    (t : Scan) × (scan (length (codes "/../a/./b") + 1) (start (codes "/../a/./b")) ≡ some t)
    × (length (t.kept ++ t.text) ≤ length (codes "/../a/./b") + 1)
    × (byte_at t.text 0 ≡ b'/')
scan-start_example = scan-start (codes "/../a/./b")

abbrev visited : List Bytes
visited = codes "a" ∷ codes "b" ∷ codes ".." ∷ codes "." ∷ codes "c.d" ∷ []
