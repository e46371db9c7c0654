-- ===== src/Dir/Tests.antt =====
-- `isInDir` of src/util.c at concrete paths.
use cfloor.Base.{◌≡◌, refl, true, some, codes, inl, ◌↔◌, has}
use cfloor.Dir.{is_in_dir}
use cfloor.Dir.Inside.{Inside, is_in_dir_iff}

is_in_dir_iff_example :
    (is_in_dir (codes "/cgi-bin/a") (codes "/cgi-bin/") ≡ some true)
    ↔ Inside (codes "/cgi-bin/a") (codes "/cgi-bin")
unfolding has
is_in_dir_iff_example =
    is_in_dir_iff (codes "/cgi-bin/a") (codes "/cgi-bin/") (codes "/cgi-bin") refl (inl refl)
