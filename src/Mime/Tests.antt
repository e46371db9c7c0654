-- ===== src/Mime/Tests.antt =====
-- src/mime.c at concrete names.
use cfloor.Base.{◌≡◌, refl, ◌++◌, ◌∷◌, codes, has}
use cfloor.Mime.{get_mime_from_file_name}
use cfloor.Mime.Extension.{first_mime, reached, get_mime-extension}

get_mime-extension_example :
    get_mime_from_file_name (codes "a.tar" ++ (b'.' ∷ codes "xyz"))
    ≡ first_mime (codes "xyz") reached
unfolding has
get_mime-extension_example = get_mime-extension (codes "a.tar") (codes "xyz") refl
