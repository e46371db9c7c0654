-- ===== src/Status/Tests.antt =====
-- src/status.c at concrete codes.
use cfloor.Base.{◌≡◌, refl, codes}
use cfloor.Status.{get_status_strings}

not_found : (get_status_strings 404).status_string ≡ codes "Not found"
unfolding get_status_strings
not_found = refl

no_status : (get_status_strings 299).status_string ≡ codes "Unknown Status Code"
unfolding get_status_strings
no_status = refl
