-- ===== src/Files/Tests.antt =====
-- src/files.c on a small file system.
use cfloor.Base.{
  strip_prefix, true, ◌≡◌, ◌↔◌, refl, false, none, some, [], ◌∷◌, ◌++◌, codes, equal, if◌then◌else◌,
  Memory, ok, err,
}
use cfloor.Dir.Inside.{Inside}
use cfloor.RealPath.{symbolic_realpath}
use cfloor.Files.{FileSystem, missing, regular, normalize_path}
use cfloor.Files.Paths.{IsLetThrough, normalize_path_iff}
use cfloor.Files.Index.{
  Dirent, negative, strcmp, scandir_filter, scandir_sort, rows, show_index, top, bottom,
}

-- "/w" with the file "/w/a", and a directory "/wx" beside it with the file "/wx/a".
abbrev small : FileSystem
small = record {
  realpath = λ p.
      if equal p (codes "/w//a")
      then ok (codes "/w/a")
      else if equal p (codes "/w/../wx/a")
      then ok (codes "/wx/a")
      else err missing;
  access = λ p. none;
  stat = λ p. some (record { kind = regular; size = 5 });
  content = λ p. some p;
}

normalize_path_iff_example :
    ((normalize_path small (some (codes "/w")) (codes "/a") [] ≡ (ok (codes "/w/a"), []))
      ↔ IsLetThrough small (codes "/w") (codes "/a") (codes "/w/a"))
    × ((h h' : Memory)
        → normalize_path small (some (codes "/w")) (codes "/a") h ≡ (ok (codes "/w/a"), h')
        → IsLetThrough small (codes "/w") (codes "/a") (codes "/w/a"))
normalize_path_iff_example = normalize_path_iff small (codes "/w") (codes "/a") (codes "/w/a")

-- What a request for "/../wx/a" leads to the directory beside the root with.
climbs : symbolic_realpath (codes "/../wx/a") ≡ codes "../wx/a"
unfolding symbolic_realpath
climbs = refl

abbrev folder : Dirent
folder = record { name = codes "z"; is_dir = true }

abbrev first_file : Dirent
first_file = record { name = codes "a"; is_dir = false }

abbrev second_file : Dirent
second_file = record { name = codes "b"; is_dir = false }

folder_first : scandir_sort folder first_file ≡ negative
unfolding scandir_sort
folder_first = refl

by_name : scandir_sort first_file second_file ≡ negative
unfolding scandir_sort strcmp
by_name = refl

-- A hidden file is left out, and the root has no way up.
hidden : scandir_filter (record { name = codes ".git"; is_dir = true }) ≡ false
unfolding scandir_filter equal strip_prefix
hidden = refl

listed_root :
    show_index true
      (some (record { name = codes ".."; is_dir = true } ∷ []))
      (codes "/w")
      (codes "/w")
    ≡ some (top [] ++ bottom)
unfolding show_index rows equal
listed_root = refl
