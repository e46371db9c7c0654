-- ===== src/Files/Index.antt =====
-- src/files.c, the listing of a directory: `scandirFiler`, `scandirSort` and `showIndex`. What
-- `scandir` returns, having called the first two, and whether `fdopen` succeeds are parameters.
use cfloor.Base.{
  Bool, true, false, not, ◌&&◌, Option, none, some, List, [], ◌∷◌, ◌++◌, Bytes, codes, equal,
  strip_prefix, length, drop, ltb, if◌then◌else◌,
}

-- `struct dirent`; `is_dir` stands for `d_type == DT_DIR`.
pub record Dirent : Type 0 where
  pub name : Bytes
  pub is_dir : Bool

abbrev pub is_some : Option Bytes → Bool
is_some none = false
is_some (some s) = true

-- Names that begin with a dot are left out, but for the directory above.
unfoldable pub scandir_filter : Dirent → Bool
scandir_filter e =
    if equal e.name (codes "..")
    then true
    else if is_some (strip_prefix (codes ".") e.name)
    then false
    else true

-- The sign of an int.
pub data Sign : Type 0 where
  negative null positive : Sign

-- `strcmp`, which compares the bytes as unsigned ones; the shorter string comes first.
unfoldable pub strcmp : Bytes → Bytes → Sign
strcmp [] [] = null
strcmp [] (d ∷ t) = negative
strcmp (c ∷ s) [] = positive
strcmp (c ∷ s) (d ∷ t) = if ltb c d then negative else if ltb d c then positive else strcmp s t

unfoldable pub scandir_sort : Dirent → Dirent → Sign
scandir_sort a b =
    if a.is_dir && not b.is_dir
    then negative
    else if not a.is_dir && b.is_dir
    then positive
    else strcmp a.name b.name

-- One row of the table.
abbrev pub row : Bytes → Dirent → Bytes
row relative e =
    codes "\t\t\t<tr>\n"
    ++ codes "\t\t\t\t<td>"
    ++ (if e.is_dir then codes "D" else [])
    ++ codes "</td>\n"
    ++ codes "\t\t\t\t<td><a href='"
    ++ relative
    ++ codes "/"
    ++ e.name
    ++ codes "'>"
    ++ e.name
    ++ codes "</a></td>\n"
    ++ codes "\t\t\t</tr>\n"

-- The root has no entry for the directory above.
unfoldable pub rows : Bytes → List Dirent → Bytes
rows relative [] = []
rows relative (e ∷ es) =
    let rest = rows relative es in
    if equal e.name (codes "..") && equal relative [] then rest else row relative e ++ rest

abbrev pub top : Bytes → Bytes
top relative =
    codes "<!DOCTYPE html>\n"
    ++ codes "<html>\n"
    ++ codes "\t<head>\n"
    ++ codes "\t\t<title>Index of "
    ++ relative
    ++ codes "/</title>\n"
    ++ codes "\t</head>\n"
    ++ codes "\t<body>\n"
    ++ codes "\t\t<h1>Index of "
    ++ relative
    ++ codes "/</h1>\n"
    ++ codes "\t\t<table>\n"
    ++ codes "\t\t\t<tr>\n"
    ++ codes "\t\t\t\t<th>Type</th>\n"
    ++ codes "\t\t\t\t<th>File</th>\n"
    ++ codes "\t\t\t</tr>\n"

abbrev pub bottom : Bytes
bottom = codes "\t\t<table>\n" ++ codes "\t</body>\n" ++ codes "</html>\n"

-- What is written, or the failure -1. `path` begins with the document root, whose length is skipped.
unfoldable pub show_index : Bool → Option (List Dirent) → Bytes → Bytes → Option Bytes
show_index opens none path document_root = none
show_index false (some es) path document_root = none
show_index true (some es) path document_root =
    let relative = drop (length document_root) path in
    some (top relative ++ rows relative es ++ bottom)
