-- ===== src/Files/Paths.antt =====
-- src/files.c, `normalizePath`: which paths it lets through.
use cfloor.Base.{
  true, ◌≡◌, ◌↔◌, inl, inr, refl, sym, ap, ◌∙◌, false, Option, none, some, Option-cases, [], ◌∷◌,
  ◌++◌, Bytes, strip_prefix, strip_prefix-append, strip_prefix_sound, Memory, Result, ok, err,
  arith,
}
use cfloor.Dir.Inside.{Inside}
use cfloor.Files.{FileSystem, Errno, check_path, resolved, normalize_path}

-- The real path of the request's path below the document root, which the root's text begins.
pub record IsLetThrough (fs : FileSystem) (root path p : Bytes) : Type 0 where
  pub real : fs.realpath (root ++ (b'/' ∷ path)) ≡ ok p
  pub rest : Bytes
  pub begins : p ≡ root ++ rest
  pub accessible : fs.access p ≡ none

module _ (fs : FileSystem) (root : Bytes) where
  check_path_sound :
      (o : Option Bytes) (q p : Bytes) (h : Memory) {h' : Memory}
      → check_path fs o q h ≡ (ok p, h')
      → (q ≡ p) × (fs.access p ≡ none) × ((rest : Bytes) × (o ≡ some rest))
  unfolding check_path
  check_path_sound none q p h e = ground arith
  check_path_sound (some rest) q p h e = elim (Option-cases (fs.access q)) [
    | inl a ↦ let same : q ≡ p = ground arith in (same, rw⁻¹ same a, (rest, refl))
    | inr (x, a) ↦ ground arith
  ]

  resolved_sound :
      (r : Result Errno Bytes) (p : Bytes) (h : Memory) {h' : Memory}
      → resolved fs root r h ≡ (ok p, h')
      → (r ≡ ok p) × (fs.access p ≡ none) × ((rest : Bytes) × (p ≡ root ++ rest))
  unfolding resolved
  resolved_sound (err x) p h e = ground arith
  resolved_sound (ok q) p h e =
      let (same, a, begins) = check_path_sound (strip_prefix root q) q p h e in
      let (rest, prefix) = begins in
      (ap ok same, a, (rest, sym same ∙ strip_prefix_sound root q rest prefix))

  normalize_path_sound :
      (path p : Bytes) (h : Memory) {h' : Memory}
      → normalize_path fs (some root) path h ≡ (ok p, h')
      → IsLetThrough fs root path p
  unfolding normalize_path
  normalize_path_sound path p (false ∷ h) e = ground arith
  normalize_path_sound path p [] e =
      let (real, a, begins) = resolved_sound (fs.realpath (root ++ (b'/' ∷ path))) p [] e in
      record { real = real; rest = begins.0; begins = begins.1; accessible = a }
  normalize_path_sound path p (true ∷ h) e =
      let (real, a, begins) = resolved_sound (fs.realpath (root ++ (b'/' ∷ path))) p h e in
      record { real = real; rest = begins.0; begins = begins.1; accessible = a }

  normalize_path_complete :
      (path p : Bytes)
      → IsLetThrough fs root path p
      → normalize_path fs (some root) path [] ≡ (ok p, [])
  unfolding normalize_path resolved check_path
  normalize_path_complete path p l =
      let prefix : strip_prefix root p ≡ some l.rest =
        ap (strip_prefix root) l.begins ∙ strip_prefix-append root l.rest in
      rw (l.real, prefix, l.accessible, check_path) refl

-- Given memory, `normalizePath` returns a path exactly if it is the real path of the request's path
-- below the document root, begins with the document root's bytes and can be read. If memory fails
-- it returns no other.
pub normalize_path_iff :
    (fs : FileSystem) (root path p : Bytes)
    → ((normalize_path fs (some root) path [] ≡ (ok p, [])) ↔ IsLetThrough fs root path p)
      × ((h h' : Memory)
          → normalize_path fs (some root) path h ≡ (ok p, h')
          → IsLetThrough fs root path p)
normalize_path_iff fs root path p = (
  (λ e. normalize_path_sound fs root path p [] e, normalize_path_complete fs root path p),
  λ h h' e. normalize_path_sound fs root path p h e,
)
