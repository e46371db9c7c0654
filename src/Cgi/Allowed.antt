-- ===== src/Cgi/Allowed.antt =====
-- Which script `cgiHandler` of src/cgi.c runs.
use cfloor.Base.{
  ◌≡◌, refl, sym, ap, ◌∙◌, Bool, true, false, Option, none, some, Bytes, Memory, Result, ok, err,
  Alloc, resume, arith,
}
use cfloor.Files.{FileSystem, Errno, denied, missing, other, regular, Stat, Reply, normalize_path}
use cfloor.Cgi.{Response, read_output}
use cfloor.Cgi.Handler.{
  ScriptRequest, environment, System, check_executable, check_stat, granted, cgi_handler,
}

-- The response comes from a file that `normalizePath` let through, that can be executed, and that is a
-- regular file, run with the environment of the request.
pub record IsRun (fs : FileSystem) (system : System) (root : Bytes) (r : ScriptRequest) (h : Memory)
    (response : Response) (h' : Memory) : Type 0 where
  pub path : Bytes
  pub left : Memory
  pub file : Stat
  pub let_through : normalize_path fs (some root) r.meta_data.path h ≡ (ok path, left)
  pub executable : system.executable path ≡ none
  pub found : fs.stat path ≡ some file
  pub is_regular : file.kind ≡ regular
  pub output : read_output (system.run path (environment root r)) left ≡ (ok response, h')

module _ {A : Type 0} where
  bound_ok :
      (r : Result Reply A × Memory) (f : A → Alloc Reply Response) (response : Response)
      (h' : Memory)
      → resume r f ≡ (ok response, h')
      → (a : A) × (h : Memory) × (r ≡ (ok a, h)) × (f a h ≡ (ok response, h'))
  bound_ok (ok a, h) f response h' e = (a, h, refl, e)
  bound_ok (err x, h) f response h' e = cc

executable_ok :
    (o : Option Errno) (h h' : Memory) → check_executable o h ≡ (ok tt, h') → (o ≡ none) × (h' ≡ h)
executable_ok none h h' e = ground arith
executable_ok (some denied) h h' e = cc
executable_ok (some missing) h h' e = cc
executable_ok (some other) h h' e = cc

stat_ok :
    (o : Option Stat) (h h' : Memory)
    → check_stat o h ≡ (ok tt, h')
    → (s : Stat) × (o ≡ some s) × (s.kind ≡ regular) × (h' ≡ h)
stat_ok none h h' e = cc
stat_ok (some s) h h' e = (s, refl, ground arith, ground arith)

granted_ok : (b : Bool) (h h' : Memory) → granted b h ≡ (ok tt, h') → h' ≡ h
granted_ok true h h' e = ground arith
granted_ok false h h' e = cc

-- Every response of `cgiHandler`, whatever fails, comes from a file that `normalizePath` let through,
-- that can be executed and that is a regular file: it is what `cgiHandler` reads from the output of
-- this file, run with the environment of the request.
pub cgi_handler-IsRun :
    (fs : FileSystem) (system : System) (root : Bytes) (r : ScriptRequest) (h h' : Memory)
    (response : Response)
    → cgi_handler fs system root r h ≡ (ok response, h')
    → IsRun fs system root r h response h'
unfolding cgi_handler
cgi_handler-IsRun fs system root r h h' response e =
    let (path, h1, a, e1) =
      bound_ok (normalize_path fs (some root) r.meta_data.path h) _ response h' e in
    let (u2, h2, b, e2) =
      bound_ok (check_executable (system.executable path) h1) _ response h' e1 in
    let (u3, h3, c, e3) = bound_ok (check_stat (fs.stat path) h2) _ response h' e2 in
    let (u4, h4, d, e4) = bound_ok (granted system.pipe h3) _ response h' e3 in
    let (u5, h5, f, e5) = bound_ok (granted system.fork h4) _ response h' e4 in
    let (executable, same2) = executable_ok (system.executable path) h1 h2 b in
    let (file, found, is_regular, same3) = stat_ok (fs.stat path) h2 h3 c in
    let same4 = granted_ok system.pipe h3 h4 d in
    let same5 = granted_ok system.fork h4 h5 f in
    let same = same5 ∙ (same4 ∙ (same3 ∙ same2)) in
    record {
      path = path;
      left = h5;
      file = file;
      let_through = a ∙ ap (λ (m : Memory). (ok path, m)) (sym same);
      executable = executable;
      found = found;
      is_regular = is_regular;
      output = e5;
    }
