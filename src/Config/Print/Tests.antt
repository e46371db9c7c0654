-- ===== src/Config/Print/Tests.antt =====
-- The grammar at a concrete configuration, which is written and read back.
use cfloor.Base.{
  none, Bool, true, false, not, ◌&&◌, some, List, [], ◌∷◌, Bytes, codes, has, length, ltb,
}
use cfloor.Config.{file_handler, cgi_handler, Surroundings}
use cfloor.Config.Print.{LogPlan, SitePlan, BindPlan}
use cfloor.Config.Print.Words.{no_blank}

is_word : Bytes → Bool
is_word [] = false
is_word (c ∷ cs) = no_blank (c ∷ cs) && not (has 0 (c ∷ cs)) && ltb (length (c ∷ cs)) 128

are_words : List Bytes → Bool
are_words [] = true
are_words (t ∷ ts) = is_word t && are_words ts

abbrev home : SitePlan
home = record {
  hostnames = codes "a.org" ∷ codes "*" ∷ [];
  root = codes "./home/";
  handlers =
      record { dir = codes "/"; type = file_handler; index = codes "index.html" ∷ [] }
      ∷ record { dir = codes "/cgi-bin/"; type = cgi_handler; index = [] }
      ∷ [];
}

abbrev plans : List BindPlan
plans =
    record {
      addr = codes "*";
      port = codes "443";
      ssl = some (codes "k.pem", codes "c.pem");
      sites = home ∷ [];
    }
    ∷ []

-- Every path is taken from the root.
abbrev real : Bytes → Bytes
real p = b'/' ∷ p

abbrev there : Surroundings
there = record { ssl_support = true; realpath = λ p. some (real p); ssl_init = λ k c. true }

abbrev logs : LogPlan
logs = record { access = some (codes "access.log"); server = none; verbosity = some (codes "Info") }
