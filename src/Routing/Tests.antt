-- ===== src/Routing/Tests.antt =====
-- `config_getHandler` of src/config.c on a small configuration, and its theorems there.
use cfloor.Base.{◌≡◌, ◌⊎◌, refl, true, false, some, none, Option, [], ◌∷◌, codes, equal}
use cfloor.Logging.{default_loglevel}
use cfloor.Config.{file_handler, cgi_handler, Handler, Site, Config, Surroundings}
use cfloor.Config.Valid.{IsValid}
use cfloor.Dir.{is_in_dir}
use cfloor.Routing.{
  handled, Choice, first_choice, is_some, find_bind, choose_site, match_names, choose_handler,
  in_site, in_bind, get_handler,
}
use cfloor.Routing.Handlers.{Chosen, choose_handler-Chosen}
use cfloor.Routing.Sites.{serves, any_serves, Member, choose_site-serves}

abbrev files : Handler
files = record {
  dir = some (codes "/");
  type = some file_handler;
  handler = some file_handler;
  document_root = some (codes "/w");
  index_files = [];
}

abbrev scripts : Handler
scripts = record {
  dir = some (codes "/cgi/");
  type = some cgi_handler;
  handler = some cgi_handler;
  document_root = some (codes "/w");
  index_files = [];
}

abbrev every : Site
every = record {
  hostnames = [];
  document_root = some (codes "/w");
  handlers = files ∷ scripts ∷ [];
}

abbrev a_site : Site
a_site = record { hostnames = codes "a" ∷ []; document_root = some (codes "/w"); handlers = [] }

abbrev b_site : Site
b_site = record { hostnames = codes "b" ∷ []; document_root = some (codes "/w"); handlers = [] }

abbrev one_bind : Config
one_bind = record {
  binds =
      record {
        addr = some (codes "0.0.0.0");
        port = some (codes "80");
        ssl = none;
        sites = every ∷ a_site ∷ b_site ∷ [];
      }
      ∷ [];
  logging = record {
    access_logfile = none;
    server_logfile = none;
    server_verbosity = default_loglevel;
  };
}

abbrev plain_world : Surroundings
plain_world = record { ssl_support = false; realpath = λ p. some p; ssl_init = λ k c. false }

one_bind-IsValid : IsValid plain_world one_bind
unfolding IsValid
one_bind-IsValid = (
  record {
    addr = tt;
    port = tt;
    ssl = tt;
    sites = (
      record {
        root = codes "/w";
        root_set = refl;
        handlers = (
          record {
            dir = tt;
            type = file_handler;
            type_set = refl;
            handler_set = refl;
            root_set = refl;
          },
          (
            record {
              dir = tt;
              type = cgi_handler;
              type_set = refl;
              handler_set = refl;
              root_set = refl;
            },
            tt,
          ),
        );
      },
      (
        record { root = codes "/w"; root_set = refl; handlers = tt },
        (record { root = codes "/w"; root_set = refl; handlers = tt }, tt),
      ),
    );
  },
  tt,
)

longest :
    get_handler one_bind (codes "/cgi/x") (some (codes "c")) (codes "0.0.0.0") (codes "80")
    ≡ some (handled scripts)
unfolding get_handler find_bind in_bind in_site choose_site match_names choose_handler is_in_dir
    equal
longest = refl

choose_handler-Chosen_example :
    (r : Option Handler) × (choose_handler (codes "/cgi/x") (files ∷ scripts ∷ []) 0 none ≡ some r)
    × Chosen (codes "/cgi/x") (files ∷ scripts ∷ []) 0 none r
choose_handler-Chosen_example =
    choose_handler-Chosen (codes "/cgi/x") (files ∷ scripts ∷ []) 0 none (tt, (tt, tt)) refl

choose_site-serves_example :
    (r : Choice) × (choose_site (some (codes "b")) (a_site ∷ b_site ∷ []) first_choice ≡ some r)
    × ((r.site ≡ none)
        ⊎ ((s : Site) × (r.site ≡ some s)
            × Member s (a_site ∷ b_site ∷ [])
            × (serves (codes "b") s ≡ true)))
    × (any_serves (codes "b") (a_site ∷ b_site ∷ []) ≡ true → is_some r.site ≡ true)
choose_site-serves_example = choose_site-serves (codes "b") (a_site ∷ b_site ∷ [])
