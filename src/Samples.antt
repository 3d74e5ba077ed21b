-- ===== src/Samples.antt =====
-- Concrete stand-ins for what the console takes from the browser and the engine, and the data that
-- the tests run on.
use operations_api.Common.{
  true, ℕ, zero, suc, refl, none, some, List, [], ◌∷◌, map, Text, text, ltb, leb, decimal,
}
use operations_api.Api.{Store}
use operations_api.Dates.{Date}
use operations_api.DateKit.{Engine}
use operations_api.Router.{Browser, ascii_lower}
use operations_api.Console.{Floats}
use operations_api.Tables.Cells.{Numbers}
use operations_api.Exclusions.{Server}

abbrev pub ascii_browser : Browser
ascii_browser = record {
  lower = map ascii_lower;
  lower_plain = λ s h. refl;
  encode = λ s. s;
  encode_plain = λ s h. refl;
}

abbrev nth_text : ℕ → List Text → Text
nth_text n [] = []
nth_text zero (s ∷ ss) = s
nth_text (suc n) (s ∷ ss) = nth_text n ss

abbrev month_names : List Text
month_names =
    text "Jan"
    ∷ text "Feb"
    ∷ text "Mar"
    ∷ text "Apr"
    ∷ text "May"
    ∷ text "Jun"
    ∷ text "Jul"
    ∷ text "Aug"
    ∷ text "Sept"
    ∷ text "Oct"
    ∷ text "Nov"
    ∷ text "Dec"
    ∷ []

-- It parses nothing beyond the forms that the console handles itself.
abbrev pub plain_engine : Engine
plain_engine = record {
  date_parse = λ s. none;
  number_of = λ s. none;
  short_month = λ m. nth_text m month_names;
}

abbrev pub whole_floats : Floats
whole_floats = record { Float = ℕ; at_most = leb; round = decimal; fixed_one = decimal }

abbrev pub whole_numbers : Numbers
whole_numbers = record { Num = ℕ; zero = 0; one = 1; lt = ltb; number_of = λ s. none }

-- 26 November 2026, a Thursday.
abbrev pub thursday : Date
thursday = record { year = 2026; month = 10; day = 26 }

abbrev pub web : Server
web = record {
  id = 7;
  name = text "WEB01";
  fqdn = some (text "web01.local");
  env = text "Production";
  app = text "Shop";
  pg = text "GROUP0";
}

abbrev pub bare : Server
bare = record {
  id = 8;
  name = text "DB02";
  fqdn = none;
  env = text "Production";
  app = text "Shop";
  pg = text "GROUP0";
}

abbrev pub empty_store : Store
empty_store = record {
  api_errors = [];
  published_errors = [];
  listening = true;
  notified = 0;
  demo_widgets = [];
  published_demo = [];
}

abbrev pub servers_path : Text
servers_path = text "/servers?limit=500"
