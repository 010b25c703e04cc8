-- ===== src/Examples/Loggers.antt =====
-- Loggers, and modules that are loaded.
use kineircd.Prelude.{
  ◌≡◌, ◌≤◌, ◌↔◌, refl, true, false, List, [], ◌∷◌, none, some, arith, All, if◌then◌else◌,
}
use kineircd.Prelude.Text.{Text, codes}
use kineircd.Logger.{MaskMapper, var_handle_log_mask, log, find_word}
use kineircd.Logger.Decided.{logged, log-logged}
use kineircd.Logger.File.{Moment, short_hour, write_format, log_line}
use kineircd.Logger.Lines.{
  clock_hour, short_hour_iff, Piece, letter, conversion, IsPlain, encode, names_mask, shown,
  log_line-encode,
}
use kineircd.Modules.{Module, get_key_name, Library, initialised}
use kineircd.Modules.Once.{count_key, load_all, load_all-count_key}

abbrev table : List MaskMapper
table =
    record { character = b'D'; name = codes "Debug"; name_upper = codes "DEBUG" }
    ∷ record { character = b'G'; name = codes "Globals"; name_upper = codes "GLOBALS" }
    ∷ record { character = b'H'; name = codes "Helpers"; name_upper = codes "HELPERS" }
    ∷ []

abbrev values : List Text
values = codes "ALL" ∷ codes "-GLOBALS" ∷ codes "NOTHING" ∷ []

log-logged_example :
    log (var_handle_log_mask (λ s. s) table values) 1 ≡ logged (λ s. s) table 1 values
log-logged_example = log-logged (λ s. s) table 1 values

logs_debug : log (var_handle_log_mask (λ s. s) table values) 0 ≡ true
unfolding log var_handle_log_mask find_word
logs_debug = refl

logs_no_globals : log (var_handle_log_mask (λ s. s) table values) 1 ≡ false
unfolding log var_handle_log_mask find_word
logs_no_globals = refl

abbrev moment : Moment
moment = record {
  second = 5;
  minute = 4;
  hour = 3;
  month_day = 2;
  month = 0;
  year = 103;
  week_day = 4;
  year_day = 1;
  epoch = 1041476645;
}

-- The time of the log's default format, and the line.
abbrev pieces : List Piece
pieces =
    conversion b'Y'
    ∷ conversion b'm'
    ∷ conversion b'd'
    ∷ letter b'T'
    ∷ conversion b'H'
    ∷ conversion b'M'
    ∷ conversion b'S'
    ∷ letter b'Z'
    ∷ letter b' '
    ∷ conversion b'$'
    ∷ []

write_format_test :
    write_format table 1 (codes "line") moment (codes "%Y%m%dT%H%M%SZ %$%n")
    ≡ some (codes "20030102T030405Z line\n")
unfolding write_format
write_format_test = refl

plain : All IsPlain pieces
unfolding IsPlain
plain = ground arith

log_line-encode_example :
    log_line table 1 (codes "line") moment true (encode pieces)
    ≡ (if names_mask pieces then none else some (shown table 1 (codes "line") moment pieces))
log_line-encode_example = log_line-encode table 1 (codes "line") moment pieces plain

short_hour_iff_example : (short_hour 9 ≡ clock_hour 9) ↔ (13 ≤ 9)
short_hour_iff_example = short_hour_iff 9 (omega arith)

abbrev module_of : Text → Module
module_of key = record {
  name_short = some key;
  name_long = some (codes "a module");
  version_major = 1;
  version_minor = 0;
  unique_instance = true;
  has_configuration = false;
  starts = true;
}

abbrev library : Text → Library
library filename = initialised (some (module_of filename))

unique :
    (filename : Text) (m : Module)
    → library filename ≡ initialised (some m)
    → get_key_name m ≡ codes "log"
    → m.unique_instance ≡ true
unique filename m e k = cc

load_all-count_key_example :
    count_key (codes "log") (load_all library (codes "log" ∷ codes "a" ∷ codes "log" ∷ []) []) ≤ 1
unfolding count_key
load_all-count_key_example =
    load_all-count_key library (codes "log") (codes "log" ∷ codes "a" ∷ codes "log" ∷ []) [] unique
      (omega arith)
