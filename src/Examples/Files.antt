-- ===== src/Examples/Files.antt =====
-- Language files, and the requests of STATS.
use kineircd.Prelude.{
  if◌then◌else◌, ℕ, ◌≡◌, ◌==◌, refl, true, false, List, Option, [], ◌∷◌, none, some, arith,
  is_empty,
}
use kineircd.Prelude.Text.{Text, codes}
use kineircd.Prelude.Int.{pos, negsuc}
use kineircd.Language.Escapes.{read_data}
use kineircd.Language.Escapes.Glyphs.{is_naughty}
use kineircd.Language.Escapes.Reading.{write, read_data-write}
use kineircd.Language.Files.{Reader, Languages}
use kineircd.Language.Fallback.{get_first, first_text, asked, get_first-preferred}
use kineircd.Irc2.Replies.Stats.{Command, uptime}
use kineircd.Irc2.Replies.Date.{date_text}
use kineircd.Irc2.Replies.Time.{zone_text}
use kineircd.Irc2.Replies.Users.{Entry, do_users, users_start, users, end_of_users}
use kineircd.Examples.Instances.{split_tokens}

read_data-write_example :
    read_data [] some (write (λ c. c == b'a') (codes "50% a\\b")) ≡ some (codes "50% a\\b")
unfolding is_naughty
read_data-write_example =
    read_data-write [] some (λ c. c == b'a') (codes "50% a\\b") (codes "50% a\\b") (ground arith)
      refl (ground arith)

abbrev reader : Reader
reader = record {
  tokens = split_tokens;
  trim = λ t. t;
  to_lower = λ t. t;
  to_long = λ t. pos 3;
  convert = λ t. some t;
  more = [];
}

abbrev none_known : Languages
none_known = record {
  dictionary = record { entries = []; highest = 0 };
  known = [];
  default_language = none;
  tag_maps = [];
}

abbrev file : Text
file = codes ".LANGCODE=en\nHELLO=Hello %p\nHELLO=Hi\n"

abbrev texts : ℕ → Text
texts l = if l == 2 then codes "two" else []

abbrev two_languages : List (Option ℕ)
two_languages = some 1 ∷ some 2 ∷ []

get_first-preferred_example :
    (get_first texts (some 2) two_languages
      ≡ first_text texts (some 2) (asked texts (some 2) two_languages))
    × (is_empty (get_first texts (some 2) two_languages) ≡ false)
get_first-preferred_example = get_first-preferred texts (some 2) two_languages

abbrev uptime_command : Command
uptime_command = record { request = codes "uptime"; min_chars = 1; handler = uptime }

-- Five hours west of Greenwich.
zone_text_test : zone_text (pos 18000) ≡ codes "--500"
unfolding zone_text
zone_text_test = refl

abbrev root_entry : Entry
root_entry = record {
  is_user_process = true;
  user = codes "root";
  line = codes "tty1";
  host = codes "localhost";
}

lists_root :
    do_users true (record root_entry { is_user_process = false } ∷ root_entry ∷ [])
    ≡ users_start ∷ users (codes "root     tty1      localhost") ∷ end_of_users ∷ []
unfolding do_users
lists_root = refl

dates_a_sunday :
    date_text
      (negsuc 3599)
      (record { day_of_week = 0; month = 10; day = 9; years = 103; hour = 7; minute = 5 })
    ≡ some (codes "Sunday November 9 2003 -- 07:05 +01:00")
unfolding date_text
dates_a_sunday = refl
