-- ===== src/Examples/Who.antt =====
-- WHO, USERHOST and WHOIS.
use kineircd.Prelude.{
  ℕ, ◌≡◌, refl, true, false, List, [], ◌∷◌, ◌++◌, Option, none, some, if◌then◌else◌, length, take,
  leb,
}
use kineircd.Prelude.Text.{Text, codes, text_eq}
use kineircd.Irc2User.Who.{Person, end_of_who, too_many_matches, who_reply, request, handle_who}
use kineircd.Irc2User.Who.Shown.{discreet, lines, handle_who-lines, handle_who-discreet}
use kineircd.Irc2.Replies.Whois.{Client, User, Asker, do_whois}
use kineircd.Irc2.Replies.Whois.Hidden.{blank_found, do_whois-blank}
use kineircd.Examples.Instances.{split_tokens}

abbrev convert : ℕ → Text
convert n = b'0' ∷ []

abbrev pub fred : Person
fred = record {
  nickname = codes "fred";
  username = codes "ff";
  hostname = codes "quarry.example";
  virtual_hostname = codes "hidden.example";
  description = codes "Fred";
  hide_host = true;
  hidden = false;
  is_operator = true;
  is_away = false;
  selective_hearing = false;
  hop_count = 0;
  idle_time = some 7;
}

abbrev barney : Person
barney = record fred { nickname = codes "barney"; hidden = true }

abbrev people : List Person
people = barney ∷ fred ∷ []

abbrev operators_only : List Text
operators_only = codes "0" ∷ codes "o" ∷ []

handle_who_test :
    handle_who text_eq convert false people operators_only
    ≡ who_reply (codes "ff") (codes "hidden.example") (codes "fred") (codes "H*") (codes "0 Fred")
      ∷ end_of_who (codes "0")
      ∷ []
unfolding handle_who text_eq
handle_who_test = refl

handle_who-lines_example :
    let (mask, o) = request operators_only in
    let found = lines text_eq convert o mask people in
    handle_who text_eq convert false people operators_only
    ≡ take 100 found
      ++ end_of_who mask ∷ (if leb 100 (length found) then too_many_matches mask ∷ [] else [])
handle_who-lines_example = handle_who-lines text_eq convert false people operators_only

handle_who-discreet_example :
    handle_who text_eq convert false (discreet people) operators_only
    ≡ handle_who text_eq convert false people operators_only
handle_who-discreet_example = handle_who-discreet text_eq convert false people operators_only

abbrev client : Client
client = record {
  nickname = codes "fred";
  username = codes "ff";
  hostname = codes "quarry.example";
  description = codes "Fred";
  server_name = codes "irc.example";
  server_description = codes "A server";
  server_hidden = false;
}

abbrev found_user : User
found_user = record {
  client = client;
  virtual_hostname = codes "hidden.example";
  hide_host = true;
  languages = some (codes "en") ∷ none ∷ [];
  away_message = codes "lunch";
  away_seconds = 60;
  is_global_operator = false;
  is_local_operator = true;
  is_staff = false;
  staff_status = [];
  local_times = some (7, 900);
}

abbrev asker : Asker
asker = record { is_staff = false; is_operator = false }

abbrev find_user : Text → Option User
find_user name = if text_eq name (codes "fred") then some found_user else none

do_whois-blank_example :
    do_whois
      (λ t. t)
      asker
      (λ n. blank_found (find_user n))
      (λ n. none)
      (λ s. none)
      split_tokens
      (codes "fred,dino")
    ≡ do_whois (λ t. t) asker find_user (λ n. none) (λ s. none) split_tokens (codes "fred,dino")
do_whois-blank_example =
    do_whois-blank (λ t. t) asker find_user (λ n. none) (λ s. none) split_tokens (codes "fred,dino")
