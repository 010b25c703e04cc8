-- ===== src/Examples/Languages.antt =====
-- Language data.
use kineircd.Prelude.{◌≡◌, refl, true, Bool, List, [], ◌∷◌, ◌++◌, Option, none, some, arith}
use kineircd.Prelude.Text.{Text, codes, find_first_of}
use kineircd.Prelude.Int.{pos}
use kineircd.Language.{LanguageData, Surroundings, process, get_each}
use kineircd.Language.Template.{
  Piece, letter, parameter_number, server, network, encode, meanings, process-encode,
}
use kineircd.Language.Segments.{segments, get_each-offer}

abbrev pub surroundings : Surroundings
surroundings = record {
  administrator_name = codes "admin";
  administrator_contact = codes "admin@irc";
  administrator_location = codes "here";
  server_description = codes "a server";
  server_name = codes "irc";
  network_name = none;
}

abbrev english : LanguageData
english = record {
  tag_count = 2;
  tag_data = some (codes "yes") ∷ none ∷ some (codes "no" ++ 0x85 ∷ codes "never") ∷ [];
  file_revision = pos 1;
}

abbrev dialect : LanguageData
dialect = record {
  tag_count = 2;
  tag_data = some (codes "aye") ∷ some (codes "perhaps") ∷ [];
  file_revision = pos 2;
}

abbrev pieces : List Piece
pieces =
    letter b'<' ∷ parameter_number 1 ∷ letter b'@' ∷ server ∷ network ∷ parameter_number 12 ∷ []

abbrev names : Option (List Text)
names = some (codes "fred" ∷ codes "wilma" ∷ [])

process_test :
    process surroundings names (encode pieces) ≡ codes "<wilma@irc" ++ 0xfffc ∷ 0xfffd ∷ []
unfolding process
process_test = refl

process-encode_example :
    process surroundings names (encode pieces) ≡ meanings surroundings names pieces
process-encode_example = process-encode surroundings names pieces (ground arith)

-- A caller that keeps what it is given.
abbrev keep : Text → List Text → Bool × List Text
keep t kept = (true, kept ++ t ∷ [])

get_each-offer_example :
    get_each surroundings none keep 3 english [] ≡ some (true, codes "no" ∷ codes "never" ∷ [])
unfolding segments process find_first_of
get_each-offer_example =
    get_each-offer surroundings none keep 2 english (codes "no" ++ 0x85 ∷ codes "never") [] refl
