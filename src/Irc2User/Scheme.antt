-- ===== src/Irc2User/Scheme.antt =====
-- The functions for Scheme: home/kineircd/src/mod_irc2user/scheme.cpp. A value of Scheme is what
-- the macros of libguile tell of it. The functions ending in Online? are compiled only where
-- schemesubs.def names them.
use kineircd.Prelude.{
  ℕ, ◌≡◌, refl, Bool, true, false, List, [], ◌∷◌, Option, none, some, if◌then◌else◌, arith,
}
use kineircd.Prelude.Text.{Text, text_eq, c_string}
use kineircd.Registry.{find_entity}
use kineircd.Network.{Lists, find_client}

pub data Scm : Type 0 where
  string : Text → Scm
  inum : ℕ → Scm
  bool : Bool → Scm
  undefined object : Scm

-- The answer of the functions ending in Online?, by the search that each makes.
unfoldable pub is_online : (Text → Option ℕ) → Scm → Scm
unfolding c_string
is_online search (string name) = elim (search (c_string name)) [
  | some entity ↦ bool true
  | none ↦ bool false
]
is_online search (inum n) = undefined
is_online search (bool b) = undefined
is_online search undefined = undefined
is_online search object = undefined

unfoldable pub is_channel_online : Lists → Scm → Scm
unfolding is_online
is_channel_online l name = is_online (find_entity l.channels) name

unfoldable pub is_client_online : Lists → Scm → Scm
unfolding is_online find_client
is_client_online l name = is_online (find_client l) name

unfoldable pub is_network_online : Lists → Scm → Scm
unfolding is_online
is_network_online l name = is_online (find_entity l.networks) name

unfoldable pub is_server_online : Lists → Scm → Scm
unfolding is_online
is_server_online l name = is_online (find_entity l.servers) name

unfoldable pub is_service_online : Lists → Scm → Scm
unfolding is_online
is_service_online l name = is_online (find_entity l.services) name

unfoldable pub is_user_online : Lists → Scm → Scm
unfolding is_online
is_user_online l name = is_online (find_entity l.users) name

-- The search in numericNames, which the build makes.
unfoldable pub find_numeric : Text → List (Text × ℕ) → Scm
find_numeric name [] = undefined
find_numeric name ((numeric_name, numeric) ∷ rest) =
    let later = find_numeric name rest in if text_eq name numeric_name then inum numeric else later

-- toUpper is aisutil's.
unfoldable pub string_to_numeric : (Text → Text) → List (Text × ℕ) → Scm → Scm
unfolding find_numeric c_string
string_to_numeric to_upper numeric_names (string numeric) =
    find_numeric (to_upper (c_string numeric)) numeric_names
string_to_numeric to_upper numeric_names (inum n) = inum n
string_to_numeric to_upper numeric_names (bool b) = undefined
string_to_numeric to_upper numeric_names undefined = undefined
string_to_numeric to_upper numeric_names object = undefined

-- `or` of Scheme: only #f is false.
abbrev pub scheme_or : Scm → Scm → Scm
scheme_or (bool false) y = y
scheme_or (bool true) y = bool true
scheme_or (string s) y = string s
scheme_or (inum n) y = inum n
scheme_or undefined y = undefined
scheme_or object y = object

is_online_or :
    (l : Lists) (name : Text)
    → is_online (find_client l) (string name)
      ≡ scheme_or
          (is_online (find_entity l.users) (string name))
          (is_online (find_entity l.services) (string name))
unfolding is_online find_client
is_online_or l name = ground arith

-- isClientOnline? is what the comment above it says, `or` of isUserOnline? and isServiceOnline?,
-- for every value it is given.
pub is_client_online-or :
    (l : Lists) (name : Scm)
    → is_client_online l name ≡ scheme_or (is_user_online l name) (is_service_online l name)
unfolding is_client_online is_user_online is_service_online is_online
is_client_online-or l (string name) = is_online_or l name
is_client_online-or l (inum n) = refl
is_client_online-or l (bool b) = refl
is_client_online-or l undefined = refl
is_client_online-or l object = refl

find_numeric_twice :
    (to_upper : Text → Text) (table names : List (Text × ℕ)) (name : Text)
    → string_to_numeric to_upper table (find_numeric name names) ≡ find_numeric name names
unfolding string_to_numeric find_numeric
find_numeric_twice to_upper table [] name = refl
find_numeric_twice to_upper table ((n, k) ∷ names) name =
    ground (arith, find_numeric_twice to_upper table names name)

-- A numeric that was looked up is not changed by another look.
pub string_to_numeric_twice :
    (to_upper : Text → Text) (table : List (Text × ℕ)) (x : Scm)
    → string_to_numeric to_upper table (string_to_numeric to_upper table x)
      ≡ string_to_numeric to_upper table x
unfolding string_to_numeric
string_to_numeric_twice to_upper table (string s) =
    find_numeric_twice to_upper table table (to_upper (c_string s))
string_to_numeric_twice to_upper table (inum n) = refl
string_to_numeric_twice to_upper table (bool b) = refl
string_to_numeric_twice to_upper table undefined = refl
string_to_numeric_twice to_upper table object = refl
