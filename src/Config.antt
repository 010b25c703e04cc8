-- ===== src/Config.antt =====
-- The variable handler of the network's name: home/kineircd/src/lib/config/handlers.cpp.
use kineircd.Prelude.{
  ℕ, Bool, ◌||◌, ◌&&◌, List, [], ◌∷◌, ◌++◌, Option, none, some, if◌then◌else◌, leb, ◌==◌, is_empty,
}
use kineircd.Prelude.Text.{Text, codes}

-- isspace, iscntrl and isprint in the "C" locale.
unfoldable pub is_space : ℕ → Bool
is_space c = c == b' ' || leb 9 c && leb c 13

unfoldable pub is_cntrl : ℕ → Bool
is_cntrl c = leb c 31 || c == 127

unfoldable pub is_print : ℕ → Bool
is_print c = leb 32 c && leb c 126

unfoldable pub is_unfriendly : ℕ → Bool
unfolding is_space is_cntrl
is_unfriendly c = c == b',' || c == b'=' || is_space c || is_cntrl c

-- The first character that is not friendly; the name is a C string here.
unfoldable pub find_unfriendly : Text → Option ℕ
unfolding is_unfriendly
find_unfriendly [] = none
find_unfriendly (c ∷ name) =
    let rest = find_unfriendly name in
    if c == 0 then none else if is_unfriendly c then some c else rest

module _ (convert : ℕ → Text) where
  unfoldable pub unfriendly_text : ℕ → Text
  unfolding is_print
  unfriendly_text c =
      if is_print c
      then codes "Unfriendly character found ('" ++ (c ∷ codes "')")
      else codes "Unfriendly character found (#" ++ (convert c ++ codes ")")

  -- The error string where there is an error, and the name. There is no result without a value.
  unfoldable pub var_handle_network_name : List Text → Text → Option (Option Text × Text)
  unfolding find_unfriendly unfriendly_text
  var_handle_network_name [] name = none
  var_handle_network_name (value ∷ values) name =
      if is_empty value then some (none, []) else elim (find_unfriendly value) [
        | none ↦ some (none, value)
        | some c ↦ some (some (unfriendly_text c), name)
      ]
