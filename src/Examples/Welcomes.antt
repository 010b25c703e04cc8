-- ===== src/Examples/Welcomes.antt =====
-- Connections that become those of users.
use kineircd.Prelude.{ℕ, ◌≡◌, refl, true, false, [], ◌∷◌, none, some, length}
use kineircd.Prelude.Text.{Text, codes}
use kineircd.Error.{no_error}
use kineircd.Registry.{find_entity}
use kineircd.Membership.{User, Network, quit}
use kineircd.Irc2User.Welcome.{Greeting, charsets, construct}
use kineircd.Irc2User.Welcome.Refused.{construct_taken}
use kineircd.Examples.Instances.{counter}

abbrev greeting : Greeting
greeting = record {
  nickname = codes "Fred";
  username = codes "ff";
  hostname = codes "quarry.example";
  server_name = codes "irc.example";
  version = codes "kineircd";
  build_time = codes "today";
}

abbrev second_fred : User
second_fred = record { entity = record { address = 40; name = codes "Fred" }; server = 1 }

abbrev network : Network counter
network = record { users = (codes "fred", 17) ∷ []; server_count = λ s. 1; user_count = 1 }

construct_taken_example :
    ((construct counter 9 1 no_error (λ t. t) greeting second_fred network).0 ≡ charsets)
    × ((quit counter second_fred
          (construct counter 9 1 no_error (λ t. t) greeting second_fred network).1).0
        ≡ no_error)
    × (find_entity
          (quit counter second_fred
            (construct counter 9 1 no_error (λ t. t) greeting second_fred network).1).1.users
          (codes "Fred")
        ≡ none)
unfolding find_entity kineircd.Registry.EntityMap.find kineircd.Prelude.Text.text_eq
    kineircd.Name.irc_to_lower kineircd.Name.Nickname.check_validity
construct_taken_example =
    construct_taken counter 9 1 no_error (λ t. t) greeting second_fred network 17 refl refl refl

greets_a_user :
    length
      (construct counter 9 1 no_error
        (λ t. t)
        greeting
        second_fred
        (record network { users = [] })).0
    ≡ 11
unfolding construct kineircd.Registry.add_entity kineircd.Name.Nickname.check_validity
    kineircd.Registry.EntityMap.find
greets_a_user = refl
