-- ===== src/Examples/Lists.antt =====
-- The registry and the counts of users.
use kineircd.Prelude.{◌≢◌, ◌≡◌, refl, true, some, List, [], ◌∷◌, arith, if◌then◌else◌, ◌==◌}
use kineircd.Prelude.Text.{Text, codes, text_eq, text_eq_iff}
use kineircd.Error.{no_error}
use kineircd.Name.{irc_to_lower}
use kineircd.Name.Nickname
use kineircd.Registry.{Entity, find_entity, change_user_nickname}
use kineircd.Registry.EntityMap.{Entities, find, insert, erase}
use kineircd.Registry.Invariant.{Operation, add, remove, rename, step, run}
use kineircd.Registry.Refinement.{view, promise, same, step-promise}
use kineircd.Registry.Rename.{change_user_nickname_taken}
use kineircd.Membership.{User, Network}
use kineircd.Membership.Counts.{IsCounted}
use kineircd.Examples.Instances.{counter, counter-IsCounter}

abbrev fred : Entity
fred = record { address = 17; name = codes "Fred" }

abbrev wilma : Entity
wilma = record { address = 18; name = codes "Wilma" }

abbrev both : Entities
both = (codes "fred", 17) ∷ (codes "wilma", 18) ∷ []

abbrev calls : List Operation
calls = add fred ∷ add wilma ∷ rename fred (codes "Barney") ∷ remove wilma ∷ []

calls_test : run (Nickname.check_validity 9) 9 [] calls ≡ (codes "barney", 17) ∷ []
unfolding kineircd.Registry.add_entity kineircd.Registry.remove_entity change_user_nickname
    Nickname.check_validity find text_eq irc_to_lower insert erase
calls_test = refl

step-promise_example :
    ((step (Nickname.check_validity 9) 9 both (rename fred (codes "barney"))).0
      ≡ (promise (Nickname.check_validity 9) 9 (view both) (rename fred (codes "barney"))).0)
    × (view (step (Nickname.check_validity 9) 9 both (rename fred (codes "barney"))).1
        ≡ (promise (Nickname.check_validity 9) 9 (view both) (rename fred (codes "barney"))).1)
step-promise_example =
    step-promise (Nickname.check_validity 9) 9 both (rename fred (codes "barney"))

fold_fred : irc_to_lower (codes "Fred") ≡ codes "fred"
unfolding irc_to_lower
fold_fred = refl

only_fred : (n : Text) → find_entity both n ≡ some 17 → same (codes "Fred") n ≡ true
unfolding find_entity find
only_fred n e = ground (
  arith,
  text_eq_iff (codes "fred") (irc_to_lower n),
  text_eq_iff (irc_to_lower (codes "Fred")) (irc_to_lower n),
  fold_fred,
)

abbrev fred_user : User
fred_user = record { entity = fred; server = 4 }

abbrev wilma_user : User
wilma_user = record { entity = wilma; server = 4 }

abbrev network : Network counter
network = record {
  users = (codes "fred", 17) ∷ [];
  server_count = λ s. if s == 4 then 1 else 0;
  user_count = 1;
}

network-IsCounted : IsCounted counter counter-IsCounter network
unfolding find
network-IsCounted = record { distinct = (refl, tt); counted = refl }

change_user_nickname_taken_example :
    let (error, users) = change_user_nickname 9 both fred (codes "wilma") in
    (error ≡ no_error)
    × (find_entity users (codes "wilma") ≡ some 18)
    × ((n : Text) → find_entity users n ≢ some 17)
unfolding find_entity find irc_to_lower text_eq Nickname.check_validity
change_user_nickname_taken_example =
    change_user_nickname_taken 9 both fred (codes "wilma") 18 (omega arith) refl refl only_fred refl
