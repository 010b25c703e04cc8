-- ===== src/Examples/Lines.antt =====
-- Lines of the input and blocks of the output.
use kineircd.Prelude.{◌≡◌, refl, false, some, List, [], ◌∷◌, ◌++◌}
use kineircd.Prelude.Text.{Text, codes}
use kineircd.Clbp.Input.{handle_input}
use kineircd.Clbp.Input.Lines.{lines_of, outcome, handle_input-outcome}

-- A protocol that keeps its lines.
abbrev keep : Text → Text → List Text → List Text
keep queue line kept = kept ++ line ∷ []

abbrev data_ : Text
data_ = codes "NICK" ++ 13 ∷ 10 ∷ codes "US"

handle_input_test :
    handle_input keep (codes "a" ++ 13 ∷ 10 ∷ codes "b" ++ 10 ∷ []) (codes "x") []
    ≡ some ([], codes "xa" ∷ codes "b" ∷ [])
unfolding handle_input
handle_input_test = refl

handle_input-outcome_example :
    handle_input keep data_ (codes "x") []
    ≡ some (outcome keep (codes "x") data_ (lines_of false data_) [])
handle_input-outcome_example = handle_input-outcome keep data_ (codes "x") []
