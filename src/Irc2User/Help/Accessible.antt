-- ===== src/Irc2User/Help/Accessible.antt =====
-- Whom HELP tells of a command.
use kineircd.Prelude.{
  ℕ, ◌≡◌, refl, Bool, List, [], ◌∷◌, Option, if◌then◌else◌, Bool-cases, inl, inr,
}
use kineircd.Prelude.Text.{Text}
use kineircd.Irc2User.Commands.{Commands, Standing, has_access}
use kineircd.Irc2User.Help.{help_request, visit, handle_help}

-- The commands that the user has access to.
abbrev pub accessible : Standing → Commands → Commands
accessible user [] = []
accessible user ((name, info) ∷ list) =
    let rest = accessible user list in
    if has_access info.access user then (name, info) ∷ rest else rest

module _ (matches : Text → Text → Bool) (help_usage help_info : Text → Option ℕ) where
  visit-accessible :
      (user : Standing) (extended : Bool) (mask : Text) (list : Commands)
      → visit matches help_usage help_info user extended mask (accessible user list)
        ≡ visit matches help_usage help_info user extended mask list
  unfolding visit
  visit-accessible user extended mask [] = refl
  visit-accessible user extended mask ((name, info) ∷ list) =
      elim (Bool-cases (has_access info.access user)) [
        | inl e ↦ simp (visit, e, visit-accessible user extended mask list)
        | inr e ↦ elim (Bool-cases (matches mask name)) [
          | inl m ↦ simp (visit, e, m, visit-accessible user extended mask list)
          | inr m ↦ simp (visit, e, m, visit-accessible user extended mask list)
        ]
      ]

  -- HELP says the same as if the commands that the user has no access to did not exist.
  pub handle_help-accessible :
      (user : Standing) (list : Commands) (ps : List Text)
      → handle_help matches help_usage help_info user (accessible user list) ps
        ≡ handle_help matches help_usage help_info user list ps
  unfolding handle_help
  handle_help-accessible user list ps =
      let (mask, extended) = help_request ps in rw (visit-accessible user extended mask list)
