-- ===== src/Irc2User/Commands/Answers.antt =====
-- What parseMessage answers, and the counts of calls.
use kineircd.Prelude.{
  ℕ, ◌≤◌, ◌≡◌, ◌↔◌, refl, Bool, true, false, sym, subst, Bool-cases, inl, inr, List, [], ◌∷◌,
  Option, none, some, arith, if◌then◌else◌, leb, length,
}
use kineircd.Prelude.Text.{Text, text_eq, text_eq_iff}
use kineircd.Irc2User.Commands.{
  Access, anybody, operator, global_operator, CommandInfo, Standing, Commands, called, find_command,
  is_operator, has_access, Outcome, unknown_command, disabled, no_privileges, need_more_params,
  call, respond, parse_message,
}

-- The information on a command.
abbrev pub lookup : Text → Commands → Option CommandInfo
lookup name [] = none
lookup name ((n, info) ∷ list) = if text_eq n name then some info else lookup name list

-- The information after a call of `findCommand`, by the name that it was called with.
abbrev pub counted : Bool → Option CommandInfo → Option CommandInfo
counted b none = none
counted true (some info) = some (called info)
counted false (some info) = some info

abbrev pub IsAllowed : Access → Standing → Type 0
IsAllowed anybody user = Unit
IsAllowed operator user = is_operator user ≡ true
IsAllowed global_operator user = user.is_global_operator ≡ true

-- What a user gets who asks for a command, by what is known of it.
pub data IsAnswer (user : Standing) (n : ℕ) : Option CommandInfo → Outcome → Type 0 where
  is_unknown : IsAnswer user n none unknown_command
  is_disabled : (info : CommandInfo) → info.enabled ≡ false → IsAnswer user n (some info) disabled
  is_refused :
      (info : CommandInfo)
      → info.enabled ≡ true
      → (IsAllowed info.access user → ⊥)
      → IsAnswer user n (some info) no_privileges
  is_short :
      (info : CommandInfo)
      → info.enabled ≡ true
      → IsAllowed info.access user
      → (info.minimum_params ≤ n → ⊥)
      → IsAnswer user n (some info) need_more_params
  is_called :
      (info : CommandInfo)
      → info.enabled ≡ true
      → IsAllowed info.access user
      → info.minimum_params ≤ n
      → IsAnswer user n (some info) (call info.handler info.change_idle_time)

find_command-lookup :
    (name : Text) (list : Commands) → (find_command name list).0 ≡ counted true (lookup name list)
unfolding find_command
find_command-lookup name [] = refl
find_command-lookup name ((n, info) ∷ list) = elim (Bool-cases (text_eq n name)) [
  | inl e ↦ rw e refl
  | inr e ↦ rw e (find_command-lookup name list)
]

counted_false : (o : Option CommandInfo) → counted false o ≡ o
counted_false none = refl
counted_false (some info) = refl

-- Behind the entry that was found nothing changes.
lookup_found :
    (name other : Text) (info : CommandInfo) (list : Commands)
    → lookup other ((name, called info) ∷ list)
      ≡ counted (text_eq name other) (lookup other ((name, info) ∷ list))
lookup_found name other info list = elim (Bool-cases (text_eq name other)) [
  | inl e ↦ rw e refl
  | inr e ↦ rw e (sym (counted_false (lookup other list)))
]

-- In front of it neither.
lookup_missed :
    (name n other : Text) (info : CommandInfo) (list list' : Commands)
    → text_eq n name ≡ false
    → lookup other list' ≡ counted (text_eq name other) (lookup other list)
    → lookup other ((n, info) ∷ list')
      ≡ counted (text_eq name other) (lookup other ((n, info) ∷ list))
lookup_missed name n other info list list' e h = elim (Bool-cases (text_eq n other)) [
  | inl f ↦
      let apart : text_eq name other ≡ false =
        ground (arith, text_eq_iff n other, text_eq_iff name other, text_eq_iff n name) in
      rw (f, apart) refl
  | inr f ↦ rw f h
]

lookup-find_command :
    (name other : Text) (list : Commands)
    → lookup other (find_command name list).1 ≡ counted (text_eq name other) (lookup other list)
unfolding find_command
lookup-find_command name other [] = refl
lookup-find_command name other ((n, info) ∷ list) = elim (Bool-cases (text_eq n name)) [
  | inl e ↦ rw e (
      subst
        (λ k.
          lookup other ((n, called info) ∷ list)
          ≡ counted (text_eq k other) (lookup other ((n, info) ∷ list)))
        ((text_eq_iff n name).0 e) (lookup_found n other info list))
  | inr e ↦ rw e (lookup_missed name n other info list _ e (lookup-find_command name other list))
]

has_access_iff : (a : Access) (user : Standing) → (has_access a user ≡ true) ↔ IsAllowed a user
unfolding has_access
has_access_iff anybody user = (λ e. tt, λ h. refl)
has_access_iff operator user = (λ e. e, λ h. h)
has_access_iff global_operator user = (λ e. e, λ h. h)

respond-IsAnswer :
    (user : Standing) (n : ℕ) (o : Option CommandInfo)
    → IsAnswer user n o (respond user n (counted true o))
unfolding respond
respond-IsAnswer user n none = is_unknown
respond-IsAnswer user n (some info) = elim (Bool-cases info.enabled) [
  | inr e ↦ simp e (is_disabled info e)
  | inl e ↦ elim (Bool-cases (has_access info.access user)) [
    | inr f ↦ simp (e, f) (is_refused info e (λ h. ground (arith, has_access_iff info.access user)))
    | inl f ↦
        let allowed = (has_access_iff info.access user).0 f in
        elim (Bool-cases (leb info.minimum_params n)) [
          | inl g ↦ simp (e, f, g) (is_called info e allowed (ground arith))
          | inr g ↦ simp (e, f, g) (is_short info e allowed (λ h. ground arith))
        ]
  ]
]

-- A command is called exactly when it is known, enabled, allowed for the user and given enough
-- parameters; else the first of these that fails is the answer. The command that was asked for is
-- counted, even if it is not called, and the information on every command is else as before.
pub parse_message-IsAnswer :
    (user : Standing) (command : Text) (parameters : List Text) (list : Commands)
    → let (outcome, list') = parse_message user command parameters list in
      IsAnswer user (length parameters) (lookup command list) outcome
      × ((other : Text) → lookup other list' ≡ counted (text_eq command other) (lookup other list))
unfolding parse_message
parse_message-IsAnswer user command parameters list = (
  rw (find_command-lookup command list)
      (respond-IsAnswer user (length parameters) (lookup command list)),
  λ other. lookup-find_command command other list,
)
