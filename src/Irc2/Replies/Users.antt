-- ===== src/Irc2/Replies/Users.antt =====
-- USERS where the machine has a user accounting database: Protocol::doUSERS,
-- home/kineircd/src/lib_irc2/common.cpp. The entries of the database are a parameter; the names of an
-- entry are without NUL.
use kineircd.Prelude.{
  ℕ, ◌-◌, ◌≡◌, refl, ap, Bool, true, false, ◌||◌, not, List, [], ◌∷◌, ◌++◌, map, if◌then◌else◌,
  is_empty, length, Bool-cases, inl, inr, arith,
}
use kineircd.Prelude.Text.{Text}
use kineircd.Prelude.Decimal.{fill}

pub record Entry : Type 0 where
  pub is_user_process : Bool
  pub user : Text
  pub line : Text
  pub host : Text

pub data Reply : Type 0 where
  users_disabled users_start : Reply
  users : Text → Reply
  no_users end_of_users : Reply

-- setw with setiosflags(left): behind a short text there are spaces.
unfoldable pub left_field : ℕ → Text → Text
unfolding fill
left_field width t = t ++ fill b' ' (width - length t)

unfoldable pub entry_text : Entry → Text
unfolding left_field
entry_text e = left_field 8 e.user ++ (b' ' ∷ (left_field 9 e.line ++ (b' ' ∷ e.host)))

-- The loop, with haveUsers; the replies of the loop, and what it leaves in haveUsers.
unfoldable pub list_users : Bool → List Entry → List Reply × Bool
unfolding entry_text
list_users have_users [] = ([], have_users)
list_users have_users (e ∷ es) =
    let (replies, have) = list_users (if e.is_user_process then true else have_users) es in
    (if e.is_user_process then users (entry_text e) ∷ replies else replies, have)

unfoldable pub do_users : Bool → List Entry → List Reply
unfolding list_users
do_users enabled entries =
    let (replies, have_users) = list_users false entries in
    if enabled
    then users_start ∷ replies ++ (if have_users then [] else no_users ∷ []) ++ end_of_users ∷ []
    else users_disabled ∷ []

-- The specification: the entries of users who are logged in.
abbrev pub logged_in : List Entry → List Entry
logged_in [] = []
logged_in (e ∷ es) = if e.is_user_process then e ∷ logged_in es else logged_in es

list_users-logged_in :
    (have_users : Bool) (es : List Entry)
    → ((list_users have_users es).0 ≡ map (λ e. users (entry_text e)) (logged_in es))
      × ((list_users have_users es).1 ≡ (have_users || not (is_empty (logged_in es))))
unfolding list_users
list_users-logged_in have_users [] = (refl, ground arith)
list_users-logged_in have_users (e ∷ es) = elim (Bool-cases e.is_user_process) [
  | inl p ↦
      let (lines, have) = list_users-logged_in true es in
      rw p (ap (◌∷◌ (users (entry_text e))) lines, ground (arith, have))
  | inr p ↦ let (lines, have) = list_users-logged_in have_users es in rw p (lines, have)
]

-- Where the command is enabled, the users who are logged in are listed in order, and that there is
-- nobody is said exactly where there is none.
pub do_users-logged_in :
    (es : List Entry)
    → do_users true es
      ≡ users_start ∷ map (λ e. users (entry_text e)) (logged_in es)
        ++ (if is_empty (logged_in es) then no_users ∷ [] else [])
        ++ end_of_users ∷ []
unfolding do_users
do_users-logged_in es =
    let (lines, have) = list_users-logged_in false es in
    elim (Bool-cases (is_empty (logged_in es))) [
      | inl e ↦ rw (do_users, lines, have, e) refl
      | inr e ↦ rw (do_users, lines, have, e) refl
    ]
