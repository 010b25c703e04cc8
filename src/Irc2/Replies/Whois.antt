-- ===== src/Irc2/Replies/Whois.antt =====
-- WHOIS: Protocol::doWHOIS, home/kineircd/src/lib_irc2/common.cpp.
pub mod Hidden
use kineircd.Prelude.{
  ℕ, Bool, true, false, ◌&&◌, ◌||◌, not, List, [], ◌∷◌, ◌++◌, Option, none, some, if◌then◌else◌,
  is_empty,
}
use kineircd.Prelude.Text.{Text}
use kineircd.Irc2.Tokens.{Tokens}
use kineircd.Irc2.Tokens.Listed.{listed}

-- A client, with what is known of its server.
pub record Client : Type 0 where
  pub nickname : Text
  pub username : Text
  pub hostname : Text
  pub description : Text
  pub server_name : Text
  pub server_description : Text
  pub server_hidden : Bool

-- A user; hideHostFrom and the server's isHiddenFrom are for the asker. The languages are their
-- codes, where they are not null; the local user's times are the idle time and the signon time.
pub record User : Type 0 where
  pub client : Client
  pub virtual_hostname : Text
  pub hide_host : Bool
  pub languages : List (Option Text)
  pub away_message : Text
  pub away_seconds : ℕ
  pub is_global_operator : Bool
  pub is_local_operator : Bool
  pub is_staff : Bool
  pub staff_status : Text
  pub local_times : Option (ℕ × ℕ)

pub record Asker : Type 0 where
  pub is_staff : Bool
  pub is_operator : Bool

-- The numerics, each with the nickname; the operator's tells whether it is a local one, and the
-- staff member's has the tag of the text, where there is one.
pub data Reply : Type 0 where
  whois_user : Text → Text → Text → Text → Reply
  whois_hidden : Text → Text → Reply
  whois_server : Text → Text → Text → Reply
  whois_language : Text → Text → Reply
  away : Text → ℕ → Text → Reply
  whois_operator : Text → Bool → Reply
  whois_staff : Text → Option ℕ → Reply
  whois_idle : Text → ℕ → ℕ → Reply
  no_such_nick : Text → Reply
  end_of_whois : Text → Reply

abbrev when : Bool → Reply → List Reply
when b reply = if b then reply ∷ [] else []

-- The codes of the languages that are not null, behind those that are there.
unfoldable pub language_codes : List (Option Text) → Text → Text
language_codes [] langs = langs
language_codes (none ∷ ls) langs = language_codes ls langs
language_codes (some code ∷ ls) langs =
    language_codes ls (if is_empty langs then code else langs ++ b',' ∷ code)

module _ (delocalise : Text → Text) (asker : Asker) where
  abbrev server_reply : Client → Reply
  server_reply c =
      whois_server (delocalise c.nickname) (delocalise c.server_name)
        (delocalise c.server_description)

  abbrev user_reply : Client → Text → Reply
  user_reply c host =
      whois_user (delocalise c.nickname) (delocalise c.username) host (delocalise c.description)

  -- A service: its host is a star where it is hidden.
  unfoldable pub whois_service : Client → List Reply
  whois_service c =
      user_reply c
        (if asker.is_staff || asker.is_operator then b'*' ∷ [] else delocalise c.hostname)
      ∷ when asker.is_staff (server_reply c)

  -- `tag_of` is the tag of the text for a staff status, where there is one.
  unfoldable pub user_details : (Text → Option ℕ) → User → List Reply
  unfolding language_codes
  user_details tag_of u =
      let nickname = delocalise u.client.nickname in
      when (not (is_empty u.languages)) (whois_language nickname (language_codes u.languages []))
      ++ when (not (is_empty u.away_message))
          (away nickname u.away_seconds (delocalise u.away_message))
      ++ (if u.is_global_operator
          then whois_operator nickname false ∷ []
          else when u.is_local_operator (whois_operator nickname true))
      ++ when u.is_staff (whois_staff nickname (tag_of u.staff_status))
      ++ (elim u.local_times [
        | none ↦ []
        | some (idle, signon) ↦ whois_idle nickname idle signon ∷ []
      ])

  -- A user: the virtual host where the other is hidden, and both where it is not.
  unfoldable pub whois_user_lines : (Text → Option ℕ) → User → List Reply
  unfolding user_details
  whois_user_lines tag_of u =
      let c = u.client in
      (if u.hide_host
        then user_reply c (delocalise u.virtual_hostname) ∷ []
        else user_reply c (delocalise c.hostname)
          ∷ whois_hidden (delocalise c.nickname) (delocalise u.virtual_hostname)
          ∷ [])
      ++ when (not c.server_hidden || asker.is_staff) (server_reply c)
      ++ user_details tag_of u

  -- The searches of MyNetwork, for a name that is localised.
  module _ (find_user : Text → Option User) (find_service : Text → Option Client)
      (tag_of : Text → Option ℕ) where
    unfoldable pub whois_target : Text → List Reply
    unfolding whois_service whois_user_lines
    whois_target target = elim (find_user target) [
      | some u ↦ whois_user_lines tag_of u
      | none ↦ elim (find_service target) [
        | some c ↦ whois_service c
        | none ↦ no_such_nick target ∷ []
      ]
    ]

    unfoldable pub whois_targets : List Text → List Reply
    unfolding whois_target
    whois_targets [] = []
    whois_targets (target ∷ ts) = whois_target target ++ whois_targets ts

    unfoldable pub do_whois : Tokens → Text → Option (List Reply)
    unfolding whois_targets listed
    do_whois t targets = elim (listed t targets) [
      | none ↦ none
      | some ts ↦ some (whois_targets ts ++ end_of_whois targets ∷ [])
    ]
