-- ===== src/Irc2/Replies/Whois/Hidden.antt =====
-- The host names that WHOIS tells.
use kineircd.Prelude.{
  if_again, ℕ, ◌≡◌, refl, ap₂, List, [], ◌∷◌, ◌++◌, Option, none, some, if◌then◌else◌, Option-cases,
  inl, inr,
}
use kineircd.Prelude.Text.{Text}
use kineircd.Irc2.Tokens.{Tokens}
use kineircd.Irc2.Tokens.Listed.{listed}
use kineircd.Irc2.Replies.Whois.{
  Client, User, whois_user, whois_hidden, Asker, whois_user_lines, whois_target, whois_targets,
  do_whois,
}

-- The user without the host name, where it is hidden.
unfoldable pub blank : User → User
blank u = record u {
  client = record u.client { hostname = if u.hide_host then [] else u.client.hostname };
}

abbrev pub blank_found : Option User → Option User
blank_found none = none
blank_found (some u) = some (blank u)

module _ (delocalise : Text → Text) (asker : Asker) where
  whois_user_lines-blank :
      (tag_of : Text → Option ℕ) (u : User)
      → whois_user_lines delocalise asker tag_of (blank u)
        ≡ whois_user_lines delocalise asker tag_of u
  unfolding whois_user_lines blank
  whois_user_lines-blank tag_of u =
      let c = u.client in
      rw (
        if_again u.hide_host
          (λ h.
            whois_user (delocalise c.nickname) (delocalise c.username) (delocalise h)
              (delocalise c.description)
            ∷ whois_hidden (delocalise c.nickname) (delocalise u.virtual_hostname)
            ∷ [])
          (whois_user (delocalise c.nickname) (delocalise c.username)
              (delocalise u.virtual_hostname) (delocalise c.description)
            ∷ [])
          [] c.hostname)

  module _ (find_user : Text → Option User) (find_service : Text → Option Client)
      (tag_of : Text → Option ℕ) where
    -- The search of the users, without the host names that are hidden.
    abbrev pub find_blank : Text → Option User
    find_blank name = blank_found (find_user name)

    whois_target-blank :
        (target : Text)
        → whois_target delocalise asker find_blank find_service tag_of target
          ≡ whois_target delocalise asker find_user find_service tag_of target
    unfolding whois_target
    whois_target-blank target = elim (Option-cases (find_user target)) [
      | inl e ↦ rw (whois_target, e)
      | inr (u, e) ↦ rw (whois_target, e) (whois_user_lines-blank tag_of u)
    ]

    whois_targets-blank :
        (ts : List Text)
        → whois_targets delocalise asker find_blank find_service tag_of ts
          ≡ whois_targets delocalise asker find_user find_service tag_of ts
    unfolding whois_targets
    whois_targets-blank [] = refl
    whois_targets-blank (target ∷ ts) =
        ap₂ (λ x y. x ++ y) (whois_target-blank target) (whois_targets-blank ts)

    -- WHOIS tells no host name of a user that is hidden from the asker: its replies are the same
    -- as if the user had none.
    pub do_whois-blank :
        (t : Tokens) (targets : Text)
        → do_whois delocalise asker find_blank find_service tag_of t targets
          ≡ do_whois delocalise asker find_user find_service tag_of t targets
    unfolding do_whois
    do_whois-blank t targets = elim (Option-cases (listed t targets)) [
      | inl e ↦ rw (do_whois, e)
      | inr (ts, e) ↦ rw (do_whois, e, whois_targets-blank ts)
    ]
