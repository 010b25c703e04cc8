-- ===== src/Irc2User/Presence/Ison.antt =====
-- The nicknames that ISON finds.
use kineircd.Prelude.{
  ℕ, ◌≡◌, ◌≢◌, ap, sym, ◌∙◌, List, [], ◌∷◌, ◌++◌, none, some, All, append_assoc, append-nil,
  Option-cases, inl, inr,
}
use kineircd.Prelude.Text.{Text}
use kineircd.Network.{Lists, find_client}
use kineircd.Irc2User.Presence.{ison_from, handle_ison}
use kineircd.Irc2User.Spaced.{spaced, added-spaced, nonempty-snoc}

module _ (lists : Lists) (localise : Text → Text) (nickname_of : ℕ → Text) where
  -- The specification: the nicknames of the clients that are found, in order.
  abbrev pub found : List Text → List Text
  found [] = []
  found (p ∷ ps) = elim (find_client lists (localise p)) [
    | none ↦ found ps
    | some client ↦ nickname_of client ∷ found ps
  ]

  module _ (named : (client : ℕ) → nickname_of client ≢ []) where
    ison_from-found :
        (g ps : List Text)
        → All (λ w. w ≢ []) g
        → ison_from lists localise nickname_of (spaced g) ps ≡ spaced (g ++ found ps)
    unfolding ison_from
    ison_from-found g [] h = ap spaced (sym (append-nil g))
    ison_from-found g (p ∷ ps) h = elim (Option-cases (find_client lists (localise p))) [
      | inl e ↦ rw (e, ison_from, found) (ison_from-found g ps h)
      | inr (client, e) ↦
          let tag = nickname_of client in
          rw (e, ison_from, found, added-spaced g tag h)
            (ison_from-found (g ++ tag ∷ []) ps (nonempty-snoc g tag h (named client))
              ∙ ap spaced (append_assoc g (tag ∷ []) (found ps)))
    ]

    -- Provided that no client has an empty nickname, ISON replies the nicknames of the clients
    -- that are found, in the order that was asked, with a space between each two.
    pub handle_ison-spaced :
        (ps : List Text) → handle_ison lists localise nickname_of ps ≡ spaced (found ps)
    unfolding handle_ison
    handle_ison-spaced ps = ison_from-found [] ps tt
