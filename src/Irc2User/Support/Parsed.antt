-- ===== src/Irc2User/Support/Parsed.antt =====
-- RPL_ISUPPORT as the other side reads it.
use kineircd.Prelude.{
  ℕ, ◌≡◌, ◌≢◌, ◌∙◌, refl, sym, ap, Bool, List, [], ◌∷◌, ◌++◌, Option, some, All, arith,
  append_assoc, subst,
}
use kineircd.Prelude.Text.{Text}
use kineircd.Config.{var_handle_network_name}
use kineircd.Irc2.Tokens.{Tokens, AreTokens}
use kineircd.Irc2.Input.{parse, message}
use kineircd.Irc2.Input.RoundTrip.{IsMiddle, IsTrailing}
use kineircd.Irc2.Input.Numeric.{parse-format_numeric}
use kineircd.Irc2.Output.{join, format_numeric, three_places}
use kineircd.Irc2User.Spaced.{spaced, concat}
use kineircd.Irc2User.Support.Chunks.{AreChunks}
use kineircd.Irc2User.Support.Tags.{Facts, init_info}
use kineircd.Irc2User.Support.Middle.{NoSpace, AreMiddle}
use kineircd.Irc2User.Support.Named.{init_info-AreMiddle, network_name-NoSpace}

-- Words with spaces between them are formatted as the parameters that they are.
join-spaced :
    (w : Text) (g : List Text) (last : Text)
    → join (spaced (w ∷ g) ∷ last ∷ []) ≡ join ((w ∷ g) ++ last ∷ [])
unfolding join
join-spaced w [] last = refl
join-spaced w (v ∷ g) last =
    ap (λ s. b' ' ∷ s)
      (append_assoc w (b' ' ∷ spaced (v ∷ g)) (join (last ∷ []))
        ∙ ap (λ s. w ++ s) (join-spaced v g last))

All-split : (P : Text → Type 0) (g h : List Text) → All P (g ++ h) → All P g × All P h
All-split P [] h a = (tt, a)
All-split P (w ∷ g) h (a, as') = let (b, c) = All-split P g h as' in ((a, b), c)

All-groups : (P : Text → Type 0) (gs : List (List Text)) → All P (concat gs) → All (λ g. All P g) gs
All-groups P [] a = tt
All-groups P (g ∷ gs) a = let (b, c) = All-split P g (concat gs) a in (b, All-groups P gs c)

All-imp :
    (P Q : List Text → Type 0) (gs : List (List Text))
    → ((g : List Text) → P g → Q g)
    → All P gs
    → All Q gs
All-imp P Q [] f a = tt
All-imp P Q (g ∷ gs) f (a, as') = (f g a, All-imp P Q gs f as')

module _ (t : Tokens) (l : AreTokens t) (server nickname suffix : Text) where
  -- A reply with the group of tags is read with each tag as a parameter.
  pub IsRead : List Text → Type 0
  IsRead g =
      g ≢ []
      → parse t (format_numeric server nickname 5 (spaced g ∷ suffix ∷ []))
        ≡ message server (three_places 5) (nickname ∷ g ++ suffix ∷ [])

  module _ (u : t.to_upper (three_places 5) ≡ three_places 5) (o : NoSpace server)
      (m : IsMiddle nickname) (v : IsTrailing suffix) where
    spaced_numeric :
        (w : Text) (g : List Text)
        → format_numeric server nickname 5 (spaced (w ∷ g) ∷ suffix ∷ [])
          ≡ format_numeric server nickname 5 ((w ∷ g) ++ suffix ∷ [])
    unfolding format_numeric
    spaced_numeric w g =
        ap (λ j. b':' ∷ (server ++ b' ' ∷ (three_places 5 ++ b' ' ∷ (nickname ++ j))))
          (join-spaced w g suffix)

    group-IsRead : (g : List Text) → All IsMiddle g → IsRead g
    unfolding IsRead
    group-IsRead [] a h = absurd (h refl)
    group-IsRead (w ∷ g) a h =
        ap (parse t) (spaced_numeric w g)
        ∙ parse-format_numeric t l server nickname 5 (w ∷ g) suffix (omega arith) u o m a v

    -- With a network name that the configuration has set from a value without NUL, and language codes
    -- without spaces: however the tags of RPL_ISUPPORT are grouped in order, the reply with a group of
    -- tags is read by parseLine with the tags as single parameters, behind the nickname and in front
    -- of the suffix.
    pub isupport-AreRead :
        (defined : Text → Bool) (convert : ℕ → Text) (value : Text) (values : List Text)
        (old : Text) (error : Option Text) (f : Facts) (limit : ℕ) (outputs : List Text)
        → ((n : ℕ) → NoSpace (convert n))
        → All (λ c. c ≢ 0) value
        → NoSpace old
        → var_handle_network_name convert (value ∷ values) old ≡ some (error, f.network_name)
        → All (λ (code : Bool × Text). NoSpace code.1) f.languages
        → (c : AreChunks limit (init_info defined convert f) outputs) → All IsRead c.groups
    isupport-AreRead defined convert value values old error f limit outputs converted z k e codes
          c =
        let tags =
          init_info-AreMiddle defined convert converted f
            (network_name-NoSpace convert value values old f.network_name error z k e) codes in
        All-imp (All IsMiddle) IsRead c.groups group-IsRead (
          All-groups IsMiddle c.groups
            (subst (All IsMiddle) (sym c.complete) (unfold AreMiddle in tags)))
