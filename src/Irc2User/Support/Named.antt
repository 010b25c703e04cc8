-- ===== src/Irc2User/Support/Named.antt =====
-- The tags of RPL_ISUPPORT as parameters of a message.
use kineircd.Prelude.{
  ℕ, ◌≡◌, ◌≢◌, refl, Bool, true, false, List, [], ◌∷◌, ◌++◌, Option, none, some, All, arith,
  Bool-cases, inl, inr, subst,
}
use kineircd.Prelude.Text.{Text, codes}
use kineircd.Irc2User.Support.Tags.{
  Facts, Limits, when, pre_init_sections, limit_sections, init_sections, has_command, pre_init_info,
  limit_tags, language_list, init_info,
}
use kineircd.Config.{find_unfriendly, is_unfriendly, unfriendly_text, var_handle_network_name}
use kineircd.Irc2User.Support.Middle.{
  NoSpace, NoSpace-append, AreMiddle, AreMiddle-concat, AreMiddle-when, has_no_space, is_middle,
  are_middle, is_middle-append, are_middle-AreMiddle,
}

-- Tags that are literals, where a condition holds.
literals : (b : Bool) (g : List Text) → are_middle g ≡ true → AreMiddle (when b g)
literals b g h = AreMiddle-when b g (are_middle-AreMiddle g h)

module _ (defined : Text → Bool) where
  pre_init_info-AreMiddle : AreMiddle (pre_init_info defined)
  unfolding pre_init_info are_middle is_middle has_no_space
  pre_init_info-AreMiddle = AreMiddle-concat (pre_init_sections defined) (
    are_middle-AreMiddle _ refl,
    (
      literals _ _ refl,
      (
        literals _ _ refl,
        (
          literals _ _ refl,
          (
            literals _ _ refl,
            (literals _ _ refl, (literals _ _ refl, (literals _ _ refl, (literals _ _ refl, tt)))),
          ),
        ),
      ),
    ),
  )

  module _ (convert : ℕ → Text) (converted : (n : ℕ) → NoSpace (convert n)) where
    numbered :
        (b : Bool) (w : Text) (n : ℕ)
        → is_middle w ≡ true
        → AreMiddle (when b ((w ++ convert n) ∷ []))
    numbered b w n h =
        AreMiddle-when b _
          (unfold AreMiddle in (is_middle-append w (convert n) h (converted n), tt))

    numbered_twice :
        (b : Bool) (w v : Text) (n m : ℕ)
        → is_middle w ≡ true
        → is_middle v ≡ true
        → AreMiddle (when b ((w ++ convert n) ∷ (v ++ convert m) ∷ []))
    numbered_twice b w v n m h k = AreMiddle-when b _ (
        unfold AreMiddle in
        (
          is_middle-append w (convert n) h (converted n),
          (is_middle-append v (convert m) k (converted m), tt),
        ))

    limit_tags-AreMiddle : (l : Limits) → AreMiddle (limit_tags defined convert l)
    unfolding limit_tags is_middle has_no_space
    limit_tags-AreMiddle l = AreMiddle-concat (limit_sections defined convert l) (
      numbered _ (codes "NICKLEN=") _ refl,
      (
        numbered _ (codes "TOPICLEN=") _ refl,
        (
          numbered _ (codes "KICKLEN=") _ refl,
          (
            numbered_twice _ (codes "CHANNELLEN=") (codes "MAXCHANNELS=") _ _ refl refl,
            (
              numbered _ (codes "MAXTARGETS=") _ refl,
              (
                numbered _ (codes "SILENCE=") _ refl,
                (
                  numbered _ (codes "CALLERID=") _ refl,
                  (
                    numbered _ (codes "WATCH=") _ refl,
                    (numbered_twice _ (codes "MAXBANS=") (codes "MODES=") _ _ refl refl, tt),
                  ),
                ),
              ),
            ),
          ),
        ),
      ),
    )

    NoSpace-languages :
        (languages : List (Bool × Text))
        → All (λ (l : Bool × Text). NoSpace l.1) languages
        → NoSpace (language_list defined convert languages)
    unfolding language_list
    NoSpace-languages [] h = tt
    NoSpace-languages ((true, code) ∷ ls) (h, hs) =
        (omega arith, (omega arith, NoSpace-append code _ h (NoSpace-languages ls hs)))
    NoSpace-languages ((false, code) ∷ ls) (h, hs) =
        (omega arith, NoSpace-append code _ h (NoSpace-languages ls hs))

    -- With a network name and language codes without spaces, each tag is a parameter of its own.
    pub init_info-AreMiddle :
        (f : Facts)
        → NoSpace f.network_name
        → All (λ (l : Bool × Text). NoSpace l.1) f.languages
        → AreMiddle (init_info defined convert f)
    unfolding init_info is_middle has_no_space
    init_info-AreMiddle f h k =
        let n = f.limits.users_max_languages in
        AreMiddle-concat (init_sections defined convert f) (
          pre_init_info-AreMiddle,
          (
            limit_tags-AreMiddle f.limits,
            (
              AreMiddle-when f.is_named _ (
                  unfold AreMiddle in
                  (is_middle-append (codes "NETWORK=") f.network_name refl h, tt)),
              (
                AreMiddle-when (has_command defined (codes "LANGUAGE")) _ (
                    unfold AreMiddle in
                    (
                      is_middle-append (codes "LANGUAGE=") _ refl (
                          NoSpace-append (convert n) _ (converted n)
                            (NoSpace-languages f.languages k)),
                      tt,
                    )),
                tt,
              ),
            ),
          ),
        )

not_space : (c : ℕ) → is_unfriendly c ≡ false → c ≢ b' '
unfolding is_unfriendly
not_space c h e = ground arith

friendly_front :
    (c : ℕ) (name : Text)
    → c ≢ 0
    → find_unfriendly (c ∷ name) ≡ none
    → (is_unfriendly c ≡ false) × (find_unfriendly name ≡ none)
unfolding find_unfriendly
friendly_front c name z h = elim (Bool-cases (is_unfriendly c)) [
  | inl e ↦ absurd (ground (arith, e))
  | inr e ↦ (e, ground (arith, e))
]

-- A name in which nothing unfriendly is found.
friendly : (name : Text) → All (λ c. c ≢ 0) name → find_unfriendly name ≡ none → NoSpace name
unfolding find_unfriendly
friendly [] z h = tt
friendly (c ∷ name) (z, zs) h =
    let (plain, rest) = friendly_front c name z h in (not_space c plain, friendly name zs rest)

-- Either name that is set has no space.
pick :
    (found : Option ℕ) (value old : Text) (error_text : ℕ → Text) {error : Option Text}
    {name : Text}
    → (found ≡ none → NoSpace value)
    → NoSpace old
    → ◌≡◌ {A = Option (Option Text × Text)}
        (elim found [ none ↦ some (none, value) | some c ↦ some (some (error_text c), old) ])
        (some (error, name))
    → NoSpace name
pick none value old error_text {name = name} h k e =
    let same : value ≡ name = cc in subst NoSpace same (h refl)
pick (some c) value old error_text {name = name} h k e =
    let same : old ≡ name = cc in subst NoSpace same k

-- The name that the configuration sets has no space, if its value has no NUL and the name before had
-- none.
pub network_name-NoSpace :
    (convert : ℕ → Text) (value : Text) (values : List Text) (old name : Text) (error : Option Text)
    → All (λ c. c ≢ 0) value
    → NoSpace old
    → var_handle_network_name convert (value ∷ values) old ≡ some (error, name)
    → NoSpace name
unfolding var_handle_network_name
network_name-NoSpace convert [] values old name error z h e =
    let same : [] ≡ name = cc in subst NoSpace same tt
network_name-NoSpace convert (c ∷ value) values old name error z h e =
    pick (find_unfriendly (c ∷ value)) (c ∷ value) old (unfriendly_text convert)
      (friendly (c ∷ value) z) h e
