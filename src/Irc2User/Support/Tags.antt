-- ===== src/Irc2User/Support/Tags.antt =====
-- The tags of RPL_ISUPPORT: ISupport::initInfo, home/kineircd/src/mod_irc2user/isupport.cpp. The
-- macros that are defined, and the conversion of numbers to text, are arguments.
use kineircd.Prelude.{ℕ, Bool, ◌||◌, List, [], ◌∷◌, ◌++◌, if◌then◌else◌}
use kineircd.Prelude.Text.{Text, codes}
use kineircd.Irc2User.Spaced.{concat}

-- The limits of the configuration.
pub record Limits : Type 0 where
  pub users_max_nick_name_length : ℕ
  pub channels_max_topic_length : ℕ
  pub max_kick_reason_length : ℕ
  pub channels_max_name_length : ℕ
  pub users_max_channels : ℕ
  pub max_targets : ℕ
  pub users_max_silences : ℕ
  pub users_max_accepts : ℕ
  pub users_max_watches : ℕ
  pub channels_max_bans : ℕ
  pub users_max_languages : ℕ

-- The network's name, if it is named, and the languages: whether one is the default, and its code.
pub record Facts : Type 0 where
  pub limits : Limits
  pub is_named : Bool
  pub network_name : Text
  pub languages : List (Bool × Text)

-- The tags that stand where a condition of the preprocessor holds.
unfoldable pub when : Bool → List Text → List Text
when b tags = if b then tags else []

module _ (defined : Text → Bool) where
  -- A command is compiled in.
  unfoldable pub has_command : Text → Bool
  has_command name = defined (codes "KINE_MOD_IRC2USER_HAVE_CMD_" ++ name)

  -- The test for PRIVMSG and NOTICE, with the macros as the source spells them.
  unfoldable pub has_messages : Bool
  has_messages =
      defined (codes "HAVE_MOD_IRC2USER_HAVE_CMD_PRIVMSG")
      || defined (codes "HAVE_MOD_IRC2USER_HAVE_CMD_NOTICE")

  unfoldable pub pre_init_sections : List (List Text)
  pre_init_sections =
      (codes "STD=i-d"
        ∷ codes "FNC"
        ∷ codes "INVEX"
        ∷ codes "EXCEPTS"
        ∷ codes "PENALTY"
        ∷ codes "RFC2812"
        ∷ codes "IIRC"
        ∷ codes "CHARSET=UTF-8"
        ∷ codes "CASEMAPPING=rfc1459"
        ∷ codes "PREFIX=(!uohv)!.@%+"
        ∷ [])
      ∷ when has_messages (codes "STATUSMSG=+%@" ∷ [])
      ∷ when (has_command (codes "MODE")) (codes "CHANMODES=beIR,k,l,imnpsta" ∷ [])
      ∷ when (has_command (codes "WALLCHOPS")) (codes "WALLCHOPS" ∷ [])
      ∷ when (has_command (codes "USERIP")) (codes "USERIP" ∷ [])
      ∷ when (has_command (codes "CPRIVMSG")) (codes "CPRIVMSG" ∷ [])
      ∷ when (has_command (codes "CNOTICE")) (codes "CNOTICE" ∷ [])
      ∷ when (has_command (codes "KNOCK")) (codes "KNOCK" ∷ [])
      ∷ when (has_command (codes "WHO")) (codes "WHOX" ∷ [])
      ∷ []

  unfoldable pub pre_init_info : List Text
  unfolding pre_init_sections
  pre_init_info = concat pre_init_sections

  module _ (convert : ℕ → Text) where
    -- The tags of the limits.
    unfoldable pub limit_sections : Limits → List (List Text)
    limit_sections l =
        when (has_command (codes "NICK"))
          ((codes "NICKLEN=" ++ convert l.users_max_nick_name_length) ∷ [])
        ∷ when (has_command (codes "TOPIC"))
            ((codes "TOPICLEN=" ++ convert l.channels_max_topic_length) ∷ [])
        ∷ when (has_command (codes "KICK"))
            ((codes "KICKLEN=" ++ convert l.max_kick_reason_length) ∷ [])
        ∷ when (has_command (codes "JOIN")) (
            (codes "CHANNELLEN=" ++ convert l.channels_max_name_length)
            ∷ (codes "MAXCHANNELS=" ++ convert l.users_max_channels)
            ∷ [])
        ∷ when has_messages ((codes "MAXTARGETS=" ++ convert l.max_targets) ∷ [])
        ∷ when (has_command (codes "SILENCE"))
            ((codes "SILENCE=" ++ convert l.users_max_silences) ∷ [])
        ∷ when (has_command (codes "ACCEPT"))
            ((codes "CALLERID=" ++ convert l.users_max_accepts) ∷ [])
        ∷ when (has_command (codes "WATCH")) ((codes "WATCH=" ++ convert l.users_max_watches) ∷ [])
        ∷ when (has_command (codes "MODE"))
            ((codes "MAXBANS=" ++ convert l.channels_max_bans) ∷ (codes "MODES=" ++ convert 0) ∷ [])
        ∷ []

    unfoldable pub limit_tags : Limits → List Text
    unfolding limit_sections
    limit_tags l = concat (limit_sections l)

    -- The loop over the languages: the default one has a star.
    unfoldable pub language_list : List (Bool × Text) → Text
    language_list [] = []
    language_list ((is_default, code) ∷ languages) =
        let rest = code ++ language_list languages in
        b',' ∷ (if is_default then b'*' ∷ rest else rest)

    unfoldable pub init_sections : Facts → List (List Text)
    unfolding pre_init_sections limit_tags language_list when has_command
    init_sections f =
        pre_init_info
        ∷ limit_tags f.limits
        ∷ when f.is_named ((codes "NETWORK=" ++ f.network_name) ∷ [])
        ∷ when (has_command (codes "LANGUAGE")) (
            (codes "LANGUAGE="
              ++ (convert f.limits.users_max_languages ++ language_list f.languages))
            ∷ [])
        ∷ []

    unfoldable pub init_info : Facts → List Text
    unfolding init_sections
    init_info f = concat (init_sections f)
