-- ===== src/Irc2/Replies/Requests.antt =====
-- The handlers of the STATS requests: home/kineircd/src/lib_irc2/stats.cpp. A reply has the
-- parameters behind the user's name. The texts of handleResources are those of Resources.antt; a
-- parameter is the number that handleLanguages computes in floating point.
use kineircd.Prelude.{
  ℕ, ◌+◌, ◌*◌, ◌/◌, ◌%◌, ◌<◌, ◌≡◌, refl, List, [], ◌∷◌, ◌++◌, map, Option, none, some, arith,
  if◌then◌else◌, is_empty, length,
}
use kineircd.Prelude.Text.{Text, codes}
use kineircd.Prelude.Int.{ℤ, pos}
use kineircd.Prelude.Decimal.{decimal}
use kineircd.Irc2.Replies.Time.{digits, padded, uptime_text}
use kineircd.Irc2.Replies.Stats.{Handler, languages, list_connections, operators, resources, uptime}

-- The protocol of a connection; a name of the instance is wide.
pub record Speaker : Type 0 where
  pub identifying_name : Option Text
  pub sent_message_count : ℕ
  pub received_message_count : ℕ
  pub protocol_name : Text

-- A connection of the daemon, and the seconds since it was made.
pub record Link : Type 0 where
  pub protocol : Option Speaker
  pub sent_bytes : ℕ
  pub received_bytes : ℕ
  pub connected_seconds : ℕ

-- The data of a language; the maintainer, the name and the note are wide.
pub record Tongue : Type 0 where
  pub language_code : Text
  pub maintainer : Text
  pub file_revision : ℤ
  pub tag_count : ℕ
  pub language_name : Text
  pub language_note : Text

pub record Machine : Type 0 where
  pub connections : List Link
  pub tongues : List Tongue
  pub highest_tag_id : ℕ
  pub resource_texts : List Text
  pub uptime_seconds : ℕ

pub data Reply : Type 0 where
  about_language : Text → Text → ℤ → ℕ → Text → Text → Reply
  link_info : Text → ℕ → ℕ → ℕ → ℕ → ℕ → ℕ → Text → Text → Reply
  operator_line : ℕ → Text → ℕ → Text → Text → Reply
  resource : Text → Reply
  uptime_line : Text → Reply

abbrev replacement_parameter : Text
replacement_parameter = codes "*"

module _ (delocalise : Text → Text) where
  unfoldable pub link_reply : Link → Reply
  link_reply l = elim l.protocol [
    | none ↦
        link_info (codes "!") 0 0 (l.sent_bytes / 1024) 0 (l.received_bytes / 1024)
          l.connected_seconds replacement_parameter replacement_parameter
    | some p ↦
        link_info (elim p.identifying_name [ none ↦ codes "!" | some name ↦ delocalise name ]) 0
          p.sent_message_count (l.sent_bytes / 1024) p.received_message_count
          (l.received_bytes / 1024) l.connected_seconds replacement_parameter p.protocol_name
  ]

  unfoldable pub handle_list_connections : List Link → List Reply
  unfolding link_reply
  handle_list_connections [] = []
  handle_list_connections (l ∷ ls) = link_reply l ∷ handle_list_connections ls

  -- `percent` is the rounded percentage of two counts.
  unfoldable pub language_reply : (ℕ → ℕ → Text) → ℕ → Tongue → Reply
  language_reply percent highest t =
      about_language t.language_code
        (if is_empty t.maintainer then replacement_parameter else delocalise t.maintainer)
        t.file_revision t.tag_count (percent t.tag_count highest ++ b'%' ∷ [])
        (delocalise (
          if is_empty t.language_note
          then t.language_name
          else t.language_name ++ codes " (" ++ t.language_note ++ codes ")"))

  unfoldable pub handle_languages : (ℕ → ℕ → Text) → ℕ → List Tongue → List Reply
  unfolding language_reply
  handle_languages percent highest [] = []
  handle_languages percent highest (t ∷ ts) =
      language_reply percent highest t ∷ handle_languages percent highest ts

  unfoldable pub handle_operators : List Reply
  handle_operators =
      operator_line b'O' (codes "user@host.mask") b'*' (codes "nickname")
        (codes "This is a description field")
      ∷ []

  -- The text of the language has the days and the time as its parameters.
  unfoldable pub handle_uptime : (Text → Text → Text) → ℕ → List Reply
  unfolding uptime_text decimal
  handle_uptime get_lang seconds =
      uptime_line (get_lang (decimal (seconds / 86400)) (uptime_text seconds)) ∷ []

  -- The handler that a request of the table names.
  unfoldable pub run_request :
      (ℕ → ℕ → Text) → (Text → Text → Text) → Machine → Handler → List Reply
  unfolding handle_list_connections handle_languages handle_operators handle_uptime
  run_request percent get_lang m languages = handle_languages percent m.highest_tag_id m.tongues
  run_request percent get_lang m list_connections = handle_list_connections m.connections
  run_request percent get_lang m operators = handle_operators
  run_request percent get_lang m resources = map resource m.resource_texts
  run_request percent get_lang m uptime = handle_uptime get_lang m.uptime_seconds

-- The time of the uptime has the minutes and the seconds in two digits each, and with the days it
-- gives the uptime.
pub uptime_text-digits :
    (seconds : ℕ)
    → (hours minutes rest : ℕ) × (uptime_text seconds
        ≡ digits hours ++ b':' ∷ padded (pos minutes) ++ b':' ∷ padded (pos rest))
      × (length (padded (pos minutes)) ≡ 2)
      × (length (padded (pos rest)) ≡ 2)
      × (hours < 24)
      × (((seconds / 86400 * 24 + hours) * 60 + minutes) * 60 + rest ≡ seconds)
unfolding uptime_text padded digits
uptime_text-digits seconds = (
  (seconds % 86400) / 3600,
  (seconds % 3600) / 60,
  seconds % 60,
  refl,
  ground arith,
  ground arith,
  omega arith,
  omega arith,
)
