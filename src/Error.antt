-- ===== src/Error.antt =====
-- The operation results of kineircd/autogen/errors.def (the enumeration Kine::Error::error_type).
-- The first two are successes; `unknown_error` is the value 0; the others are the errors.
pub mod Names
use kineircd.Prelude.{Bool, true, false}

pub data Error : Type 0 where
  no_error : Error
  no_error_or_data : Error
  unknown_error : Error
  channel_name_nonstandard_prefix : Error
  channel_name_prefix_unknown : Error
  entity_exists : Error
  name_has_bad_chars : Error
  name_is_a_mask : Error
  name_is_in_use : Error
  name_too_long : Error
  nickname_begins_with_digit : Error
  permission_denied : Error
  server_name_has_dot_dot : Error
  server_name_has_no_dot : Error
  servers_dont_match : Error
  text_too_long : Error
  text_too_short : Error
  unknown_charset : Error
  unregistered_entity : Error
  unsupported_by_entity : Error

-- The test `error == Error::NO_ERROR`.
abbrev pub is_ok : Error → Bool
is_ok no_error = true
is_ok _ = false
