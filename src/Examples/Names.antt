-- ===== src/Examples/Names.antt =====
-- Names.
use kineircd.Prelude.{All, ◌≡◌, ◌↔◌, ◌≤◌, ◌<◌, refl, false, none, length, arith}
use kineircd.Prelude.Text.{Text, codes}
use kineircd.Error.{no_error, name_has_bad_chars, server_name_has_no_dot}
use kineircd.Name.Nickname
use kineircd.Name.Nickname.{nickname_iff, StartsNickname, IsNicknameChar}
use kineircd.Name.Hostname
use kineircd.Name.Hostname.{hostname_iff, labels, AreLabelsFrom}
use kineircd.Name.ChannelName
use kineircd.Name.ChannelName.{Limits, check_validity_diverges, check_validity_answers}

nickname_test : Nickname.check_validity 9 (codes "[fred]") ≡ no_error
unfolding Nickname.check_validity
nickname_test = refl

nickname_iff_example : (Nickname.check_validity 9 (codes "[fred]") ≡ no_error) ↔ (
    (length (codes "[fred]") ≤ 9)
    × StartsNickname (codes "[fred]")
    × All IsNicknameChar (codes "[fred]"))
nickname_iff_example = nickname_iff 9 (codes "[fred]")

nickname_space_test : Nickname.check_validity 9 (codes "fr ed") ≡ name_has_bad_chars
unfolding Nickname.check_validity
nickname_space_test = refl

hostname_test : Hostname.check_validity (codes "irc.example-1.org") ≡ no_error
unfolding Hostname.check_validity
hostname_test = refl

hostname_dot_test : Hostname.check_validity (codes "localhost") ≡ server_name_has_no_dot
unfolding Hostname.check_validity
hostname_dot_test = refl

abbrev host : Text
host = codes "irc.example.org"

hostname_iff_example : (Hostname.check_validity host ≡ no_error) ↔ (
    (length host ≤ 255)
    × (0 < length (labels host).1)
    × AreLabelsFrom 0 0 (labels host).0 (labels host).1)
hostname_iff_example = hostname_iff host

abbrev limits : Limits
limits = record { max_name_length = 50; allow_mask_like_names = false }

check_validity_diverges_example :
    ChannelName.check_validity 1000 limits (codes "#&") (codes "&local") ≡ none
check_validity_diverges_example =
    check_validity_diverges 1000 limits b'#' (codes "&") (codes "&local") (omega arith)
      (omega arith)
