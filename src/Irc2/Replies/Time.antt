-- ===== src/Irc2/Replies/Time.antt =====
-- The time zone of RPL_TIMEONSERVERIS: Protocol::sendTimeOnServer,
-- home/kineircd/src/lib_irc2/common.cpp.
use kineircd.Prelude.{
  ap, ◌≤◌, ◌-◌, length, ℕ, zero, suc, ◌+◌, ◌*◌, ◌/◌, ◌%◌, ◌<◌, ◌≡◌, refl, [], ◌∷◌, ◌++◌,
  if◌then◌else◌, ltb, arith, true,
}
use kineircd.Prelude.Text.{Text}
use kineircd.Prelude.Int.{ℤ, pos, negsuc, is_positive}

-- The decimal digits of a number below 100.
unfoldable pub digits : ℕ → Text
digits n = if ltb n 10 then (0x30 + n) ∷ [] else (0x30 + n / 10) ∷ (0x30 + n % 10) ∷ []

-- A number above -100 and below 100, in a field of two characters that is filled with 0.
unfoldable pub padded : ℤ → Text
unfolding digits
padded (pos n) = if ltb n 10 then 0x30 ∷ digits n else digits n
padded (negsuc n) = b'-' ∷ digits (n + 1)

abbrev pub negate : ℕ → ℤ
negate zero = pos zero
negate (suc n) = negsuc n

-- `timezone` is in seconds west of Greenwich; the division of C drops the fraction.
unfoldable pub hours_east : ℤ → ℤ
hours_east (pos n) = negate (n / 3600)
hours_east (negsuc n) = pos ((n + 1) / 3600)

unfoldable pub minutes_east : ℤ → ℤ
minutes_east (pos n) = negate ((n % 3600) / 60)
minutes_east (negsuc n) = pos (((n + 1) % 3600) / 60)

unfoldable pub zone_text : ℤ → Text
unfolding padded hours_east minutes_east
zone_text timezone =
    (if is_positive timezone then b'-' else b'+') ∷ padded (hours_east timezone)
    ++ padded (minutes_east timezone)

-- The time since the start of the day of the uptime: Stats::handleUptime,
-- home/kineircd/src/lib_irc2/stats.cpp. Only the minutes and the seconds have a width.
unfoldable pub uptime_text : ℕ → Text
unfolding digits padded
uptime_text seconds =
    digits ((seconds % 86400) / 3600)
    ++ b':' ∷ padded (pos ((seconds % 3600) / 60))
    ++ b':' ∷ padded (pos (seconds % 60))

-- The number that decimal digits write, behind the number before them.
abbrev pub value : ℕ → Text → ℕ
value n [] = n
value n (c ∷ s) = value (n * 10 + c - 0x30) s

value-digits : (n : ℕ) → n < 100 → value 0 (digits n) ≡ n
unfolding digits
value-digits n h = ground arith

-- East of Greenwich, and there in less than 100 hours, the zone is a plus, the hours in two digits
-- and the minutes in two digits: from the text, the seconds are known up to the minute.
pub zone_text-east :
    (n : ℕ)
    → n < 360000
    → (h m : ℕ) × (zone_text (negsuc n) ≡ b'+' ∷ padded (pos h) ++ padded (pos m))
      × (length (padded (pos h)) ≡ 2)
      × (length (padded (pos m)) ≡ 2)
      × (h * 3600 + m * 60 ≤ n + 1)
      × (n + 1 < h * 3600 + m * 60 + 60)
unfolding zone_text padded digits
zone_text-east n k = (
  (n + 1) / 3600,
  ((n + 1) % 3600) / 60,
  refl,
  ground arith,
  ground arith,
  omega arith,
  omega arith,
)

negate-negsuc : (n : ℕ) → 0 < n → negate n ≡ negsuc (n - 1)
negate-negsuc zero h = elim h [ ]
negate-negsuc (suc n) h = ap negsuc (omega arith)

is_positive-pos : (n : ℕ) → 0 < n → is_positive (pos n) ≡ true
is_positive-pos zero h = elim h [ ]
is_positive-pos (suc n) h = refl

-- West of Greenwich by at least an hour and less than 100 hours, the zone has two signs.
pub zone_text-west :
    (n : ℕ) → 3600 ≤ n → n < 360000 → (s : Text) × (zone_text (pos n) ≡ b'-' ∷ b'-' ∷ s)
unfolding zone_text padded
zone_text-west n h k = (
  digits (n / 3600 - 1 + 1) ++ padded (minutes_east (pos n)),
  rw (is_positive-pos n (omega arith), negate-negsuc (n / 3600) (omega arith)) refl,
)
