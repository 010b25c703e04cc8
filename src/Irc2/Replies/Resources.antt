-- ===== src/Irc2/Replies/Resources.antt =====
-- The request "resources" of STATS: Stats::handleResources, home/kineircd/src/lib_irc2/stats.cpp. What
-- uname, sysinfo and getrusage answer and how a number is written are parameters.
use kineircd.Prelude.{
  ℕ, ◌+◌, ◌*◌, ◌/◌, ◌%◌, ◌<◌, ◌≡◌, List, [], ◌∷◌, ◌++◌, Option, none, some, arith,
}
use kineircd.Prelude.Text.{Text}
use kineircd.Language.Wide.{to_wide_str}
use kineircd.Language.Calls.{get_with_1, get_with_2, get_with_3, get_with_4, get_with_6}

pub record UnameInfo : Type 0 where
  pub machine : Text
  pub sysname : Text
  pub release : Text
  pub version : Text

-- Sizes in bytes, and the uptime in seconds.
pub record SystemInfo : Type 0 where
  pub total_ram : ℕ
  pub free_ram : ℕ
  pub total_swap : ℕ
  pub free_swap : ℕ
  pub shared_ram : ℕ
  pub buffer_ram : ℕ
  pub procs : ℕ
  pub uptime : ℕ

pub record UsageInfo : Type 0 where
  pub major_faults : ℕ
  pub minor_faults : ℕ
  pub swaps : ℕ
  pub voluntary_switches : ℕ
  pub involuntary_switches : ℕ

-- The answers; `none` is a call that fails, or that the build does not have.
pub record Facilities : Type 0 where
  pub uname : Option UnameInfo
  pub sysinfo : Option SystemInfo
  pub getrusage : Option UsageInfo

-- The language tags of the lines.
pub data ResourceTag : Type 0 where
  resources_uname resources_memory resources_processes resources_uptime : ResourceTag
  resources_faults_swap resources_context : ResourceTag

-- The days, hours, minutes and seconds of an uptime.
unfoldable pub uptime_fields : ℕ → ℕ × ℕ × ℕ × ℕ
uptime_fields t = (t / 86400, t % 86400 / 3600, t % 3600 / 60, t % 60)

-- The language's text for a tag with its parameters, and String::convert of an integer and of a
-- whole number as a float.
module _ (get : ResourceTag → List Text → Text) (convert convert_float : ℕ → Text) where
  abbrev number : ℕ → Text
  number n = to_wide_str (convert n)

  abbrev megabytes : ℕ → Text
  megabytes n = to_wide_str (convert_float (n / 1048576))

  unfoldable pub uname_lines : UnameInfo → List Text
  unfolding to_wide_str get_with_4
  uname_lines u =
      get_with_4 (get resources_uname) (to_wide_str u.machine) (to_wide_str u.sysname)
        (to_wide_str u.release) (to_wide_str u.version)
      ∷ []

  unfoldable pub sysinfo_lines : SystemInfo → List Text
  unfolding to_wide_str get_with_6 get_with_1 get_with_4 uptime_fields
  sysinfo_lines s =
      let (days, hours, minutes, seconds) = uptime_fields s.uptime in
      get_with_6 (get resources_memory) (megabytes s.total_ram) (megabytes s.free_ram)
        (megabytes s.total_swap) (megabytes s.free_swap) (megabytes s.shared_ram)
        (megabytes s.buffer_ram)
      ∷ get_with_1 (get resources_processes) (number s.procs)
      ∷ get_with_4 (get resources_uptime) (number days) (number hours) (number minutes)
          (number seconds)
      ∷ []

  unfoldable pub usage_lines : UsageInfo → List Text
  unfolding to_wide_str get_with_3 get_with_2
  usage_lines r =
      get_with_3 (get resources_faults_swap) (number r.major_faults) (number r.minor_faults)
        (number r.swaps)
      ∷ get_with_2 (get resources_context) (number r.voluntary_switches)
          (number r.involuntary_switches)
      ∷ []

  -- The texts of the replies, each with the numeric RPL_NONE.
  unfoldable pub handle_resources : Facilities → List Text
  unfolding uname_lines sysinfo_lines usage_lines
  handle_resources m =
      elim m.uname [ none ↦ [] | some u ↦ uname_lines u ]
      ++ elim m.sysinfo [ none ↦ [] | some s ↦ sysinfo_lines s ]
      ++ elim m.getrusage [ none ↦ [] | some r ↦ usage_lines r ]

-- The days, hours, minutes and seconds make up the uptime, and each but the days is within its range.
pub uptime_fields-sum :
    (t : ℕ)
    → let (days, hours, minutes, seconds) = uptime_fields t in
      (days * 86400 + hours * 3600 + minutes * 60 + seconds ≡ t)
      × (hours < 24)
      × (minutes < 60)
      × (seconds < 60)
unfolding uptime_fields
uptime_fields-sum t = (omega arith, omega arith, omega arith, omega arith)
