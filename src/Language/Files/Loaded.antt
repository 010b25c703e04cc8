-- ===== src/Language/Files/Loaded.antt =====
-- The dictionary behind a language file.
use kineircd.Prelude.{ℕ, ◌+◌, ◌≤◌, Option, none, some}
use kineircd.Prelude.Text.{Text}
use kineircd.Language.Files.{Dictionary, Language}
use kineircd.Language.Files.Tags.{IsDictionary, Keeps}

-- A dictionary that follows another one, with at most so many tags more.
abbrev pub Follows : ℕ → Dictionary → Dictionary → Type 0
Follows n d d' = IsDictionary d' × Keeps d.entries d'.entries × (d'.highest ≤ d.highest + n)

abbrev MayFollow : Dictionary → Option (Dictionary × Language) → Type 0
MayFollow d none = Unit
MayFollow d (some (d', l)) = Follows 1 d d'
