-- ===== src/Language/Files.antt =====
-- The language files and the tag dictionary: home/kineircd/src/lib/language/interface.cpp and
-- home/kineircd/include/kineircd/languages.h.
pub mod Tags
pub mod Loaded
use kineircd.Prelude.{
  ℕ, zero, suc, ◌+◌, ◌-◌, ◌%◌, ◌^◌, Bool, true, false, ◌||◌, List, [], ◌∷◌, ◌++◌, Option, none,
  some, if◌then◌else◌, ltb, ◌==◌, length, is_empty, get_or, take, drop,
}
use kineircd.Prelude.Text.{Text, codes, text_eq, find_first_of}
use kineircd.Prelude.Int.{ℤ, pos}
use kineircd.Irc2.Tokens.{Tokens}
use kineircd.Language.{LanguageData, resize, merge_with}
use kineircd.Language.Escapes.{read_data, overwritten}

-- The names of the tags with their identifiers, and the highest of these.
pub record Dictionary : Type 0 where
  pub entries : List (Text × ℕ)
  pub highest : ℕ

-- A language, with the tags and the revision.
pub record Language : Type 0 where
  pub code : Text
  pub name : Text
  pub note : Text
  pub maintainer : Text
  pub content : LanguageData

-- The languages by their codes; the default language is given by its code.
pub record Languages : Type 0 where
  pub dictionary : Dictionary
  pub known : List (Text × Language)
  pub default_language : Option Text
  pub tag_maps : List ℕ

unfoldable pub find_tag : List (Text × ℕ) → Text → Option ℕ
find_tag [] tag = none
find_tag ((name, id) ∷ entries) tag =
    let found = find_tag entries tag in if text_eq name tag then some id else found

-- The identifier 0 is that of the unknown tag.
unfoldable pub get_tag_id : (Text → Text) → Dictionary → Text → ℕ
unfolding find_tag
get_tag_id to_upper d name = elim (find_tag d.entries (to_upper name)) [ none ↦ 0 | some id ↦ id ]

-- The identifiers of a tag map are filled in.
unfoldable pub process_tag_map : (Text → Text) → Dictionary → List (Text × ℕ) → List (Text × ℕ)
unfolding get_tag_id
process_tag_map to_upper d [] = []
process_tag_map to_upper d ((name, id) ∷ entries) =
    (name, get_tag_id to_upper d name) ∷ process_tag_map to_upper d entries

-- The identifier of a tag, which is made where there is none; an unsigned int of 32 bits.
unfoldable pub tag_id : Text → Dictionary → ℕ × Dictionary
unfolding find_tag
tag_id tag d = elim (find_tag d.entries tag) [
  | some id ↦ (id, d)
  | none ↦
      let id = (d.highest + 1) % 2 ^ 32 in
      (id, record { entries = (tag, id) ∷ d.entries; highest = id })
]

unfoldable pub set_at : ℕ → Text → List (Option Text) → List (Option Text)
set_at i text [] = []
set_at zero text (t ∷ tags) = some text ∷ tags
set_at (suc i) text (t ∷ tags) = t ∷ set_at i text tags

-- The text of a tag is put in its place.
unfoldable pub add_text : ℕ → Text → LanguageData → LanguageData
unfolding set_at resize
add_text id text l =
    let tags = if ltb (length l.tag_data) id then resize id l.tag_data else l.tag_data in
    record l { tag_data = set_at (id - 1) text tags; tag_count = (l.tag_count + 1) % 2 ^ 64 }

-- The text before the first space.
unfoldable pub first_word : Text → Text
unfolding find_first_of
first_word s = elim (find_first_of (b' ' ∷ []) s) [ none ↦ s | some n ↦ take n s ]

-- `trim`, `toUpper`, `toLower` and `atol`, the conversion to the internal character set, and the
-- substitutions of the definitions file.
pub record Reader : Type 1 where
  pub tokens : Tokens
  pub trim : Text → Text
  pub to_lower : Text → Text
  pub to_long : Text → ℤ
  pub convert : Text → Option Text
  pub more : List (ℕ × ℕ)

module _ (r : Reader) where
  open r use {trim, to_lower, to_long, convert, more}

  -- A control tag, without its dot: the data of the line, and the converted text.
  unfoldable pub control_tag : Text → Text → Text → Language → Language
  unfolding first_word
  control_tag tag line_data text l =
      if text_eq tag (codes "LANGCODE")
      then record l { code = first_word (to_lower line_data) }
      else if text_eq tag (codes "LANGNAME")
      then record l { name = text }
      else if text_eq tag (codes "LANGNOTE")
      then record l { note = text }
      else if text_eq tag (codes "MAINTAINER")
      then record l { maintainer = text }
      else if text_eq tag (codes "REVISION")
      then record l { content = record l.content { file_revision = to_long line_data } }
      else l

  -- The end of a line: a control tag, or the text of a tag.
  unfoldable pub store_tag : Text → Text → Text → Dictionary × Language → Dictionary × Language
  unfolding control_tag tag_id add_text
  store_tag tag line_data text (d, l) =
      if get_or tag 0 0 == b'.'
      then (d, control_tag (drop 1 tag) line_data text l)
      else let (id, d') = tag_id tag d in (d', record l { content = add_text id text l.content })

  -- A line that is trimmed. The second part is none where the conversion failed.
  unfoldable pub load_line : Text → Dictionary × Language → Option (Dictionary × Language)
  unfolding store_tag read_data overwritten
  load_line line state =
      let stream = r.tokens.tokens line in
      let (word, stream') = r.tokens.next b'=' stream in
      let tag = r.tokens.to_upper (trim word) in
      let line_data = trim (r.tokens.rest stream') in
      elim (read_data more convert line_data) [
        | none ↦ none
        | some text ↦ some (store_tag tag (overwritten line_data) text state)
      ]

  -- The loop over the lines; the Boolean tells whether all of them were read.
  unfoldable pub load_lines : List Text → Dictionary × Language → Bool × (Dictionary × Language)
  unfolding load_line
  load_lines [] state = (true, state)
  load_lines (line ∷ lines) state =
      let trimmed = trim line in
      let skipped = load_lines lines state in
      if is_empty trimmed || (get_or trimmed 0 0 == b'#')
      then skipped
      else elim (load_line trimmed state) [
        | none ↦ (false, state)
        | some state' ↦ load_lines lines state'
      ]

-- The lines that std::getline reads to their end; what follows the last newline is not used.
unfoldable pub complete_lines : Text → Text → List Text
complete_lines [] line = []
complete_lines (c ∷ s) line =
    if c == 0x0a then line ∷ complete_lines s [] else complete_lines s (line ++ c ∷ [])

unfoldable pub find_language : Text → List (Text × Language) → Option Language
find_language code [] = none
find_language code ((c, l) ∷ known) =
    let found = find_language code known in if text_eq c code then some l else found

-- The code under which the language is known.
unfoldable pub find_by_code : (Text → Text) → Languages → Text → Option Text
unfolding find_language
find_by_code to_lower ls code =
    let lower = to_lower code in
    elim (find_language lower ls.known) [
      | some l ↦ some lower
      | none ↦ if text_eq lower (codes "i-default") then ls.default_language else none
    ]

-- The language of that code is merged with the new one, "over" it.
unfoldable pub merge_known : Text → Language → List (Text × Language) → List (Text × Language)
unfolding merge_with
merge_known code l [] = []
merge_known code l ((c, old) ∷ known) =
    if text_eq c code
    then (c, record old { content = merge_with l.content old.content }) ∷ known
    else (c, old) ∷ merge_known code l known

abbrev pub new_language : Language
new_language = record {
  code = [];
  name = [];
  note = [];
  maintainer = [];
  content = record { tag_count = 0; tag_data = []; file_revision = pos 0 };
}

abbrev pub with_default : Bool → Text → Languages → Languages
with_default make_default code ls = record ls {
  default_language = elim ls.default_language [
    | none ↦ some code
    | some d ↦ if make_default then some code else some d
  ];
}

-- The end of a file whose lines were read.
unfoldable pub insert_language : (Text → Text) → Bool → Language → Languages → Languages
unfolding find_by_code merge_known
insert_language to_lower make_default l ls = elim (find_by_code to_lower ls l.code) [
  | none ↦ with_default make_default l.code (record ls { known = (l.code, l) ∷ ls.known })
  | some code ↦ with_default make_default code (record ls { known = merge_known code l ls.known })
]

-- A map of a module: its tags with their identifiers.
abbrev pub TagMap : Type 0
TagMap = List (Text × ℕ)

-- The maps by their addresses. There is no result where an address of a call that has returned is
-- read as a map.
unfoldable pub process_maps : List ℕ → Option (List TagMap)
process_maps [] = some []
process_maps (parameter ∷ tag_maps) = none

-- A file that opened, by its text. The new tags stay in the dictionary where it fails. `none` is
-- the undefined behaviour of processMaps.
unfoldable pub load_file : Reader → Text → Bool → Languages → Option (Bool × Languages)
unfolding load_lines complete_lines insert_language process_maps
load_file r content make_default ls =
    let (ok, (d, l)) = load_lines r (complete_lines content []) (ls.dictionary, new_language) in
    let loaded = record ls { dictionary = d } in
    if ok
    then elim (process_maps ls.tag_maps) [
      | none ↦ none
      | some maps ↦ some (true, insert_language r.to_lower make_default l loaded)
    ]
    else some (false, loaded)
