-- ===== src/Language.antt =====
-- Language data: home/kineircd/src/lib/language/data.cpp, with the marker characters of
-- lib/language/subst.h. A tag that a language does not have is a null pointer, `none`.
pub mod Merge
pub mod Template
pub mod Segments
pub mod Escapes
pub mod Files
pub mod Fallback
pub mod Wide
pub mod Maps
pub mod Calls
use kineircd.Prelude.{
  ℕ, zero, suc, ◌+◌, ◌-◌, ◌*◌, ◌%◌, ◌^◌, Bool, true, false, List, [], ◌∷◌, ◌++◌, Option, none, some,
  if◌then◌else◌, ◌==◌, length, take, drop, get_elem?,
}
use kineircd.Prelude.Int.{ℤ, ltbℤ}
use kineircd.Prelude.Text.{Text, find_first_of, is_digit}

-- The data of one language.
pub record LanguageData : Type 0 where
  pub tag_count : ℕ
  pub tag_data : List (Option Text)
  pub file_revision : ℤ

-- std::vector::resize to a size that is no smaller.
unfoldable pub resize : ℕ → List (Option Text) → List (Option Text)
resize zero tags = tags
resize (suc n) [] = none ∷ resize n []
resize (suc n) (t ∷ tags) = t ∷ resize n tags

-- The loop over the new tags.
unfoldable pub overwrite : List (Option Text) → List (Option Text) → List (Option Text)
overwrite tags [] = tags
overwrite [] (n ∷ ns) = []
overwrite (t ∷ tags) (none ∷ ns) = t ∷ overwrite tags ns
overwrite (t ∷ tags) (some text ∷ ns) = some text ∷ overwrite tags ns

unfoldable pub count_tags : List (Option Text) → ℕ
count_tags [] = 0
count_tags (none ∷ tags) = count_tags tags
count_tags (some text ∷ tags) = suc (count_tags tags)

-- The count is an unsigned long of 64 bits.
unfoldable pub merge_with : LanguageData → LanguageData → LanguageData
unfolding resize overwrite count_tags
merge_with new_data l = record {
  tag_count = (l.tag_count + count_tags new_data.tag_data) % 2 ^ 64;
  tag_data = overwrite (resize (length new_data.tag_data) l.tag_data) new_data.tag_data;
  file_revision =
      if ltbℤ l.file_revision new_data.file_revision
      then new_data.file_revision
      else l.file_revision;
}

-- What the configuration, the server and the network give for a substitution.
pub record Surroundings : Type 0 where
  pub administrator_name : Text
  pub administrator_contact : Text
  pub administrator_location : Text
  pub server_description : Text
  pub server_name : Text
  pub network_name : Option Text

-- Where the loop stands: in plain text, behind a marker, or behind the letter of a parameter (with
-- the number of its first parameter).
pub data Place : Type 0 where
  plain : Place
  marked : Place
  numbered : ℕ → Place

module _ (env : Surroundings) (parameters : Option (List Text)) where
  -- A parameter of the list, or the replacement character.
  unfoldable pub parameter : ℕ → Text
  parameter n = elim parameters [
    | none ↦ 0xfffd ∷ []
    | some ps ↦ elim (get_elem? ps n) [ none ↦ 0xfffd ∷ [] | some text ↦ text ]
  ]

  unfoldable pub emit : Place → ℕ → Text
  unfolding parameter is_digit
  emit plain c = if c == 0 then [] else if c == 0x85 then 0xfffd ∷ [] else c ∷ []
  emit marked c =
      if c == b'a'
      then env.administrator_name
      else if c == b'A'
      then env.administrator_contact
      else if c == b'd'
      then env.server_description
      else if c == b'L'
      then env.administrator_location
      else if c == b'n'
      then env.server_name
      else if c == b'N'
      then elim env.network_name [ none ↦ 0xfffc ∷ [] | some name ↦ name ]
      else if c == b'p'
      then []
      else if c == b'P'
      then []
      else if c == b'q'
      then []
      else if c == b'Q'
      then []
      else 0xfffd ∷ []
  emit (numbered base) c = if is_digit c then parameter (base + (c - 0x30)) else 0xfffd ∷ []

  unfoldable pub next_place : Place → ℕ → Place
  next_place plain c = if c == 0 then marked else plain
  next_place marked c =
      if c == b'p'
      then numbered 0
      else if c == b'P'
      then numbered 10
      else if c == b'q'
      then numbered 20
      else if c == b'Q'
      then numbered 30
      else plain
  next_place (numbered base) c = plain

  -- The loop. A marker at the end is dropped; reading behind the letter of a parameter at the end
  -- gives NUL, which is no digit.
  unfoldable pub expand : Place → Text → Text
  unfolding emit next_place
  expand plain [] = []
  expand marked [] = []
  expand (numbered base) [] = 0xfffd ∷ []
  expand place (c ∷ cs) = emit place c ++ expand (next_place place c) cs

  unfoldable pub process : Text → Text
  unfolding expand find_first_of
  process data_ = elim (find_first_of (0 ∷ []) data_) [ none ↦ data_ | some n ↦ expand plain data_ ]

  -- `tagID` counts from 1.
  unfoldable pub get : ℕ → LanguageData → Text
  unfolding process
  get zero l = []
  get (suc i) l = elim (get_elem? l.tag_data i) [
    | none ↦ []
    | some none ↦ []
    | some (some tag) ↦ process tag
  ]

  module _ {ℓ} {S : Type ℓ} (call_function : Text → S → Bool × S) where
    -- One round for each segment of the tag; `rest` is the tag from `startPosition` on. `none`
    -- means that the fuel ran out.
    unfoldable pub call_out : ℕ → Text → S → Option S
    unfolding process find_first_of
    call_out zero rest s = none
    call_out (suc fuel) rest s = elim (find_first_of (0x85 ∷ []) rest) [
      | none ↦ some (call_function (process rest) s).1
      | some n ↦
          let (go_on, s') = call_function (process (take n rest)) s in
          let more = call_out fuel (drop (suc n) rest) s' in if go_on then more else some s'
    ]

    -- The answer and the caller's state; `none` is the use of a null tag.
    unfoldable pub get_each : ℕ → LanguageData → S → Option (Bool × S)
    unfolding call_out
    get_each zero l s = some (false, s)
    get_each (suc i) l s = elim (get_elem? l.tag_data i) [
      | none ↦ some (false, s)
      | some none ↦ none
      | some (some tag) ↦ elim (call_out (suc (length tag)) tag s) [
        | none ↦ none
        | some s' ↦ some (true, s')
      ]
    ]
