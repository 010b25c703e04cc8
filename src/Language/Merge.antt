-- ===== src/Language/Merge.antt =====
-- What merging does to the tags and to their count.
use kineircd.Prelude.{
  ℕ, zero, suc, ◌+◌, ◌≡◌, ◌<◌, ◌^◌, refl, List, [], ◌∷◌, Option, none, some, arith, length,
}
use kineircd.Prelude.Text.{Text}
use kineircd.Language.{LanguageData, resize, overwrite, count_tags, merge_with}

-- The text that a language has for a tag.
abbrev pub lookup : ℕ → List (Option Text) → Option Text
lookup i [] = none
lookup zero (t ∷ tags) = t
lookup (suc i) (t ∷ tags) = lookup i tags

-- The new text, or else the old one.
abbrev pub newest : Option Text → Option Text → Option Text
newest (some text) old = some text
newest none old = old

-- The tags that both languages have a text for.
abbrev pub overlap : List (Option Text) → List (Option Text) → ℕ
overlap tags [] = 0
overlap [] (n ∷ ns) = 0
overlap (none ∷ tags) (n ∷ ns) = overlap tags ns
overlap (some text ∷ tags) (none ∷ ns) = overlap tags ns
overlap (some text ∷ tags) (some other ∷ ns) = suc (overlap tags ns)

merged-lookup :
    (tags ns : List (Option Text)) (i : ℕ)
    → lookup i (overwrite (resize (length ns) tags) ns) ≡ newest (lookup i ns) (lookup i tags)
unfolding overwrite resize
merged-lookup tags [] i = refl
merged-lookup [] (none ∷ ns) zero = refl
merged-lookup [] (none ∷ ns) (suc i) = merged-lookup [] ns i
merged-lookup [] (some n ∷ ns) zero = refl
merged-lookup [] (some n ∷ ns) (suc i) = merged-lookup [] ns i
merged-lookup (t ∷ tags) (none ∷ ns) zero = refl
merged-lookup (t ∷ tags) (none ∷ ns) (suc i) = merged-lookup tags ns i
merged-lookup (t ∷ tags) (some n ∷ ns) zero = refl
merged-lookup (t ∷ tags) (some n ∷ ns) (suc i) = merged-lookup tags ns i

overlap-nil : (ns : List (Option Text)) → overlap [] ns ≡ 0
overlap-nil [] = refl
overlap-nil (n ∷ ns) = refl

merged-count :
    (tags ns : List (Option Text))
    → count_tags (overwrite (resize (length ns) tags) ns) + overlap tags ns
      ≡ count_tags tags + count_tags ns
unfolding overwrite resize count_tags
merged-count tags [] = refl
merged-count [] (none ∷ ns) = omega (arith, merged-count [] ns, overlap-nil ns)
merged-count [] (some n ∷ ns) = omega (arith, merged-count [] ns, overlap-nil ns)
merged-count (none ∷ tags) (none ∷ ns) = merged-count tags ns
merged-count (none ∷ tags) (some n ∷ ns) = omega (arith, merged-count tags ns)
merged-count (some t ∷ tags) (none ∷ ns) = omega (arith, merged-count tags ns)
merged-count (some t ∷ tags) (some n ∷ ns) = omega (arith, merged-count tags ns)

-- After a merge every tag has the new text if there is one, and else the old one.
pub merge_with-lookup :
    (new_data l : LanguageData) (i : ℕ)
    → lookup i (merge_with new_data l).tag_data
      ≡ newest (lookup i new_data.tag_data) (lookup i l.tag_data)
unfolding merge_with
merge_with-lookup new_data l i = merged-lookup l.tag_data new_data.tag_data i

-- If the count of tags was right, and does not wrap, it is too large after a merge by the number
-- of texts that the merge replaced.
pub merge_with_count :
    (new_data l : LanguageData)
    → l.tag_count ≡ count_tags l.tag_data
    → l.tag_count + count_tags new_data.tag_data < 2 ^ 64
    → (merge_with new_data l).tag_count
      ≡ count_tags (merge_with new_data l).tag_data + overlap l.tag_data new_data.tag_data
unfolding merge_with
merge_with_count new_data l h small = omega (arith, merged-count l.tag_data new_data.tag_data)
