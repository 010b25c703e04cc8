-- ===== src/Language/Files/Tags.antt =====
-- The tag dictionary, and the texts of the tags.
use kineircd.Prelude.{
  subst, ℕ, zero, suc, ◌+◌, ◌-◌, ◌%◌, ◌^◌, ◌≡◌, ◌≤◌, ◌<◌, refl, ap, sym, ◌∙◌, true, false, List, [],
  ◌∷◌, Option, none, some, arith, length, ltb, ◌==◌, if◌then◌else◌, Bool-cases, Option-cases, inl,
  inr,
}
use kineircd.Prelude.Text.{Text, text_eq, text_eq_iff, text_eq_refl}
use kineircd.Language.{LanguageData, resize}
use kineircd.Language.Merge.{lookup}
use kineircd.Language.Files.{Dictionary, find_tag, tag_id, set_at, add_text}

-- The identifiers go down from the highest to 1 or more.
abbrev pub Descend : ℕ → List (Text × ℕ) → Type 0
Descend h [] = Unit
Descend h ((name, id) ∷ entries) = (0 < id) × (id ≤ h) × Descend (id - 1) entries

abbrev pub IsDictionary : Dictionary → Type 0
IsDictionary d = Descend d.highest d.entries

find_tag-here :
    (name : Text) (i : ℕ) (entries : List (Text × ℕ)) (tag : Text)
    → text_eq name tag ≡ true
    → find_tag ((name, i) ∷ entries) tag ≡ some i
unfolding find_tag
find_tag-here name i entries tag e = rw e

find_tag-there :
    (name : Text) (i : ℕ) (entries : List (Text × ℕ)) (tag : Text)
    → text_eq name tag ≡ false
    → find_tag ((name, i) ∷ entries) tag ≡ find_tag entries tag
unfolding find_tag
find_tag-there name i entries tag e = rw e

none-some : (i : ℕ) → none ≡ some i → ⊥
none-some i e = cc

some-injective : (i j : ℕ) → some i ≡ some j → i ≡ j
some-injective i j e = cc

find_tag-bound :
    (h : ℕ) (entries : List (Text × ℕ)) (tag : Text) (id : ℕ)
    → Descend h entries
    → find_tag entries tag ≡ some id
    → (0 < id) × (id ≤ h)
unfolding find_tag
find_tag-bound h [] tag id d e = cc
find_tag-bound h ((name, i) ∷ entries) tag id d e = elim (Bool-cases (text_eq name tag)) [
  | inl f ↦
      let same = some-injective i id (sym (find_tag-here name i entries tag f) ∙ e) in
      (omega (arith, d.0, same), omega (arith, d.1, same))
  | inr f ↦
      let below =
        find_tag-bound (i - 1) entries tag id d.2 (sym (find_tag-there name i entries tag f) ∙ e) in
      (below.0, omega (arith, below.1, d.1))
]

-- A tag in front of the others has an identifier that none of them has.
find_tag-fresh :
    (name : Text) (h i : ℕ) (entries : List (Text × ℕ)) (tag other : Text) (id : ℕ)
    → Descend h ((name, i) ∷ entries)
    → text_eq name tag ≡ true
    → text_eq name other ≡ false
    → find_tag ((name, i) ∷ entries) tag ≡ some id
    → find_tag ((name, i) ∷ entries) other ≡ some id
    → ⊥
find_tag-fresh name h i entries tag other id d e f g k =
    let same = some-injective i id (sym (find_tag-here name i entries tag e) ∙ g) in
    let below =
      find_tag-bound (i - 1) entries other id d.2
        (sym (find_tag-there name i entries other f) ∙ k) in
    omega (arith, below.1, d.0, same)

-- Two tags with one identifier are the same.
pub find_tag-injective :
    (h : ℕ) (entries : List (Text × ℕ)) (tag other : Text) (id : ℕ)
    → Descend h entries
    → find_tag entries tag ≡ some id
    → find_tag entries other ≡ some id
    → tag ≡ other
unfolding find_tag
find_tag-injective h [] tag other id d e f = cc
find_tag-injective h ((name, i) ∷ entries) tag other id d e f =
    elim (Bool-cases (text_eq name tag)) [
      | inl a ↦ elim (Bool-cases (text_eq name other)) [
        | inl b ↦ sym ((text_eq_iff name tag).0 a) ∙ (text_eq_iff name other).0 b
        | inr b ↦ absurd (find_tag-fresh name h i entries tag other id d a b e f)
      ]
      | inr a ↦ elim (Bool-cases (text_eq name other)) [
        | inl b ↦ absurd (find_tag-fresh name h i entries other tag id d b a f e)
        | inr b ↦
            find_tag-injective (i - 1) entries tag other id d.2
              (sym (find_tag-there name i entries tag a) ∙ e)
              (sym (find_tag-there name i entries other b) ∙ f)
      ]
    ]

-- Every tag that the first entries have is the same in the second.
abbrev pub Keeps : List (Text × ℕ) → List (Text × ℕ) → Type 0
Keeps old new = (tag : Text) (id : ℕ) → find_tag old tag ≡ some id → find_tag new tag ≡ some id

other_tag :
    (tag other : Text) (entries : List (Text × ℕ)) (i : ℕ)
    → find_tag entries tag ≡ none
    → find_tag entries other ≡ some i
    → text_eq tag other ≡ false
other_tag tag other entries i e f = elim (Bool-cases (text_eq tag other)) [
  | inr g ↦ g
  | inl g ↦
      let same = (text_eq_iff tag other).0 g in
      absurd (none-some i (sym e ∙ ap (find_tag entries) same ∙ f))
]

-- What asking for the identifier of a tag does.
pub tag_id-IsDictionary :
    (tag : Text) (d : Dictionary)
    → IsDictionary d
    → d.highest + 1 < 2 ^ 32
    → let (id, d') = tag_id tag d in
      IsDictionary d'
      × (find_tag d'.entries tag ≡ some id)
      × Keeps d.entries d'.entries
      × (d'.highest ≤ d.highest + 1)
unfolding tag_id find_tag
tag_id-IsDictionary tag d h k = elim (Option-cases (find_tag d.entries tag)) [
  | inr (id, e) ↦ rw (tag_id, e) (h, e, λ other i f. f, omega arith)
  | inl e ↦
      let count : (d.highest + 1) % 2 ^ 32 ≡ d.highest + 1 = omega arith in
      let back : d.highest + 1 - 1 ≡ d.highest = omega arith in
      rw (tag_id, e, count)
        (
          (omega arith, omega arith, subst (λ n. Descend n d.entries) (sym back) h),
          find_tag-here tag (d.highest + 1) d.entries tag (text_eq_refl tag),
          λ other i f.
              find_tag-there tag (d.highest + 1) d.entries other
                (other_tag tag other d.entries i e f)
              ∙ f,
          omega arith,
        )
]

lookup-resize : (n j : ℕ) (tags : List (Option Text)) → lookup j (resize n tags) ≡ lookup j tags
unfolding resize
lookup-resize zero j tags = refl
lookup-resize (suc n) zero [] = refl
lookup-resize (suc n) (suc j) [] = lookup-resize n j []
lookup-resize (suc n) zero (t ∷ tags) = refl
lookup-resize (suc n) (suc j) (t ∷ tags) = lookup-resize n j tags

length-resize : (n : ℕ) (tags : List (Option Text)) → n ≤ length (resize n tags)
unfolding resize
length-resize zero tags = omega arith
length-resize (suc n) [] = omega (arith, length-resize n [])
length-resize (suc n) (t ∷ tags) = omega (arith, length-resize n tags)

lookup-set_at :
    (i j : ℕ) (text : Text) (tags : List (Option Text))
    → i < length tags
    → lookup j (set_at i text tags) ≡ (if j == i then some text else lookup j tags)
unfolding set_at
lookup-set_at i j text [] h = elim h [ ]
lookup-set_at zero zero text (t ∷ tags) h = ground arith
lookup-set_at zero (suc j) text (t ∷ tags) h = ground arith
lookup-set_at (suc i) zero text (t ∷ tags) h = ground arith
lookup-set_at (suc i) (suc j) text (t ∷ tags) h = ground (arith, lookup-set_at i j text tags)

-- The text of a tag is there at the tag's place, and the others are as before.
pub lookup-add_text :
    (id j : ℕ) (text : Text) (l : LanguageData)
    → 0 < id
    → lookup j (add_text id text l).tag_data
      ≡ (if j == id - 1 then some text else lookup j l.tag_data)
unfolding add_text
lookup-add_text id j text l h = elim (Bool-cases (ltb (length l.tag_data) id)) [
  | inl e ↦ rw (
    e,
    lookup-set_at (id - 1) j text (resize id l.tag_data)
        (omega (arith, length-resize id l.tag_data)),
    lookup-resize id j l.tag_data,
  )
  | inr e ↦ rw (e, lookup-set_at (id - 1) j text l.tag_data (ground arith))
]
