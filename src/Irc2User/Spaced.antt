-- ===== src/Irc2User/Spaced.antt =====
-- Words with a space between each two of them, as the replies build them.
use kineircd.Prelude.{
  ◌+◌, ◌≡◌, ◌≢◌, ◌≤◌, refl, sym, List, [], ◌∷◌, ◌++◌, if◌then◌else◌, is_empty, length, All, arith,
  append_assoc, length-append,
}
use kineircd.Prelude.Text.{Text}

-- Words with a space between each two of them.
abbrev pub spaced : List Text → Text
spaced [] = []
spaced (w ∷ []) = w
spaced (w ∷ v ∷ ws) = w ++ b' ' ∷ spaced (v ∷ ws)

abbrev pub concat : List (List Text) → List Text
concat [] = []
concat (g ∷ gs) = g ++ concat gs

pub is_empty-spaced : (g : List Text) → All (λ w. w ≢ []) g → is_empty (spaced g) ≡ is_empty g
is_empty-spaced [] h = refl
is_empty-spaced ([] ∷ ws) h = absurd (h.0 refl)
is_empty-spaced ((c ∷ w) ∷ []) h = refl
is_empty-spaced ((c ∷ w) ∷ v ∷ ws) h = refl

spaced-append :
    (w : Text) (g : List Text) (tag : Text)
    → spaced ((w ∷ g) ++ tag ∷ []) ≡ spaced (w ∷ g) ++ b' ' ∷ tag
spaced-append w [] tag = refl
spaced-append w (v ∷ g) tag =
    rw (spaced-append v g tag) (sym (append_assoc w (b' ' ∷ spaced (v ∷ g)) (b' ' ∷ tag)))

-- The output that is built when a tag is added.
pub added-spaced :
    (g : List Text) (tag : Text)
    → All (λ w. w ≢ []) g
    → (if is_empty (spaced g) then tag else spaced g ++ b' ' ∷ tag) ≡ spaced (g ++ tag ∷ [])
added-spaced [] tag h = refl
added-spaced (w ∷ g) tag h = rw (is_empty-spaced (w ∷ g) h) (sym (spaced-append w g tag))

pub nonempty-snoc :
    (g : List Text) (tag : Text)
    → All (λ w. w ≢ []) g
    → tag ≢ []
    → All (λ w. w ≢ []) (g ++ tag ∷ [])
nonempty-snoc [] tag h k = (k, tt)
nonempty-snoc (w ∷ g) tag h k = (h.0, nonempty-snoc g tag h.1 k)

pub length-snoc :
    (g : List Text) (tag : Text)
    → length (spaced (g ++ tag ∷ [])) ≤ length (spaced g) + length tag + 1
length-snoc [] tag = omega arith
length-snoc (w ∷ g) tag =
    rw (spaced-append w g tag) (omega (arith, length-append (spaced (w ∷ g)) (b' ' ∷ tag)))
