-- ===== src/Irc2User/Support/Middle.antt =====
-- Texts that can be parameters of a message before the last, with a test for them.
use kineircd.Prelude.{
  ◌≡◌, ◌≢◌, Bool, true, false, not, List, [], ◌∷◌, ◌++◌, ◌==◌, All, arith, subst, append-nil, ◌&&◌,
}
use kineircd.Prelude.Text.{Text}
use kineircd.Irc2.Input.RoundTrip.{IsMiddle}
use kineircd.Irc2User.Spaced.{concat}
use kineircd.Irc2User.Support.Tags.{when}

abbrev pub NoSpace : Text → Type 0
NoSpace = All (λ c. c ≢ b' ')

pub NoSpace-append : (s t : Text) → NoSpace s → NoSpace t → NoSpace (s ++ t)
NoSpace-append [] t h k = k
NoSpace-append (c ∷ s) t (h, hs) k = (h, NoSpace-append s t hs k)

unfoldable pub AreMiddle : List Text → Type 0
AreMiddle = All IsMiddle

pub AreMiddle-append : (g h : List Text) → AreMiddle g → AreMiddle h → AreMiddle (g ++ h)
unfolding AreMiddle
AreMiddle-append [] h a b = b
AreMiddle-append (w ∷ g) h (a, as') b = (a, AreMiddle-append g h as' b)

pub AreMiddle-concat : (gs : List (List Text)) → All AreMiddle gs → AreMiddle (concat gs)
AreMiddle-concat [] h = unfold AreMiddle in tt
AreMiddle-concat (g ∷ gs) (h, hs) = AreMiddle-append g (concat gs) h (AreMiddle-concat gs hs)

pub AreMiddle-when : (b : Bool) (g : List Text) → AreMiddle g → AreMiddle (when b g)
unfolding when AreMiddle
AreMiddle-when true g h = h
AreMiddle-when false g h = tt

false-ne-true : false ≡ true → ⊥
false-ne-true e = cc

-- A test for a parameter that is not the last.
unfoldable pub has_no_space : Text → Bool
has_no_space [] = true
has_no_space (c ∷ s) = not (c == b' ') && has_no_space s

unfoldable pub is_middle : Text → Bool
is_middle [] = false
is_middle (c ∷ s) = not (c == b':') && has_no_space (c ∷ s)

unfoldable pub are_middle : List Text → Bool
are_middle [] = true
are_middle (w ∷ g) = is_middle w && are_middle g

has_no_space-NoSpace : (s : Text) → has_no_space s ≡ true → NoSpace s
unfolding has_no_space
has_no_space-NoSpace [] h = tt
has_no_space-NoSpace (c ∷ s) h = (ground arith, has_no_space-NoSpace s (ground arith))

-- A word with text behind it.
pub is_middle-append : (w t : Text) → is_middle w ≡ true → NoSpace t → IsMiddle (w ++ t)
unfolding is_middle
is_middle-append [] t h k = absurd (false-ne-true h)
is_middle-append (c ∷ w) t h k = (
  ((λ e. cc), NoSpace-append (c ∷ w) t (has_no_space-NoSpace (c ∷ w) (ground arith)) k),
  ground arith,
)

pub are_middle-AreMiddle : (g : List Text) → are_middle g ≡ true → AreMiddle g
unfolding are_middle AreMiddle
are_middle-AreMiddle [] h = tt
are_middle-AreMiddle (w ∷ g) h = (
  subst IsMiddle (append-nil w) (is_middle-append w [] (ground arith) tt),
  are_middle-AreMiddle g (ground arith),
)
