-- ===== src/Clbp/Input/Lines.antt =====
-- handleInput against the lines of the data.
use kineircd.Prelude.{
  ℕ, zero, suc, ◌<◌, ◌≤◌, ◌≡◌, refl, ◌∙◌, ap, inl, inr, Bool, false, ◌&&◌, List, [], ◌∷◌, ◌++◌,
  Option, none, some, if◌then◌else◌, ◌==◌, take, drop, get_or, length, arith, Option-cases,
}
use kineircd.Prelude.Text.{Text, find_first_of}
use kineircd.Clbp.Input.{eol, skip_lf, scan, handle_input}

-- A character in front of the first line, or of the remainder if there is no line.
abbrev pub cons_first : ℕ → List Text × Text → List Text × Text
cons_first c ([], r) = ([], c ∷ r)
cons_first c (l ∷ ls, r) = ((c ∷ l) ∷ ls, r)

-- The specification: the lines that end in CR, LF or CR LF, and what stands behind the last of
-- them. `after_cr` tells that a CR stands in front, so that a LF belongs to it.
unfoldable pub lines_of : Bool → Text → List Text × Text
lines_of after_cr [] = ([], [])
lines_of after_cr (c ∷ cs) =
    let skipped = lines_of false cs in
    let ended = lines_of (c == 13) cs in
    if after_cr && c == 10
    then skipped
    else if c == 13
    then ([] ∷ ended.0, ended.1)
    else if c == 10
    then ([] ∷ ended.0, ended.1)
    else cons_first c skipped

lines_of-none : (s : Text) → find_first_of eol s ≡ none → lines_of false s ≡ ([], s)
unfolding lines_of find_first_of
lines_of-none [] h = refl
lines_of-none (c ∷ s) h = ground (arith, lines_of-none s)

lines_of_skip : (c : ℕ) (s : Text) → lines_of (c == 13) s ≡ lines_of false (skip_lf c s)
unfolding lines_of skip_lf
lines_of_skip c [] = ground arith
lines_of_skip c (d ∷ s) = ground arith

lines_of-some :
    (s : Text) (n : ℕ)
    → find_first_of eol s ≡ some n
    → lines_of false s ≡ (
      take n s ∷ (lines_of false (skip_lf (get_or s n 0) (drop (suc n) s))).0,
      (lines_of false (skip_lf (get_or s n 0) (drop (suc n) s))).1,
    )
unfolding lines_of find_first_of
lines_of-some [] n h = cc
lines_of-some (c ∷ s) zero h = ground (arith, lines_of_skip c s)
lines_of-some (c ∷ s) (suc n) h =
    let e : find_first_of eol s ≡ some n = ground arith in ground (arith, lines_of-some s n e)

skip_lf-length : (c : ℕ) (s : Text) → length (skip_lf c s) ≤ length s
unfolding skip_lf
skip_lf-length c [] = ground arith
skip_lf-length c (d ∷ s) = ground arith

length-after :
    (s : Text) (n : ℕ) → find_first_of eol s ≡ some n → suc (length (drop (suc n) s)) ≤ length s
unfolding find_first_of
length-after [] n h = cc
length-after (c ∷ s) zero h = omega arith
length-after (c ∷ s) (suc n) h =
    let e : find_first_of eol s ≡ some n = ground arith in omega (arith, length-after s n e)

-- Some text was cut.
abbrev IsCut : List Text × Text → Type 0
IsCut ([], []) = ⊥
IsCut ([], c ∷ r) = Unit
IsCut (l ∷ ls, r) = Unit

cons_first-IsCut : (c : ℕ) (cut : List Text × Text) → IsCut (cons_first c cut)
cons_first-IsCut c ([], r) = tt
cons_first-IsCut c (l ∷ ls, r) = tt

lines_of-IsCut : (c : ℕ) (s : Text) → IsCut (lines_of false (c ∷ s))
unfolding lines_of
lines_of-IsCut c s = ground (arith, cons_first-IsCut c (lines_of false s))

module _ {ℓ} {S : Type ℓ} (parse : Text → Text → S → S) where
  -- The lines that are parsed on an empty queue.
  abbrev pub feed : List Text → S → S
  feed [] s = s
  feed (l ∷ ls) s = feed ls (parse [] l s)

  -- What `handleInput` does with a queue, the data, and the lines and the remainder of the data.
  abbrev pub outcome : Text → Text → List Text × Text → S → Text × S
  outcome queue chunk ([], r) s = (queue ++ chunk, s)
  outcome queue chunk (l ∷ ls, []) s = ([], feed ls (parse queue (queue ++ l) s))
  outcome queue chunk (l ∷ ls, c ∷ r) s = (chunk, feed ls (parse queue (queue ++ l) s))

  outcome-cons :
      (queue all line : Text) (cut : List Text × Text) (s : S)
      → IsCut cut
      → outcome [] all cut (parse queue (queue ++ line) s)
        ≡ outcome queue all (line ∷ cut.0, cut.1) s
  outcome-cons queue all line ([], []) s h = elim h [ ]
  outcome-cons queue all line ([], c ∷ r) s h = refl
  outcome-cons queue all line (l ∷ ls, []) s h = refl
  outcome-cons queue all line (l ∷ ls, c ∷ r) s h = refl

  -- One round of the loop, over what stands behind the line.
  advance :
      (queue all line after : Text) (more : Option (Text × S)) (s : S)
      → more ≡ some (outcome [] all (lines_of false after) (parse queue (queue ++ line) s))
      → (let next : Option (Text × S) = elim after [
        | [] ↦ some ([], parse queue (queue ++ line) s)
        | c ∷ cs ↦ more
      ] in
          next)
        ≡ some (outcome queue all (line ∷ (lines_of false after).0, (lines_of false after).1) s)
  advance queue all line [] more s h = unfold lines_of in refl
  advance queue all line (c ∷ cs) more s h =
      h ∙ ap some (outcome-cons queue all line (lines_of false (c ∷ cs)) s (lines_of-IsCut c cs))

  scan-outcome :
      (fuel : ℕ) (all rest queue : Text) (s : S)
      → length rest < fuel
      → scan parse fuel all rest queue s ≡ some (outcome queue all (lines_of false rest) s)
  unfolding scan
  scan-outcome zero all rest queue s h = elim h [ ]
  scan-outcome (suc fuel) all rest queue s h = elim (Option-cases (find_first_of eol rest)) [
    | inl e ↦ rw (e, scan, lines_of-none rest e)
    | inr (n, e) ↦
        let after = skip_lf (get_or rest n 0) (drop (suc n) rest) in
        let next = parse queue (queue ++ take n rest) s in
        rw (e, scan, lines_of-some rest n e)
          (advance queue all (take n rest) after (scan parse fuel all after [] next) s (
            scan-outcome fuel all after [] next (
              omega (
                arith,
                skip_lf-length (get_or rest n 0) (drop (suc n) rest),
                length-after rest n e,
              ))))
  ]

  -- `handleInput` returns. The queue goes in front of the first line of the data, and every line
  -- is parsed in order. If the data has no line end, it is put behind the queue; if it ends with a
  -- line end, the queue is left empty; else the queue is left with the whole data, the lines that
  -- were parsed included.
  pub handle_input-outcome :
      (chunk queue : Text) (s : S)
      → handle_input parse chunk queue s ≡ some (outcome queue chunk (lines_of false chunk) s)
  unfolding handle_input
  handle_input-outcome chunk queue s =
      scan-outcome (suc (length chunk)) chunk chunk queue s (omega arith)
