-- ===== src/Clbp/Output/Drain.antt =====
-- The poller withdraws the output block by block.
use kineircd.Prelude.{
  ℕ, ◌+◌, ◌≡◌, refl, sym, ap, ◌∙◌, List, [], ◌∷◌, ◌++◌, arith, leb, take, length, min, append_assoc,
  length-append, length-take, take-append-drop, drop_all, Bool-cases, inl, inr,
}
use kineircd.Prelude.Text.{Text}
use kineircd.Clbp.Output.{withdraw_output}

-- The blocks that are withdrawn, one amount after another, and the queue that is left.
pub withdraw_all : List ℕ → Text → Text × Text
withdraw_all [] queue = ([], queue)
withdraw_all (n ∷ ns) queue =
    let (block, left) = withdraw_output n queue in
    let (blocks, rest) = withdraw_all ns left in (block ++ blocks, rest)

pub withdraw-append :
    (n : ℕ) (queue : Text) → let (block, left) = withdraw_output n queue in block ++ left ≡ queue
unfolding withdraw_output
withdraw-append n queue = elim (Bool-cases (leb n (length queue))) [
  | inl e ↦ rw e (take-append-drop (min n (length queue)) queue)
  | inr e ↦ rw e (
      ap (λ rest. take (min n (length queue)) queue ++ rest)
        (sym (drop_all (min n (length queue)) queue (ground arith)))
      ∙ take-append-drop (min n (length queue)) queue)
]

length-withdraw : (n : ℕ) (queue : Text) → length (withdraw_output n queue).0 ≡ min n (length queue)
unfolding withdraw_output
length-withdraw n queue = omega (arith, length-take (min n (length queue)) queue)

pub sum : List ℕ → ℕ
sum [] = 0
sum (n ∷ ns) = n + sum ns

-- Withdrawing in blocks of any sizes loses nothing and reorders nothing: the blocks and what is
-- left are the queue, and no more than the amounts is withdrawn, and no less while there is more.
pub withdraw_all-append :
    (ns : List ℕ) (queue : Text)
    → let (blocks, rest) = withdraw_all ns queue in
      (blocks ++ rest ≡ queue) × (length blocks ≡ min (sum ns) (length queue))
unfolding withdraw_all sum
withdraw_all-append [] queue = (refl, omega arith)
withdraw_all-append (n ∷ ns) queue =
    let (block, left) = withdraw_output n queue in
    let (blocks, rest) = withdraw_all ns left in
    let ih = withdraw_all-append ns left in
    (
      append_assoc block blocks rest ∙ ap (◌++◌ block) ih.0 ∙ withdraw-append n queue,
      omega (
        arith,
        ih.1,
        length-append block blocks,
        length-withdraw n queue,
        ap length (withdraw-append n queue),
        length-append block left,
      ),
    )
