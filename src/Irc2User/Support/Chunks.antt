-- ===== src/Irc2User/Support/Chunks.antt =====
-- How the tags of RPL_ISUPPORT are spread over the replies.
use kineircd.Prelude.{
  ℕ, ◌+◌, ◌≡◌, ◌≢◌, ◌≤◌, refl, subst, ap, ◌||◌, List, [], ◌∷◌, ◌++◌, ltb, length, All, arith,
  Bool-cases, inl, inr, map, append_assoc, length-append,
}
use kineircd.Prelude.Text.{Text}
use kineircd.Irc2User.Spaced.{
  spaced, concat, is_empty-spaced, added-spaced, nonempty-snoc, length-snoc,
}
use kineircd.Irc2User.Support.{send_chunks, send_isupport, max_output_length}

-- The replies are the tags in order, in groups of at most 14, each within one character of the
-- limit.
pub record AreChunks (limit : ℕ) (tags outputs : List Text) : Type 0 where
  pub groups : List (List Text)
  pub sent : outputs ≡ map spaced groups
  pub complete : concat groups ≡ tags
  pub few : All (λ g. length g ≤ 14) groups
  pub short : All (λ o. length o ≤ limit + 1) outputs

-- A chunk in front of the others.
AreChunks-cons :
    (limit : ℕ) (g tags outputs : List Text)
    → length g ≤ 14
    → length (spaced g) ≤ limit + 1
    → AreChunks limit tags outputs
    → AreChunks limit (g ++ tags) (spaced g ∷ outputs)
AreChunks-cons limit g tags outputs few short h = record {
  groups = g ∷ h.groups;
  sent = ap (λ os. spaced g ∷ os) h.sent;
  complete = ap (λ ws. g ++ ws) h.complete;
  few = (few, h.few);
  short = (short, h.short);
}

module _ (limit : ℕ) where
  -- The loop, with the group `g` in the output.
  send_chunks-AreChunks :
      (params : ℕ) (g tags : List Text)
      → params ≤ 13
      → length g ≤ params + 1
      → length (spaced g) ≤ limit + 1
      → All (λ w. w ≢ []) g
      → All (λ w. (w ≢ []) × (length w ≤ limit)) tags
      → AreChunks limit (g ++ tags) (send_chunks limit params (spaced g) tags)
  unfolding send_chunks
  send_chunks-AreChunks params [] [] p n s a b = record {
    groups = [];
    sent = refl;
    complete = refl;
    few = tt;
    short = tt;
  }
  send_chunks-AreChunks params (w ∷ g) [] p n s a b = rw (is_empty-spaced (w ∷ g) a) (
      AreChunks-cons limit (w ∷ g) [] [] (omega arith) s
        (record { groups = []; sent = refl; complete = refl; few = tt; short = tt }))
  send_chunks-AreChunks params g (tag ∷ tags) p n s a b =
      elim (Bool-cases (ltb 13 (params + 1) || ltb limit (length (spaced g) + length tag))) [
        | inl e ↦ rw e (
            AreChunks-cons limit g (tag ∷ tags) _ (omega arith) s (
              send_chunks-AreChunks 0 (tag ∷ []) tags (omega arith) (omega arith) (omega arith)
                (b.0.0, tt) b.1))
        | inr e ↦
            let next = g ++ tag ∷ [] in
            let fits : length (spaced next) ≤ limit + 1 = ground (arith, length-snoc g tag) in
            rw (e, added-spaced g tag a)
              (subst (λ ws. AreChunks limit ws (send_chunks limit (params + 1) (spaced next) tags))
                (append_assoc g (tag ∷ []) tags)
                (send_chunks-AreChunks (params + 1) next tags (ground arith)
                  (omega (arith, length-append g (tag ∷ []))) fits (nonempty-snoc g tag a b.0.0)
                  b.1))
      ]

-- If no tag is empty or longer than the limit, the tags are sent in order, in groups of at most
-- 14, each output within one character of the limit.
pub send_isupport-AreChunks :
    (suffix nickname server : ℕ) (tags : List Text)
    → All (λ w. (w ≢ []) × (length w ≤ max_output_length suffix nickname server)) tags
    → AreChunks
        (max_output_length suffix nickname server)
        tags
        (send_isupport suffix nickname server tags)
unfolding send_isupport
send_isupport-AreChunks suffix nickname server tags h =
    send_chunks-AreChunks (max_output_length suffix nickname server) 0 [] tags (omega arith)
      (omega arith) (omega arith) tt h
