-- ===== src/Diff/Apply/Place.antt =====
-- A diff of one hunk, applied where its block stands (src/pqpatch/verifier/rules/diffapply.py).
use nesy_pqpatch.Prelude.{
  suc, ◌+◌, ◌-◌, Text, strip, ◌≡◌, ◌≢◌, refl, sym, ap, ◌∙◌, List, [], ◌∷◌, ◌++◌, map, length,
  length-append, take, drop, drop-append, take-append, slice, append_assoc, arith,
}
use nesy_pqpatch.Python.{ok}
use nesy_pqpatch.Diff.Hunks.{Tag, Hunk}
use nesy_pqpatch.Diff.Locate.{block_at, locate}
use nesy_pqpatch.Diff.Locate.Closest.{IsMatch, IsClosest, locate_iff}
use nesy_pqpatch.Diff.Apply.{old_block, position, apply_from}
use nesy_pqpatch.Diff.Apply.Edits.{Body, done, kept, removed, added}
use nesy_pqpatch.Diff.Apply.Edits.Emit.{Emits, apply_from-turn}

Body-old_block :
    {ls : List (Tag × Text)} {old new : List Text}
    → Body ls old new
    → (length old ≡ length (old_block ls)) × (map strip old ≡ map strip (old_block ls))
unfolding old_block
Body-old_block done = (refl, refl)
Body-old_block (kept e b) = let (n, m) = Body-old_block b in (ap suc n, cc)
Body-old_block (removed e b) = let (n, m) = Body-old_block b in (ap suc n, cc)
Body-old_block (added b) = Body-old_block b

-- What a body makes of a block is determined by the block.
Body-functional :
    {ls : List (Tag × Text)} {old new : List Text}
    → Body ls old new
    → (old' new' : List Text) → Body ls old' new'
    → old ≡ old'
    → new ≡ new'
Body-functional done old' new' done h = refl
Body-functional (kept e b) old' new' (kept {old = o} {new = n} e' b') h =
    cc (Body-functional b o n b' (cc))
Body-functional (removed e b) old' new' (removed {old = o} {new = n} e' b') h =
    Body-functional b o n b' (cc)
Body-functional (added b) old' new' (added {old = o} {new = n} b') h =
    cc (Body-functional b o n b' h)

-- Two prefixes of one list, of one length, are the same, and so are the rests.
same_prefix :
    (xs ys : List Text) {r s : List Text}
    → xs ++ r ≡ ys ++ s
    → length xs ≡ length ys
    → (xs ≡ ys) × (r ≡ s)
same_prefix [] [] e n = (refl, e)
same_prefix [] (y ∷ ys) e n = absurd (omega arith)
same_prefix (x ∷ xs) [] e n = absurd (omega arith)
same_prefix (x ∷ xs) (y ∷ ys) {r} {s} e n =
    let tails : xs ++ r ≡ ys ++ s = cc in
    let (p, q) = same_prefix xs ys tails (omega arith) in (cc (p, e), q)

module _ (h : Hunk) (before old new after : List Text) (body : Body h.lines old new) where
  abbrev pub file : List Text
  file = before ++ (old ++ after)

  block_there : IsMatch file (old_block h.lines) 0 (length before)
  unfolding block_at
  block_there =
      let (n, same) = Body-old_block body in
      record {
        after_cursor = omega arith;
        fits = omega (arith, length-append before (old ++ after), length-append old after, n);
        same = rw (← n) (
            ap (λ r. map strip (take (length old) r)) (drop-append before (old ++ after))
            ∙ ap (map strip) (take-append old after)
            ∙ same);
      }

  front : slice 0 (length before) file ≡ before
  front =
      let n : length before - 0 ≡ length before = omega arith in
      ap (λ k. take k file) n ∙ take-append before (old ++ after)

  back :
      (r : Emits file (length before) h.lines)
      → (new ≡ r.new) × (after ≡ drop (length before + length (old_block h.lines)) file)
  back r =
      let (o, rest) =
        same_prefix old r.old (sym (drop-append before (old ++ after)) ∙ r.split)
          ((Body-old_block body).0 ∙ sym (Body-old_block r.body).0) in
      (Body-functional body r.old r.new r.body o, rest)

  finish :
      (r : Emits file (length before) h.lines)
      → apply_from file
          (slice 0 (length before) file ++ r.new)
          (length before + length (old_block h.lines))
          []
        ≡ ok (before ++ (new ++ after))
  unfolding apply_from
  finish r =
      let (n, a) = back r in
      ap ok (
        ap (λ x. (x ++ r.new) ++ drop (length before + length (old_block h.lines)) file) front
        ∙ append_assoc before r.new (drop (length before + length (old_block h.lines)) file)
        ∙ ap (λ x. before ++ (x ++ drop (length before + length (old_block h.lines)) file)) (sym n)
        ∙ ap (λ x. before ++ (new ++ x)) (sym a))

  placed :
      (xs : List Text)
      → old_block h.lines ≡ xs
      → xs ≢ []
      → locate file (old_block h.lines) 0 h.old_start ≡ ok (length before)
      → position file 0 h ≡ ok (length before)
  unfolding position
  placed [] e n found = absurd (n refl)
  placed (x ∷ xs) e n found = rw (e, position) (rw e at found)

  -- Where the file holds a hunk's block, up to the whitespace at the ends of its lines, and no other
  -- match is as close to the header's line, the hunk replaces exactly that block: the lines before
  -- and after stay, and there is no error.
  pub apply_single_hunk :
      old_block h.lines ≢ []
      → IsClosest file (old_block h.lines) 0 h.old_start (length before)
      → apply_from file [] 0 (h ∷ []) ≡ ok (before ++ (new ++ after))
  apply_single_hunk block closest =
      let found =
        (locate_iff file (old_block h.lines) 0 h.old_start (length before)).1
          (block_there, closest) in
      let pos = placed (old_block h.lines) refl block found in
      let turn = apply_from-turn file [] 0 h [] (length before) (omega arith) pos in
      turn.3 ∙ finish turn.0
