-- ===== src/Diff/Apply/Edits/Emit.antt =====
-- The loops of `apply_unified_diff` (src/pqpatch/verifier/rules/diffapply.py) against `Edits`.
use nesy_pqpatch.Prelude.{
  ℕ, zero, suc, ◌+◌, ◌≤◌, ◌<◌, Text, strip, ◌≡◌, refl, sym, ap, ◌∙◌, subst, false, some, List, [],
  ◌∷◌, ◌++◌, map, length, get_elem?, take, drop, slice, slice-append-drop, append_assoc, ltb, arith,
}
use nesy_pqpatch.Python.{ok, >>=-eq-ok}
use nesy_pqpatch.Diff.Hunks.{Tag, context, minus, plus, Hunk}
use nesy_pqpatch.Diff.Locate.{block_at, locate}
use nesy_pqpatch.Diff.Locate.Closest.{locate_iff}
use nesy_pqpatch.Diff.Apply.{old_block, emit, position, apply_from}
use nesy_pqpatch.Diff.Apply.Edits.{Body, done, kept, removed, added, Edits, unchanged, edit}

get_elem?-drop :
    (xs : List Text) (k : ℕ)
    → k < length xs
    → (x : Text) × (get_elem? xs k ≡ some x) × (drop k xs ≡ x ∷ drop (k + 1) xs)
get_elem?-drop [] k h = absurd (omega arith)
get_elem?-drop (x ∷ xs) zero h = (x, refl, refl)
get_elem?-drop (x ∷ xs) (suc k) h =
    let (y, e, d) = get_elem?-drop xs k (omega arith) in
    let n : suc (k + 1) ≡ suc k + 1 = omega arith in
    (y, e, subst (λ m. drop k xs ≡ y ∷ drop m (x ∷ xs)) n d)

cons-injective : {x y : Text} {xs ys : List Text} → x ∷ xs ≡ y ∷ ys → (x ≡ y) × (xs ≡ ys)
cons-injective h = (cc, cc)

-- The block of a hunk stands at `k`, up to the whitespace at the ends of lines.
record Fits (original : List Text) (k : ℕ) (lines : List (Tag × Text)) : Type 0 where
  room : k + length (old_block lines) ≤ length original
  same : map strip (take (length (old_block lines)) (drop k original)) ≡ map strip (old_block lines)

-- What `emit` returns where the block fits.
pub record Emits (original : List Text) (k : ℕ) (lines : List (Tag × Text)) : Type 0 where
  pub old : List Text
  pub new : List Text
  pub emits : emit original k lines ≡ ok (new, k + length (old_block lines))
  pub body : Body lines old new
  pub split : drop k original ≡ old ++ drop (k + length (old_block lines)) original

module _ (original : List Text) where
  Fits-cons :
      (k : ℕ) (t : Text) (lines : List (Tag × Text)) (tag : Tag)
      → old_block ((tag, t) ∷ lines) ≡ t ∷ old_block lines
      → Fits original k ((tag, t) ∷ lines)
      → (line : Text) × (get_elem? original k ≡ some line)
        × (drop k original ≡ line ∷ drop (k + 1) original)
        × (strip line ≡ strip t)
        × Fits original (k + 1) lines
  Fits-cons k t lines tag e f =
      let room : k + suc (length (old_block lines)) ≤ length original = rw e at f.room in
      let (line, g, d) = get_elem?-drop original k (omega arith) in
      let (first, rest) = cons-injective (rw (e, d) at f.same) in
      (line, g, d, first, record { room = omega arith; same = rest })

  next_line : (k : ℕ) (n : ℕ) → k + 1 + n ≡ k + suc n
  next_line k n = omega arith

  module _ (k : ℕ) (t line : Text) (lines : List (Tag × Text)) where
    Emits-plus : Emits original k lines → Emits original k ((plus, t) ∷ lines)
    unfolding emit old_block
    Emits-plus r = record {
      old = r.old;
      new = t ∷ r.new;
      emits = rw r.emits;
      body = added r.body;
      split = r.split;
    }

    module _ (d : drop k original ≡ line ∷ drop (k + 1) original)
        (same : strip line ≡ strip t) where
      split_next :
          (old : List Text)
          → drop (k + 1) original ≡ old ++ drop (k + 1 + length (old_block lines)) original
          → drop k original ≡ line ∷ (old ++ drop (k + suc (length (old_block lines))) original)
      split_next old e =
          d
          ∙ ap (λ r. line ∷ r)
              (subst (λ n. drop (k + 1) original ≡ old ++ drop n original)
                (next_line k (length (old_block lines))) e)

      Emits-minus : Emits original (k + 1) lines → Emits original k ((minus, t) ∷ lines)
      unfolding emit old_block
      Emits-minus r = record {
        old = line ∷ r.old;
        new = r.new;
        emits = r.emits ∙ ap (λ n. ok (r.new, n)) (next_line k (length (old_block lines)));
        body = removed same r.body;
        split = split_next r.old r.split;
      }

      Emits-context :
          get_elem? original k ≡ some line
          → Emits original (k + 1) lines
          → Emits original k ((context, t) ∷ lines)
      unfolding emit old_block
      Emits-context g r = record {
        old = line ∷ r.old;
        new = line ∷ r.new;
        emits =
            rw (g, emit, r.emits)
              (ap (λ n. ok (line ∷ r.new, n)) (next_line k (length (old_block lines))));
        body = kept same r.body;
        split = split_next r.old r.split;
      }

  add_none : (k : ℕ) → k ≡ k + 0
  add_none k = omega arith

  -- A hunk's body whose block fits runs to the end of the block, and never reads past the file.
  emit-Emits : (lines : List (Tag × Text)) (k : ℕ) → Fits original k lines → Emits original k lines
  unfolding emit old_block
  emit-Emits [] k f = record {
    old = [];
    new = [];
    emits = ap (λ n. ok ([], n)) (add_none k);
    body = done;
    split = ap (λ n. drop n original) (add_none k);
  }
  emit-Emits ((plus, t) ∷ lines) k f =
      Emits-plus k t t lines (emit-Emits lines k (record { room = f.room; same = f.same }))
  emit-Emits ((minus, t) ∷ lines) k f =
      let (line, g, d, same, f') = Fits-cons k t lines minus refl f in
      Emits-minus k t line lines d same (emit-Emits lines (k + 1) f')
  emit-Emits ((context, t) ∷ lines) k f =
      let (line, g, d, same, f') = Fits-cons k t lines context refl f in
      Emits-context k t line lines d same g (emit-Emits lines (k + 1) f')

  -- Where a hunk goes: at or after the cursor, in the file, and where its block fits.
  position-Fits :
      (cursor : ℕ) (h : Hunk) (pos : ℕ)
      → cursor ≤ length original
      → position original cursor h ≡ ok pos
      → (cursor ≤ pos) × Fits original pos h.lines
  unfolding position block_at
  position-Fits cursor h pos room e = go (old_block h.lines) refl e
    where
      go :
          (block : List Text)
          → old_block h.lines ≡ block
          → position original cursor h ≡ ok pos
          → (cursor ≤ pos) × Fits original pos h.lines
      go [] b p = (ground (arith, b, p), record { room = rw b (ground (arith, b, p)); same = rw b })
      go (x ∷ xs) b p =
          let found : locate original (x ∷ xs) cursor h.old_start ≡ ok pos =
            rw (b, position) at p in
          let m = ((locate_iff original (x ∷ xs) cursor h.old_start pos).0 found).0 in
          (m.after_cursor, record { room = rw b m.fits; same = rw b m.same })

  ltb_of_le : (cursor pos : ℕ) → cursor ≤ pos → ltb pos cursor ≡ false
  ltb_of_le cursor pos h = ground arith

  module _ (result : List Text) (cursor : ℕ) (h : Hunk) (hs : List Hunk) where
    -- One turn of the loop over the hunks, once its place is known.
    pub apply_from-turn :
        (pos : ℕ)
        → cursor ≤ length original
        → (p : position original cursor h ≡ ok pos)
        → (r : Emits original pos h.lines) × (cursor ≤ pos)
          × (pos + length (old_block h.lines) ≤ length original)
          × (apply_from original result cursor (h ∷ hs)
              ≡ apply_from original
                  (result ++ (slice cursor pos original ++ r.new))
                  (pos + length (old_block h.lines))
                  hs)
    unfolding apply_from
    apply_from-turn pos room p =
        let (le, f) = position-Fits cursor h pos room p in
        let r = emit-Emits h.lines pos f in
        (r, le, f.room, ground (arith, p, ltb_of_le cursor pos le, r.emits))

    apply_from-place :
        (out : List Text)
        → apply_from original result cursor (h ∷ hs) ≡ ok out
        → (pos : ℕ) × (position original cursor h ≡ ok pos)
    unfolding apply_from
    apply_from-place out e = let (pos, p, _) = >>=-eq-ok _ _ e in (pos, p)

  regroup : (a b c d : List Text) → (a ++ (b ++ c)) ++ d ≡ a ++ (b ++ (c ++ d))
  regroup a b c d = simp append_assoc

  apply_from-none :
      (result : List Text) (cursor : ℕ) (out : List Text)
      → apply_from original result cursor [] ≡ ok out
      → out ≡ result ++ drop cursor original
  unfolding apply_from
  apply_from-none result cursor out e = cc

  -- The loop over the hunks appends to the result an edit of what stands from the cursor on.
  pub apply_from-Edits :
      (hs : List Hunk) (result : List Text) (cursor : ℕ) (out : List Text)
      → cursor ≤ length original
      → apply_from original result cursor hs ≡ ok out
      → (edited : List Text) × (out ≡ result ++ edited) × Edits (drop cursor original) hs edited
  apply_from-Edits [] result cursor out room e =
      (drop cursor original, apply_from-none result cursor out e, unchanged (drop cursor original))
  apply_from-Edits (h ∷ hs) result cursor out room e =
      let (pos, p) = apply_from-place result cursor h hs out e in
      let (r, le, fits, turn) = apply_from-turn result cursor h hs pos room p in
      let (edited, o, rest) =
        apply_from-Edits hs (result ++ (slice cursor pos original ++ r.new))
          (pos + length (old_block h.lines)) out fits (sym turn ∙ e) in
      (
        slice cursor pos original ++ (r.new ++ edited),
        o ∙ regroup result (slice cursor pos original) r.new edited,
        edit (slice cursor pos original) r.old r.new
            (drop (pos + length (old_block h.lines)) original) edited
            (sym (slice-append-drop cursor pos original le)
              ∙ ap (λ x. slice cursor pos original ++ x) r.split)
            r.body rest refl,
      )
