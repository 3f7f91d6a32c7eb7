-- ===== src/L2/VerifyUse/Tracking.antt =====
-- What PQ-VER-01 finds in the events after a call of `verify`: a branch or a return that reads a
-- variable with its result.
use nesy_pqpatch.Prelude.{
  ◌≡◌, ◌↔◌, refl, sym, ap, ◌∙◌, Text, text_eq, Bool, true, false, Bool-cases, inl, inr, ◌&&◌, ◌||◌,
  Option, none, some, List, [], ◌∷◌, any, arith, if◌then◌else◌,
}
use nesy_pqpatch.L2.Sets.{text_eq_comm, member, meets, discard, member-add, member-discard}
use nesy_pqpatch.L2.Machine.{hits, Hits, hits_iff}
use nesy_pqpatch.L2.VerifyUse.{
  VerifyUse, checked, discarded, indeterminate, Event, assign, reads, holds, reassign, track,
}

-- Whether a variable holds the result.
abbrev pub Holders : Type 0
Holders = Text → Bool

abbrev pub only : Text → Holders
only name = λ x. text_eq x name

abbrev pub nobody : Holders
nobody = λ x. false

abbrev pub result_in : Holders → Option Text → Bool
result_in holders none = false
result_in holders (some x) = holders x

-- An assignment changes its variable only; to declare a variable that holds the result again ends
-- the search.
abbrev pub next_holders : Event → Holders → Holders
next_holders (reads names) holders = holders
next_holders (assign left right declaration) holders =
    if declaration && holders left then nobody else λ x.
    if text_eq x left then result_in holders right else holders x

-- A branch or a return reads a variable that holds the result.
abbrev pub tests : Holders → Event → Bool
tests holders (reads names) = any holders names
tests holders (assign left right declaration) = false

abbrev Represents : List Text → Holders → Type 0
Represents tracked holders = (x : Text) → member x tracked ≡ holders x

meets-any :
    (names tracked : List Text) (holders : Holders)
    → Represents tracked holders
    → meets names tracked ≡ any holders names
meets-any [] tracked holders r = refl
meets-any (x ∷ xs) tracked holders r =
    rw (r x) (ap (λ b. holders x || b) (meets-any xs tracked holders r))

holds-result_in :
    (right : Option Text) (tracked : List Text) (holders : Holders)
    → Represents tracked holders
    → holds right tracked ≡ result_in holders right
holds-result_in none tracked holders r = refl
holds-result_in (some x) tracked holders r = r x

member-reassign :
    (left x : Text) (held : Bool) (tracked : List Text)
    → member x (reassign left held tracked) ≡ (if text_eq x left then held else member x tracked)
unfolding reassign
member-reassign left x true tracked =
    member-add left x (discard left tracked)
    ∙ ground (arith, member-discard left x tracked, text_eq_comm left x)
member-reassign left x false tracked =
    member-discard left x tracked ∙ ground (arith, text_eq_comm left x)

meets-none : (names : List Text) → meets names [] ≡ false
meets-none [] = refl
meets-none (x ∷ xs) = meets-none xs

next-nobody :
    (left : Text) (right : Option Text) (declaration : Bool) (holders : Holders)
    → Represents [] holders
    → Represents [] (next_holders (assign left right declaration) holders)
next-nobody left none declaration holders r x = ground (arith, r x, r left)
next-nobody left (some y) declaration holders r x = ground (arith, r x, r y, r left)

-- When no variable holds the result, none will.
hits-nobody :
    (holders : Holders) (es : List Event)
    → Represents [] holders
    → hits next_holders tests holders es ≡ false
hits-nobody holders [] r = refl
hits-nobody holders (reads names ∷ es) r =
    rw (sym (meets-any names [] holders r), meets-none names) (hits-nobody holders es r)
hits-nobody holders (assign left right declaration ∷ es) r =
    hits-nobody (next_holders (assign left right declaration) holders) es
      (next-nobody left right declaration holders r)

is_checked : VerifyUse → Bool
is_checked checked = true
is_checked discarded = false
is_checked indeterminate = false

reassign-Represents :
    (left : Text) (right : Option Text) (tracked : List Text) (holders : Holders)
    → Represents tracked holders
    → Represents
        (reassign left (holds right tracked) tracked)
        (λ x. if text_eq x left then result_in holders right else holders x)
reassign-Represents left right tracked holders r x =
    member-reassign left x (holds right tracked) tracked
    ∙ (ap (λ b. if text_eq x left then b else member x tracked)
          (holds-result_in right tracked holders r)
        ∙ ap (λ b. if text_eq x left then result_in holders right else b) (r x))

-- The loop stops when no variable holds the result any more.
track-stop :
    (tracked : List Text) (holders : Holders) (es : List Event)
    → Represents tracked holders
    → is_checked (track tracked es) ≡ hits next_holders tests holders es
    → is_checked (elim tracked [ [] ↦ discarded | x ∷ xs ↦ track (x ∷ xs) es ])
      ≡ hits next_holders tests holders es
unfolding is_checked
track-stop [] holders es r h = sym (hits-nobody holders es r)
track-stop (x ∷ xs) holders es r h = h

track-hits :
    (tracked : List Text) (holders : Holders) (es : List Event)
    → Represents tracked holders
    → is_checked (track tracked es) ≡ hits next_holders tests holders es
unfolding track is_checked
track-hits tracked holders [] r = refl
track-hits tracked holders (reads names ∷ es) r = elim (Bool-cases (meets names tracked)) [
  | inl t ↦ let m = sym (meets-any names tracked holders r) ∙ t in rw (t, m, track) refl
  | inr n ↦
      let m = sym (meets-any names tracked holders r) ∙ n in
      rw (n, m, track) (track-hits tracked holders es r)
]
track-hits tracked holders (assign left right declaration ∷ es) r =
    elim (Bool-cases (declaration && member left tracked)) [
      | inl t ↦
          let m = sym (ap (λ b. declaration && b) (r left)) ∙ t in
          rw (t, m, track) (sym (hits-nobody nobody es (λ x. refl)))
      | inr n ↦
          let m = sym (ap (λ b. declaration && b) (r left)) ∙ n in
          let rest = reassign-Represents left right tracked holders r in
          rw (n, m, track)
            (track-stop _ _ es rest
              (track-hits (reassign left (holds right tracked) tracked) _ es rest))
    ]

is_checked-checked : (u : VerifyUse) → is_checked u ≡ true → u ≡ checked
unfolding is_checked
is_checked-checked checked h = refl
is_checked-checked discarded h = cc
is_checked-checked indeterminate h = cc

-- The result that a variable takes is found to be checked exactly when some branch or return reads
-- a variable that holds it, as the events before assign it: an assignment of a bare variable hands
-- it on, any other overwrites it, and to declare a holder again loses it.
pub track-checked_iff :
    (name : Text) (es : List Event)
    → (track (name ∷ []) es ≡ checked) ↔ Hits next_holders tests (only name) es
unfolding is_checked
track-checked_iff name es =
    let same = track-hits (name ∷ []) (only name) es (λ x. ground arith) in
    let found = hits_iff next_holders tests (only name) es in
    ((λ h. found.0 (sym same ∙ ap is_checked h)), (λ h. is_checked-checked _ (same ∙ found.1 h)))
