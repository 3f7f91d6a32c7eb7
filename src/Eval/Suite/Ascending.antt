-- ===== src/Eval/Suite/Ascending.antt =====
-- What is known of a suite that src/pqpatch/eval/traps.py loads: its traps, each valid, in the order
-- of their ids, no two of which are equal.
use mathlib.Core.List.{Perm}
use mathlib.Core.List.Perm
use nesy_pqpatch.Prelude.{
  ◌≡◌, refl, subst, Text, text_eq, true, false, Bool-cases, Option-cases, inl, inr, none, List, [],
  ◌∷◌, All, arith,
}
use nesy_pqpatch.Python.{ok, >>=-eq-ok, ok-eq}
use nesy_pqpatch.Trace.Dumps.{text_lt}
use nesy_pqpatch.L2.Sets.{get, set, get-set}
use nesy_pqpatch.Eval.Traps.{Load, load_trap, invalid}
use nesy_pqpatch.Eval.TrapData.{TrapSpec}
use nesy_pqpatch.Eval.Traps.Valid.{IsValid, load_trap-IsValid}
use nesy_pqpatch.Eval.Suite.{load_all, check_ids, insert_spec, sort_specs, load_trap_suite}

-- before all of a list
abbrev pub Before : TrapSpec → List TrapSpec → Type 0
Before s = All (λ t. text_lt s.trap_id t.trap_id ≡ true)

abbrev pub IsAscending : List TrapSpec → Type 0
IsAscending [] = Unit
IsAscending (s ∷ ss) = Before s ss × IsAscending ss

-- another id than all of a list
abbrev Fresh : TrapSpec → List TrapSpec → Type 0
Fresh s = All (λ t. text_eq t.trap_id s.trap_id ≡ false)

abbrev DistinctIds : List TrapSpec → Type 0
DistinctIds [] = Unit
DistinctIds (s ∷ ss) = Fresh s ss × DistinctIds ss

text_lt_trans : (a b c : Text) → text_lt a b ≡ true → text_lt b c ≡ true → text_lt a c ≡ true
unfolding text_lt
text_lt_trans a [] [] h k = cc
text_lt_trans a (y ∷ b) [] h k = cc
text_lt_trans [] b (z ∷ c) h k = refl
text_lt_trans (x ∷ a) [] (z ∷ c) h k = cc
text_lt_trans (x ∷ a) (y ∷ b) (z ∷ c) h k = ground (arith, h, k, text_lt_trans a b c)

text_lt_total : (a b : Text) → text_eq b a ≡ false → text_lt b a ≡ false → text_lt a b ≡ true
unfolding text_lt text_eq
text_lt_total [] [] n h = cc
text_lt_total [] (y ∷ b) n h = refl
text_lt_total (x ∷ a) [] n h = cc
text_lt_total (x ∷ a) (y ∷ b) n h = ground (arith, n, h, text_lt_total a b)

module _ (P : TrapSpec → Type 0) where
  All-insert_spec : (s : TrapSpec) (ts : List TrapSpec) → P s → All P ts → All P (insert_spec s ts)
  unfolding insert_spec
  All-insert_spec s [] p h = (p, tt)
  All-insert_spec s (t ∷ ts) p h = elim (Bool-cases (text_lt t.trap_id s.trap_id)) [
    | inl y ↦ rw y (h.0, All-insert_spec s ts p h.1)
    | inr n ↦ rw n (p, h)
  ]

  All-sort_specs : (ss : List TrapSpec) → All P ss → All P (sort_specs ss)
  unfolding sort_specs
  All-sort_specs [] h = tt
  All-sort_specs (s ∷ ss) h = All-insert_spec s (sort_specs ss) h.0 (All-sort_specs ss h.1)

  All-imp :
      {Q : TrapSpec → Type 0}
      → ((t : TrapSpec) → P t → Q t)
      → (ts : List TrapSpec) → All P ts
      → All Q ts
  All-imp f [] h = tt
  All-imp f (t ∷ ts) h = (f t h.0, All-imp f ts h.1)

insert_spec-IsAscending :
    (s : TrapSpec) (ts : List TrapSpec)
    → Fresh s ts
    → IsAscending ts
    → IsAscending (insert_spec s ts)
unfolding insert_spec
insert_spec-IsAscending s [] f a = (tt, tt)
insert_spec-IsAscending s (t ∷ ts) f a = elim (Bool-cases (text_lt t.trap_id s.trap_id)) [
  | inl y ↦ rw y (All-insert_spec _ s ts y a.0, insert_spec-IsAscending s ts f.1 a.1)
  | inr n ↦
      let first = text_lt_total s.trap_id t.trap_id f.0 n in
      rw n
        ((first, All-imp _ (λ u h. text_lt_trans s.trap_id t.trap_id u.trap_id first h) ts a.0), a)
]

sort_specs-IsAscending : (ss : List TrapSpec) → DistinctIds ss → IsAscending (sort_specs ss)
unfolding sort_specs
sort_specs-IsAscending [] d = tt
sort_specs-IsAscending (s ∷ ss) d =
    insert_spec-IsAscending s (sort_specs ss) (All-sort_specs _ ss d.0)
      (sort_specs-IsAscending ss d.1)

insert_spec-Perm : (s : TrapSpec) (ts : List TrapSpec) → Perm (insert_spec s ts) (s ∷ ts)
unfolding insert_spec
insert_spec-Perm s [] = Perm.rfl
insert_spec-Perm s (t ∷ ts) = elim (Bool-cases (text_lt t.trap_id s.trap_id)) [
  | inl y ↦ rw y (Perm.trans (Perm.cons t (insert_spec-Perm s ts)) (Perm.swap s t ts))
  | inr n ↦ rw n Perm.rfl
]

sort_specs-Perm : (ss : List TrapSpec) → Perm (sort_specs ss) ss
unfolding sort_specs
sort_specs-Perm [] = Perm.rfl
sort_specs-Perm (s ∷ ss) =
    Perm.trans (insert_spec-Perm s (sort_specs ss)) (Perm.cons s (sort_specs-Perm ss))

-- an id that is not seen
abbrev Unseen : List (Text × Text) → TrapSpec → Type 0
Unseen seen t = get t.trap_id seen ≡ none

check_ids-distinct :
    (seen : List (Text × Text)) (specs : List TrapSpec) (u : Unit {0})
    → check_ids seen specs ≡ ok u
    → All (Unseen seen) specs × DistinctIds specs
unfolding check_ids invalid
check_ids-distinct seen [] u h = (tt, tt)
check_ids-distinct seen (s ∷ ss) u h = elim (Option-cases (get s.trap_id seen)) [
  | inl n ↦
      let (unseen, distinct) =
        check_ids-distinct (set s.trap_id s.source_file seen) ss u (rw (n, check_ids) at h) in
      (
        (
          n,
          All-imp _ (λ t e. ground (arith, e, get-set s.trap_id t.trap_id s.source_file seen)) ss
              unseen,
        ),
        (
          All-imp _ (λ t e. ground (arith, e, get-set s.trap_id t.trap_id s.source_file seen)) ss
              unseen,
          distinct,
        ),
      )
  | inr (file, e) ↦ absurd (ground (arith, h, e))
]

load_all-IsValid :
    (load : Load) (paths : List Text) (specs : List TrapSpec)
    → load_all load paths ≡ ok specs
    → All IsValid specs
unfolding load_all
load_all-IsValid load [] specs h = subst (All IsValid) (ok-eq h) tt
load_all-IsValid load (path ∷ paths) specs h =
    let (s, loaded, h1) = >>=-eq-ok (load_trap load path) _ h in
    let (ss, rest, h2) = >>=-eq-ok (load_all load paths) _ h1 in
    subst (All IsValid) (ok-eq h2)
      ((load_trap-IsValid load path s loaded).0, load_all-IsValid load paths ss rest)

-- A suite that is loaded has the descriptors of all its paths, each valid, in strictly ascending
-- order of their ids: no two ids are the same.
pub load_trap_suite-IsAscending :
    (load : Load) (paths : List Text) (specs : List TrapSpec)
    → load_trap_suite load paths ≡ ok specs
    → (loaded : List TrapSpec) × (load_all load paths ≡ ok loaded)
      × Perm specs loaded
      × All IsValid specs
      × IsAscending specs
unfolding load_trap_suite
load_trap_suite-IsAscending load paths specs h =
    let (loaded, all_loaded, h1) = >>=-eq-ok (load_all load paths) _ h in
    let (u, ids, h2) = >>=-eq-ok (check_ids [] loaded) _ h1 in
    subst
      (λ ss.
        (l : List TrapSpec) × (load_all load paths ≡ ok l)
        × Perm ss l
        × All IsValid ss
        × IsAscending ss)
      (ok-eq h2)
      (
        loaded,
        all_loaded,
        sort_specs-Perm loaded,
        All-sort_specs IsValid loaded (load_all-IsValid load paths loaded all_loaded),
        sort_specs-IsAscending loaded (check_ids-distinct [] loaded u ids).1,
      )
