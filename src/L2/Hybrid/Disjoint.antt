-- ===== src/L2/Hybrid/Disjoint.antt =====
-- The secrets that PQ-HYB-02 and PQ-HYB-03 follow: a variable holds one of one family at most.
use nesy_pqpatch.Prelude.{◌≡◌, Text, false, ◌&&◌, List, [], ◌∷◌, arith}
use nesy_pqpatch.L2.Sets.{member, discard, member-add, member-discard, text_eq_comm}
use nesy_pqpatch.L2.Hybrid.{
  Origin, classical_secret, pq_secret, expression, Assignment, Secrets, take_classical, take_pq,
  take_expression, take_assignment, secrets_after, take_origin, produce_origin, produced_by,
  produced,
}

-- No variable holds a secret of both families.
abbrev pub IsDisjoint : Secrets → Type 0
IsDisjoint s = (x : Text) → (member x s.classical && member x s.pq) ≡ false

take_classical-IsDisjoint :
    (left : Text) (s : Secrets) → IsDisjoint s → IsDisjoint (take_classical left s)
unfolding take_classical
take_classical-IsDisjoint left s d x =
    ground
      (arith, d x, member-add left x s.classical, member-discard left x s.pq, text_eq_comm left x)

take_pq-IsDisjoint : (left : Text) (s : Secrets) → IsDisjoint s → IsDisjoint (take_pq left s)
unfolding take_pq
take_pq-IsDisjoint left s d x =
    ground
      (arith, d x, member-add left x s.pq, member-discard left x s.classical, text_eq_comm left x)

take_expression-IsDisjoint :
    (left : Text) (ids : List Text) (s : Secrets)
    → IsDisjoint s
    → IsDisjoint (take_expression left ids s)
unfolding take_expression
take_expression-IsDisjoint left ids s d x = ground (
  arith,
  d x,
  member-discard left x s.classical,
  member-discard left x s.pq,
  member-add left x (discard left s.classical),
  member-add left x (discard left s.pq),
  text_eq_comm left x,
)

take_origin-IsDisjoint :
    (left : Text) (o : Origin) (s : Secrets) → IsDisjoint s → IsDisjoint (take_origin left o s)
unfolding take_origin
take_origin-IsDisjoint left classical_secret s d = take_classical-IsDisjoint left s d
take_origin-IsDisjoint left pq_secret s d = take_pq-IsDisjoint left s d
take_origin-IsDisjoint left (expression ids) s d = take_expression-IsDisjoint left ids s d

produce_origin-IsDisjoint :
    (left : Text) (o : Origin) (s : Secrets) → IsDisjoint s → IsDisjoint (produce_origin left o s)
unfolding produce_origin
produce_origin-IsDisjoint left classical_secret s d = take_classical-IsDisjoint left s d
produce_origin-IsDisjoint left pq_secret s d = take_pq-IsDisjoint left s d
produce_origin-IsDisjoint left (expression ids) s d = d

-- Whatever a method assigns, the analysis of PQ-HYB-02 keeps its two sets disjoint: from disjoint
-- ones, no variable is ever taken for a holder of a secret of both families.
pub secrets_after-IsDisjoint :
    (assigned : List Assignment) (s : Secrets)
    → IsDisjoint s
    → IsDisjoint (secrets_after s assigned)
unfolding secrets_after take_assignment
secrets_after-IsDisjoint [] s d = d
secrets_after-IsDisjoint (a ∷ assigned) s d =
    secrets_after-IsDisjoint assigned (take_assignment a s)
      (take_origin-IsDisjoint a.left a.origin s d)

-- The same holds of the sets that PQ-HYB-03 keeps.
pub produced-IsDisjoint :
    (assigned : List Assignment) (s : Secrets) → IsDisjoint s → IsDisjoint (produced s assigned)
unfolding produced produced_by
produced-IsDisjoint [] s d = d
produced-IsDisjoint (a ∷ assigned) s d =
    produced-IsDisjoint assigned (produced_by a s) (produce_origin-IsDisjoint a.left a.origin s d)
