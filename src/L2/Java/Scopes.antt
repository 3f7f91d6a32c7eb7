-- ===== src/L2/Java/Scopes.antt =====
-- `walk_method` of src/pqpatch/verifier/l2_dataflow/java_flow.py stays in its method.
use nesy_pqpatch.Prelude.{
  ◌≡◌, refl, true, false, Bool-cases, inl, inr, not, ◌&&◌, some, List, [], ◌∷◌, All, All-append,
  arith,
}
use nesy_pqpatch.L2.Java.{
  Kind, Node, node, Children, end, child, Place, place, kind_at, excluded_scope, is_method,
  is_lambda, visit, walk_method, method_from, method_ancestor,
}

-- The node belongs to the method.
abbrev pub BelongsTo : Place → Place → Type 0
BelongsTo method q = method_ancestor q ≡ some method

not_scope : (k : Kind) → excluded_scope k ≡ false → (is_lambda k ≡ false) × (is_method k ≡ false)
not_scope k h = ground (arith, h)

belongs-child :
    (method : Place) (above : List Node) (p n : Node)
    → BelongsTo method (place above p)
    → excluded_scope (kind_at (place (p ∷ above) n)) ≡ false
    → BelongsTo method (place (p ∷ above) n)
unfolding method_ancestor method_from
belongs-child method above p n h s = let (l, m) = not_scope _ s in rw (l, m, method_from) h

method_not_lambda : (k : Kind) → is_method k ≡ true → is_lambda k ≡ false
method_not_lambda k h = ground (arith, h)

itself :
    (above : List Node) (n : Node)
    → is_method (kind_at (place above n)) ≡ true
    → BelongsTo (place above n) (place above n)
unfolding method_ancestor method_from
itself [] n m = rw (method_not_lambda _ m, m) refl
itself (p ∷ above) n m = rw (method_not_lambda _ m, m) refl

visit-belongs :
    (method : Place) (above : List Node) (p : Node) (cs : Children)
    → BelongsTo method (place above p)
    → All (BelongsTo method) (visit (p ∷ above) cs)
unfolding visit
visit-belongs method above p end h = tt
visit-belongs method above p (child slot (node i inner) cs) h =
    elim (Bool-cases (slot.named && not (excluded_scope i.kind))) [
      | inl t ↦
          let here = belongs-child method above p (node i inner) h (ground (arith, t)) in
          rw (t, visit)
            (
              here,
              All-append _ (visit (node i inner ∷ p ∷ above) inner) (visit (p ∷ above) cs)
                  (visit-belongs method (p ∷ above) (node i inner) inner here)
                  (visit-belongs method above p cs h),
            )
      | inr f ↦ rw (f, visit) (visit-belongs method above p cs h)
    ]

-- What an analysis visits of a method or a constructor belongs to it: the nearest method around
-- each node is that one, and no lambda stands in between.
pub walk_method-BelongsTo :
    (method : Place)
    → is_method (kind_at method) ≡ true
    → All (BelongsTo method) (walk_method method)
unfolding walk_method
walk_method-BelongsTo (place above (node i cs)) m =
    let own = itself above (node i cs) m in
    (own, visit-belongs (place above (node i cs)) above (node i cs) cs own)
