-- ===== src/L2/KeyFlow/Keys.antt =====
-- What PQ-KEY-02 finds in the steps of a method: a sink that gets a key of the other family.
use nesy_pqpatch.Prelude.{
  ◌≡◌, ◌↔◌, refl, sym, ap, ◌∙◌, Text, text_eq, Bool, true, false, Bool-cases, Option-cases, inl,
  inr, not, ◌||◌, Option, none, some, List, [], ◌∷◌, any, if◌then◌else◌,
}
use nesy_pqpatch.L2.Sets.{get, get-set, get-pop}
use nesy_pqpatch.L2.Machine.{hits, Hits, hits_iff}
use nesy_pqpatch.L2.KeyFlow.{
  KeyFlow, cross_family, Family, same_family, FlowStep, assign, sink, Tracked, crosses, inherited,
  sole, assigned_family, retrack, key_flow,
}

-- The family of the key that a variable holds, if it is known.
abbrev pub Keys : Type 0
Keys = Text → Option Family

abbrev pub no_keys : Keys
no_keys x = none

-- the families that an expression can take over from its names
abbrev pub families : Keys → Text → List Text → List Family
families keys left [] = []
families keys left (x ∷ xs) = elim (keys x) [
  | none ↦ families keys left xs
  | some f ↦ if text_eq x left then families keys left xs else f ∷ families keys left xs
]

abbrev pub new_key : Keys → Text → Option Family → List Text → Option Family
new_key keys left (some f) alias_names = some f
new_key keys left none alias_names = sole (families keys left alias_names)

-- An assignment changes what its variable holds, and nothing else.
abbrev pub next_keys : FlowStep → Keys → Keys
next_keys (sink f used_names) keys = keys
next_keys (assign left source_family alias_names) keys =
    λ x. if text_eq x left then new_key keys left source_family alias_names else keys x

abbrev pub other_family : Family → Option Family → Bool
other_family f none = false
other_family f (some g) = not (same_family g f)

-- A sink of one family gets a name that holds a key of the other.
abbrev pub misuses : Keys → FlowStep → Bool
misuses keys (sink f used_names) = any (λ x. other_family f (keys x)) used_names
misuses keys (assign left source_family alias_names) = false

-- The dictionary holds what the variables hold.
abbrev Represents : Tracked → Keys → Type 0
Represents tracked keys = (x : Text) → get x tracked ≡ keys x

crosses-misuses :
    (f : Family) (tracked : Tracked) (keys : Keys) (names : List Text)
    → Represents tracked keys
    → crosses f tracked names ≡ any (λ x. other_family f (keys x)) names
unfolding crosses
crosses-misuses f tracked keys [] r = refl
crosses-misuses f tracked keys (x ∷ xs) r = elim (Option-cases (keys x)) [
  | inl n ↦ rw (r x, n) (crosses-misuses f tracked keys xs r)
  | inr (g, e) ↦
      rw (r x, e) (ap (λ b. not (same_family g f) || b) (crosses-misuses f tracked keys xs r))
]

inherited-families :
    (tracked : Tracked) (keys : Keys) (left : Text) (names : List Text)
    → Represents tracked keys
    → inherited tracked left names ≡ families keys left names
unfolding inherited
inherited-families tracked keys left [] r = refl
inherited-families tracked keys left (x ∷ xs) r = elim (Option-cases (keys x)) [
  | inl n ↦ rw (r x, n, inherited, families) (inherited-families tracked keys left xs r)
  | inr (f, e) ↦
      rw (r x, e, inherited, families)
        (ap (λ fs. if text_eq x left then fs else f ∷ fs)
          (inherited-families tracked keys left xs r))
]

assigned_family-new_key :
    (tracked : Tracked) (keys : Keys) (left : Text) (source_family : Option Family)
    (names : List Text)
    → Represents tracked keys
    → assigned_family tracked left source_family names ≡ new_key keys left source_family names
unfolding assigned_family
assigned_family-new_key tracked keys left (some f) names r = refl
assigned_family-new_key tracked keys left none names r =
    ap sole (inherited-families tracked keys left names r)

get-retrack :
    (left x : Text) (o : Option Family) (tracked : Tracked)
    → get x (retrack left o tracked) ≡ (if text_eq x left then o else get x tracked)
unfolding retrack
get-retrack left x none tracked = get-pop left x tracked
get-retrack left x (some f) tracked = get-set left x f tracked

retrack-Represents :
    (tracked : Tracked) (keys : Keys) (left : Text) (source_family : Option Family)
    (names : List Text)
    → Represents tracked keys
    → Represents
        (retrack left (assigned_family tracked left source_family names) tracked)
        (next_keys (assign left source_family names) keys)
retrack-Represents tracked keys left source_family names r x =
    get-retrack left x (assigned_family tracked left source_family names) tracked
    ∙ (ap (λ o. if text_eq x left then o else get x tracked)
          (assigned_family-new_key tracked keys left source_family names r)
        ∙ ap (λ o. if text_eq x left then new_key keys left source_family names else o) (r x))

-- what the loop returns, by the reference
flow_of : Bool → KeyFlow
flow_of true = cross_family
flow_of false = KeyFlow.consistent

key_flow-hits :
    (tracked : Tracked) (keys : Keys) (steps : List FlowStep)
    → Represents tracked keys
    → key_flow tracked steps ≡ flow_of (hits next_keys misuses keys steps)
unfolding key_flow flow_of
key_flow-hits tracked keys [] r = refl
key_flow-hits tracked keys (sink f names ∷ steps) r = elim (Bool-cases (crosses f tracked names)) [
  | inl t ↦ let m = sym (crosses-misuses f tracked keys names r) ∙ t in rw (t, m, key_flow) refl
  | inr n ↦
      let m = sym (crosses-misuses f tracked keys names r) ∙ n in
      rw (n, m, key_flow) (key_flow-hits tracked keys steps r)
]
key_flow-hits tracked keys (assign left source_family names ∷ steps) r =
    key_flow-hits (retrack left (assigned_family tracked left source_family names) tracked)
      (next_keys (assign left source_family names) keys) steps
      (retrack-Represents tracked keys left source_family names r)

flow_of-cross : (b : Bool) → flow_of b ≡ cross_family → b ≡ true
unfolding flow_of
flow_of-cross true h = refl
flow_of-cross false h = cc

-- The steps of a method are found to cross the families exactly when some step is a sink with a
-- name that holds a key of the other family, as the steps before it assign: a key of the family of
-- its source, or of the one family among the names that its expression takes over from.
pub key_flow-cross_iff :
    (steps : List FlowStep)
    → (key_flow [] steps ≡ cross_family) ↔ Hits next_keys misuses no_keys steps
unfolding flow_of get
key_flow-cross_iff steps =
    let same = key_flow-hits [] no_keys steps (λ x. refl) in
    let found = hits_iff next_keys misuses no_keys steps in
    ((λ h. found.0 (flow_of-cross _ (sym same ∙ h))), (λ h. same ∙ ap flow_of (found.1 h)))
