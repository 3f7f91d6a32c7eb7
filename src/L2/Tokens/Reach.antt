-- ===== src/L2/Tokens/Reach.antt =====
-- Which parameter tokens PQ-PARAM-02 finds to reach a getInstance call.
use nesy_pqpatch.Prelude.{
  ◌≡◌, ◌↔◌, refl, sym, ap, ◌∙◌, Text, text_eq, Bool, true, false, ◌||◌, Option, none, some, List,
  [], ◌∷◌, any, any-append, arith, if◌then◌else◌, Option-cases, inl, inr,
}
use nesy_pqpatch.L2.Sets.{member, get, get-set, get-pop, update, member-update}
use nesy_pqpatch.L2.Machine.{hits, Hits, hits_iff}
use nesy_pqpatch.L2.Tokens.{
  TokenStep, assign, sink, Taint, tokens_of, tokens_of_all, alias_tokens, assigned_tokens, retaint,
  token_flow,
}

module _ (token : Text) where
  -- Whether a variable may hold the token.
  abbrev pub Carriers : Type 0
  Carriers = Text → Bool

  abbrev pub no_carriers : Carriers
  no_carriers x = false

  -- the tokens of the expression itself, or those of the variable that it is
  abbrev pub carries : Carriers → List Text → Option Text → Bool
  carries carriers (t ∷ ts) alias = member token (t ∷ ts)
  carries carriers [] none = false
  carries carriers [] (some x) = carriers x

  abbrev pub next_carriers : TokenStep → Carriers → Carriers
  next_carriers (sink tokens used_names) carriers = carriers
  next_carriers (assign left tokens alias) carriers =
      λ x. if text_eq x left then carries carriers tokens alias else carriers x

  -- The arguments of the call have the token, or a name that may hold it.
  abbrev pub arrives : Carriers → TokenStep → Bool
  arrives carriers (sink tokens used_names) = member token tokens || any carriers used_names
  arrives carriers (assign left tokens alias) = false

  abbrev Represents : Taint → Carriers → Type 0
  Represents taint carriers = (x : Text) → member token (tokens_of x taint) ≡ carriers x

  all_tokens-any :
      (names : List Text) (taint : Taint) (carriers : Carriers)
      → Represents taint carriers
      → member token (tokens_of_all names taint) ≡ any carriers names
  unfolding tokens_of_all
  all_tokens-any [] taint carriers r = refl
  all_tokens-any (x ∷ xs) taint carriers r =
      any-append (text_eq token) (tokens_of x taint) (tokens_of_all xs taint)
      ∙ rw (r x) (ap (λ b. carriers x || b) (all_tokens-any xs taint carriers r))

  -- the tokens of an entry, and none where there is none
  abbrev among : Option (List Text) → Bool
  among none = false
  among (some ts) = member token ts

  among-tokens_of :
      (x : Text) (taint : Taint) → among (get x taint) ≡ member token (tokens_of x taint)
  among-tokens_of x taint = elim (Option-cases (get x taint)) [
    | inl n ↦ rw (n, tokens_of) refl
    | inr (ts, e) ↦ rw (e, tokens_of) refl
  ]

  among-assigned :
      (tokens : List Text) (alias : Option Text) (taint : Taint) (carriers : Carriers)
      → Represents taint carriers
      → among (assigned_tokens tokens alias taint) ≡ carries carriers tokens alias
  unfolding assigned_tokens alias_tokens
  among-assigned (t ∷ ts) alias taint carriers r = refl
  among-assigned [] none taint carriers r = refl
  among-assigned [] (some x) taint carriers r = among-tokens_of x taint ∙ r x

  among-retaint :
      (left x : Text) (o : Option (List Text)) (taint : Taint)
      → among (get x (retaint left o taint))
        ≡ (if text_eq x left then among o else among (get x taint))
  unfolding retaint
  among-retaint left x none taint = ground (arith, get-pop left x taint)
  among-retaint left x (some ts) taint = ground (arith, get-set left x ts taint)

  retaint-Represents :
      (left : Text) (tokens : List Text) (alias : Option Text) (taint : Taint) (carriers : Carriers)
      → Represents taint carriers
      → Represents
          (retaint left (assigned_tokens tokens alias taint) taint)
          (next_carriers (assign left tokens alias) carriers)
  retaint-Represents left tokens alias taint carriers r x =
      sym (among-tokens_of x (retaint left (assigned_tokens tokens alias taint) taint))
      ∙ (among-retaint left x (assigned_tokens tokens alias taint) taint
          ∙ (ap (λ b. if text_eq x left then b else among (get x taint))
                (among-assigned tokens alias taint carriers r)
              ∙ ap (λ b. if text_eq x left then carries carriers tokens alias else b)
                  (among-tokens_of x taint ∙ r x)))

  token_flow-hits :
      (reaching : List Text) (taint : Taint) (carriers : Carriers) (steps : List TokenStep)
      → Represents taint carriers
      → member token (token_flow reaching taint steps)
        ≡ (member token reaching || hits next_carriers arrives carriers steps)
  unfolding token_flow
  token_flow-hits reaching taint carriers [] r = ground arith
  token_flow-hits reaching taint carriers (sink tokens names ∷ steps) r =
      token_flow-hits (update (update reaching tokens) (tokens_of_all names taint)) taint carriers
        steps r
      ∙ ground (
        arith,
        member-update (update reaching tokens) (tokens_of_all names taint) token,
        member-update reaching tokens token,
        all_tokens-any names taint carriers r,
      )
  token_flow-hits reaching taint carriers (assign left tokens alias ∷ steps) r =
      token_flow-hits reaching (retaint left (assigned_tokens tokens alias taint) taint)
        (next_carriers (assign left tokens alias) carriers) steps
        (retaint-Represents left tokens alias taint carriers r)

  -- A token is found to reach a getInstance call exactly when some step is such a call with the
  -- token in its arguments, or with a variable there that may hold it, as the steps before assign
  -- it: the tokens of the expression, and where it has none those of the variable that it is.
  pub token_flow-reaches_iff :
      (steps : List TokenStep)
      → (member token (token_flow [] [] steps) ≡ true)
        ↔ Hits next_carriers arrives no_carriers steps
  unfolding get
  token_flow-reaches_iff steps =
      let same = token_flow-hits [] [] no_carriers steps (λ x. refl) in
      let found = hits_iff next_carriers arrives no_carriers steps in
      ((λ h. found.0 (sym same ∙ h)), (λ h. same ∙ found.1 h))
