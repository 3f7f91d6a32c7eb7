-- ===== src/Loop/Steps.antt =====
-- The repair loop of src/pqpatch/loop.py as a step relation: a step is a turn whose patch is
-- proposed and verified, and not accepted.
use nesy_pqpatch.Prelude.{
  ℕ, zero, suc, ◌+◌, ◌<◌, ◌≡◌, ◌≢◌, refl, ap, ◌∙◌, sym, subst, ◌⊎◌, inl, inr, Text, [], ◌∷◌, ◌++◌,
  arith,
}
use nesy_pqpatch.Model.{
  Site, Context, Policy, Patch, Verdict, VerdictStatus, accept, reject, escalate, TraceRecord,
}
use nesy_pqpatch.Python.{Result, ok, >>=-eq-ok}
use nesy_pqpatch.Verify.{Env}
use nesy_pqpatch.Loop.{
  Propose, Options, LoopState, start, accept_event, after_rejection, trace_of, escalated,
  propose_at, verify_at, run_attempts,
}

module _ (sha256_hex : Text → Text) (propose : Propose) (env : ℕ → Env) (site : Site)
    (context : Context) (policy : Policy) (options : Options) where
  abbrev pub next_of : LoopState → Verdict → LoopState
  next_of = after_rejection sha256_hex propose env site context policy options

  abbrev pub Proposes : LoopState → Patch → Type 0
  Proposes s p = propose_at sha256_hex propose env site context policy options s ≡ ok p

  abbrev pub Verifies : LoopState → Patch → Verdict → Type 0
  Verifies s p v = verify_at sha256_hex propose env site context policy options s p ≡ ok v

  pub data RejectedStep : LoopState → LoopState → Type 0 where
    retry :
        (s : LoopState) (p : Patch) (v : Verdict)
        → Proposes s p
        → Verifies s p v
        → v.status ≢ accept
        → RejectedStep s (next_of s v)

  -- The states that the loop is in at the top of a turn.
  pub data Reach : LoopState → Type 0 where
    here : Reach start
    next : {s t : LoopState} → Reach s → RejectedStep s t → Reach t

  -- How the loop ends from a state: by accepting the patch that is proposed there, or with no
  -- turn left.
  pub record AcceptsAt (s : LoopState) (v : Verdict) (t : TraceRecord) : Type 0 where
    pub patch : Patch
    pub proposed : Proposes s patch
    pub verified : Verifies s patch v
    pub accepts : v.status ≡ accept
    pub trace :
        t
        ≡ trace_of sha256_hex propose env site context policy options
            (s.events
              ++ accept_event sha256_hex propose env site context policy options s.attempt v ∷ [])
            v

  pub record GivesUpAt (s : LoopState) (v : Verdict) (t : TraceRecord) : Type 0 where
    pub verdict : v ≡ escalated sha256_hex propose env site context policy options s.last_verdict
    pub trace : t ≡ trace_of sha256_hex propose env site context policy options s.events v

  abbrev pub Ends : ℕ → Verdict → TraceRecord → Type 0
  Ends bound v t =
      (s : LoopState) × Reach s
      × ((AcceptsAt s v t × (s.attempt < bound)) ⊎ (GivesUpAt s v t × (s.attempt ≡ bound)))

  pub VerdictStatus-cases : (x : VerdictStatus) → (x ≡ accept) ⊎ (x ≢ accept)
  VerdictStatus-cases accept = inl refl
  VerdictStatus-cases reject = inr (λ e. cc)
  VerdictStatus-cases escalate = inr (λ e. cc)
  VerdictStatus-cases VerdictStatus.error = inr (λ e. cc)

  abbrev pub run : ℕ → LoopState → Result (Verdict × TraceRecord)
  run = run_attempts sha256_hex propose env site context policy options

  pub run-accept :
      (turns : ℕ) (s : LoopState) (p : Patch) (v : Verdict)
      → Proposes s p
      → Verifies s p v
      → v.status ≡ accept
      → run (suc turns) s
        ≡ ok (
          v,
          trace_of sha256_hex propose env site context policy options
              (s.events
                ++ accept_event sha256_hex propose env site context policy options s.attempt v ∷ [])
              v,
        )
  unfolding run_attempts
  run-accept turns s p v e f a = ground (arith, e, f)

  pub run-retry :
      (turns : ℕ) (s : LoopState) (p : Patch) (v : Verdict)
      → Proposes s p
      → Verifies s p v
      → v.status ≢ accept
      → run (suc turns) s ≡ run turns (next_of s v)
  unfolding run_attempts
  run-retry turns s p v e f a = ground (arith, e, f)

  -- A run that returns took a turn whose patch was proposed and verified.
  run-turn :
      (turns : ℕ) (s : LoopState) (r : Verdict × TraceRecord)
      → run (suc turns) s ≡ ok r
      → (p : Patch) × (v : Verdict) × Proposes s p × Verifies s p v
  unfolding run_attempts
  run-turn turns s r h =
      let (p, e, h') = >>=-eq-ok _ _ h in let (v, f, _) = >>=-eq-ok _ _ h' in (p, v, e, f)

  pub run-zero :
      (s : LoopState)
      → run zero s
        ≡ ok (
          escalated sha256_hex propose env site context policy options s.last_verdict,
          trace_of sha256_hex propose env site context policy options s.events
              (escalated sha256_hex propose env site context policy options s.last_verdict),
        )
  unfolding run_attempts
  run-zero s = refl

  ok-injective : {x r : Verdict × TraceRecord} → ok x ≡ ok r → x ≡ r
  ok-injective h = cc

  bound_of_next :
      (turns : ℕ) (s : LoopState) (w v : Verdict) (t : TraceRecord)
      → Ends ((next_of s w).attempt + turns) v t
      → Ends (s.attempt + suc turns) v t
  unfolding after_rejection
  bound_of_next turns s w v t = subst (λ b. Ends b v t) (omega arith)

  -- From a state that the loop reaches, a run that returns ends in one of the two ways.
  pub run-Ends :
      (turns : ℕ) (s : LoopState) (v : Verdict) (t : TraceRecord)
      → Reach s
      → run turns s ≡ ok (v, t)
      → Ends (s.attempt + turns) v t
  run-Ends zero s v t reach h =
      let e = ok-injective (sym (run-zero s) ∙ h) in
      (
        s,
        reach,
        inr (
          record {
            verdict = sym (ap (λ r. r.0) e);
            trace =
                sym (ap (λ r. r.1) e)
                ∙ ap (λ x. trace_of sha256_hex propose env site context policy options s.events x)
                    (ap (λ r. r.0) e);
          },
          omega arith,
        ),
      )
  run-Ends (suc turns) s v t reach h =
      let (p, w, e, f) = run-turn turns s (v, t) h in
      elim (VerdictStatus-cases w.status) [
        | inl a ↦
            let d = ok-injective (sym (run-accept turns s p w e f a) ∙ h) in
            let wv = ap (λ r. r.0) d in
            (
              s,
              reach,
              inl (
                record {
                  patch = p;
                  proposed = e;
                  verified = subst (λ x. Verifies s p x) wv f;
                  accepts = ap (λ x. x.status) (sym wv) ∙ a;
                  trace =
                      sym (ap (λ r. r.1) d)
                      ∙ ap
                          (λ x.
                            trace_of sha256_hex propose env site context policy options
                              (s.events
                                ++ accept_event sha256_hex propose env site context policy options
                                    s.attempt x
                                  ∷ [])
                              x)
                          wv;
                },
                omega arith,
              ),
            )
        | inr n ↦ bound_of_next turns s w v t (
            run-Ends turns (next_of s w) v t (next reach (retry s p w e f n))
              (sym (run-retry turns s p w e f n) ∙ h))
      ]
