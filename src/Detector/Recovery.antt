-- ===== src/Detector/Recovery.antt =====
-- How src/pqpatch/detector/api.py finds a recorded site again.
use nesy_pqpatch.Prelude.{
  ℕ, zero, suc, ◌+◌, ◌<◌, ◌≤◌, ◌≡◌, ◌≢◌, refl, ap, sym, ◌∙◌, subst, ◌⊎◌, inl, inr, Text, text_eq,
  text_eq→eq, text_eq_self, splitlines, Bool-cases, Option, none, some, List, [], ◌∷◌, All, length,
  arith, ◌==◌, ==→eq,
}
use nesy_pqpatch.Model.{UsageClass, Site}
use nesy_pqpatch.Python.{Result, ok, ok-eq}
use nesy_pqpatch.Detector.Match.{RawMatch}
use nesy_pqpatch.Detector.Classify.{default_window}
use nesy_pqpatch.Detector.{
  detector_rule_ids, site_id, site_at, recover_rule, recover_line, recover_file, or_next,
  recover_recorded_site, not_recovered,
}
use nesy_pqpatch.Detector.Rules.{Among, All-Among, classified_rule}
use nesy_pqpatch.Detector.Partition.{IsSiteOf}

module _ (sha256_hex : Text → Text) (read_text : Text → Result Text) (repo : Text) (wanted : Text)
    (usage_class : UsageClass) where
  abbrev id_at : Text → ℕ → Text → Text
  id_at = site_id sha256_hex read_text repo

  -- the site of a place whose id is the wanted one
  abbrev FoundAt : Text → ℕ → Text → Site → Type 0
  FoundAt f line rule_id s =
      (s ≡ site_at sha256_hex read_text repo f line rule_id usage_class)
      × (id_at f line rule_id ≡ wanted)

  recover_rule-cases :
      (f : Text) (line : ℕ) (rules : List Text) (o : Option Site)
      → recover_rule sha256_hex read_text repo wanted usage_class f line rules ≡ o
      → ((o ≡ none) × All (λ r. id_at f line r ≢ wanted) rules)
        ⊎ ((s : Site) × (r : Text) × (o ≡ some s) × Among r rules × FoundAt f line r s)
  unfolding recover_rule
  recover_rule-cases f line [] o h = inl (sym h, tt)
  recover_rule-cases f line (r ∷ rules) o h = elim (Bool-cases (text_eq (id_at f line r) wanted)) [
    | inl same ↦ inr (
      site_at sha256_hex read_text repo f line r usage_class,
      r,
      sym (rw same at h),
      inl refl,
      (refl, text_eq→eq (id_at f line r) wanted same),
    )
    | inr differ ↦ elim (recover_rule-cases f line rules o (rw differ at h)) [
      | inl (n, misses) ↦ inl (
        n,
        ((λ e. ground (arith, differ, text_eq_self wanted, ap (λ x. text_eq x wanted) e)), misses),
      )
      | inr (s, q, found, m, at) ↦ inr (s, q, found, inr m, at)
    ]
  ]

  -- Of the lines from `lo` on and below `hi`, none has the id under a rule of the detector.
  abbrev Misses : Text → ℕ → ℕ → Type 0
  Misses f lo hi = (n : ℕ) → lo ≤ n → n < hi → All (λ r. id_at f n r ≢ wanted) detector_rule_ids

  -- A site is found at one of them.
  abbrev Hits : Text → ℕ → ℕ → Site → Type 0
  Hits f lo hi s =
      (n : ℕ) × (r : Text) × (lo ≤ n) × (n < hi) × Among r detector_rule_ids × FoundAt f n r s

  Misses-suc :
      (f : Text) (lo count : ℕ)
      → All (λ r. id_at f lo r ≢ wanted) detector_rule_ids
      → Misses f (suc lo) (suc lo + count)
      → Misses f lo (lo + suc count)
  Misses-suc f lo count first later n low high = elim (Bool-cases (lo == n)) [
    | inl same ↦
        subst (λ k. All (λ r. id_at f k r ≢ wanted) detector_rule_ids) (==→eq lo n same) first
    | inr differ ↦ later n (ground (arith, differ)) (omega arith)
  ]

  recover_line-cases :
      (f : Text) (line count : ℕ)
      → ((recover_line sha256_hex read_text repo wanted usage_class f line count ≡ none)
          × Misses f line (line + count))
        ⊎ ((s : Site) × (recover_line sha256_hex read_text repo wanted usage_class f line count
              ≡ some s)
            × Hits f line (line + count) s)
  unfolding recover_line detector_rule_ids
  recover_line-cases f line zero = inl (refl, λ n lo hi. absurd (omega arith))
  recover_line-cases f line (suc count) =
      elim (recover_rule-cases f line detector_rule_ids
        (recover_rule sha256_hex read_text repo wanted usage_class f line detector_rule_ids) refl) [
          | inr (s, r, found, m, at) ↦
              inr (s, rw found refl, (line, r, omega arith, omega arith, m, at))
          | inl (n, misses) ↦ elim (recover_line-cases f (suc line) count) [
            | inl (e, later) ↦ inl (rw n e, Misses-suc f line count misses later)
            | inr (s, e, (k, r, lo, hi, m, at)) ↦
                inr (s, rw n e, (k, r, omega arith, omega arith, m, at))
          ]
        ]

  -- The lines of a file, from 1 on.
  abbrev lines_end : Text → ℕ
  lines_end source = 1 + length (splitlines source)

  -- No line of any of the files has the id.
  abbrev pub NoneHas : List Text → Type 0
  NoneHas = All (λ f. (source : Text) → read_text f ≡ ok source → Misses f 1 (lines_end source))

  -- A site of one of the files that has the id.
  abbrev pub IsRecovered : List Text → Site → Type 0
  IsRecovered fs s =
      (f : Text) × (source : Text) × Among f fs
      × (read_text f ≡ ok source)
      × Hits f 1 (lines_end source) s

  abbrev pub Readable : List Text → Type 0
  Readable = All (λ f. (source : Text) × (read_text f ≡ ok source))

  recover_file-step :
      (f : Text) (fs : List Text) (source : Text) (o : Option Site)
      → read_text f ≡ ok source
      → recover_line sha256_hex read_text repo wanted usage_class f 1 (length (splitlines source))
        ≡ o
      → recover_file sha256_hex read_text repo wanted usage_class (f ∷ fs)
        ≡ or_next o (recover_file sha256_hex read_text repo wanted usage_class fs)
  unfolding recover_file
  recover_file-step f fs source o r e =
      rw r (ap (λ x. or_next x (recover_file sha256_hex read_text repo wanted usage_class fs)) e)

  recover_file-cases :
      (fs : List Text)
      → Readable fs
      → ((recover_file sha256_hex read_text repo wanted usage_class fs ≡ ok none) × NoneHas fs)
        ⊎ ((s : Site) × (recover_file sha256_hex read_text repo wanted usage_class fs ≡ ok (some s))
            × IsRecovered fs s)
  unfolding recover_file or_next
  recover_file-cases [] h = inl (refl, tt)
  recover_file-cases (f ∷ fs) ((source, r), h) =
      elim (recover_line-cases f 1 (length (splitlines source))) [
        | inr (s, e, hits) ↦
            inr (s, recover_file-step f fs source (some s) r e, (f, source, inl refl, r, hits))
        | inl (n, misses) ↦ elim (recover_file-cases fs h) [
          | inl (e, others) ↦ inl (
            recover_file-step f fs source none r n ∙ e,
            (
              λ source' r'. subst (λ x. Misses f 1 (lines_end x)) (ok-eq (sym r ∙ r')) misses,
              others,
            ),
          )
          | inr (s, e, (g, text_g, m, r', hits)) ↦
              inr (s, recover_file-step f fs source none r n ∙ e, (g, text_g, inr m, r', hits))
        ]
      ]

  -- Where the files can be read: a site is recovered, which stands on a line of one of them, under a
  -- rule of the detector, and has the id; or it raises, and no line of any of them has the id.
  pub recover_recorded_site-cases :
      (repo_path : Text) (fs : List Text)
      → Readable fs
      → ((s : Site) × (recover_recorded_site sha256_hex read_text repo repo_path fs wanted
              usage_class
            ≡ ok s)
          × IsRecovered fs s)
        ⊎ ((recover_recorded_site sha256_hex read_text repo repo_path fs wanted usage_class
              ≡ not_recovered sha256_hex read_text repo repo_path wanted)
            × NoneHas fs)
  unfolding recover_recorded_site
  recover_recorded_site-cases repo_path fs h = elim (recover_file-cases fs h) [
    | inl (e, misses) ↦ inr (rw e refl, misses)
    | inr (s, e, found) ↦ inl (s, rw e refl, found)
  ]

module _ (sha256_hex : Text → Text) (read_text : Text → Result Text) (repo : Text) where
  -- A detected site is recovered from its id: where the files can be read, its file is among them
  -- and its line is a line of it, a site with its id and class is found again, on a line of one of
  -- the files and under a rule of the detector.
  pub detected_site-recovers :
      (repo_path : Text) (fs : List Text) (m : RawMatch) (s : Site)
      → (site_of : IsSiteOf sha256_hex read_text repo m s)
      → Readable sha256_hex read_text repo s.site_id s.usage_class fs
      → Among m.file_path fs
      → 1 ≤ m.line
      → m.line ≤ length (splitlines site_of.source)
      → (t : Site) × (recover_recorded_site sha256_hex read_text repo repo_path fs s.site_id
            s.usage_class
          ≡ ok t)
        × IsRecovered sha256_hex read_text repo s.site_id s.usage_class fs t
  detected_site-recovers repo_path fs m s site_of readable among low high =
      elim (recover_recorded_site-cases sha256_hex read_text repo s.site_id s.usage_class repo_path
        fs readable) [
          | inl found ↦ found
          | inr (e, misses) ↦ absurd (
              All-Among (λ r. site_id sha256_hex read_text repo m.file_path m.line r ≢ s.site_id)
                m.rule_id detector_rule_ids
                (All-Among _ m.file_path fs misses among site_of.source site_of.source_read m.line
                  low (omega arith))
                (classified_rule m (splitlines site_of.source) default_window s.usage_class
                  site_of.classified)
                (unfold site_at in sym (ap (λ x. x.site_id) site_of.is_site)))
        ]
