-- ===== src/Detector/Partition.antt =====
-- The sites that src/pqpatch/detector/api.py makes of matches: one for each match.
use mathlib.Core.List.{perm_middle}
use mathlib.Core.List.Perm
use nesy_pqpatch.Prelude.{
  ◌≡◌, ◌≢◌, refl, ap, sym, ◌∙◌, Text, text_eq, text_eq→eq, splitlines, Bool-cases, inl, inr, List,
  [], ◌∷◌, ◌++◌, append_assoc, append-nil, All, All-append,
}
use nesy_pqpatch.Model.{Site}
use nesy_pqpatch.Python.{Result, ok}
use nesy_pqpatch.Detector.Match.{RawMatch}
use nesy_pqpatch.Detector.Rules.{Among, classify-total}
use nesy_pqpatch.Detector.Classify.{default_window, classify}
use nesy_pqpatch.Detector.{
  detector_rule_ids, Groups, add_match, group_from, site_at, sites_of_file, sites_of_groups,
  sites_from_matches,
}
use mathlib.Core.List.{Perm}

abbrev flatten : Groups → List RawMatch
flatten [] = []
flatten ((file_path, ms) ∷ groups) = ms ++ flatten groups

-- Each match stands under its file, and has a property.
abbrev IsGrouped : (RawMatch → Type 0) → Groups → Type 0
IsGrouped P = All (λ g. All (λ m. (m.file_path ≡ g.0) × P m) g.1)

add_match-IsGrouped :
    (P : RawMatch → Type 0) (m : RawMatch) (groups : Groups)
    → P m
    → IsGrouped P groups
    → IsGrouped P (add_match m groups)
unfolding add_match
add_match-IsGrouped P m [] p h = (((refl, p), tt), tt)
add_match-IsGrouped P m ((file_path, ms) ∷ groups) p h =
    elim (Bool-cases (text_eq file_path m.file_path)) [
      | inl same ↦ rw same (
        All-append (λ n. (n.file_path ≡ file_path) × P n) ms (m ∷ []) h.0
            ((sym (text_eq→eq file_path m.file_path same), p), tt),
        h.1,
      )
      | inr differ ↦ rw differ (h.0, add_match-IsGrouped P m groups p h.1)
    ]

add_match-perm :
    (m : RawMatch) (groups : Groups) → Perm (flatten (add_match m groups)) (m ∷ flatten groups)
unfolding add_match
add_match-perm m [] = Perm.refl (m ∷ [])
add_match-perm m ((file_path, ms) ∷ groups) = elim (Bool-cases (text_eq file_path m.file_path)) [
  | inl same ↦
      rw (same, append_assoc ms (m ∷ []) (flatten groups)) (perm_middle ms (flatten groups))
  | inr differ ↦
      rw differ (
        Perm.trans (Perm.append_left ms (add_match-perm m groups))
          (perm_middle ms (flatten groups)))
]

group_from-IsGrouped :
    (P : RawMatch → Type 0) (groups : Groups) (ms : List RawMatch)
    → All P ms
    → IsGrouped P groups
    → IsGrouped P (group_from groups ms)
unfolding group_from
group_from-IsGrouped P groups [] p h = h
group_from-IsGrouped P groups (m ∷ ms) p h =
    group_from-IsGrouped P (add_match m groups) ms p.1 (add_match-IsGrouped P m groups p.0 h)

group_from-perm :
    (groups : Groups) (ms : List RawMatch)
    → Perm (flatten (group_from groups ms)) (flatten groups ++ ms)
unfolding group_from
group_from-perm groups [] = rw (append-nil (flatten groups)) (Perm.refl (flatten groups))
group_from-perm groups (m ∷ ms) = Perm.trans (group_from-perm (add_match m groups) ms) (
    Perm.trans (Perm.append_right ms (add_match-perm m groups))
      (Perm.symm (perm_middle (flatten groups) ms)))

append_one-ne : (ms : List RawMatch) (m : RawMatch) → ms ++ m ∷ [] ≢ []
append_one-ne [] m e = cc
append_one-ne (n ∷ ms) m e = cc

module _ (sha256_hex : Text → Text) (read_text : Text → Result Text) (repo : Text) where
  -- The site of a match: its file, line and rule, the id that these give, and the class that the
  -- file's text gives.
  pub record IsSiteOf (m : RawMatch) (s : Site) : Type 0 where
    pub source : Text
    pub source_read : read_text m.file_path ≡ ok source
    pub classified : classify m (splitlines source) default_window ≡ ok s.usage_class
    pub is_site : s ≡ site_at sha256_hex read_text repo m.file_path m.line m.rule_id s.usage_class

  abbrev pub AreSitesOf : List RawMatch → List Site → Type 0
  AreSitesOf [] [] = Unit
  AreSitesOf [] (s ∷ ss) = ⊥
  AreSitesOf (m ∷ ms) [] = ⊥
  AreSitesOf (m ∷ ms) (s ∷ ss) = IsSiteOf m s × AreSitesOf ms ss

  AreSitesOf-append :
      (ms ns : List RawMatch) (ss ts : List Site)
      → AreSitesOf ms ss
      → AreSitesOf ns ts
      → AreSitesOf (ms ++ ns) (ss ++ ts)
  AreSitesOf-append [] ns [] ts h k = k
  AreSitesOf-append [] ns (s ∷ ss) ts h k = absurd h
  AreSitesOf-append (m ∷ ms) ns [] ts h k = absurd h
  AreSitesOf-append (m ∷ ms) ns (s ∷ ss) ts h k = (h.0, AreSitesOf-append ms ns ss ts h.1 k)

  -- A match that can be classified: its file can be read, and its rule is one of the detector.
  abbrev pub IsClassifiable : RawMatch → Type 0
  IsClassifiable m =
      ((source : Text) × (read_text m.file_path ≡ ok source)) × Among m.rule_id detector_rule_ids

  -- The sites of a list of matches are returned, and are theirs.
  abbrev Returned : Result (List Site) → List RawMatch → Type 0
  Returned r ms = (sites : List Site) × (r ≡ ok sites) × AreSitesOf ms sites

  sites_of_file-Returned :
      (file_path source : Text) (ms : List RawMatch)
      → read_text file_path ≡ ok source
      → All (λ m. (m.file_path ≡ file_path) × IsClassifiable m) ms
      → Returned (sites_of_file sha256_hex read_text repo file_path (splitlines source) ms) ms
  unfolding sites_of_file
  sites_of_file-Returned file_path source [] r g = ([], refl, tt)
  sites_of_file-Returned file_path source (m ∷ ms) r ((f, (readable, known)), g) =
      let (usage_class, c) = classify-total m (splitlines source) default_window known in
      let (sites, e, are) = sites_of_file-Returned file_path source ms r g in
      (
        site_at sha256_hex read_text repo file_path m.line m.rule_id usage_class ∷ sites,
        rw (c, e) refl,
        (
          record {
            source = source;
            source_read = ap read_text f ∙ r;
            classified = c;
            is_site =
                ap (λ x. site_at sha256_hex read_text repo x m.line m.rule_id usage_class) (sym f);
          },
          are,
        ),
      )

  source_of :
      (file_path : Text) (m : RawMatch) (ms : List RawMatch)
      → All (λ m. (m.file_path ≡ file_path) × IsClassifiable m) (m ∷ ms)
      → (source : Text) × (read_text file_path ≡ ok source)
  source_of file_path m ms ((f, ((source, r), known)), g) = (source, ap read_text (sym f) ∙ r)

  -- No file stands without a match.
  abbrev NoneEmpty : Groups → Type 0
  NoneEmpty = All (λ g. g.1 ≢ [])

  sites_of_groups-Returned :
      (groups : Groups)
      → NoneEmpty groups
      → IsGrouped IsClassifiable groups
      → Returned (sites_of_groups sha256_hex read_text repo groups) (flatten groups)
  unfolding sites_of_groups
  sites_of_groups-Returned [] n g = ([], refl, tt)
  sites_of_groups-Returned ((file_path, []) ∷ groups) n g = absurd (n.0 refl)
  sites_of_groups-Returned ((file_path, m ∷ ms) ∷ groups) n g =
      let (source, r) = source_of file_path m ms g.0 in
      let (here, e, are) = sites_of_file-Returned file_path source (m ∷ ms) r g.0 in
      let (others, o, theirs) = sites_of_groups-Returned groups n.1 g.1 in
      (
        here ++ others,
        rw r (rw (e, o) refl),
        AreSitesOf-append (m ∷ ms) (flatten groups) here others are theirs,
      )

  add_match-NoneEmpty :
      (m : RawMatch) (groups : Groups) → NoneEmpty groups → NoneEmpty (add_match m groups)
  unfolding add_match
  add_match-NoneEmpty m [] n = ((λ e. cc), tt)
  add_match-NoneEmpty m ((file_path, ms) ∷ groups) n =
      elim (Bool-cases (text_eq file_path m.file_path)) [
        | inl same ↦ rw same (append_one-ne ms m, n.1)
        | inr differ ↦ rw differ (n.0, add_match-NoneEmpty m groups n.1)
      ]

  group_from-NoneEmpty :
      (groups : Groups) (ms : List RawMatch) → NoneEmpty groups → NoneEmpty (group_from groups ms)
  unfolding group_from
  group_from-NoneEmpty groups [] n = n
  group_from-NoneEmpty groups (m ∷ ms) n =
      group_from-NoneEmpty (add_match m groups) ms (add_match-NoneEmpty m groups n)

  -- Where the file of each match can be read, and its rule is one of the four of the detector, the
  -- sites that are returned are those of the matches, one for each, in some order.
  pub sites_from_matches-perm :
      (ms : List RawMatch)
      → All IsClassifiable ms
      → (sites : List Site) × (ordered : List RawMatch) × (sites_from_matches sha256_hex read_text
            repo ms
          ≡ ok sites)
        × Perm ordered ms
        × AreSitesOf ordered sites
  unfolding sites_from_matches
  sites_from_matches-perm ms p =
      let (sites, e, are) =
        sites_of_groups-Returned (group_from [] ms) (group_from-NoneEmpty [] ms tt)
          (group_from-IsGrouped IsClassifiable [] ms p tt) in
      (sites, flatten (group_from [] ms), e, group_from-perm [] ms, are)
