-- ===== src/Supervisor/Artifact/Matching.antt =====
-- Matching identities are equal, and an identity that was parsed is parsed to itself again.
use outscan.Prelude.{
  ◌≡◌, refl, sym, ap, ◌∙◌, true, some, List, [], ◌∷◌, length, leb, all, arith, inl, inr,
  Option-cases, and-eq-true, >>=-eq-some,
}
use outscan.Js.{
  Text, codes, Value, values, get, exact_record, key_count, keys_among, key_mem, text_eq,
  text_eq_sound, text_eq_refl,
}
use outscan.Js.Patterns.{is_digest}
use outscan.ScannerPolicy.{all_strings, no_repeats}
use outscan.Supervisor.{ScannerArtifactIdentity, ScannerTemplateApproval}
use outscan.Supervisor.Artifact.{
  artifact_keys, is_version_text, sort, as_digests, as_texts, texts_value, check_artifact,
  without_symbols, keyed_record, parse_artifact_identity, texts_eq, matches, matches_approval,
  artifact_value,
}
use outscan.Supervisor.Artifact.Sorted.{length-sort, all-sort, no_repeats-sort, sort-sort}

texts_eq_sound : (ts us : List Text) → texts_eq ts us ≡ true → ts ≡ us
unfolding texts_eq
texts_eq_sound [] [] h = refl
texts_eq_sound (t ∷ ts) (u ∷ us) h =
    let (here, later) = and-eq-true (text_eq t u) (texts_eq ts us) h in
    cc (text_eq_sound t u here, texts_eq_sound ts us later)
texts_eq_sound [] (u ∷ us) h = cc
texts_eq_sound (t ∷ ts) [] h = cc

texts_eq_refl : (ts : List Text) → texts_eq ts ts ≡ true
unfolding texts_eq
texts_eq_refl [] = refl
texts_eq_refl (t ∷ ts) = ground (arith, text_eq_refl t, texts_eq_refl ts)

matches_sound : (a b : ScannerArtifactIdentity) → matches a b ≡ true → a ≡ b
unfolding matches
matches_sound a b h = ground (
  arith,
  h,
  text_eq_sound a.template_workflow_digest b.template_workflow_digest,
  text_eq_sound a.engine_version b.engine_version,
  text_eq_sound a.scanner_image_digest b.scanner_image_digest,
  text_eq_sound a.config_version b.config_version,
  text_eq_sound a.policy_id b.policy_id,
  text_eq_sound a.policy_version b.policy_version,
  text_eq_sound a.profile b.profile,
  texts_eq_sound a.transitive_dependency_digests b.transitive_dependency_digests,
)

matches_refl : (a : ScannerArtifactIdentity) → matches a a ≡ true
unfolding matches
matches_refl a = ground (
  arith,
  text_eq_refl a.template_workflow_digest,
  text_eq_refl a.engine_version,
  text_eq_refl a.scanner_image_digest,
  text_eq_refl a.config_version,
  text_eq_refl a.policy_id,
  text_eq_refl a.policy_version,
  text_eq_refl a.profile,
  texts_eq_refl a.transitive_dependency_digests,
)

-- What an identity is that was parsed.
abbrev pub IsIdentity : ScannerArtifactIdentity → Type 0
IsIdentity a =
    (is_digest (codes "sha256:") a.template_workflow_digest ≡ true)
    × (is_digest (codes "sha256:") a.scanner_image_digest ≡ true)
    × (is_version_text a.engine_version ≡ true)
    × (is_version_text a.config_version ≡ true)
    × (is_version_text a.policy_id ≡ true)
    × (is_version_text a.policy_version ≡ true)
    × (is_version_text a.profile ≡ true)
    × (leb (length a.transitive_dependency_digests) 256 ≡ true)
    × (all (is_digest (codes "sha256:")) a.transitive_dependency_digests ≡ true)
    × (no_repeats a.transitive_dependency_digests ≡ true)
    × (sort a.transitive_dependency_digests ≡ a.transitive_dependency_digests)

as_digests_lem :
    (v : Value) {ts : List Text}
    → as_digests v ≡ some ts
    → (leb (length ts) 256 ≡ true)
      × (all (is_digest (codes "sha256:")) ts ≡ true)
      × (no_repeats ts ≡ true)
unfolding as_digests
as_digests_lem v h =
    let (us, _, h₁) = >>=-eq-some (as_texts v) _ h in
    (ground (arith, h₁), ground (arith, h₁), ground (arith, h₁))

pub parse-IsIdentity :
    (v : Value) {a : ScannerArtifactIdentity} → parse_artifact_identity v ≡ some a → IsIdentity a
unfolding parse_artifact_identity check_artifact
parse-IsIdentity v h =
    let (es, _, checked) = >>=-eq-some (keyed_record artifact_keys v) check_artifact h in
    let (ts, digests, rest) =
      >>=-eq-some (as_digests (get "transitive_dependency_digests" es)) _ checked in
    let (short, all_digests, distinct) =
      as_digests_lem (get "transitive_dependency_digests" es) digests in
    ground (
      arith,
      rest,
      short,
      all_digests,
      distinct,
      length-sort ts,
      all-sort (is_digest (codes "sha256:")) ts,
      no_repeats-sort ts,
      sort-sort ts,
    )

all_strings-texts_value : (ts : List Text) → all_strings (values (texts_value ts)) ≡ some ts
unfolding all_strings
all_strings-texts_value [] = refl
all_strings-texts_value (t ∷ ts) = ground (arith, all_strings-texts_value ts)

-- An identity that was parsed is parsed to itself again.
pub parse-artifact_value :
    (a : ScannerArtifactIdentity)
    → IsIdentity a
    → parse_artifact_identity (artifact_value a) ≡ some a
unfolding parse_artifact_identity check_artifact keyed_record without_symbols exact_record get
    key_count keys_among key_mem as_digests
parse-artifact_value a
      (
        workflow, image, engine, config, policy, version, profile, short, digests, distinct, sorted,
      ) =
    ground (
      arith,
      workflow,
      image,
      engine,
      config,
      policy,
      version,
      profile,
      short,
      digests,
      distinct,
      sorted,
      all_strings-texts_value a.transitive_dependency_digests,
    )

pub matches_approval_sound :
    (a : ScannerArtifactIdentity) (approval : ScannerTemplateApproval)
    → matches_approval a approval ≡ true
    → parse_artifact_identity (artifact_value approval.artifact_identity) ≡ some a
unfolding matches_approval
matches_approval_sound a approval h =
    elim (Option-cases (parse_artifact_identity (artifact_value approval.artifact_identity))) [
      | inl missing ↦ ground (arith, h, missing)
      | inr (b, found) ↦ found ∙ ap some (sym (matches_sound a b (ground (arith, h, found))))
    ]

pub matches_approval_complete :
    (approval : ScannerTemplateApproval)
    → IsIdentity approval.artifact_identity
    → matches_approval approval.artifact_identity approval ≡ true
unfolding matches_approval
matches_approval_complete approval h = ground (
  arith,
  parse-artifact_value approval.artifact_identity h,
  matches_refl approval.artifact_identity,
)
