-- ===== src/Supervisor/Artifact.antt =====
-- The identity of a scanner artifact: apps/api/src/supervisor/artifact-approval.ts.
pub mod Sorted
pub mod Matching
use outscan.Prelude.{
  ℕ, Bool, true, false, not, ◌&&◌, ◌||◌, Option, none, some, List, [], ◌∷◌, String, ltb, leb, ◌==◌,
  if◌then◌else◌, length, all, ◌>>=◌, ◌>>◌, guard,
}
use outscan.Js.{
  Text, codes, Value, Values, string, array, values, Entries, get, exact_record, as_string, text_eq,
}
use outscan.Js.Patterns.{is_alnum, is_digest}
use outscan.ScannerPolicy.{all_strings, no_repeats}
use outscan.Supervisor.{ScannerArtifactIdentity, ScannerTemplateApproval}

abbrev pub artifact_keys : List String
artifact_keys =
    "template_workflow_digest" ∷ "transitive_dependency_digests" ∷ "engine_version"
    ∷ "scanner_image_digest" ∷ "config_version" ∷ "policy_id" ∷ "policy_version" ∷ "profile" ∷ []

-- [A-Za-z0-9._+-]
abbrev is_version_char : ℕ → Bool
is_version_char c = is_alnum c || c == b'.' || c == b'_' || c == b'+' || c == b'-'

-- /^[A-Za-z0-9][A-Za-z0-9._+-]{0,63}$/u
unfoldable pub is_version_text : Text → Bool
is_version_text [] = false
is_version_text (c ∷ cs) = is_alnum c && all is_version_char cs && leb (length cs) 63

-- `isVersion`, with the text.
abbrev pub as_version : Value → Option Text
as_version v = do t ← as_string v; guard (is_version_text t); some t

-- `typeof digest === "string" && SHA256_PATTERN.test(digest)`, with the text.
abbrev pub as_sha256 : Value → Option Text
as_sha256 v = do t ← as_string v; guard (is_digest (codes "sha256:") t); some t

-- The order of `sort` on texts: by code units.
unfoldable pub text_leb : Text → Text → Bool
text_leb [] t = true
text_leb (a ∷ s) [] = false
text_leb (a ∷ s) (b ∷ t) = ltb a b || (a == b && text_leb s t)

unfoldable pub insert : Text → List Text → List Text
insert t [] = t ∷ []
insert t (u ∷ us) = let rest = insert t us in if text_leb t u then t ∷ u ∷ us else u ∷ rest

-- `[...digests].sort()`.
unfoldable pub sort : List Text → List Text
sort [] = []
sort (t ∷ ts) = insert t (sort ts)

abbrev pub as_texts : Value → Option (List Text)
as_texts (array vs) = all_strings (values vs)
as_texts _ = none

-- The digests of the dependencies: at most 256, each of them a digest, none of them twice.
unfoldable pub as_digests : Value → Option (List Text)
as_digests v = do
  ts ← as_texts v
  guard (leb (length ts) 256)
  guard (all (is_digest (codes "sha256:")) ts)
  guard (no_repeats ts)
  some ts

unfoldable pub check_artifact : Entries → Option ScannerArtifactIdentity
check_artifact value = do
  digests ← as_digests (get "transitive_dependency_digests" value)
  workflow ← as_sha256 (get "template_workflow_digest" value)
  image ← as_sha256 (get "scanner_image_digest" value)
  engine ← as_version (get "engine_version" value)
  config ← as_version (get "config_version" value)
  policy ← as_version (get "policy_id" value)
  version ← as_version (get "policy_version" value)
  profile ← as_version (get "profile" value)
  some (record {
    template_workflow_digest = workflow;
    transitive_dependency_digests = sort digests;
    engine_version = engine;
    scanner_image_digest = image;
    config_version = config;
    policy_id = policy;
    policy_version = version;
    profile = profile;
  })

-- `Object.keys` does not list symbols.
unfoldable pub without_symbols : Entries → Entries
without_symbols Entries.end = Entries.end
without_symbols (Entries.entry k v es) = Entries.entry k v (without_symbols es)
without_symbols (Entries.symbol v es) = without_symbols es

-- `isRecord` and `hasExactKeys`.
unfoldable pub keyed_record : List String → Value → Option Entries
unfolding without_symbols
keyed_record keys (Value.object es) = exact_record keys (Value.object (without_symbols es))
keyed_record keys _ = none

unfoldable pub parse_artifact_identity : Value → Option ScannerArtifactIdentity
unfolding keyed_record
parse_artifact_identity value = keyed_record artifact_keys value >>= check_artifact

-- Two lists of one length, digest by digest.
unfoldable pub texts_eq : List Text → List Text → Bool
texts_eq [] [] = true
texts_eq (t ∷ ts) (u ∷ us) = text_eq t u && texts_eq ts us
texts_eq _ _ = false

-- The comparison of `matchesApproval`, with the identity that the approval's own was parsed to.
unfoldable pub matches : ScannerArtifactIdentity → ScannerArtifactIdentity → Bool
unfolding texts_eq
matches artifact approved =
    text_eq artifact.template_workflow_digest approved.template_workflow_digest
    && text_eq artifact.engine_version approved.engine_version
    && text_eq artifact.scanner_image_digest approved.scanner_image_digest
    && text_eq artifact.config_version approved.config_version
    && text_eq artifact.policy_id approved.policy_id
    && text_eq artifact.policy_version approved.policy_version
    && text_eq artifact.profile approved.profile
    && texts_eq artifact.transitive_dependency_digests approved.transitive_dependency_digests

abbrev pub texts_value : List Text → Values
texts_value [] = Values.nil
texts_value (t ∷ ts) = Values.cons (string t) (texts_value ts)

-- An identity as an object.
abbrev pub artifact_value : ScannerArtifactIdentity → Value
artifact_value a = Value.object (
    Entries.entry "template_workflow_digest" (string a.template_workflow_digest) (
      Entries.entry "transitive_dependency_digests"
        (array (texts_value a.transitive_dependency_digests))
        (Entries.entry "engine_version" (string a.engine_version) (
          Entries.entry "scanner_image_digest" (string a.scanner_image_digest) (
            Entries.entry "config_version" (string a.config_version) (
              Entries.entry "policy_id" (string a.policy_id) (
                Entries.entry "policy_version" (string a.policy_version)
                  (Entries.entry "profile" (string a.profile) Entries.end))))))))

unfoldable pub matches_approval : ScannerArtifactIdentity → ScannerTemplateApproval → Bool
unfolding matches
matches_approval artifact approval =
    elim (parse_artifact_identity (artifact_value approval.artifact_identity)) [
      | none ↦ false
      | some approved ↦ matches artifact approved
    ]
