-- ===== src/Images.antt =====
-- Container images: the rules that rewrite them (internal/controller/config/image_field_rewriter.go)
-- and the form that enroot takes (internal/utils/container.go). References are read by the library
-- github.com/distribution/reference, and rules by encoding/json.
pub mod Laws
use amalthea.Prelude.{
  String, ◌<>◌, ◌⊎◌, inl, inr, Bool, ◌||◌, Option, none, some, List, [], ◌∷◌, ◌==◌, ℕ_eq, String_eq,
  if◌then◌else◌, is_some, is_empty, cut_prefix,
}

-- A parsed reference to an image (`reference.Named`), which may have a tag and a digest.
pub record Named : Type 0 where
  pub domain : String
  pub path : String
  pub tag : Option String
  pub digest : Option String

pub record References : Type 0 where
  pub parse_docker_ref : String → Named ⊎ String
  pub familiar_string : Named → String

pub record ImageRewriteRule : Type 0 where
  pub source_prefix : String
  pub target_prefix : String

-- The name with its tag and its digest, or `plain` if it has neither.
unfoldable pub with_tag_and_digest : String → Option String → Option String → String → String
with_tag_and_digest name (some tag) (some digest) plain = name <> ":" <> tag <> "@" <> digest
with_tag_and_digest name (some tag) none plain = name <> ":" <> tag
with_tag_and_digest name none (some digest) plain = name <> "@" <> digest
with_tag_and_digest name none none plain = plain

abbrev pub domain_and_path : Named → String
domain_and_path named = named.domain <> "/" <> named.path

-- What is after the source of the rule is to begin with a slash.
unfoldable pub rewrite_after : ImageRewriteRule → Option String → Option String
unfolding cut_prefix
rewrite_after rule none = none
rewrite_after rule (some after) =
    if is_some (cut_prefix after "/") then some (rule.target_prefix <> after) else none

-- `none` is a reference that does not match.
unfoldable pub rewrite_prefix : ImageRewriteRule → String → Option String
unfolding rewrite_after
rewrite_prefix rule name = rewrite_after rule (cut_prefix name rule.source_prefix)

unfoldable pub is_malformed : ImageRewriteRule → Bool
is_malformed rule = is_empty rule.source_prefix || is_empty rule.target_prefix

-- The name that a rule gives, or else what the later rules give.
unfoldable pub named_or : Option String → String → Named → String
unfolding with_tag_and_digest
named_or none later named = later
named_or (some result) later named =
    with_tag_and_digest result named.tag named.digest (domain_and_path named)

unfoldable pub rewrite_named : List ImageRewriteRule → String → Named → String
unfolding rewrite_prefix named_or is_malformed
rewrite_named [] image named = image
rewrite_named (rule ∷ rest) image named =
    let later = rewrite_named rest image named in
    if is_malformed rule
    then later
    else named_or (rewrite_prefix rule (domain_and_path named)) later named

-- The image and, if it cannot be parsed, the error.
unfoldable pub rewrite : References → List ImageRewriteRule → String → String × Option String
unfolding rewrite_named
rewrite references rules image = elim (references.parse_docker_ref image) [
  | inr e ↦ (image, some e)
  | inl named ↦ (rewrite_named rules image named, none)
]

-- The rules that are configured, if any are; `parse` reads them.
unfoldable pub get_image_field_rewriter :
    (String → List ImageRewriteRule ⊎ String) → String → (Option (List ImageRewriteRule)) ⊎ String
get_image_field_rewriter parse rules_text =
    if is_empty rules_text then inl none else elim (parse rules_text) [
      | inr e ↦ inr e
      | inl [] ↦ inl none
      | inl (rule ∷ rules) ↦ inl (some (rule ∷ rules))
    ]

unfoldable pub enroot_image_format : References → String → String ⊎ String
unfolding with_tag_and_digest
enroot_image_format references image = elim (references.parse_docker_ref image) [
  | inr e ↦ inr e
  | inl named ↦
      let name = named.domain <> "#" <> named.path in
      if named.domain == "docker.io"
      then inl (references.familiar_string named)
      else inl (with_tag_and_digest name named.tag named.digest name)
]
