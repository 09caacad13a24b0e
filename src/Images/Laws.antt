-- ===== src/Images/Laws.antt =====
-- Which rule rewrites an image, and what is kept of the image.
use amalthea.Prelude.{
  String, ◌<>◌, ◌≡◌, refl, sym, ap, ◌∙◌, ◌≢◌, ◌⊎◌, inl, inr, true, false, ◌||◌, Option, none, some,
  List, [], ◌∷◌, ◌++◌, arith, ℕ_eq, String_eq, if◌then◌else◌, Bool-cases, is_some, All, cut_prefix,
  append-cut_prefix, cut_prefix-append,
}
use mathlib.Core.List.{append-nil}
use amalthea.Images.{
  Named, References, ImageRewriteRule, with_tag_and_digest, domain_and_path, rewrite_prefix,
  rewrite_after, named_or, is_malformed, rewrite_named, rewrite,
}

-- The rule does not rewrite the name: it is malformed, or its source is not a directory above it.
unfoldable pub Passes : String → ImageRewriteRule → Type 0
Passes name rule =
    (is_malformed rule ≡ true) ⊎ ((rest : String) → name ≢ rule.source_prefix <> ("/" <> rest))

-- The rule is well formed, and its source is the directory above `rest`.
abbrev pub Matches : String → ImageRewriteRule → String → Type 0
Matches name rule rest = (is_malformed rule ≡ false) × (name ≡ rule.source_prefix <> ("/" <> rest))

-- The tag and the digest of an image as they stand at the end of its reference.
unfoldable pub suffix_of : Option String → Option String → String
suffix_of none none = ""
suffix_of none (some digest) = "@" <> digest
suffix_of (some tag) none = ":" <> tag
suffix_of (some tag) (some digest) = ":" <> tag <> "@" <> digest

rewrite_prefix-match :
    (rule : ImageRewriteRule) (rest : String)
    → rewrite_prefix rule (rule.source_prefix <> ("/" <> rest))
      ≡ some (rule.target_prefix <> ("/" <> rest))
unfolding rewrite_prefix rewrite_after
rewrite_prefix-match rule rest =
    ap (rewrite_after rule) (cut_prefix-append rule.source_prefix ("/" <> rest))
    ∙ ap (λ o. if is_some o then some (rule.target_prefix <> ("/" <> rest)) else none)
        (cut_prefix-append "/" rest)

with_slash :
    (rule : ImageRewriteRule) (after result : String) (slash : Option String)
    → cut_prefix after "/" ≡ slash
    → (if is_some slash then some (rule.target_prefix <> after) else none) ≡ some result
    → (rest : String) × (after ≡ "/" <> rest)
with_slash rule after result none e h = ground arith
with_slash rule after result (some rest) e h = (rest, sym (append-cut_prefix after "/" rest e))

rewrite_after-some :
    (rule : ImageRewriteRule) (name result : String) (cut : Option String)
    → cut_prefix name rule.source_prefix ≡ cut
    → rewrite_after rule cut ≡ some result
    → (rest : String) × (name ≡ rule.source_prefix <> ("/" <> rest))
unfolding rewrite_after
rewrite_after-some rule name result none e h = ground arith
rewrite_after-some rule name result (some after) e h =
    let (rest, slash) = with_slash rule after result (cut_prefix after "/") refl h in
    (
      rest,
      sym (append-cut_prefix name rule.source_prefix after e)
          ∙ ap (λ t. rule.source_prefix <> t) slash,
    )

passed :
    (rule : ImageRewriteRule) (name : String) (o : Option String)
    → rewrite_prefix rule name ≡ o
    → ((rest : String) → name ≢ rule.source_prefix <> ("/" <> rest))
    → o ≡ none
unfolding rewrite_prefix
passed rule name none e h = refl
passed rule name (some result) e h =
    let (rest, same) =
      rewrite_after-some rule name result (cut_prefix name rule.source_prefix) refl e in
    absurd (h rest same)

rewrite_named-Passes :
    (rule : ImageRewriteRule) (rules : List ImageRewriteRule) (image : String) (named : Named)
    → Passes (domain_and_path named) rule
    → rewrite_named (rule ∷ rules) image named ≡ rewrite_named rules image named
unfolding rewrite_named named_or Passes
rewrite_named-Passes rule rules image named (inl malformed) = rw malformed refl
rewrite_named-Passes rule rules image named (inr other) = elim (Bool-cases (is_malformed rule)) [
  | inl malformed ↦ rw malformed refl
  | inr fine ↦
      rw
        (
          fine,
          passed rule (domain_and_path named) (rewrite_prefix rule (domain_and_path named)) refl
              other,
        )
        refl
]

rewrite_named-Matches :
    (rule : ImageRewriteRule) (rules : List ImageRewriteRule) (image rest : String) (named : Named)
    → Matches (domain_and_path named) rule rest
    → rewrite_named (rule ∷ rules) image named
      ≡ with_tag_and_digest
          (rule.target_prefix <> ("/" <> rest))
          named.tag
          named.digest
          (domain_and_path named)
unfolding rewrite_named named_or
rewrite_named-Matches rule rules image rest named (fine, e) =
    rw (fine, ap (rewrite_prefix rule) e ∙ rewrite_prefix-match rule rest) refl

-- With a tag or a digest, the name is kept and they are put behind it.
with_tag_and_digest-suffix_of :
    (name plain : String) (tag digest : Option String)
    → (is_some tag || is_some digest) ≡ true
    → with_tag_and_digest name tag digest plain ≡ name <> suffix_of tag digest
unfolding with_tag_and_digest suffix_of
with_tag_and_digest-suffix_of name plain (some tag) (some digest) h = refl
with_tag_and_digest-suffix_of name plain (some tag) none h = refl
with_tag_and_digest-suffix_of name plain none (some digest) h = refl
with_tag_and_digest-suffix_of name plain none none h = ground arith

rewrite_named-All :
    (before rules : List ImageRewriteRule) (image : String) (named : Named)
    → All (Passes (domain_and_path named)) before
    → rewrite_named (before ++ rules) image named ≡ rewrite_named rules image named
rewrite_named-All [] rules image named h = refl
rewrite_named-All (rule ∷ before) rules image named (pass, h) =
    rewrite_named-Passes rule (before ++ rules) image named pass
    ∙ rewrite_named-All before rules image named h

rewrite-parsed :
    (references : References) (rules : List ImageRewriteRule) (image : String) (named : Named)
    → references.parse_docker_ref image ≡ inl named
    → rewrite references rules image ≡ (rewrite_named rules image named, none)
unfolding rewrite
rewrite-parsed references rules image named e = rw (e, rewrite) refl

-- An image whose parsed reference has a tag or a digest, as each that the library gives has: if no
-- rule matches it is left as it is. If some rules pass it and the next rule matches, that rule alone
-- rewrites it: the target takes the place of the source, and the rest of the name, the tag and the
-- digest are kept.
pub rewrite_lem :
    (references : References) (before later : List ImageRewriteRule) (rule : ImageRewriteRule)
    (image : String) (named : Named)
    → references.parse_docker_ref image ≡ inl named
    → (is_some named.tag || is_some named.digest) ≡ true
    → All (Passes (domain_and_path named)) before
    → (rewrite references before image ≡ (image, none))
      × ((rest : String)
          → Matches (domain_and_path named) rule rest
          → rewrite references (before ++ rule ∷ later) image
            ≡ ((rule.target_prefix <> ("/" <> rest)) <> suffix_of named.tag named.digest, none))
unfolding rewrite_named
rewrite_lem references before later rule image named parsed marked pass = (
  rewrite-parsed references before image named parsed
      ∙ ap (λ t. (t, none))
          (ap (λ rules. rewrite_named rules image named) (sym (append-nil before))
            ∙ rewrite_named-All before [] image named pass),
  λ rest m.
      rewrite-parsed references (before ++ rule ∷ later) image named parsed
      ∙ ap (λ t. (t, none))
          (rewrite_named-All before (rule ∷ later) image named pass
            ∙ rewrite_named-Matches rule later image rest named m
            ∙ with_tag_and_digest-suffix_of (rule.target_prefix <> ("/" <> rest))
                (domain_and_path named) named.tag named.digest marked),
)
