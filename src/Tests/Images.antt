-- ===== src/Tests/Images.antt =====
-- What the theorems on images say of a concrete one.
use amalthea.Prelude.{String, ◌<>◌, ◌≡◌, refl, inl, none, some, [], ◌∷◌, ℕ_eq, String_eq}
use amalthea.Images.{Named, ImageRewriteRule, is_malformed, rewrite, domain_and_path}
use amalthea.Images.Laws.{Passes, Matches, suffix_of, rewrite_lem}
use amalthea.Tests.Remote.{some_images}

abbrev a_named : Named
a_named = record { domain = "docker.io"; path = "library/python"; tag = some "3"; digest = none }

abbrev a_rule : ImageRewriteRule
a_rule = record { source_prefix = "docker.io"; target_prefix = "harbor.org/hub" }

abbrev a_malformed_rule : ImageRewriteRule
a_malformed_rule = record { source_prefix = "docker.io"; target_prefix = "" }

rewrite_lem_example :
    (rewrite some_images (a_malformed_rule ∷ []) "python:3" ≡ ("python:3", none))
    × ((rest : String)
        → Matches (domain_and_path a_named) a_rule rest
        → rewrite some_images (a_malformed_rule ∷ a_rule ∷ []) "python:3"
          ≡ (("harbor.org/hub" <> ("/" <> rest)) <> suffix_of (some "3") none, none))
unfolding Passes is_malformed
rewrite_lem_example =
    rewrite_lem some_images (a_malformed_rule ∷ []) [] a_rule "python:3" a_named refl refl
      (inl refl, tt)
