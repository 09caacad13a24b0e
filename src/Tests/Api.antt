-- ===== src/Tests/Api.antt =====
-- What the theorems on the custom resource say of concrete sessions.
use amalthea.Prelude.{
  ◌+◌, ◌<◌, ◌<>◌, ◌≡◌, refl, ◌↔◌, ◌⊎◌, true, none, [], ◌∷◌, arith, ℕ_eq, String_eq,
}
use amalthea.Time.{pos}
use amalthea.Api.{AmaltheaSession, SessionSecretRef, hibernated, failed, succeeded}
use amalthea.Api.Deletion.{
  needs_deletion, done_since, needs_deletion_interactive, needs_deletion_job,
}
use amalthea.Api.Secrets.{SecretName, adopted_secrets}
use amalthea.Api.Secrets.Members.{In, IsAdoptedBy}
use amalthea.Api.Secrets.Laws.{Refers, adopted_secrets_lem}
use amalthea.Api.Address.{UrlLibrary, slashed}
use amalthea.Api.Workloads.{Template}
use amalthea.Tests.Fixtures.{a_session, a_hibernated_session, a_finished_job, a_culling, day}

-- A library that parses nothing.
abbrev no_parser : UrlLibrary
no_parser = record { parse = λ s. none; to_string = λ u. u.scheme <> ("://" <> (u.host <> u.path)) }

needs_deletion_interactive_example :
    (needs_deletion (1_001 + day) a_hibernated_session ≡ true)
    ↔ ((a_hibernated_session.status.state ≡ hibernated) × (0 < day) × (1_000 + day < 1_001 + day))
needs_deletion_interactive_example =
    needs_deletion_interactive (1_001 + day) day a_hibernated_session refl refl (omega arith)

needs_deletion_job_example : (needs_deletion (501 + day) a_finished_job ≡ true) ↔ (
    (0 < done_since a_finished_job.status)
    × ((a_finished_job.status.state ≡ failed) ⊎ (a_finished_job.status.state ≡ succeeded))
    × (done_since a_finished_job.status + day < 501 + day))
needs_deletion_job_example =
    needs_deletion_job (501 + day) day a_finished_job refl refl (omega arith)

abbrev a_kept_job : AmaltheaSession
a_kept_job = record a_finished_job {
  spec = record a_finished_job.spec {
    culling = record a_culling { max_hibernated_duration = pos 0 };
  };
}

abbrev a_secret_name : SecretName
a_secret_name = record { namespace = "renku"; name = "cloning" }

adopted_secrets_lem_example :
    In a_secret_name (adopted_secrets a_session)
    ↔ ((r : SessionSecretRef) × Refers a_session.spec r × IsAdoptedBy "renku" r a_secret_name)
adopted_secrets_lem_example = adopted_secrets_lem a_session a_secret_name

abbrev a_template_with_labels : Template
a_template_with_labels = record {
  labels = ("team", "a") ∷ ("app.kubernetes.io/name", "mine") ∷ [];
  annotations = [];
  uid = "u-1";
}

-- Tests on concrete inputs.
adopted_secrets_test :
    adopted_secrets a_session ≡ record { namespace = "renku"; name = "cloning" } ∷ []
unfolding adopted_secrets
adopted_secrets_test = refl

slashed_test : slashed "/session" ≡ "/session/"
unfolding slashed
slashed_test = refl
