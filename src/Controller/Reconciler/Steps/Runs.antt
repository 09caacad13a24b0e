-- ===== src/Controller/Reconciler/Steps/Runs.antt =====
-- The identity of a session's run over the passes of the reconciler.
use amalthea.Prelude.{
  String, ◌≡◌, refl, inl, inr, Bool, true, false, ℕ_eq, String_eq, if◌then◌else◌, Bool-cases,
  is_empty,
}
use amalthea.Api.{AmaltheaSession}
use amalthea.Controller.Reconciler.Session.{next_run_id, with_run_id}

abbrev run : Bool → String → String → String
run asleep fresh id = if asleep then "" else if is_empty id then fresh else id

run_lem :
    (asleep : Bool) (fresh later id : String)
    → is_empty fresh ≡ false
    → (is_empty (run asleep fresh id) ≡ asleep)
      × (run asleep later (run asleep fresh id) ≡ run asleep fresh id)
run_lem true fresh later id h = (refl, refl)
run_lem false fresh later id h = elim (Bool-cases (is_empty id)) [
  | inl e ↦ rw e (h, rw h)
  | inr e ↦ rw e (e, rw e)
]

-- A session has a run exactly while it is not hibernated, where fresh run identifiers are not
-- empty; and a later pass over the same session keeps the run that it has.
pub next_run_id_lem :
    (fresh later : String) (cr : AmaltheaSession)
    → is_empty fresh ≡ false
    → (is_empty (next_run_id fresh cr) ≡ cr.spec.hibernated)
      × (next_run_id later (with_run_id (next_run_id fresh cr) cr) ≡ next_run_id fresh cr)
unfolding next_run_id with_run_id
next_run_id_lem fresh later cr h = run_lem cr.spec.hibernated fresh later cr.status.run_id h
