-- ===== src/Controller/Reconciler/Calls.antt =====
-- The calls of a reconciliation and their log.
use amalthea.Prelude.{String, Bool, Option, none, some, List, ◌∷◌, ℕ_eq, String_eq}
use amalthea.Time.{Time}
use amalthea.Kube.{Answer, ok, err, ClientError, Event}
use amalthea.Api.{AmaltheaSession}
use amalthea.Api.Secrets.{SecretName}
use amalthea.Controller.Status.{Readings, Observations}
use amalthea.Controller.Children.Reconciliation.{ChildResources, ChildClient}

pub data Call : Type 0 where
  get : Call
  update_status : AmaltheaSession → Call
  update : AmaltheaSession → Call
  delete : AmaltheaSession → Call
  delete_secret : SecretName → Call
  reconcile_children : AmaltheaSession → Call
  record_metrics : AmaltheaSession → Call
  remove_metrics : AmaltheaSession → Call

-- The latest call is the first.
abbrev pub Log : Type 0
Log = List Call

-- What is outside of the reconciler. An update answers with the object as the server has it then.
-- `new_children` makes the child resources (NewChildResources), `new_run_id` a fresh ULID.
pub record World (V : Type 0) : Type 0 where
  pub get_session : Log → Answer AmaltheaSession
  pub update_session_status : Log → AmaltheaSession → Answer AmaltheaSession
  pub update_session : Log → AmaltheaSession → Answer AmaltheaSession
  pub delete_session : Log → AmaltheaSession → Option ClientError
  pub remove_secret : Log → SecretName → Option ClientError
  pub new_children : AmaltheaSession → Answer (ChildResources V)
  pub child_client : Log → ChildClient V
  pub new_run_id : Log → String
  pub clock : Log → Time
  pub readings : Log → Readings
  pub observations : Log → AmaltheaSession → Observations
  pub session_url : AmaltheaSession → String
  pub quote : String → String
  pub sort_events : (Event → Event → Bool) → List Event → List Event

-- A computation that makes calls and may end in an error.
abbrev pub Exec : Type 0 → Type 0
Exec A = Log → Answer A × Log

abbrev pub continue : {A B : Type 0} → Answer A × Log → (A → Exec B) → Answer B × Log
continue (ok a, h) f = f a h
continue (err e, h) f = (err e, h)

infixl 5 ◌>>=◌ ◌>>◌
abbrev pub ◌>>=◌ : {A B : Type 0} → Exec A → (A → Exec B) → Exec B
◌>>=◌ m f h = continue (m h) f

abbrev pub ◌>>◌ : {A B : Type 0} → Exec A → Exec B → Exec B
m >> k = m >>= λ _. k

abbrev pub pure : {A : Type 0} → A → Exec A
pure a h = (ok a, h)

abbrev pub raise : {A : Type 0} → ClientError → Exec A
raise e h = (err e, h)

-- Go's `if err != nil { … }` after a call: the handler goes on from where the call failed.
abbrev pub recover : {A : Type 0} → Answer A × Log → Exec A → Answer A × Log
recover (ok a, h) k = (ok a, h)
recover (err e, h) k = k h

abbrev pub or_else_do : {A : Type 0} → Exec A → Exec A → Exec A
or_else_do m k h = recover (m h) k

abbrev pub done : Option ClientError → Answer (Unit {0})
done none = ok tt
done (some e) = err e

module _ {V : Type 0} (w : World V) where
  abbrev pub call_get : Exec AmaltheaSession
  call_get h = (w.get_session h, get ∷ h)

  abbrev pub call_update_status : AmaltheaSession → Exec AmaltheaSession
  call_update_status cr h = (w.update_session_status h cr, update_status cr ∷ h)

  abbrev pub call_update : AmaltheaSession → Exec AmaltheaSession
  call_update cr h = (w.update_session h cr, update cr ∷ h)

  abbrev pub call_delete : AmaltheaSession → Exec (Unit {0})
  call_delete cr h = (done (w.delete_session h cr), delete cr ∷ h)

abbrev pub log_call : Call → Exec (Unit {0})
log_call c h = (ok tt, c ∷ h)
