-- ===== src/Controller/Reconciler/Steps/Finalizer.antt =====
-- The adopted secrets of a session that is being deleted, and its finalizer.
use amalthea.Prelude.{
  ◌≡◌, refl, sym, ap, ◌∙◌, Bool, true, false, ◌&&◌, Option, none, some, List, [], ◌∷◌, arith, ℕ_eq,
  String_eq, if◌then◌else◌,
}
use amalthea.Kube.{Answer, ok, err, ClientError}
use amalthea.Api.{AmaltheaSession, not_ready}
use amalthea.Api.Secrets.{SecretName, adopted_secrets}
use amalthea.Controller.Reconciler.Calls.{
  recover, update_status, update, delete_secret, Log, World, continue, ◌>>=◌, call_update,
}
use amalthea.Controller.Reconciler.Session.{
  ReconcileResult, contains_finalizer, remove_finalizer, with_state, requeue_now, joined,
}
use amalthea.Controller.Reconciler.Steps.{reconcile_deleted, remove_with_secrets, delete_all}

-- The log after each of some secrets was tried, in their order.
abbrev pub tried : List SecretName → Log → Log
tried [] h = h
tried (s ∷ rest) h = tried rest (delete_secret s ∷ h)

abbrev pub is_gone : Option ClientError → Bool
is_gone none = true
is_gone (some e) = e.not_found

abbrev pub is_ok : {A : Type 0} → Answer A → Bool
is_ok (ok a) = true
is_ok (err e) = false

module _ {V : Type 0} (w : World V) where
  -- The server has deleted each of some secrets, or did not know it.
  abbrev pub all_gone : List SecretName → Log → Bool
  all_gone [] h = true
  all_gone (s ∷ rest) h = is_gone (w.remove_secret h s) && all_gone rest (delete_secret s ∷ h)

  joined_lem :
      (o : Option ClientError) (r : Answer (Unit {0}) × Log)
      → ((joined o r).1 ≡ r.1) × (is_ok (joined o r).0 ≡ (is_gone o && is_ok r.0))
  unfolding joined
  joined_lem none r = (refl, refl)
  joined_lem (some e) (ok u, h) = ground arith
  joined_lem (some e) (err f, h) = ground arith

  delete_all_lem :
      (items : List SecretName) (h : Log)
      → ((delete_all w items h).1 ≡ tried items h)
        × (is_ok (delete_all w items h).0 ≡ all_gone items h)
  unfolding delete_all
  delete_all_lem [] h = (refl, refl)
  delete_all_lem (s ∷ rest) h =
      let j = joined_lem (w.remove_secret h s) (delete_all w rest (delete_secret s ∷ h)) in
      let ih = delete_all_lem rest (delete_secret s ∷ h) in
      (j.0 ∙ ih.0, j.1 ∙ ap (λ b. is_gone (w.remove_secret h s) && b) ih.1)

  logged :
      (x : Answer AmaltheaSession) (h : Log)
      → (continue {B = Unit {0}} (x, h) (λ _ h'. (ok tt, h'))).1 ≡ h
  logged (ok a) h = refl
  logged (err e) h = refl

  after_secrets :
      (cr : AmaltheaSession) (r : Answer (Unit {0}) × Log) (gone : Bool) (t : Log)
      → r.1 ≡ t
      → is_ok r.0 ≡ gone
      → let (answer, h') =
          continue {B = Unit {0}} r (λ _. call_update w cr >>= λ _ h''. (ok tt, h'')) in
        (h' ≡ (if gone then update cr ∷ t else t)) × (is_ok answer ≡ true → gone ≡ true)
  after_secrets cr (ok u, h) gone t e g =
      rw (← g) (logged (w.update_session h cr) (update cr ∷ h) ∙ ap (◌∷◌ (update cr)) e, λ _. refl)
  after_secrets cr (err x, h) gone t e g = rw (← g) (e, λ k. k)

  remove_with_secrets_lem :
      (cr : AmaltheaSession) (h : Log)
      → contains_finalizer cr ≡ true
      → let (answer, h') = remove_with_secrets w cr h in
        let items = adopted_secrets cr in
        (h' ≡ (
          if all_gone items h then update (remove_finalizer cr) ∷ tried items h else tried items h))
        × (is_ok answer ≡ true → all_gone items h ≡ true)
  unfolding remove_with_secrets
  remove_with_secrets_lem cr h f =
      let d = delete_all_lem (adopted_secrets cr) h in
      rw f (
        after_secrets (remove_finalizer cr) (delete_all w (adopted_secrets cr) h)
          (all_gone (adopted_secrets cr) h) (tried (adopted_secrets cr) h) d.0 d.1)

  wrapped :
      (r : Answer (Unit {0}) × Log)
      → ((continue {B = ReconcileResult} r (λ _ h. (ok requeue_now, h))).1 ≡ r.1)
        × (is_ok (continue {B = ReconcileResult} r (λ _ h. (ok requeue_now, h))).0 ≡ is_ok r.0)
  wrapped (ok u, h) = (refl, refl)
  wrapped (err x, h) = (refl, refl)

  -- The secrets that a session has adopted go before its finalizer. Of a session that is being
  -- deleted and has the finalizer, once its status is updated, every adopted secret is tried; the
  -- session is updated, without the finalizer, exactly when all of them are gone; and the pass ends
  -- well only then.
  pub reconcile_deleted-removes_secrets :
      (cr cr' : AmaltheaSession) (h : Log)
      → w.update_session_status h (with_state not_ready cr) ≡ ok cr'
      → contains_finalizer cr' ≡ true
      → let items = adopted_secrets cr' in
        let before = update_status (with_state not_ready cr) ∷ h in
        let (answer, after) = reconcile_deleted w cr h in
        (after ≡ (
          if all_gone items before
          then update (remove_finalizer cr') ∷ tried items before
          else tried items before))
        × (is_ok answer ≡ true → all_gone items before ≡ true)
  unfolding reconcile_deleted
  reconcile_deleted-removes_secrets cr cr' h e f =
      let before = update_status (with_state not_ready cr) ∷ h in
      let r = remove_with_secrets w cr' before in
      let l = remove_with_secrets_lem cr' before f in
      rw (e, recover) ((wrapped r).0 ∙ l.0, λ k. l.1 (sym (wrapped r).1 ∙ k))
