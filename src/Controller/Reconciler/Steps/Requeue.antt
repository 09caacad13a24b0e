-- ===== src/Controller/Reconciler/Steps/Requeue.antt =====
-- What a pass of the reconciler leaves to be done: when it asks to be called again.
use amalthea.Prelude.{
  ◌<◌, ◌≡◌, refl, ap, ◌⊎◌, inl, inr, Bool, true, false, Option, none, some, [], ◌∷◌, arith, ℕ_eq,
  String_eq, if◌then◌else◌, is_some,
}
use mathlib.Core.Path.{subst}
use amalthea.Kube.{Answer, ok, err, ClientError}
use amalthea.Api.{AmaltheaSession}
use amalthea.Api.Deletion.{needs_deletion}
use amalthea.Controller.Reconciler.Calls.{
  pure, raise, get, delete, done, record_metrics, remove_metrics, Log, World, Exec, continue, ◌>>=◌,
}
use amalthea.Controller.Reconciler.Session.{ReconcileResult, finish, requeue_now, requeue_later}
use amalthea.Controller.Reconciler.Steps.{
  reconcile_inner, reconcile_found, reconcile_live, reconcile_deleted, conclude, hibernate, got,
  remove_with_secrets, first_status, ensure_finalizer, reconcile_updates, send_status,
}

-- A statement about the result and the log of a computation that ends well.
abbrev Post : {A : Type 0} → (A → Log → Type 0) → Answer A × Log → Type 0
Post P (ok a, h) = P a h
Post P (err e, h) = Unit

continue-Post :
    {A B : Type 0} (P : B → Log → Type 0) (r : Answer A × Log) (f : A → Exec B)
    → ((a : A) (h : Log) → Post P (f a h))
    → Post P (continue r f)
continue-Post P (ok a, h) f k = k a h
continue-Post P (err e, h) f k = tt

-- The last call deleted the session.
abbrev IsDeletion : Log → Type 0
IsDeletion [] = ⊥
IsDeletion (delete cr ∷ h) = Unit
IsDeletion (_ ∷ h) = ⊥

-- A pass that has to be followed by another is: at once, or after a time.
abbrev pub IsScheduled : ReconcileResult → Log → Type 0
IsScheduled r h = (r.requeue ≡ true) ⊎ (0 < r.requeue_after) ⊎ IsDeletion h

either-Post :
    {A : Type 0} (P : A → Log → Type 0) (b : Bool) (x y : Answer A × Log)
    → Post P x
    → Post P y
    → Post P (if b then x else y)
either-Post P true x y p q = p
either-Post P false x y p q = q

either-at :
    {A : Type 0} (P : A → Log → Type 0) (b : Bool) (x y : Exec A) (h : Log)
    → Post P (x h)
    → Post P (y h)
    → Post P ((if b then x else y) h)
either-at P true x y h p q = p
either-at P false x y h p q = q

-- Of an error and a good end, it is the good one that ended well.
ended_well :
    (b : Bool) (x : ClientError) (h : Log) (r : ReconcileResult) (h' : Log)
    → (if b then pure finish else raise x) h ≡ (ok r, h')
    → b ≡ true
ended_well true x h r h' e = refl
ended_well false x h r h' e = cc (ap (λ (p : Answer ReconcileResult × Log). p.0) e)

module _ {V : Type 0} (w : World V) where
  deletion-IsScheduled :
      (cr : AmaltheaSession) (h : Log) (o : Option ClientError)
      → Post IsScheduled (continue (done o, delete cr ∷ h) (λ _ h'. (ok finish, h')))
  deletion-IsScheduled cr h none = inr (inr tt)
  deletion-IsScheduled cr h (some e) = tt

  conclude-IsScheduled :
      (changed : Bool) (cr : AmaltheaSession) (h : Log) → Post IsScheduled (conclude w changed cr h)
  unfolding conclude
  conclude-IsScheduled changed cr h =
      either-Post IsScheduled (needs_deletion (w.clock h) cr) _ _
        (deletion-IsScheduled cr (remove_metrics cr ∷ h)
          (w.delete_session (remove_metrics cr ∷ h) cr))
        (continue-Post IsScheduled (hibernate w cr h) _ (again changed))
    where
      again :
          (b : Bool) (u : Unit {0}) (h' : Log)
          → IsScheduled (if b then requeue_now else requeue_later) h'
      again true u h' = inl refl
      again false u h' = inr (inl (omega arith))

  live-IsScheduled : (cr : AmaltheaSession) (h : Log) → Post IsScheduled (reconcile_live w cr h)
  unfolding reconcile_live
  live-IsScheduled cr h = continue-Post IsScheduled (reconcile_updates w _ h) _ λ updates h₁.
      continue-Post IsScheduled (send_status w _ _ h₁) _
        λ sent h₂. conclude-IsScheduled _ sent (record_metrics sent ∷ h₂)

  deleted-IsScheduled :
      (cr : AmaltheaSession) (h : Log) → Post IsScheduled (reconcile_deleted w cr h)
  unfolding reconcile_deleted
  deleted-IsScheduled cr h =
      continue-Post IsScheduled _ _
        λ cr' h₁. continue-Post IsScheduled (remove_with_secrets w cr' h₁) _ λ u h₂. inl refl

  found-IsScheduled : (cr : AmaltheaSession) (h : Log) → Post IsScheduled (reconcile_found w cr h)
  unfolding reconcile_found
  found-IsScheduled cr h =
      either-at IsScheduled (is_some cr.deletion_timestamp) (reconcile_deleted w cr)
        (first_status w cr >>= λ started. ensure_finalizer w started >>= reconcile_live w) h
        (deleted-IsScheduled cr h)
        (continue-Post IsScheduled (first_status w cr h) _ λ started h₁.
          continue-Post IsScheduled (ensure_finalizer w started h₁) _
            λ kept h₂. live-IsScheduled kept h₂)

  got-IsScheduled :
      (answer : Answer AmaltheaSession) (h : Log) (r : ReconcileResult) (h' : Log)
      → got w answer h ≡ (ok r, h')
      → ((e : ClientError) × (answer ≡ err e) × (e.not_found ≡ true)) ⊎ IsScheduled r h'
  unfolding got
  got-IsScheduled (ok cr) h r h' e = inr (subst (Post IsScheduled) e (found-IsScheduled cr h))
  got-IsScheduled (err x) h r h' e = inl (x, refl, ended_well x.not_found x h r h' e)

  -- A pass that ends well asks to be called again, at once or after a time, unless it found that
  -- the session is gone or its last call deleted the session.
  pub reconcile_inner-IsScheduled :
      (h h' : Log) (r : ReconcileResult)
      → reconcile_inner w h ≡ (ok r, h')
      → ((e : ClientError) × (w.get_session h ≡ err e) × (e.not_found ≡ true)) ⊎ IsScheduled r h'
  unfolding reconcile_inner
  reconcile_inner-IsScheduled h h' r e = got-IsScheduled (w.get_session h) (get ∷ h) r h' e
