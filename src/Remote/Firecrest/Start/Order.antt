-- ===== src/Remote/Firecrest/Start/Order.antt =====
-- The order of the calls that starting a session makes.
use amalthea.Prelude.{
  String, ◌≡◌, refl, ◌⊎◌, inl, inr, Bool, true, false, ◌&&◌, ◌||◌, not, Option, none, some, [], ◌∷◌,
  arith, ◌==◌, ℕ_eq, String_eq, eq_iff, if◌then◌else◌, Bool-cases, is_empty, StringMap,
}
use amalthea.Remote.Models.{RemoteError}
use amalthea.Remote.Firecrest.{FirecrestRemoteSessionController, Session, recover_state}
use amalthea.Remote.Firecrest.Calls.{
  get_systems, get_user_info, make_dir, change_mode, upload, submit, Calls, World, Exec, continue,
  getenv, HpcCluster, GitRepository, get_current_system, get_user_name, mkdir, chmod, upload_file,
  submit_job, JobDescription,
}
use amalthea.Remote.Firecrest.Start.{
  start, start_recovered, prepare, fill, upload_secret, upload_repositories, job_of, session_path,
  submitted_job,
}

-- The directory was closed to others.
unfoldable pub was_closed : String → Calls → Bool
was_closed path [] = false
was_closed path (change_mode p mode ∷ h) = (p == path && mode == "700") || was_closed path h
was_closed path (_ ∷ h) = was_closed path h

-- The script was put into the directory.
unfoldable pub has_script : String → Calls → Bool
has_script path [] = false
has_script path (upload p name contents ∷ h) =
    (p == path && name == "session_script.sh") || has_script path h
has_script path (_ ∷ h) = has_script path h

unfoldable pub was_submitted : Calls → Bool
was_submitted [] = false
was_submitted (submit job ∷ h) = true
was_submitted (_ ∷ h) = was_submitted h

-- Nothing is uploaded before the directory is closed to others. A job is submitted once at most, to
-- run in the directory, and after its script.
unfoldable pub is_ordered : String → Calls → Bool
unfolding was_closed has_script was_submitted
is_ordered path [] = true
is_ordered path (upload p name contents ∷ h) = was_closed path h && is_ordered path h
is_ordered path (submit job ∷ h) =
    job.working_directory == path
    && was_closed path h
    && has_script path h
    && not (was_submitted h)
    && is_ordered path h
is_ordered path (_ ∷ h) = is_ordered path h

-- From calls with `P` a computation gets to calls with `Q`.
Leads : {A : Type 0} → (Calls → Type 0) → (Calls → Type 0) → Exec A → Type 0
Leads P Q m = (h : Calls) → P h → Q (m h).1

continue-Leads :
    {A B : Type 0} (P Q : Calls → Type 0) (r : (A ⊎ RemoteError) × Calls) (f : A → Exec B)
    → P r.1
    → ((h : Calls) → P h → Q h)
    → ((a : A) (h : Calls) → P h → Q (f a h).1)
    → Q (continue r f).1
unfolding continue
continue-Leads P Q (inl a, h) f p weaker next = next a h p
continue-Leads P Q (inr e, h) f p weaker next = weaker h p

abbrev Before : String → Calls → Type 0
Before path h = (is_ordered path h ≡ true) × (was_submitted h ≡ false)

abbrev Closed : String → Calls → Type 0
Closed path h = Before path h × (was_closed path h ≡ true)

abbrev Ready : String → Calls → Type 0
Ready path h = Closed path h × (has_script path h ≡ true)

abbrev Ordered : String → Calls → Type 0
Ordered path h = is_ordered path h ≡ true

Closed-Ordered : (path : String) (h : Calls) → Closed path h → Ordered path h
Closed-Ordered path h c = c.0.0

make_dir-Before :
    (path p : String) (parents : Bool) (h : Calls)
    → Before path h
    → Before path (make_dir p parents ∷ h)
unfolding is_ordered was_submitted
make_dir-Before path p parents h before = before

make_dir-Closed :
    (path p : String) (parents : Bool) (h : Calls)
    → Closed path h
    → Closed path (make_dir p parents ∷ h)
unfolding is_ordered was_submitted was_closed
make_dir-Closed path p parents h closed = closed

chmod-Closed :
    (path : String) (h : Calls) → Before path h → Closed path (change_mode path "700" ∷ h)
unfolding is_ordered was_closed was_submitted
chmod-Closed path h (ordered, fresh) =
    let same : (path == path) ≡ true = ground (arith, eq_iff path path) in
    ((ordered, fresh), rw same refl)

upload-Closed :
    (path p name contents : String) (h : Calls)
    → Closed path h
    → Closed path (upload p name contents ∷ h)
unfolding is_ordered was_closed was_submitted
upload-Closed path p name contents h ((ordered, fresh), closed) =
    ((rw (closed, ordered) refl, fresh), closed)

upload-Ready :
    (path contents : String) (h : Calls)
    → Closed path h
    → Ready path (upload path "session_script.sh" contents ∷ h)
unfolding has_script
upload-Ready path contents h closed =
    let same : (path == path) ≡ true = ground (arith, eq_iff path path) in
    (upload-Closed path path "session_script.sh" contents h closed, rw same refl)

submit-Ordered :
    (path : String) (job : JobDescription) (h : Calls)
    → job.working_directory ≡ path
    → Ready path h
    → Ordered path (submit job ∷ h)
unfolding is_ordered
submit-Ordered path job h at (((ordered, fresh), closed), script) =
    let same : (job.working_directory == path) ≡ true =
      ground (arith, eq_iff job.working_directory path) in
    rw (same, closed, script, fresh, ordered) refl

module _ {F C : Type 0} (w : World F C) where
  upload_secret-Closed :
      (path secrets_path : String) (h : Calls)
      → Closed path h
      → Closed path (upload_secret w secrets_path h).1
  unfolding upload_secret upload_file
  upload_secret-Closed path secrets_path h closed =
      elim (Bool-cases (is_empty (getenv w "RSC_WSTUNNEL_SECRET"))) [
        | inl e ↦ rw e closed
        | inr e ↦ rw e (upload-Closed path secrets_path "wstunnel_secret" _ h closed)
      ]

  upload_repositories-Closed :
      (path : String) (repositories : StringMap GitRepository) (h : Calls)
      → Closed path h
      → Closed path (upload_repositories w path repositories h).1
  unfolding upload_repositories mkdir upload_file
  upload_repositories-Closed path [] h closed = closed
  upload_repositories-Closed path ((name, repository) ∷ rest) h closed =
      let keep : (h : Calls) → Closed path h → Closed path h = λ h c. c in
      continue-Leads (Closed path) (Closed path) _ _ (make_dir-Closed path _ true h closed) keep
        (λ a h c. continue-Leads (Closed path) (Closed path) _ _ c keep (λ contents h c.
          continue-Leads (Closed path) (Closed path) _ _
            (upload-Closed path _ "config" contents h c) keep
            (λ a h c. upload_repositories-Closed path rest h c)))

  fill-Ordered :
      (c : FirecrestRemoteSessionController) (system : HpcCluster) (path : String) (h : Calls)
      → Before path h
      → Ordered path (fill w c system path h).1
  unfolding fill mkdir chmod upload_file submit_job job_of
  fill-Ordered c system path h before =
      let weak = Closed-Ordered path in
      continue-Leads (Before path) (Ordered path) _ _ (make_dir-Before path _ true h before)
        (λ h b. b.0)
        (λ a h b.
          continue-Leads (Closed path) (Ordered path) _ _ (chmod-Closed path h b) weak (λ a h c.
            continue-Leads (Closed path) (Ordered path) _ _ (upload_secret-Closed path _ h c) weak
              (λ a h c. continue-Leads (Closed path) (Ordered path) _ _ c weak (λ repositories h c.
                continue-Leads (Closed path) (Ordered path) _ _
                  (upload_repositories-Closed path repositories h c) weak
                  (λ a h c. continue-Leads (Closed path) (Ordered path) _ _ c weak (λ env h c.
                    continue-Leads (Ready path) (Ordered path) _ _ (upload-Ready path _ h c)
                      (λ h r. weak h r.0)
                      (λ a h r.
                        continue-Leads (Ready path) (Ordered path) _ _ r (λ h r. weak h r.0)
                          (λ a h r. submit-Ordered path (job_of w path env) h refl r))))))))

  -- No call of the kinds whose order matters was made.
  abbrev Quiet : Calls → Type 0
  Quiet h = (path : String) → Before path h

  abbrev IsOrdered : Calls → Type 0
  IsOrdered h = (path : String) × Ordered path h

  Quiet-IsOrdered : (h : Calls) → Quiet h → IsOrdered h
  Quiet-IsOrdered h q = ("", (q "").0)

  get_systems-Quiet : (h : Calls) → Quiet h → Quiet (get_systems ∷ h)
  unfolding is_ordered was_submitted
  get_systems-Quiet h q = q

  get_user_info-Quiet : (h : Calls) → Quiet h → Quiet (get_user_info ∷ h)
  unfolding is_ordered was_submitted
  get_user_info-Quiet h q = q

  prepare-IsOrdered :
      (c : FirecrestRemoteSessionController) (h : Calls) → Quiet h → IsOrdered (prepare w c h).1
  unfolding prepare get_current_system get_user_name
  prepare-IsOrdered c h q =
      continue-Leads Quiet IsOrdered _ _ (get_systems-Quiet h q) Quiet-IsOrdered (λ system h q.
        continue-Leads Quiet IsOrdered _ _ (get_user_info-Quiet h q) Quiet-IsOrdered (λ name h q.
          continue-Leads Quiet IsOrdered _ _ q Quiet-IsOrdered (λ user h q.
            continue-Leads Quiet IsOrdered _ _ q Quiet-IsOrdered (λ scratch h q.
              let path = session_path w scratch user in
              continue-Leads IsOrdered IsOrdered (fill w c system path h) _
                (path, fill-Ordered c system path h (q path)) (λ h o. o) (λ id h o. o)))))

  submitted_job-IsOrdered :
      (s : Session F) (r : ((String × String) ⊎ RemoteError) × Calls)
      → IsOrdered r.1
      → IsOrdered (submitted_job w s r).1
  unfolding submitted_job is_ordered
  submitted_job-IsOrdered s (inr e, h) o = o
  submitted_job-IsOrdered s (inl (path, id), h) o = o

  chosen-IsOrdered :
      {A : Type 0} (b : Bool) (x y : A × Calls)
      → IsOrdered x.1
      → IsOrdered y.1
      → IsOrdered (if b then x else y).1
  chosen-IsOrdered true x y p q = p
  chosen-IsOrdered false x y p q = q

  start_recovered-IsOrdered :
      (s : Session F) (r : FirecrestRemoteSessionController × Option RemoteError) (h : Calls)
      → Quiet h
      → IsOrdered (start_recovered w s r h).1
  unfolding start_recovered
  start_recovered-IsOrdered s (c, some e) h q = Quiet-IsOrdered h q
  start_recovered-IsOrdered s (c, none) h q =
      chosen-IsOrdered (not (is_empty c.job_id)) _ _ (Quiet-IsOrdered h q) (
        chosen-IsOrdered c.fake_start _ _ (Quiet-IsOrdered h q) (
          submitted_job-IsOrdered (record s { controller = c }) (prepare w c h)
            (prepare-IsOrdered c h q)))

  -- Whatever the services answer, there is a directory such that nothing is uploaded before it is
  -- closed to others, a job is submitted once at most, and the job that is submitted runs in it and
  -- was preceded by the upload of its script into it.
  pub start-IsOrdered :
      (s : Session F) → (path : String) × (is_ordered path (start w s []).1 ≡ true)
  unfolding start is_ordered was_submitted
  start-IsOrdered s =
      start_recovered-IsOrdered s (recover_state w.pod s.controller s.files) []
        (λ path. (refl, refl))
