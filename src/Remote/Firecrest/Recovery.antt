-- ===== src/Remote/Firecrest/Recovery.antt =====
-- The state that a controller saves and the one that it recovers.
use amalthea.Prelude.{
  String, ◌≡◌, refl, sym, ap, ◌∙◌, ◌⊎◌, inl, inr, Bool, true, false, Option, none, some, arith,
  ℕ_eq, String_eq, if◌then◌else◌, is_empty,
}
use amalthea.Remote.Firecrest.{
  FirecrestRemoteSessionController, SavedState, Pod, get_save_path, state_to_save, restored,
  write_state, write_in_dir, save_state, recover_from, recover_contents, recover_state,
}

-- What is written without an error can be read (package os), and what encoding/json has written it
-- reads again.
pub record IsFaithful {F C : Type 0} (pod : Pod F C) : Type 0 where
  pub writes :
      (path : String) (contents : C) (files : F)
      → (pod.fs.write_file path contents files).1 ≡ none
      → pod.fs.read_file path (pod.fs.write_file path contents files).0 ≡ inl contents
  pub reads :
      (state : SavedState) (contents : C)
      → pod.marshal state ≡ inl contents
      → pod.unmarshal contents ≡ inl state

-- The state that a controller recovers is the one that is saved.
pub state_to_save-restored :
    (c fresh : FirecrestRemoteSessionController)
    → is_empty c.job_id ≡ false
    → state_to_save (restored fresh (state_to_save c)) ≡ state_to_save c
unfolding restored state_to_save
state_to_save-restored c fresh job = rw job refl

module _ {F C : Type 0} (pod : Pod F C) where
  -- The file holds the state of the controller.
  unfoldable pub IsSaved : FirecrestRemoteSessionController → F → Type 0
  IsSaved c files =
      (contents : C) × (pod.fs.read_file (get_save_path pod) files ≡ inl contents)
      × (pod.unmarshal contents ≡ inl (state_to_save c))

  pub recover_state-IsSaved :
      (c fresh : FirecrestRemoteSessionController) (files : F)
      → IsSaved c files
      → recover_state pod fresh files ≡ (restored fresh (state_to_save c), none)
  unfolding recover_state recover_contents recover_from IsSaved
  recover_state-IsSaved c fresh files (contents, read, u) = rw (read, u) refl

  pub restored-IsSaved :
      (c fresh : FirecrestRemoteSessionController) (files : F)
      → is_empty c.job_id ≡ false
      → IsSaved c files
      → IsSaved (restored fresh (state_to_save c)) files
  unfolding IsSaved
  restored-IsSaved c fresh files job (contents, read, u) =
      (contents, read, u ∙ ap inl (sym (state_to_save-restored c fresh job)))

without_error :
    {F : Type 0} (b : Bool) (e : String) (files : F) (x : F × Option String)
    → (if b then (files, some e) else x).1 ≡ none
    → (b ≡ false) × (x.1 ≡ none)
without_error true e files x h = ground arith
without_error false e files x h = (refl, h)

module _ {F C : Type 0} (pod : Pod F C) (faithful : IsFaithful pod) where
  write_in_dir-IsSaved :
      (c : FirecrestRemoteSessionController) (m : C ⊎ String) (made : F × Option String)
      → pod.marshal (state_to_save c) ≡ m
      → (write_in_dir pod m made).1 ≡ none
      → IsSaved pod c (write_in_dir pod m made).0
  unfolding write_in_dir write_state IsSaved
  write_in_dir-IsSaved c m (files, some e) made h = ground arith
  write_in_dir-IsSaved c (inr e) (files, none) made h = ground arith
  write_in_dir-IsSaved c (inl contents) (files, none) made h = (
    contents,
    faithful.writes (get_save_path pod) contents files h,
    faithful.reads (state_to_save c) contents made,
  )

  pub save_state-IsSaved :
      (c : FirecrestRemoteSessionController) (files : F)
      → (save_state pod c files).1 ≡ none
      → (is_empty c.job_id ≡ false) × IsSaved pod c (save_state pod c files).0
  unfolding save_state
  save_state-IsSaved c files h =
      let (job, fine) = without_error (is_empty c.job_id) _ files _ h in
      (job, rw job (write_in_dir-IsSaved c (pod.marshal (state_to_save c)) _ refl fine))
