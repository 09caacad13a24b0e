-- ===== src/Remote/Firecrest/Logs/Reference.antt =====
-- The lines of a text, and that the controller prints those of the log, whatever the pieces in which
-- it reads the log and however often it starts again.
use amalthea.Prelude.{
  ℕ, ◌+◌, String, ◌≡◌, refl, sym, ap, ◌∙◌, Bool, true, false, List, [], ◌∷◌, ◌++◌, arith, ◌==◌,
  ℕ_eq, String_eq, Bytes, take, newline, is_one_line, unlines, length-append, take-append, is_empty,
  length, All,
}
use mathlib.Core.List.{append-nil, append_assoc}
use amalthea.Remote.Firecrest.{LogFile, Pod, Stream, out, error, Session}
use amalthea.Remote.Firecrest.Recovery.{IsFaithful, IsSaved}
use amalthea.Remote.Firecrest.Logs.Following.{IsFollowing}
use amalthea.Remote.Firecrest.Logs.Printed.{file_of, texts_of}
use amalthea.Remote.Firecrest.Logs.Followed.{followed}
use amalthea.Remote.Firecrest.Logs.Runs.{Reachable, IsKept, Reachable-IsKept}

-- The lines of a text that end with a newline, where `line` is what was read of the first one.
unfoldable pub lines_after : Bytes → Bytes → List Bytes
lines_after line [] = []
lines_after line (c ∷ s) = elim (c == newline) [
  | true ↦ line ∷ lines_after [] s
  | false ↦ lines_after (line ++ c ∷ []) s
]

abbrev pub complete_lines : Bytes → List Bytes
complete_lines s = lines_after [] s

not_newline : (c : ℕ) (s : Bytes) → is_one_line (c ∷ s) ≡ true → (c == newline) ≡ false
not_newline c s h = ground arith

rest_is_one_line : (c : ℕ) (s : Bytes) → is_one_line (c ∷ s) ≡ true → is_one_line s ≡ true
rest_is_one_line c s h = ground arith

lines_after-other :
    (acc : Bytes) (c : ℕ) (s : Bytes)
    → (c == newline) ≡ false
    → lines_after acc (c ∷ s) ≡ lines_after (acc ++ c ∷ []) s
unfolding lines_after
lines_after-other acc c s n = rw (n, lines_after) refl

lines_after-end : (acc s : Bytes) → lines_after acc (newline ∷ s) ≡ acc ∷ lines_after [] s
unfolding lines_after
lines_after-end acc s = refl

lines_after-line :
    (acc line s : Bytes)
    → is_one_line line ≡ true
    → lines_after acc (line ++ newline ∷ s) ≡ (acc ++ line) ∷ lines_after [] s
lines_after-line acc [] s h = rw (lines_after-end acc s, append-nil acc) refl
lines_after-line acc (c ∷ line) s h =
    lines_after-other acc c (line ++ newline ∷ s) (not_newline c line h)
    ∙ lines_after-line (acc ++ c ∷ []) line s (rest_is_one_line c line h)
    ∙ rw (append_assoc acc (c ∷ []) line) refl

lines_after-rest : (acc s : Bytes) → is_one_line s ≡ true → lines_after acc s ≡ []
unfolding lines_after
lines_after-rest acc [] h = refl
lines_after-rest acc (c ∷ s) h =
    rw (lines_after-other acc c s (not_newline c s h))
      (lines_after-rest (acc ++ c ∷ []) s (rest_is_one_line c s h))

complete_lines-unlines :
    (p : List Bytes) (rest : Bytes)
    → All (λ line. is_one_line line ≡ true) p
    → is_one_line rest ≡ true
    → complete_lines (unlines p ++ rest) ≡ p
complete_lines-unlines [] rest ps h = lines_after-rest [] rest h
complete_lines-unlines (line ∷ p) rest (one, ps) h =
    rw
      (
        append_assoc line (newline ∷ unlines p) rest,
        lines_after-line [] line (unlines p ++ rest) one,
        complete_lines-unlines p rest ps h,
      )
      refl

-- What is printed of a log that is followed are the complete lines of what was read of it.
pub IsFollowing-complete_lines :
    (log : Bytes) (f : LogFile) (p : List Bytes)
    → IsFollowing log f p
    → p ≡ complete_lines (take (f.offset + length f.buf) log)
unfolding IsFollowing
IsFollowing-complete_lines log f p (size, (unread, whole), one, ps) = sym (
    rw (size, ← length-append (unlines p) f.buf, ← whole, take-append (unlines p ++ f.buf) unread)
      (complete_lines-unlines p f.buf ps one))

-- A session that has submitted its job, saved its state and printed nothing.
pub record IsStarted {F C : Type 0} (pod : Pod F C) (path : Stream → String) (s : Session F)
    : Type 0 where
  pub has_job : is_empty s.controller.job_id ≡ false
  pub stdout_file : s.controller.stdout ≡ record { path = path out; offset = 0; buf = [] }
  pub stderr_file : s.controller.stderr ≡ record { path = path error; offset = 0; buf = [] }
  pub nothing_printed : s.printed ≡ []
  pub saved : IsSaved pod s.controller s.files

nothing_read :
    (path : String) (f : LogFile) (log : Bytes)
    → f ≡ record { path = path; offset = 0; buf = [] }
    → IsFollowing log f []
unfolding IsFollowing
nothing_read path f log e = rw e (refl, (log, refl), refl, tt)

IsStarted-IsKept :
    {F C : Type 0} (pod : Pod F C) (path : Stream → String) (log : Stream → Bytes) (s : Session F)
    → IsStarted pod path s
    → IsKept pod path log true s
unfolding IsKept texts_of
IsStarted-IsKept pod path log s h = (
  followed path log s h.has_job (ap (λ f. f.path) h.stdout_file) (ap (λ f. f.path) h.stderr_file)
      (rw h.nothing_printed (nothing_read (path out) s.controller.stdout (log out) h.stdout_file))
      (rw h.nothing_printed
        (nothing_read (path error) s.controller.stderr (log error) h.stderr_file)),
  λ _. h.saved,
)

-- Over any sequence of rounds and restarts, where a restart follows a save without an error, and
-- whatever pieces of the logs the cluster answers with, what is printed of a log are the complete
-- lines of the bytes of it that are read, each once and in their order.
pub Reachable-complete_lines :
    {F C : Type 0} (pod : Pod F C) (path : Stream → String) (log : Stream → Bytes)
    (first s : Session F) (saved : Bool)
    → IsFaithful pod
    → IsStarted pod path first
    → Reachable pod path log first saved s
    → (stream : Stream)
    → let f = file_of stream s.controller in
      texts_of stream s.printed ≡ complete_lines (take (f.offset + length f.buf) (log stream))
unfolding IsKept
Reachable-complete_lines pod path log first s saved faithful started r stream =
    let h =
      (Reachable-IsKept pod path log faithful r (IsStarted-IsKept pod path log first started)).0 in
    IsFollowing-complete_lines (log stream) (file_of stream s.controller)
      (texts_of stream s.printed) (h.logs stream)
