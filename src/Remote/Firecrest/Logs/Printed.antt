-- ===== src/Remote/Firecrest/Logs/Printed.antt =====
-- The lines that are printed, and the logs that they are of.
use amalthea.Prelude.{
  suc, ◌≡◌, refl, inl, inr, Bool, true, false, List, [], ◌∷◌, ◌++◌, ℕ_eq, String_eq, Bytes,
  is_one_line, if◌then◌else◌, Bool-cases, length, All,
}
use amalthea.Remote.Firecrest.{LogFile, FirecrestRemoteSessionController, Stream, out, error, Line}
use amalthea.Remote.Firecrest.Logs.{append_view, ViewAnswer, unreachable, no_output, output}
use amalthea.Remote.Firecrest.Logs.Laws.{texts, IsFlushOf, flush-IsFlushOf}

abbrev pub file_of : Stream → FirecrestRemoteSessionController → LogFile
file_of out c = c.stdout
file_of error c = c.stderr

abbrev pub same_stream : Stream → Stream → Bool
same_stream out out = true
same_stream error error = true
same_stream _ _ = false

-- What is printed of one of the logs.
unfoldable pub texts_of : Stream → List Line → List Bytes
texts_of stream [] = []
texts_of stream (line ∷ rest) =
    let kept = texts_of stream rest in
    if same_stream line.stream stream then line.text ∷ kept else kept

pub texts_of-append :
    (stream : Stream) (ls ms : List Line)
    → texts_of stream (ls ++ ms) ≡ texts_of stream ls ++ texts_of stream ms
unfolding texts_of
texts_of-append stream [] ms = refl
texts_of-append stream (l ∷ ls) ms = elim (Bool-cases (same_stream l.stream stream)) [
  | inl e ↦ rw (e, texts_of-append stream ls ms) refl
  | inr e ↦ rw (e, texts_of-append stream ls ms) refl
]

-- All lines are of one log.
abbrev pub AllOf : Stream → List Line → Type 0
AllOf stream lines = All (λ (line : Line). line.stream ≡ stream) lines

pub texts_of-AllOf :
    (stream : Stream) (lines : List Line) → AllOf stream lines → texts_of stream lines ≡ texts lines
unfolding texts_of texts
texts_of-AllOf stream [] h = refl
texts_of-AllOf out (l ∷ ls) (e, h) = rw (e, texts_of-AllOf out ls h) refl
texts_of-AllOf error (l ∷ ls) (e, h) = rw (e, texts_of-AllOf error ls h) refl

pub texts_of-others :
    (a b : Stream) (lines : List Line)
    → same_stream a b ≡ false
    → AllOf a lines
    → texts_of b lines ≡ []
unfolding texts_of
texts_of-others a b [] n h = refl
texts_of-others a b (l ∷ ls) n (e, h) = rw (e, n) (texts_of-others a b ls n h)

AllOf-lines :
    (stream : Stream) (lines : List Line)
    → All (λ (line : Line). (line.stream ≡ stream) × (is_one_line line.text ≡ true)) lines
    → AllOf stream lines
AllOf-lines stream [] h = tt
AllOf-lines stream (line ∷ lines) ((s, one), rest) = (s, AllOf-lines stream lines rest)

pub append_view-AllOf :
    (stream : Stream) (f : LogFile) (answer : ViewAnswer)
    → ((append_view stream f answer).0.path ≡ f.path) × AllOf stream (append_view stream f answer).1
unfolding append_view IsFlushOf
append_view-AllOf stream f (unreachable e) = (refl, tt)
append_view-AllOf stream f no_output = (refl, tt)
append_view-AllOf stream f (output []) = (refl, tt)
append_view-AllOf stream f (output (c ∷ content)) =
    let g = record f { buf = f.buf ++ c ∷ content } in
    let (path, text, offset, lines) = flush-IsFlushOf (suc (length g.buf)) stream g in
    (path, AllOf-lines stream _ lines)
