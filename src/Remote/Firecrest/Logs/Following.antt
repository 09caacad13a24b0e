-- ===== src/Remote/Firecrest/Logs/Following.antt =====
-- One log from one piece to the next: what is printed of it, what is kept and what is still to be
-- read make up the log.
use amalthea.Prelude.{
  ℕ, suc, ◌+◌, ◌≡◌, sym, ◌∙◌, true, List, [], ◌∷◌, ◌++◌, arith, ℕ_eq, String_eq, Bytes, drop,
  is_one_line, unlines, length-append, unlines-append, drop-append, length, All,
}
use mathlib.Core.List.{append_assoc, append-nil}
use amalthea.Remote.Firecrest.{LogFile, Stream, Line}
use amalthea.Remote.Firecrest.Logs.{
  ViewAnswer, unreachable, no_output, output, Cluster, flush, append_view, fetch_log_file,
  view_size,
}
use amalthea.Remote.Firecrest.Logs.Laws.{texts, IsFlushOf, flush-IsFlushOf, flush-terminates}

-- An answer without output, or one that is a piece of the log from an offset.
unfoldable pub IsPiece : Bytes → ℕ → ViewAnswer → Type 0
IsPiece log offset (unreachable e) = Unit
IsPiece log offset no_output = Unit
IsPiece log offset (output content) = (unread : Bytes) × (drop offset log ≡ content ++ unread)

-- The texts `p` and the buffer of `f` are what the log begins with; the texts are whole lines of it
-- and the buffer has no end of a line.
unfoldable pub IsFollowing : Bytes → LogFile → List Bytes → Type 0
IsFollowing log f p =
    (f.offset ≡ length (unlines p))
    × ((unread : Bytes) × (unlines p ++ f.buf ++ unread ≡ log))
    × (is_one_line f.buf ≡ true)
    × All (λ line. is_one_line line ≡ true) p

All-append : {A : Type 0} (P : A → Type 0) (xs ys : List A) → All P xs → All P ys → All P (xs ++ ys)
All-append P [] ys p q = q
All-append P (x ∷ xs) ys (p, ps) q = (p, All-append P xs ys ps q)

texts-is_one_line :
    (stream : Stream) (lines : List Line)
    → All (λ (line : Line). (line.stream ≡ stream) × (is_one_line line.text ≡ true)) lines
    → All (λ line. is_one_line line ≡ true) (texts lines)
unfolding texts
texts-is_one_line stream [] h = tt
texts-is_one_line stream (line ∷ lines) ((s, one), rest) =
    (one, texts-is_one_line stream lines rest)

-- What is to be read of a log stands after what was printed of it and the buffer.
drop-following :
    (log : Bytes) (f : LogFile) (p : List Bytes) (unread : Bytes)
    → f.offset ≡ length (unlines p)
    → unlines p ++ f.buf ++ unread ≡ log
    → drop (f.offset + length f.buf) log ≡ unread
drop-following log f p unread size whole =
    rw (size, ← length-append (unlines p) f.buf, ← whole) (drop-append (unlines p ++ f.buf) unread)

flush-IsFollowing :
    (stream : Stream) (log : Bytes) (f : LogFile) (p : List Bytes) (content unread : Bytes)
    (r : LogFile × List Line)
    → IsFlushOf stream (record f { buf = f.buf ++ content }) r
    → is_one_line r.0.buf ≡ true
    → f.offset ≡ length (unlines p)
    → unlines p ++ f.buf ++ (content ++ unread) ≡ log
    → All (λ line. is_one_line line ≡ true) p
    → IsFollowing log r.0 (p ++ texts r.1)
unfolding IsFollowing IsFlushOf
flush-IsFollowing stream log f p content unread r (path, text, offset, lines) one size whole ps = (
  rw (unlines-append p (texts r.1))
      (ground (arith, length-append (unlines p) (unlines (texts r.1)))),
  (
    unread,
    rw
        (
          unlines-append p (texts r.1),
          append_assoc (unlines p) (unlines (texts r.1)) r.0.buf,
          text,
          ← append_assoc (unlines p) f.buf content,
        )
        (append_assoc (unlines p ++ f.buf) content unread ∙ whole),
  ),
  one,
  All-append (λ line. is_one_line line ≡ true) p (texts r.1) ps
      (texts-is_one_line stream r.1 lines),
)

append_view-IsFollowing :
    (stream : Stream) (log : Bytes) (f : LogFile) (p : List Bytes) (answer : ViewAnswer)
    → IsPiece log (f.offset + length f.buf) answer
    → IsFollowing log f p
    → IsFollowing log (append_view stream f answer).0 (p ++ texts (append_view stream f answer).1)
unfolding append_view IsPiece IsFollowing texts
append_view-IsFollowing stream log f p (unreachable e) piece h = rw (append-nil p) h
append_view-IsFollowing stream log f p no_output piece h = rw (append-nil p) h
append_view-IsFollowing stream log f p (output []) piece h = rw (append-nil p) h
append_view-IsFollowing stream log f p (output (c ∷ content)) (unread, next)
      (size, (rest, whole), one, ps) =
    let g = record f { buf = f.buf ++ c ∷ content } in
    let fuel = suc (length g.buf) in
    let same : rest ≡ c ∷ content ++ unread = sym (drop-following log f p rest size whole) ∙ next in
    flush-IsFollowing stream log f p (c ∷ content) unread (flush fuel stream g)
      (flush-IsFlushOf fuel stream g) (flush-terminates fuel stream g (omega arith)) size
      (rw (← same) whole) ps

-- The printed lines of a log that is followed, and its buffer, stay what the log begins with when
-- the cluster answers with pieces of the log or not at all.
pub fetch_log_file-IsFollowing :
    (cluster : Cluster) (stream : Stream) (log : Bytes) (f : LogFile) (p : List Bytes)
    → IsPiece log
        (f.offset + length f.buf)
        (cluster.view f.path (f.offset + length f.buf) view_size)
    → IsFollowing log f p
    → IsFollowing log
        (fetch_log_file cluster stream f).0
        (p ++ texts (fetch_log_file cluster stream f).1)
unfolding fetch_log_file
fetch_log_file-IsFollowing cluster stream log f p piece h =
    append_view-IsFollowing stream log f p (cluster.view f.path (f.offset + length f.buf) view_size)
      piece h
