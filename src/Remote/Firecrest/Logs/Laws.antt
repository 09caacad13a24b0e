-- ===== src/Remote/Firecrest/Logs/Laws.antt =====
-- What the printing of one log does: nothing of the log is lost, printed twice or cut.
use amalthea.Prelude.{
  ℕ, zero, suc, ◌+◌, ◌<◌, ◌≡◌, refl, sym, ap, ◌∙◌, true, Option, none, some, List, [], ◌∷◌, ◌++◌,
  arith, ℕ_eq, String_eq, Bytes, take, drop, index_byte, newline, is_one_line, unlines,
  length-append, IsSplit, index_byte-IsSplit, index_byte-none, length, All,
}
use mathlib.Core.List.{append_assoc}
use amalthea.Remote.Firecrest.{LogFile, Stream, Line}
use amalthea.Remote.Firecrest.Logs.{flush}

unfoldable pub texts : List Line → List Bytes
texts [] = []
texts (line ∷ rest) = line.text ∷ texts rest

pub texts-append : (ls ms : List Line) → texts (ls ++ ms) ≡ texts ls ++ texts ms
unfolding texts
texts-append [] ms = refl
texts-append (l ∷ ls) ms = ap (λ r. l.text ∷ r) (texts-append ls ms)

-- Of the file `f` with its buffer, `r` has printed all but a part that stays in the buffer.
unfoldable pub IsFlushOf : Stream → LogFile → LogFile × List Line → Type 0
unfolding texts
IsFlushOf stream f r =
    (r.0.path ≡ f.path)
    × (unlines (texts r.1) ++ r.0.buf ≡ f.buf)
    × (r.0.offset ≡ f.offset + length (unlines (texts r.1)))
    × All (λ (line : Line). (line.stream ≡ stream) × (is_one_line line.text ≡ true)) r.1

length-line : (s t : Bytes) → length (s ++ newline ∷ t) ≡ length s + 1 + length t
length-line s t = ground (arith, length-append s (newline ∷ t))

-- One round of the loop.
abbrev next_file : LogFile → ℕ → LogFile
next_file f idx = record f { offset = f.offset + (idx + 1); buf = drop (suc idx) f.buf }

flush-round :
    (stream : Stream) (f : LogFile) (idx : ℕ) (r : LogFile × List Line)
    → IsSplit f.buf idx
    → IsFlushOf stream (next_file f idx) r
    → IsFlushOf stream f (r.0, record { stream = stream; text = take idx f.buf } ∷ r.1)
unfolding IsFlushOf
flush-round stream f idx r (whole, line, size) (path, text, offset, lines) = (
  path,
  rw (append_assoc (take idx f.buf) (newline ∷ unlines (texts r.1)) r.0.buf, text) whole,
  ground (arith, length-line (take idx f.buf) (unlines (texts r.1))),
  ((refl, line), lines),
)

flush-none :
    (n : ℕ) (stream : Stream) (f : LogFile)
    → index_byte f.buf newline ≡ none
    → flush (suc n) stream f ≡ (f, [])
unfolding flush
flush-none n stream f e = rw (e, flush) refl

flush-some :
    (n : ℕ) (stream : Stream) (f : LogFile) (idx : ℕ)
    → index_byte f.buf newline ≡ some idx
    → flush (suc n) stream f ≡ (
      (flush n stream (next_file f idx)).0,
      record { stream = stream; text = take idx f.buf } ∷ (flush n stream (next_file f idx)).1,
    )
unfolding flush
flush-some n stream f idx e = rw (e, flush) refl

flush-cases :
    (n : ℕ) (stream : Stream) (f : LogFile) (found : Option ℕ)
    → index_byte f.buf newline ≡ found
    → ((idx : ℕ) → IsFlushOf stream (next_file f idx) (flush n stream (next_file f idx)))
    → IsFlushOf stream f (flush (suc n) stream f)
unfolding IsFlushOf
flush-cases n stream f none e rest = rw (flush-none n stream f e) (refl, refl, omega arith, tt)
flush-cases n stream f (some idx) e rest = rw (flush-some n stream f idx e) (
    flush-round stream f idx (flush n stream (next_file f idx)) (index_byte-IsSplit f.buf idx e)
      (rest idx))

-- Whatever the fuel, the lines that are printed and the buffer that is left are the buffer there
-- was, and the offset moves by what is printed.
pub flush-IsFlushOf :
    (n : ℕ) (stream : Stream) (f : LogFile) → IsFlushOf stream f (flush n stream f)
unfolding flush IsFlushOf
flush-IsFlushOf zero stream f = (refl, refl, omega arith, tt)
flush-IsFlushOf (suc n) stream f =
    flush-cases n stream f (index_byte f.buf newline) refl
      (λ idx. flush-IsFlushOf n stream (next_file f idx))

length-drop-IsSplit : (s : Bytes) (i : ℕ) → IsSplit s i → length (drop (suc i) s) < length s
length-drop-IsSplit s i (whole, line, size) =
    let total : length s ≡ length (take i s) + 1 + length (drop (suc i) s) =
      ap length (sym whole) ∙ length-line (take i s) (drop (suc i) s) in
    omega arith

flush-ends :
    (n : ℕ) (stream : Stream) (f : LogFile) (found : Option ℕ)
    → index_byte f.buf newline ≡ found
    → ((idx : ℕ) → IsSplit f.buf idx → is_one_line (flush n stream (next_file f idx)).0.buf ≡ true)
    → is_one_line (flush (suc n) stream f).0.buf ≡ true
flush-ends n stream f none e rest = rw (flush-none n stream f e) (index_byte-none f.buf e)
flush-ends n stream f (some idx) e rest =
    rw (flush-some n stream f idx e) (rest idx (index_byte-IsSplit f.buf idx e))

-- With more fuel than the buffer has bytes the loop ends because no line is left in the buffer.
pub flush-terminates :
    (n : ℕ) (stream : Stream) (f : LogFile)
    → length f.buf < n
    → is_one_line (flush n stream f).0.buf ≡ true
flush-terminates zero stream f h = ground arith
flush-terminates (suc n) stream f h =
    flush-ends n stream f (index_byte f.buf newline) refl (λ idx split.
      flush-terminates n stream (next_file f idx)
        (ground (arith, length-drop-IsSplit f.buf idx split)))
