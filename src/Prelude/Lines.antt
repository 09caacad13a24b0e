-- ===== src/Prelude/Lines.antt =====
-- Texts as lists of bytes or code points, where the source looks into them: searches, pieces and
-- lines.
use Prim.Native.Nat.{ℕ, zero, suc, ◌+◌}
use mathlib.Core.Path.{◌≡◌, refl, ap}
use mathlib.Core.Bool.{Bool, true, false, not}
use mathlib.Core.Option.{Option, none, some}
use mathlib.Core.List.{List, [], ◌∷◌, ◌++◌, append_assoc}
use native.Mathlib.Omega.{arith}
use amalthea.Prelude.Tests.{◌==◌, ℕ_eq, if◌then◌else◌}
use amalthea.Prelude.Lists.{length, all}

abbrev pub Bytes : Type 0
Bytes = List ℕ

-- `s[:n]`
abbrev pub take : ℕ → Bytes → Bytes
take zero s = []
take (suc n) [] = []
take (suc n) (c ∷ s) = c ∷ take n s

-- `s[n:]`
abbrev pub drop : ℕ → Bytes → Bytes
drop zero s = s
drop (suc n) [] = []
drop (suc n) (c ∷ s) = drop n s

abbrev pub next_index : Option ℕ → Option ℕ
next_index none = none
next_index (some i) = some (suc i)

-- `bytes.IndexByte(s, b)`, where `none` is -1
unfoldable pub index_byte : Bytes → ℕ → Option ℕ
index_byte [] b = none
index_byte (c ∷ s) b = let rest = next_index (index_byte s b) in if c == b then some 0 else rest

abbrev pub newline : ℕ
newline = 10

-- The text has no end of a line.
abbrev pub is_one_line : Bytes → Bool
is_one_line s = all (λ c. not (c == newline)) s

-- Texts, each ended by a newline.
abbrev pub unlines : List Bytes → Bytes
unlines [] = []
unlines (line ∷ rest) = line ++ newline ∷ unlines rest

pub length-append : (s t : Bytes) → length (s ++ t) ≡ length s + length t
length-append [] t = omega arith
length-append (c ∷ s) t = ground (arith, length-append s t)

pub unlines-append : (ls ms : List Bytes) → unlines (ls ++ ms) ≡ unlines ls ++ unlines ms
unlines-append [] ms = refl
unlines-append (l ∷ ls) ms =
    rw (unlines-append ls ms, append_assoc l (newline ∷ unlines ls) (unlines ms)) refl

pub drop-append : (s t : Bytes) → drop (length s) (s ++ t) ≡ t
drop-append [] t = refl
drop-append (c ∷ s) t = drop-append s t

pub take-append : (s t : Bytes) → take (length s) (s ++ t) ≡ s
take-append [] t = refl
take-append (c ∷ s) t = ap (λ r. c ∷ r) (take-append s t)

pub take-append-drop : (n : ℕ) (s : Bytes) → take n s ++ drop n s ≡ s
take-append-drop zero s = refl
take-append-drop (suc n) [] = refl
take-append-drop (suc n) (c ∷ s) = ap (λ r. c ∷ r) (take-append-drop n s)

-- At `i` a line of the text ends, the first one.
abbrev pub IsSplit : Bytes → ℕ → Type 0
IsSplit s i =
    (take i s ++ newline ∷ drop (suc i) s ≡ s)
    × (is_one_line (take i s) ≡ true)
    × (length (take i s) ≡ i)

index_byte-here : (c : ℕ) (s : Bytes) → c == newline ≡ true → IsSplit (c ∷ s) 0
index_byte-here c s e = let same : c ≡ newline = ground arith in (rw same refl, refl, refl)

index_byte-later :
    (c : ℕ) (s : Bytes) (j : ℕ) → c == newline ≡ false → IsSplit s j → IsSplit (c ∷ s) (suc j)
index_byte-later c s j e (whole, line, size) =
    (ap (λ r. c ∷ r) whole, rw (e, line) refl, ap suc size)

some-inj : {A : Type 0} {a b : A} → some a ≡ some b → a ≡ b
some-inj h = ground arith

-- The first newline of a text that begins with another character.
index_byte-next :
    (c : ℕ) (s : Bytes) (i : ℕ) (found : Option ℕ)
    → c == newline ≡ false
    → ((j : ℕ) → found ≡ some j → IsSplit s j)
    → next_index found ≡ some i
    → IsSplit (c ∷ s) i
index_byte-next c s i none e rest h = ground arith
index_byte-next c s i (some j) e rest h = rw (← some-inj h) (index_byte-later c s j e (rest j refl))

index_byte-cases :
    (c : ℕ) (s : Bytes) (i : ℕ) (b : Bool)
    → (c == newline) ≡ b
    → ((j : ℕ) → index_byte s newline ≡ some j → IsSplit s j)
    → (if b then some 0 else next_index (index_byte s newline)) ≡ some i
    → IsSplit (c ∷ s) i
index_byte-cases c s i true e rest h = rw (← some-inj h) (index_byte-here c s e)
index_byte-cases c s i false e rest h = index_byte-next c s i (index_byte s newline) e rest h

pub index_byte-IsSplit : (s : Bytes) (i : ℕ) → index_byte s newline ≡ some i → IsSplit s i
unfolding index_byte
index_byte-IsSplit [] i h = ground arith
index_byte-IsSplit (c ∷ s) i h =
    index_byte-cases c s i (c == newline) refl (λ j. index_byte-IsSplit s j) h

pub index_byte-none : (s : Bytes) → index_byte s newline ≡ none → is_one_line s ≡ true
unfolding index_byte
index_byte-none [] h = refl
index_byte-none (c ∷ s) h = ground (arith, index_byte-none s)
