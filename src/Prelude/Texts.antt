-- ===== src/Prelude/Texts.antt =====
-- Texts: what is known of a text that is put together with another, and prefixes.
use Prim.Native.Char.{Char, code}
use Prim.Native.String.{String, ◌++◌}
use mathlib.Core.Path.{◌≡◌, refl, sym}
use mathlib.Core.Bool.{Bool, true, false, ◌&&◌}
use mathlib.Core.Option.{Option, none, some}
use native.Mathlib.Omega.{arith}
use text.Mathlib.TextEquality.{Char-path}
use text.Mathlib.TextLemmas.{nil-append, cons-append}
use amalthea.Prelude.Tests.{is_empty, ◌==◌, ℕ_eq, if◌then◌else◌}

pub is_empty-append : (s t : String) → is_empty (s ++ t) ≡ (is_empty s && is_empty t)
is_empty-append String.[] t = rw nil-append
is_empty-append (String.◌∷◌ c s) t = rw cons-append

-- `strings.CutPrefix(s, prefix)`, where `none` is no prefix
unfoldable pub cut_prefix : String → String → Option String
cut_prefix s String.[] = some s
cut_prefix String.[] (String.◌∷◌ p ps) = none
cut_prefix (String.◌∷◌ c s) (String.◌∷◌ p ps) =
    let rest = cut_prefix s ps in if code c == code p then rest else none

code_same : (c d : Char) → (code c == code d) ≡ true → c ≡ d
code_same c d h = Char-path c d (ground arith)

some-inj : {a b : String} → some a ≡ some b → a ≡ b
some-inj h = ground arith

cut_prefix-step :
    (c p : Char) (s ps rest : String) (b : Bool)
    → (code c == code p) ≡ b
    → (cut_prefix s ps ≡ some rest → ps ++ rest ≡ s)
    → (if b then cut_prefix s ps else none) ≡ some rest
    → String.◌∷◌ p ps ++ rest ≡ String.◌∷◌ c s
cut_prefix-step c p s ps rest true e more h =
    rw (cons-append p ps rest, more h, code_same c p e) refl
cut_prefix-step c p s ps rest false e more h = ground arith

-- What is cut off comes before what is left.
pub append-cut_prefix :
    (s prefix rest : String) → cut_prefix s prefix ≡ some rest → prefix ++ rest ≡ s
unfolding cut_prefix
append-cut_prefix s String.[] rest h = rw nil-append (sym (some-inj h))
append-cut_prefix String.[] (String.◌∷◌ p ps) rest h = ground arith
append-cut_prefix (String.◌∷◌ c s) (String.◌∷◌ p ps) rest h =
    cut_prefix-step c p s ps rest (code c == code p) refl (append-cut_prefix s ps rest) h

pub cut_prefix-append : (prefix rest : String) → cut_prefix (prefix ++ rest) prefix ≡ some rest
unfolding cut_prefix
cut_prefix-append String.[] rest = rw nil-append refl
cut_prefix-append (String.◌∷◌ p ps) rest =
    let same : (code p == code p) ≡ true = ground arith in
    rw (cons-append p ps rest, same) (cut_prefix-append ps rest)
