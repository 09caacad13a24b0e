-- ===== src/Controller/Children/Labels.antt =====
-- Labels and annotations with well-known prefixes (cleanWellKnown in
-- internal/controller/children.go).
use Prim.Native.Char.{code}
use amalthea.Prelude.{
  ℕ, String, ◌≡◌, ap, Bool, true, false, ◌&&◌, ◌||◌, none, List, [], ◌∷◌, arith, ◌==◌, ℕ_eq,
  String_eq, eq_iff, if◌then◌else◌, StringMap, or_else, lookup, insert, lookup-insert, copy,
  lookup-copy,
}

-- The code points of a text.
unfoldable pub codes : String → List ℕ
codes String.[] = []
codes (String.◌∷◌ letter text) = code letter ∷ codes text

-- `strings.Cut(key, "/")`, its first part
unfoldable pub cut_slash : List ℕ → List ℕ
cut_slash [] = []
cut_slash (c ∷ cs) = if c == b'/' then [] else c ∷ cut_slash cs

unfoldable pub same_codes : List ℕ → List ℕ → Bool
same_codes [] [] = true
same_codes (x ∷ xs) (y ∷ ys) = x == y && same_codes xs ys
same_codes _ _ = false

-- `strings.HasSuffix(s, suffix)`
unfoldable pub has_suffix : List ℕ → List ℕ → Bool
unfolding same_codes
has_suffix [] suffix = same_codes [] suffix
has_suffix (c ∷ cs) suffix = same_codes (c ∷ cs) suffix || has_suffix cs suffix

unfoldable pub is_well_known : String → Bool
unfolding codes cut_slash has_suffix
is_well_known key =
    let domain = cut_slash (codes key) in
    same_codes domain (codes "kubernetes.io")
    || same_codes domain (codes "k8s.io")
    || has_suffix domain (codes ".kubernetes.io")
    || has_suffix domain (codes ".k8s.io")

-- The entries with a well-known key. Go's order is not fixed; where a key is set twice, which no Go
-- map does, the first entry counts.
well_known_entries : StringMap String → StringMap String
well_known_entries [] = []
well_known_entries ((k, v) ∷ current) =
    let rest = well_known_entries current in if is_well_known k then insert k v rest else rest

unfoldable pub clean_well_known : StringMap String → StringMap String → StringMap String
unfolding well_known_entries
clean_well_known current desired = copy (well_known_entries current) (copy desired [])

is_well_known_same : (j k : String) → j ≡ k → is_well_known j ≡ is_well_known k
is_well_known_same j k e = ap is_well_known e

lookup-well_known_entries :
    (k : String) (current : StringMap String)
    → lookup k (well_known_entries current) ≡ (if is_well_known k then lookup k current else none)
unfolding lookup well_known_entries
lookup-well_known_entries k [] = ground arith
lookup-well_known_entries k ((j, v) ∷ current) = ground (
  arith,
  eq_iff j k,
  is_well_known_same j k,
  lookup-insert j k v (well_known_entries current),
  lookup-well_known_entries k current,
)

-- Cleaned labels hold, under a well-known key, what the object has, and what is desired only if the
-- object has nothing; under every other key exactly what is desired.
pub lookup-clean_well_known :
    (k : String) (current desired : StringMap String)
    → lookup k (clean_well_known current desired) ≡ (
        if is_well_known k then or_else (lookup k current) (lookup k desired) else lookup k desired)
unfolding clean_well_known lookup
lookup-clean_well_known k current desired = ground (
  arith,
  lookup-copy k (well_known_entries current) (copy desired []),
  lookup-copy k desired [],
  lookup-well_known_entries k current,
)
