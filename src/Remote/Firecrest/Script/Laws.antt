-- ===== src/Remote/Firecrest/Script/Laws.antt =====
-- Which file system is the scratch of a session.
use amalthea.Prelude.{
  ◌≡◌, refl, sym, ◌∙◌, Bool, true, false, ◌||◌, Option, none, some, List, [], ◌∷◌, arith, ℕ_eq,
  String_eq, if◌then◌else◌, is_some, any,
}
use amalthea.Remote.Firecrest.Calls.{RemoteFileSystem}
use amalthea.Remote.Firecrest.Script.{
  is_scratch, is_default_scratch, last_where, preferred_scratch, get_preferred_scratch,
}

last_where-any :
    (p : RemoteFileSystem → Bool) (found : Option RemoteFileSystem) (l : List RemoteFileSystem)
    → is_some (last_where p found l) ≡ (is_some found || any p l)
unfolding last_where
last_where-any p none [] = refl
last_where-any p (some fs) [] = refl
last_where-any p found (fs ∷ l) =
    last_where-any p (if p fs then some fs else found) l ∙ chosen (p fs) found (any p l)
  where
    chosen :
        (b : Bool) (found : Option RemoteFileSystem) (rest : Bool)
        → (is_some (if b then some fs else found) || rest) ≡ (is_some found || (b || rest))
    chosen true none rest = refl
    chosen true (some x) rest = refl
    chosen false none rest = refl
    chosen false (some x) rest = refl

-- What is found passes the test.
abbrev pub Passing : (RemoteFileSystem → Bool) → Option RemoteFileSystem → Type 0
Passing p found = (fs : RemoteFileSystem) → found ≡ some fs → p fs ≡ true

some-inj : {a b : RemoteFileSystem} → some a ≡ some b → a ≡ b
some-inj h = ground arith

chosen-Passing :
    (p : RemoteFileSystem → Bool) (found : Option RemoteFileSystem) (fs : RemoteFileSystem)
    (b : Bool)
    → p fs ≡ b
    → Passing p found
    → Passing p (if b then some fs else found)
chosen-Passing p found fs true e h = λ x same. rw (← some-inj same) e
chosen-Passing p found fs false e h = h

last_where-Passing :
    (p : RemoteFileSystem → Bool) (found : Option RemoteFileSystem) (l : List RemoteFileSystem)
    → Passing p found
    → Passing p (last_where p found l)
unfolding last_where
last_where-Passing p found [] h = h
last_where-Passing p found (fs ∷ l) h =
    last_where-Passing p _ l (chosen-Passing p found fs (p fs) refl h)

-- A file system that passes the test, if one of the list does.
unfoldable pub IsFound :
    (RemoteFileSystem → Bool) → List RemoteFileSystem → Option RemoteFileSystem → Type 0
IsFound p l found = (is_some found ≡ any p l) × Passing p found

last_where-IsFound :
    (p : RemoteFileSystem → Bool) (l : List RemoteFileSystem) → IsFound p l (last_where p none l)
unfolding IsFound
last_where-IsFound p l =
    (last_where-any p none l, last_where-Passing p none l (λ fs h. ground arith))

default-any :
    (l : List RemoteFileSystem) → any is_default_scratch l ≡ true → any is_scratch l ≡ true
unfolding is_default_scratch
default-any [] h = h
default-any (fs ∷ l) h = ground (arith, default-any l)

default-is_scratch : (fs : RemoteFileSystem) → is_default_scratch fs ≡ true → is_scratch fs ≡ true
unfolding is_default_scratch
default-is_scratch fs h = ground arith

preferred_scratch_lem :
    (l : List RemoteFileSystem) (default : Option RemoteFileSystem)
    → IsFound is_default_scratch l default
    → IsFound is_scratch l (preferred_scratch l default)
      × (any is_default_scratch l ≡ true
          → IsFound is_default_scratch l (preferred_scratch l default))
unfolding preferred_scratch IsFound
preferred_scratch_lem l none (found, pass) =
    (last_where-IsFound is_scratch l, λ h. ground (arith, found))
preferred_scratch_lem l (some fs) (found, pass) = (
  (sym (default-any l (sym found)), λ x same. default-is_scratch x (pass x same)),
  λ h. (found, pass),
)

-- Among the file systems of a cluster a scratch is chosen exactly when there is one, and it is one
-- that is the default directory of work whenever there is such a scratch.
pub get_preferred_scratch_lem :
    (l : List RemoteFileSystem)
    → IsFound is_scratch l (get_preferred_scratch (some l))
      × (any is_default_scratch l ≡ true
          → IsFound is_default_scratch l (get_preferred_scratch (some l)))
unfolding get_preferred_scratch
get_preferred_scratch_lem l =
    preferred_scratch_lem l (last_where is_default_scratch none l)
      (last_where-IsFound is_default_scratch l)
