-- ===== src/Api/Secrets/Members.antt =====
-- Members of the lists of adopted secrets.
use amalthea.Prelude.{
  String, ◌≡◌, refl, sym, ◌⊎◌, inl, inr, true, false, ◌&&◌, not, Option, none, some, List, [], ◌∷◌,
  ◌++◌, arith, ℕ_eq, String_eq, Bool-cases, is_empty,
}
use amalthea.Api.{SessionSecretRef, CodeRepository, DataSource, is_adopted}
use amalthea.Api.Secrets.{
  SecretName, adopted, data_source_secrets, repository_secrets, pull_secrets,
}

-- A member of a list.
unfoldable pub In : {A : Type 0} → A → List A → Type 0
In x [] = ⊥
In x (y ∷ ys) = (x ≡ y) ⊎ In x ys

-- The secret of a reference that hands it over to the session, which then deletes it.
unfoldable pub IsAdoptedBy : String → SessionSecretRef → SecretName → Type 0
IsAdoptedBy namespace r n =
    (r.adopt ≡ true)
    × (is_empty r.name ≡ false)
    × (n ≡ record { namespace = namespace; name = r.name })

pub reference-inj : {r q : SessionSecretRef} → some r ≡ some q → r ≡ q
reference-inj e = ground arith

pub In-append : {A : Type 0} (x : A) (s t : List A) → In x (s ++ t) → In x s ⊎ In x t
unfolding In
In-append x [] t h = inr h
In-append x (y ∷ s) t (inl e) = inl (inl e)
In-append x (y ∷ s) t (inr h) = earlier (In-append x s t h)
  where
    earlier : In x s ⊎ In x t → ((x ≡ y) ⊎ In x s) ⊎ In x t
    earlier (inl m) = inl (inr m)
    earlier (inr m) = inr m

pub In-left : {A : Type 0} (x : A) (s t : List A) → In x s → In x (s ++ t)
unfolding In
In-left x [] t h = absurd h
In-left x (y ∷ s) t (inl e) = inl e
In-left x (y ∷ s) t (inr h) = inr (In-left x s t h)

pub In-right : {A : Type 0} (x : A) (s t : List A) → In x t → In x (s ++ t)
unfolding In
In-right x [] t h = h
In-right x (y ∷ s) t h = inr (In-right x s t h)

module _ (namespace : String) (n : SecretName) where
  abbrev pub Adopts : Option SessionSecretRef → Type 0
  Adopts o = (r : SessionSecretRef) × (o ≡ some r) × IsAdoptedBy namespace r n

  pub adopted-Adopts : (o : Option SessionSecretRef) → In n (adopted namespace o) → Adopts o
  unfolding adopted In IsAdoptedBy is_adopted
  adopted-Adopts none h = absurd h
  adopted-Adopts (some r) h = elim (Bool-cases (not (is_empty r.name) && r.adopt)) [
    | inl e ↦ (r, refl, (ground arith, ground arith, only (rw e at h)))
    | inr e ↦ absurd (rw e at h)
  ]
    where
      only : {m : SecretName} → (n ≡ m) ⊎ ⊥ → n ≡ m
      only (inl e) = e
      only (inr h) = absurd h

  pub Adopts-adopted :
      (o : Option SessionSecretRef) (r : SessionSecretRef)
      → o ≡ some r
      → IsAdoptedBy namespace r n
      → In n (adopted namespace o)
  unfolding adopted In IsAdoptedBy is_adopted
  Adopts-adopted o r e (adopt, named, same) = rw (e, adopt, named) (inl same)

  pub data-Adopts :
      (l : List DataSource)
      → In n (data_source_secrets namespace l)
      → (ds : DataSource) × In ds l × Adopts ds.secret_ref
  unfolding data_source_secrets In
  data-Adopts [] h = absurd h
  data-Adopts (ds ∷ l) h = elim (In-append n (adopted namespace ds.secret_ref) _ h) [
    | inl m ↦ (ds, inl refl, adopted-Adopts ds.secret_ref m)
    | inr m ↦ let (d, at, a) = data-Adopts l m in (d, inr at, a)
  ]

  pub Adopts-data :
      (l : List DataSource) (ds : DataSource)
      → In ds l
      → In n (adopted namespace ds.secret_ref)
      → In n (data_source_secrets namespace l)
  unfolding data_source_secrets In
  Adopts-data [] ds at h = absurd at
  Adopts-data (d ∷ l) ds (inl e) h = In-left n (adopted namespace d.secret_ref) _ (rw e at h)
  Adopts-data (d ∷ l) ds (inr at) h =
      In-right n (adopted namespace d.secret_ref) _ (Adopts-data l ds at h)

  pub repository-Adopts :
      (l : List CodeRepository)
      → In n (repository_secrets namespace l)
      → (c : CodeRepository) × In c l
        × (Adopts c.cloning_config_secret_ref ⊎ Adopts c.config_secret_ref)
  unfolding repository_secrets In
  repository-Adopts [] h = absurd h
  repository-Adopts (c ∷ l) h =
      elim (In-append n (adopted namespace c.cloning_config_secret_ref) _ h) [
        | inl m ↦ (c, inl refl, inl (adopted-Adopts c.cloning_config_secret_ref m))
        | inr m ↦ elim (In-append n (adopted namespace c.config_secret_ref) _ m) [
          | inl k ↦ (c, inl refl, inr (adopted-Adopts c.config_secret_ref k))
          | inr k ↦ let (d, at, a) = repository-Adopts l k in (d, inr at, a)
        ]
      ]

  pub Adopts-repository :
      (l : List CodeRepository) (c : CodeRepository)
      → In c l
      → In n (adopted namespace c.cloning_config_secret_ref)
        ⊎ In n (adopted namespace c.config_secret_ref)
      → In n (repository_secrets namespace l)
  unfolding repository_secrets In
  Adopts-repository [] c at h = absurd at
  Adopts-repository (d ∷ l) c (inl e) (inl h) =
      In-left n (adopted namespace d.cloning_config_secret_ref) _ (rw e at h)
  Adopts-repository (d ∷ l) c (inl e) (inr h) =
      In-right n (adopted namespace d.cloning_config_secret_ref) _
        (In-left n (adopted namespace d.config_secret_ref) _ (rw e at h))
  Adopts-repository (d ∷ l) c (inr at) h =
      In-right n (adopted namespace d.cloning_config_secret_ref) _
        (In-right n (adopted namespace d.config_secret_ref) _ (Adopts-repository l c at h))

  pub pull-Adopts :
      (l : List SessionSecretRef)
      → In n (pull_secrets namespace l)
      → (r : SessionSecretRef) × In r l × IsAdoptedBy namespace r n
  unfolding pull_secrets In
  pull-Adopts [] h = absurd h
  pull-Adopts (r ∷ l) h = elim (In-append n (adopted namespace (some r)) _ h) [
    | inl m ↦ let (q, e, a) = adopted-Adopts (some r) m in (q, inl (sym (reference-inj e)), a)
    | inr m ↦ let (q, at, a) = pull-Adopts l m in (q, inr at, a)
  ]

  pub Adopts-pull :
      (l : List SessionSecretRef) (r : SessionSecretRef)
      → In r l
      → In n (adopted namespace (some r))
      → In n (pull_secrets namespace l)
  unfolding pull_secrets In
  Adopts-pull [] r at h = absurd at
  Adopts-pull (q ∷ l) r (inl e) h = In-left n (adopted namespace (some q)) _ (rw e at h)
  Adopts-pull (q ∷ l) r (inr at) h =
      In-right n (adopted namespace (some q)) _ (Adopts-pull l r at h)
