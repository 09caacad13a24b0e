-- ===== src/Api/Mounts.antt =====
-- The volumes of the data sources of a session (DataSources in
-- api/v1alpha1/amaltheasession_children.go). The size that is asked for, which is the same for every
-- claim, is left out. `show` is the format %d of Go's package fmt.
use amalthea.Prelude.{
  ℕ, suc, String, ◌<>◌, ◌≡◌, refl, ap, ◌⊎◌, inl, inr, Bool, true, false, ◌&&◌, Option, none, some,
  List, [], ◌∷◌, map, ◌==◌, ℕ_eq, String_eq, if◌then◌else◌, is_some, all, insert, copy,
}
use amalthea.Kube.{ObjectMeta}
use amalthea.Api.{AmaltheaSession, SessionSecretRef}
use amalthea.Api.Workloads.{Template}
use amalthea.Api.Routing.{metadata_with}

pub data StorageType : Type 0 where
  rclone : StorageType
  other_storage : String → StorageType

-- The fields of DataSource that DataSources reads.
pub record StorageSource : Type 0 where
  pub type : StorageType
  pub access_mode : String
  pub mount_path : String
  pub secret_ref : Option SessionSecretRef

pub record ClaimManifest : Type 0 where
  pub metadata : ObjectMeta
  pub access_mode : String
  pub storage_class : String

pub record ClaimVolume : Type 0 where
  pub name : String
  pub claim_name : String
  pub read_only : Bool

pub record DataMount : Type 0 where
  pub name : String
  pub read_only : Bool
  pub mount_path : String

pub record DataManifests : Type 0 where
  pub claims : List ClaimManifest
  pub volumes : List ClaimVolume
  pub mounts : List DataMount

abbrev pub no_data : DataManifests
no_data = record { claims = []; volumes = []; mounts = [] }

-- `storage_class` is the environment's RCLONE_STORAGE_CLASS.
module _ (show : ℕ → String) (storage_class : String) (t : Template) (cr : AmaltheaSession) where
  pvc_name : ℕ → String
  pvc_name i = "amalthea-" <> (cr.name <> ("-ds-" <> show i))

  claim_of : ℕ → String → StorageSource → ClaimManifest
  unfolding pvc_name metadata_with insert copy
  claim_of i secret_name ds = record {
    metadata =
        record (metadata_with
          (insert "csi-rclone.dev/secretName" secret_name (copy t.annotations [])) t cr) {
            name = pvc_name i;
          };
    access_mode = ds.access_mode;
    storage_class = storage_class;
  }

  volume_of : ℕ → StorageSource → ClaimVolume
  unfolding pvc_name
  volume_of i ds = record {
    name = pvc_name i;
    claim_name = pvc_name i;
    read_only = ds.access_mode == "ReadOnlyMany";
  }

  mount_of : ℕ → StorageSource → DataMount
  unfolding pvc_name
  mount_of i ds = record {
    name = pvc_name i;
    read_only = ds.access_mode == "ReadOnlyMany";
    mount_path = ds.mount_path;
  }

  add_source : ℕ → String → StorageSource → DataManifests → DataManifests
  unfolding claim_of volume_of mount_of
  add_source i secret_name ds later = record {
    claims = claim_of i secret_name ds ∷ later.claims;
    volumes = volume_of i ds ∷ later.volumes;
    mounts = mount_of i ds ∷ later.mounts;
  }

  added_to : ℕ → String → StorageSource → Option DataManifests → Option DataManifests
  unfolding add_source
  added_to i secret_name ds none = none
  added_to i secret_name ds (some later) = some (add_source i secret_name ds later)

  -- One source: where it has no secret, the code follows a nil pointer.
  with_source :
      StorageType
      → Option SessionSecretRef
      → ℕ
      → StorageSource
      → Option DataManifests
      → Option DataManifests
  unfolding added_to
  with_source rclone (some ref) i ds later = added_to i ref.name ds later
  with_source rclone none i ds later = none
  with_source (other_storage type) ref i ds later = later

  -- The loop at the index `i`, none where it panics.
  sources_from : ℕ → List StorageSource → Option DataManifests
  unfolding with_source
  sources_from i [] = some no_data
  sources_from i (ds ∷ rest) = with_source ds.type ds.secret_ref i ds (sources_from (suc i) rest)

  -- A remote session has none.
  unfoldable pub data_sources : Bool → List StorageSource → Option DataManifests
  unfolding sources_from
  data_sources is_remote sources = if is_remote then some no_data else sources_from 0 sources

-- The claims, the volumes and the mounts have the same names in the same order, each volume is of
-- the claim with its name, and a volume and its mount are both read-only or both not.
abbrev pub Agrees : DataManifests → Type 0
Agrees m =
    (map (λ v. v.name) m.volumes ≡ map (λ c. c.metadata.name) m.claims)
    × (map (λ v. v.claim_name) m.volumes ≡ map (λ v. v.name) m.volumes)
    × (map (λ x. x.name) m.mounts ≡ map (λ v. v.name) m.volumes)
    × (map (λ x. x.read_only) m.mounts ≡ map (λ v. v.read_only) m.volumes)

-- A source that the code can read.
unfoldable pub is_usable_source : StorageType → Option SessionSecretRef → Bool
is_usable_source rclone ref = is_some ref
is_usable_source (other_storage type) ref = true

-- What comes of the sources, if `usable` says that they all can be read.
Comes : Option DataManifests → Bool → Type 0
Comes result usable =
    ((usable ≡ true) × ((m : DataManifests) × (result ≡ some m) × Agrees m))
    ⊎ ((usable ≡ false) × (result ≡ none))

module _ (show : ℕ → String) (storage_class : String) (t : Template) (cr : AmaltheaSession) where
  add_source-Agrees :
      (i : ℕ) (secret_name : String) (ds : StorageSource) (later : DataManifests)
      → Agrees later
      → Agrees (add_source show storage_class t cr i secret_name ds later)
  unfolding add_source claim_of volume_of mount_of
  add_source-Agrees i secret_name ds later (a, b, c, d) = (
    ap (λ l. pvc_name show storage_class t cr i ∷ l) a,
    ap (λ l. pvc_name show storage_class t cr i ∷ l) b,
    ap (λ l. pvc_name show storage_class t cr i ∷ l) c,
    ap (λ l. (ds.access_mode == "ReadOnlyMany") ∷ l) d,
  )

  with_source-Comes :
      (type : StorageType) (ref : Option SessionSecretRef) (i : ℕ) (ds : StorageSource)
      (later : Option DataManifests) (usable : Bool)
      → Comes later usable
      → Comes
          (with_source show storage_class t cr type ref i ds later)
          (is_usable_source type ref && usable)
  unfolding Comes with_source added_to is_usable_source
  with_source-Comes rclone (some ref) i ds later usable (inl (u, (m, e, agrees))) = inl (
    u,
    (
      add_source show storage_class t cr i ref.name ds m,
      rw e refl,
      add_source-Agrees i ref.name ds m agrees,
    ),
  )
  with_source-Comes rclone (some ref) i ds later usable (inr (u, e)) = inr (u, rw e refl)
  with_source-Comes rclone none i ds later usable h = inr (refl, refl)
  with_source-Comes (other_storage type) ref i ds later usable h = h

  sources_from-Comes :
      (i : ℕ) (sources : List StorageSource)
      → Comes
          (sources_from show storage_class t cr i sources)
          (all (λ ds. is_usable_source ds.type ds.secret_ref) sources)
  unfolding Comes sources_from
  sources_from-Comes i [] = inl (refl, (no_data, refl, (refl, refl, refl, refl)))
  sources_from-Comes i (ds ∷ rest) =
      with_source-Comes ds.type ds.secret_ref i ds
        (sources_from show storage_class t cr (suc i) rest)
        (all (λ other. is_usable_source other.type other.secret_ref) rest)
        (sources_from-Comes (suc i) rest)

  -- For a session that is not remote: if each source of the type rclone has a secret, the claims, the
  -- volumes and the mounts of the sources agree with each other; else the code panics.
  pub data_sources_lem :
      (sources : List StorageSource)
      → ((all (λ ds. is_usable_source ds.type ds.secret_ref) sources ≡ true)
          × ((m : DataManifests) × (data_sources show storage_class t cr false sources ≡ some m)
              × Agrees m))
        ⊎ ((all (λ ds. is_usable_source ds.type ds.secret_ref) sources ≡ false)
            × (data_sources show storage_class t cr false sources ≡ none))
  unfolding Comes data_sources
  data_sources_lem sources = sources_from-Comes 0 sources
