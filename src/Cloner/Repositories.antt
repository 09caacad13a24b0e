-- ===== src/Cloner/Repositories.antt =====
-- One repository (internal/cloner/repository.go).
use amalthea.Prelude.{
  ℕ, ◌+◌, String, ◌<>◌, ◌⊎◌, inl, inr, Bool, false, Option, none, some, List, [], ◌∷◌, ℕ_eq,
  String_eq,
}
use amalthea.Cloner.{World, Exec, recover, ◌>>=◌, pure, result, run_git}
use Prim.Native.Nat.{◌%◌, ◌^◌}

module _ (w : World) where
  unfoldable pub exists : Exec Bool
  unfolding run_git recover
  exists s =
      recover (run_git w "rev-parse" ("--is-inside-work-tree" ∷ []) s) (λ e. pure false)
        (λ answer. pure (w.reads_true answer))

  branch_or_error : Option String → String ⊎ String
  branch_or_error none = inr "default branch does not exist"
  branch_or_error (some branch) = inl branch

  -- An empty branch where the head of the remote is not known.
  unfoldable pub default_branch : String → Exec String
  unfolding run_git recover branch_or_error
  default_branch remote s =
      recover (run_git w "remote" ("set-head" ∷ remote ∷ "--auto" ∷ []) s) (λ e. pure "")
        (λ _. do
          ref ← run_git w "symbolic-ref" (("refs/remotes/" <> remote <> "/HEAD") ∷ [])
          result (branch_or_error (w.branch_in remote ref)))

  -- Go's addition on uint64.
  unfoldable pub total_size : List ℕ → ℕ
  total_size [] = 0
  total_size (size ∷ rest) = (size + total_size rest) % 2 ^ 64

  sizes_or_zero : (List ℕ) ⊎ String → ℕ
  unfolding total_size
  sizes_or_zero (inr e) = 0
  sizes_or_zero (inl sizes) = total_size sizes

  unfoldable pub get_lfs_total_size_bytes : Exec ℕ
  unfolding run_git recover sizes_or_zero
  get_lfs_total_size_bytes s =
      recover (run_git w "lfs" ("ls-files" ∷ "--json" ∷ []) s) (λ e. pure 0)
        (λ answer. pure (sizes_or_zero (w.lfs_sizes answer)))
