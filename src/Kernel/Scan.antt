-- ===== src/Kernel/Scan.antt =====
-- The loops over the array maps of daemon/src/nhi.bpf.c. Each starts at the key 0, makes at most
-- `max_entries` rounds, skips a key that has no entry, and stops at the first free entry, which is
-- one whose pid is 0. `rounds` is what is left of `j`, and `i` is the key.
pub mod Laws
pub mod Every
use nhi.Prelude.{
  ℕ, zero, suc, ◌+◌, Bool, true, false, List, Option, none, some, ◌==◌, get_elem?, set,
}
use nhi.Kernel.Maps.{bpf_map_lookup_elem, bpf_map_update_elem}

-- Where a loop that removes an entry leaves off: `pid_index` with the entry that stood there
-- (`none` for -1), and the key of the free entry at which it stopped, if it met one.
pub record Removal {ℓ} (A : Type ℓ) : Type ℓ where
  pub found : Option (ℕ × A)
  pub stop : Option ℕ

-- How a loop that looks for a pid ends: at the entry, at a free one, or with its rounds used up.
pub data Search {ℓ} (A : Type ℓ) : Type ℓ where
  hit : ℕ → A → Search A
  free : ℕ → Search A
  exhausted : Search A

module _ {ℓ} {A : Type ℓ} (pid_of : A → ℕ) (pid : ℕ) where
  -- Up to the free entry; a later match replaces an earlier one.
  unfoldable pub removal_loop : ℕ → ℕ → Option (ℕ × A) → List A → Removal A
  removal_loop zero i found map = record { found = found; stop = none }
  removal_loop (suc rounds) i found map = elim (bpf_map_lookup_elem map i) [
    | none ↦ removal_loop rounds (i + 1) found map
    | some e ↦ elim (pid_of e == pid) [
      | true ↦ removal_loop rounds (i + 1) (some (i, e)) map
      | false ↦ elim (pid_of e == 0) [
        | true ↦ record { found = found; stop = some i }
        | false ↦ removal_loop rounds (i + 1) found map
      ]
    ]
  ]

  -- The test for a free entry comes first.
  unfoldable pub search_loop : ℕ → ℕ → List A → Search A
  search_loop zero i map = exhausted
  search_loop (suc rounds) i map = elim (bpf_map_lookup_elem map i) [
    | none ↦ search_loop rounds (i + 1) map
    | some e ↦ elim (pid_of e == 0) [
      | true ↦ free i
      | false ↦ elim (pid_of e == pid) [ true ↦ hit i e | false ↦ search_loop rounds (i + 1) map ]
    ]
  ]

module _ {ℓ} {A : Type ℓ} (pid_of : A → ℕ) where
  -- The key of the first free entry.
  unfoldable pub free_loop : ℕ → ℕ → List A → Option ℕ
  free_loop zero i map = none
  free_loop (suc rounds) i map = elim (bpf_map_lookup_elem map i) [
    | none ↦ free_loop rounds (i + 1) map
    | some e ↦ elim (pid_of e == 0) [ true ↦ some i | false ↦ free_loop rounds (i + 1) map ]
  ]

module _ {ℓ} {A : Type ℓ} (empty : A) where
  -- `i--`, the last entry moved to `pid_index`, and its old place cleared. At the key 0, `i--`
  -- gives -1, a key that the map does not have.
  unfoldable pub swap_out : List A → ℕ → ℕ → List A
  swap_out map pid_index zero = map
  swap_out map pid_index (suc i) = elim (bpf_map_lookup_elem map i) [
    | none ↦ bpf_map_update_elem map i empty
    | some last ↦ bpf_map_update_elem (bpf_map_update_elem map pid_index last) i empty
  ]

  -- The end of a loop that removes: nothing to do unless it met a free entry and had a match.
  unfoldable pub finish_removal : Removal A → List A → List A
  unfolding swap_out
  finish_removal r map = elim r.stop [
    | none ↦ map
    | some i ↦ elim r.found [ none ↦ map | some (p, e) ↦ swap_out map p i ]
  ]
