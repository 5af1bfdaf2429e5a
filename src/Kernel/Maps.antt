-- ===== src/Kernel/Maps.antt =====
-- The maps of daemon/src/nhi.bpf.c. An array map is the list of its entries: a lookup finds nothing
-- past the last key, and an update there is refused. A per-processor array is the array of the one
-- processor on which the program runs.
pub mod Definitions
use nhi.Prelude.{ℕ, List, [], ◌∷◌, ◌++◌, ◌-◌, Option, replicate, get_elem?, set}
use nhi.Common.{Shell, Child, Event, zero_shell, zero_child, sizeof_long}
use Definitions.{
  shells_map, children_map, fdget_pos_pos_map, ksys_write_event_map, ksys_write_d_inode_map,
}

pub data UpdateFlag : Type 0 where
  bpf_any bpf_noexist bpf_exist bpf_f_lock : UpdateFlag

module _ {ℓ} {A : Type ℓ} where
  abbrev pub bpf_map_lookup_elem : List A → ℕ → Option A
  bpf_map_lookup_elem map key = get_elem? map key

  -- The call with some flag. Every entry of an array exists, and no entry here has a lock.
  abbrev pub update_elem : UpdateFlag → List A → ℕ → A → List A
  update_elem bpf_any map key value = set map key value
  update_elem bpf_noexist map key value = map
  update_elem bpf_exist map key value = set map key value
  update_elem bpf_f_lock map key value = map

  abbrev pub bpf_map_update_elem : List A → ℕ → A → List A
  bpf_map_update_elem map key value = update_elem bpf_any map key value

-- What `struct write_event` of the scratch map holds.
pub record Scratch : Type 0 where
  pub indicator : ℕ
  pub output : List ℕ

pub record Maps : Type 0 where
  pub shells : List Shell
  pub children : List Child
  pub ring_buffer : List Event
  pub fdget_pos_pos : List ℕ
  pub ksys_write_event : List Scratch
  -- of the inode that the scratch map holds, its `i_gid`
  pub ksys_write_d_inode : List ℕ

-- As the maps are created: every entry is zero.
abbrev pub fresh_maps : Maps
fresh_maps = record {
  shells = replicate shells_map.max_entries zero_shell;
  children = replicate children_map.max_entries zero_child;
  ring_buffer = [];
  fdget_pos_pos = replicate fdget_pos_pos_map.max_entries 0;
  ksys_write_event = replicate ksys_write_event_map.max_entries (record {
    indicator = 0;
    output = replicate (ksys_write_event_map.value_size - sizeof_long) 0;
  });
  ksys_write_d_inode = replicate ksys_write_d_inode_map.max_entries 0;
}

-- bpf_ringbuf_reserve, the writes to the record, and bpf_ringbuf_submit. `room` is the kernel's answer.
abbrev pub submit : Event → Maps → Maps
submit event maps = record maps { ring_buffer = maps.ring_buffer ++ event ∷ [] }
