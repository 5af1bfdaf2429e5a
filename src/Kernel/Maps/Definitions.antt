-- ===== src/Kernel/Maps/Definitions.antt =====
-- The maps as daemon/src/nhi.bpf.c defines them: the section `.maps`, from which libbpf creates them.
use nhi.Prelude.{ℕ}
use nhi.Common.{
  shells_max_entries, children_max_entries, ring_buffer_max_entries, ksys_write_event_size,
}
use nhi.Kernel.Layout.{size_of}
use nhi.Kernel.Layout.Integers.{unsigned_long}
use nhi.Kernel.Layout.Files.{struct_inode}
use nhi.Kernel.Layout.Shared.{struct_shell, struct_child}

-- enum bpf_map_type of daemon/src/vmlinux.h
pub data BpfMapType : Type 0 where
  bpf_map_type_unspec bpf_map_type_hash bpf_map_type_array bpf_map_type_prog_array
        bpf_map_type_perf_event_array bpf_map_type_percpu_hash bpf_map_type_percpu_array
        bpf_map_type_stack_trace bpf_map_type_cgroup_array bpf_map_type_lru_hash
        bpf_map_type_lru_percpu_hash bpf_map_type_lpm_trie bpf_map_type_array_of_maps
        bpf_map_type_hash_of_maps bpf_map_type_devmap bpf_map_type_sockmap bpf_map_type_cpumap
        bpf_map_type_xskmap bpf_map_type_sockhash bpf_map_type_cgroup_storage
        bpf_map_type_reuseport_sockarray bpf_map_type_percpu_cgroup_storage bpf_map_type_queue
        bpf_map_type_stack bpf_map_type_sk_storage bpf_map_type_devmap_hash bpf_map_type_struct_ops
        bpf_map_type_ringbuf bpf_map_type_inode_storage bpf_map_type_task_storage
        bpf_map_type_bloom_filter bpf_map_type_user_ringbuf :
      BpfMapType

pub record MapDefinition : Type 0 where
  pub type : BpfMapType
  -- 0 where it is not said
  pub key_size : ℕ
  pub value_size : ℕ
  pub max_entries : ℕ

abbrev pub shells_map : MapDefinition
shells_map = record {
  type = bpf_map_type_array;
  key_size = 4;
  value_size = size_of struct_shell;
  max_entries = shells_max_entries;
}

abbrev pub children_map : MapDefinition
children_map = record {
  type = bpf_map_type_array;
  key_size = 4;
  value_size = size_of struct_child;
  max_entries = children_max_entries;
}

abbrev pub ring_buffer_map : MapDefinition
ring_buffer_map = record {
  type = bpf_map_type_ringbuf;
  key_size = 0;
  value_size = 0;
  max_entries = ring_buffer_max_entries;
}

abbrev pub fdget_pos_pos_map : MapDefinition
fdget_pos_pos_map = record {
  type = bpf_map_type_percpu_array;
  key_size = 4;
  value_size = size_of unsigned_long;
  max_entries = 1;
}

abbrev pub ksys_write_event_map : MapDefinition
ksys_write_event_map = record {
  type = bpf_map_type_percpu_array;
  key_size = 4;
  value_size = ksys_write_event_size;
  max_entries = 1;
}

abbrev pub ksys_write_d_inode_map : MapDefinition
ksys_write_d_inode_map = record {
  type = bpf_map_type_percpu_array;
  key_size = 4;
  value_size = size_of struct_inode;
  max_entries = 1;
}
