-- ===== src/Kernel/Layout/Files.antt =====
-- The structures of files of daemon/src/vmlinux.h: an open file, its entry in a directory and its inode, with all that they contain.
use nhi.Kernel.Layout.{CType, array, struct, union, member, anonymous, end, ◌⨾◌}
use nhi.Kernel.Layout.Integers.{
  blkcnt_t, dev_t, enum_pid_type, errseq_t, fmode_t, gfp_t, int, loff_t, pointer, u16, u32, u64, u8,
  uapi_u32, uapi_u64, umode_t, unsigned_char, unsigned_int, unsigned_long, unsigned_short,
}
use nhi.Kernel.Layout.Locks.{
  atomic64_t, atomic_long_t, atomic_t, kgid_t, kuid_t, rwlock_t, seqcount_spinlock_t, spinlock_t,
  struct_callback_head, struct_hlist_head, struct_hlist_node, struct_list_head, struct_llist_node,
  struct_mutex, struct_rb_root_cached, struct_rw_semaphore, struct_timespec64,
}

abbrev pub struct_xarray : CType
struct_xarray =
    struct (member "xa_lock" spinlock_t ⨾ member "xa_flags" gfp_t ⨾ member "xa_head" pointer ⨾ end)

abbrev pub struct_address_space : CType
struct_address_space = struct (
    member "host" pointer
    ⨾ member "i_pages" struct_xarray
    ⨾ member "invalidate_lock" struct_rw_semaphore
    ⨾ member "gfp_mask" gfp_t
    ⨾ member "i_mmap_writable" atomic_t
    ⨾ member "i_mmap" struct_rb_root_cached
    ⨾ member "i_mmap_rwsem" struct_rw_semaphore
    ⨾ member "nrpages" unsigned_long
    ⨾ member "writeback_index" unsigned_long
    ⨾ member "a_ops" pointer
    ⨾ member "flags" unsigned_long
    ⨾ member "wb_err" errseq_t
    ⨾ member "private_lock" spinlock_t
    ⨾ member "private_list" struct_list_head
    ⨾ member "private_data" pointer
    ⨾ end)

abbrev pub struct_path : CType
struct_path = struct (member "mnt" pointer ⨾ member "dentry" pointer ⨾ end)

abbrev pub struct_fown_struct : CType
struct_fown_struct = struct (
    member "lock" rwlock_t
    ⨾ member "pid" pointer
    ⨾ member "pid_type" enum_pid_type
    ⨾ member "uid" kuid_t
    ⨾ member "euid" kuid_t
    ⨾ member "signum" int
    ⨾ end)

abbrev pub struct_file_ra_state : CType
struct_file_ra_state = struct (
    member "start" unsigned_long
    ⨾ member "size" unsigned_int
    ⨾ member "async_size" unsigned_int
    ⨾ member "ra_pages" unsigned_int
    ⨾ member "mmap_miss" unsigned_int
    ⨾ member "prev_pos" loff_t
    ⨾ end)

abbrev pub struct_file : CType
struct_file = struct (
    anonymous (
      union (
        member "f_llist" struct_llist_node
        ⨾ member "f_rcuhead" struct_callback_head
        ⨾ member "f_iocb_flags" unsigned_int
        ⨾ end))
    ⨾ member "f_path" struct_path
    ⨾ member "f_inode" pointer
    ⨾ member "f_op" pointer
    ⨾ member "f_lock" spinlock_t
    ⨾ member "f_count" atomic_long_t
    ⨾ member "f_flags" unsigned_int
    ⨾ member "f_mode" fmode_t
    ⨾ member "f_pos_lock" struct_mutex
    ⨾ member "f_pos" loff_t
    ⨾ member "f_owner" struct_fown_struct
    ⨾ member "f_cred" pointer
    ⨾ member "f_ra" struct_file_ra_state
    ⨾ member "f_version" u64
    ⨾ member "f_security" pointer
    ⨾ member "private_data" pointer
    ⨾ member "f_ep" pointer
    ⨾ member "f_mapping" pointer
    ⨾ member "f_wb_err" errseq_t
    ⨾ member "f_sb_err" errseq_t
    ⨾ end)

abbrev pub struct_hlist_bl_node : CType
struct_hlist_bl_node = struct (member "next" pointer ⨾ member "pprev" pointer ⨾ end)

abbrev pub struct_lockref : CType
struct_lockref = struct (
    anonymous (
      union (
        member "lock_count" uapi_u64
        ⨾ anonymous (struct (member "lock" spinlock_t ⨾ member "count" int ⨾ end))
        ⨾ end))
    ⨾ end)

abbrev pub struct_qstr : CType
struct_qstr = struct (
    anonymous (
      union (
        anonymous (struct (member "hash" u32 ⨾ member "len" u32 ⨾ end))
        ⨾ member "hash_len" u64
        ⨾ end))
    ⨾ member "name" pointer
    ⨾ end)

abbrev pub struct_dentry : CType
struct_dentry = struct (
    member "d_flags" unsigned_int
    ⨾ member "d_seq" seqcount_spinlock_t
    ⨾ member "d_hash" struct_hlist_bl_node
    ⨾ member "d_parent" pointer
    ⨾ member "d_name" struct_qstr
    ⨾ member "d_inode" pointer
    ⨾ member "d_iname" (array 32 unsigned_char)
    ⨾ member "d_lockref" struct_lockref
    ⨾ member "d_op" pointer
    ⨾ member "d_sb" pointer
    ⨾ member "d_time" unsigned_long
    ⨾ member "d_fsdata" pointer
    ⨾ anonymous (union (member "d_lru" struct_list_head ⨾ member "d_wait" pointer ⨾ end))
    ⨾ member "d_child" struct_list_head
    ⨾ member "d_subdirs" struct_list_head
    ⨾ member "d_u" (
        union (
          member "d_alias" struct_hlist_node
          ⨾ member "d_in_lookup_hash" struct_hlist_bl_node
          ⨾ member "d_rcu" struct_callback_head
          ⨾ end))
    ⨾ end)

abbrev pub struct_inode : CType
struct_inode = struct (
    member "i_mode" umode_t
    ⨾ member "i_opflags" unsigned_short
    ⨾ member "i_uid" kuid_t
    ⨾ member "i_gid" kgid_t
    ⨾ member "i_flags" unsigned_int
    ⨾ member "i_acl" pointer
    ⨾ member "i_default_acl" pointer
    ⨾ member "i_op" pointer
    ⨾ member "i_sb" pointer
    ⨾ member "i_mapping" pointer
    ⨾ member "i_security" pointer
    ⨾ member "i_ino" unsigned_long
    ⨾ anonymous (union (member "i_nlink" unsigned_int ⨾ member "__i_nlink" unsigned_int ⨾ end))
    ⨾ member "i_rdev" dev_t
    ⨾ member "i_size" loff_t
    ⨾ member "i_atime" struct_timespec64
    ⨾ member "i_mtime" struct_timespec64
    ⨾ member "i_ctime" struct_timespec64
    ⨾ member "i_lock" spinlock_t
    ⨾ member "i_bytes" unsigned_short
    ⨾ member "i_blkbits" u8
    ⨾ member "i_write_hint" u8
    ⨾ member "i_blocks" blkcnt_t
    ⨾ member "i_state" unsigned_long
    ⨾ member "i_rwsem" struct_rw_semaphore
    ⨾ member "dirtied_when" unsigned_long
    ⨾ member "dirtied_time_when" unsigned_long
    ⨾ member "i_hash" struct_hlist_node
    ⨾ member "i_io_list" struct_list_head
    ⨾ member "i_wb" pointer
    ⨾ member "i_wb_frn_winner" int
    ⨾ member "i_wb_frn_avg_time" u16
    ⨾ member "i_wb_frn_history" u16
    ⨾ member "i_lru" struct_list_head
    ⨾ member "i_sb_list" struct_list_head
    ⨾ member "i_wb_list" struct_list_head
    ⨾ anonymous
        (union (member "i_dentry" struct_hlist_head ⨾ member "i_rcu" struct_callback_head ⨾ end))
    ⨾ member "i_version" atomic64_t
    ⨾ member "i_sequence" atomic64_t
    ⨾ member "i_count" atomic_t
    ⨾ member "i_dio_count" atomic_t
    ⨾ member "i_writecount" atomic_t
    ⨾ member "i_readcount" atomic_t
    ⨾ anonymous (union (member "i_fop" pointer ⨾ member "free_inode" pointer ⨾ end))
    ⨾ member "i_flctx" pointer
    ⨾ member "i_data" struct_address_space
    ⨾ member "i_devices" struct_list_head
    ⨾ anonymous (
        union (
          member "i_pipe" pointer
          ⨾ member "i_cdev" pointer
          ⨾ member "i_link" pointer
          ⨾ member "i_dir_seq" unsigned_int
          ⨾ end))
    ⨾ member "i_generation" uapi_u32
    ⨾ member "i_fsnotify_mask" uapi_u32
    ⨾ member "i_fsnotify_marks" pointer
    ⨾ member "i_crypt_info" pointer
    ⨾ member "i_verity_info" pointer
    ⨾ member "i_private" pointer
    ⨾ end)
