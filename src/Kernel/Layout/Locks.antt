-- ===== src/Kernel/Layout/Locks.antt =====
-- The counters, lists and locks of daemon/src/vmlinux.h that the structures of files contain.
use nhi.Kernel.Layout.{CType, array, struct, union, member, anonymous, end, ◌⨾◌}
use nhi.Kernel.Layout.Integers.{
  gid_t, int, long, pointer, s64, time64_t, u16, u8, uid_t, unsigned_int,
}

abbrev pub atomic_t : CType
atomic_t = struct (member "counter" int ⨾ end)

abbrev pub atomic64_t : CType
atomic64_t = struct (member "counter" s64 ⨾ end)

abbrev pub struct_list_head : CType
struct_list_head = struct (member "next" pointer ⨾ member "prev" pointer ⨾ end)

abbrev pub struct_hlist_head : CType
struct_hlist_head = struct (member "first" pointer ⨾ end)

abbrev pub struct_hlist_node : CType
struct_hlist_node = struct (member "next" pointer ⨾ member "pprev" pointer ⨾ end)

abbrev pub struct_callback_head : CType
struct_callback_head = struct (member "next" pointer ⨾ member "func" pointer ⨾ end)

abbrev pub struct_timespec64 : CType
struct_timespec64 = struct (member "tv_sec" time64_t ⨾ member "tv_nsec" long ⨾ end)

abbrev pub atomic_long_t : CType
atomic_long_t = atomic64_t

abbrev pub struct_qspinlock : CType
struct_qspinlock = struct (
    anonymous (
      union (
        member "val" atomic_t
        ⨾ anonymous (struct (member "locked" u8 ⨾ member "pending" u8 ⨾ end))
        ⨾ anonymous (struct (member "locked_pending" u16 ⨾ member "tail" u16 ⨾ end))
        ⨾ end))
    ⨾ end)

abbrev pub arch_spinlock_t : CType
arch_spinlock_t = struct_qspinlock

abbrev pub struct_raw_spinlock : CType
struct_raw_spinlock = struct (member "raw_lock" arch_spinlock_t ⨾ end)

abbrev pub struct_spinlock : CType
struct_spinlock = struct (anonymous (union (member "rlock" struct_raw_spinlock ⨾ end)) ⨾ end)

abbrev pub spinlock_t : CType
spinlock_t = struct_spinlock

abbrev pub struct_qrwlock : CType
struct_qrwlock = struct (
    anonymous (
      union (
        member "cnts" atomic_t
        ⨾ anonymous (struct (member "wlocked" u8 ⨾ member "__lstate" (array 3 u8) ⨾ end))
        ⨾ end))
    ⨾ member "wait_lock" arch_spinlock_t
    ⨾ end)

abbrev pub arch_rwlock_t : CType
arch_rwlock_t = struct_qrwlock

abbrev pub raw_spinlock_t : CType
raw_spinlock_t = struct_raw_spinlock

abbrev pub struct_optimistic_spin_queue : CType
struct_optimistic_spin_queue = struct (member "tail" atomic_t ⨾ end)

abbrev pub struct_mutex : CType
struct_mutex = struct (
    member "owner" atomic_long_t
    ⨾ member "wait_lock" raw_spinlock_t
    ⨾ member "osq" struct_optimistic_spin_queue
    ⨾ member "wait_list" struct_list_head
    ⨾ end)

abbrev pub struct_llist_node : CType
struct_llist_node = struct (member "next" pointer ⨾ end)

abbrev pub struct_seqcount : CType
struct_seqcount = struct (member "sequence" unsigned_int ⨾ end)

abbrev pub seqcount_t : CType
seqcount_t = struct_seqcount

abbrev pub struct_rb_root : CType
struct_rb_root = struct (member "rb_node" pointer ⨾ end)

abbrev pub struct_rb_root_cached : CType
struct_rb_root_cached =
    struct (member "rb_root" struct_rb_root ⨾ member "rb_leftmost" pointer ⨾ end)

abbrev pub kuid_t : CType
kuid_t = struct (member "val" uid_t ⨾ end)

abbrev pub struct_seqcount_spinlock : CType
struct_seqcount_spinlock = struct (member "seqcount" seqcount_t ⨾ end)

abbrev pub seqcount_spinlock_t : CType
seqcount_spinlock_t = struct_seqcount_spinlock

abbrev pub struct_rw_semaphore : CType
struct_rw_semaphore = struct (
    member "count" atomic_long_t
    ⨾ member "owner" atomic_long_t
    ⨾ member "osq" struct_optimistic_spin_queue
    ⨾ member "wait_lock" raw_spinlock_t
    ⨾ member "wait_list" struct_list_head
    ⨾ end)

abbrev pub kgid_t : CType
kgid_t = struct (member "val" gid_t ⨾ end)

abbrev pub rwlock_t : CType
rwlock_t = struct (member "raw_lock" arch_rwlock_t ⨾ end)
