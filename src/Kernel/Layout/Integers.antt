-- ===== src/Kernel/Layout/Integers.antt =====
-- The integer types of daemon/src/vmlinux.h, by their names in the kernel.
use nhi.Kernel.Layout.{CType, scalar, one, two, four, eight}

-- The integers of C on x86_64, and any pointer.
abbrev pub char : CType
char = scalar one

abbrev pub unsigned_char : CType
unsigned_char = scalar one

abbrev pub unsigned_short : CType
unsigned_short = scalar two

abbrev pub int : CType
int = scalar four

abbrev pub unsigned_int : CType
unsigned_int = scalar four

abbrev pub long : CType
long = scalar eight

abbrev pub unsigned_long : CType
unsigned_long = scalar eight

abbrev pub long_long : CType
long_long = scalar eight

abbrev pub unsigned_long_long : CType
unsigned_long_long = scalar eight

abbrev pub pointer : CType
pointer = scalar eight

abbrev pub uapi_u8 : CType
uapi_u8 = unsigned_char

abbrev pub uapi_u16 : CType
uapi_u16 = unsigned_short

abbrev pub uapi_u32 : CType
uapi_u32 = unsigned_int

abbrev pub uapi_s64 : CType
uapi_s64 = long_long

abbrev pub uapi_u64 : CType
uapi_u64 = unsigned_long_long

abbrev pub u8 : CType
u8 = uapi_u8

abbrev pub u16 : CType
u16 = uapi_u16

abbrev pub u32 : CType
u32 = uapi_u32

abbrev pub s64 : CType
s64 = uapi_s64

abbrev pub u64 : CType
u64 = uapi_u64

abbrev pub kernel_pid_t : CType
kernel_pid_t = int

abbrev pub kernel_uid32_t : CType
kernel_uid32_t = unsigned_int

abbrev pub kernel_gid32_t : CType
kernel_gid32_t = unsigned_int

abbrev pub kernel_loff_t : CType
kernel_loff_t = long_long

abbrev pub kernel_dev_t : CType
kernel_dev_t = u32

abbrev pub dev_t : CType
dev_t = kernel_dev_t

abbrev pub umode_t : CType
umode_t = unsigned_short

abbrev pub pid_t : CType
pid_t = kernel_pid_t

abbrev pub uid_t : CType
uid_t = kernel_uid32_t

abbrev pub gid_t : CType
gid_t = kernel_gid32_t

abbrev pub loff_t : CType
loff_t = kernel_loff_t

abbrev pub blkcnt_t : CType
blkcnt_t = u64

abbrev pub gfp_t : CType
gfp_t = unsigned_int

abbrev pub fmode_t : CType
fmode_t = unsigned_int

abbrev pub time64_t : CType
time64_t = uapi_s64

abbrev pub errseq_t : CType
errseq_t = u32

abbrev pub enum_pid_type : CType
enum_pid_type = unsigned_int
