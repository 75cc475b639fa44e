-- ===== src/Seccomp/Syscalls.antt =====
-- The syscall tables of lib/sandbox_seccomp: python_syscalls.rs and nodejs_syscalls.rs.
use sand_box_rust.Base.{◌≡◌, refl, sym, ap, ◌∙◌, get_or, ℕ, List, [], ◌∷◌, Bool, false, ◌||◌, ◌==◌}

-- The `libc::SYS_*` constants that the tables name.
pub data Syscall : Type 0 where
  sys_read sys_write sys_openat sys_close sys_newfstatat sys_statx sys_fstat sys_lseek : Syscall
  sys_getdents64 sys_fcntl sys_pread64 sys_readv sys_writev sys_rt_sigreturn sys_rt_sigaction :
      Syscall
  sys_rt_sigprocmask sys_sigaltstack sys_ioctl sys_futex sys_set_tid_address : Syscall
  sys_sched_getaffinity sys_mmap sys_brk sys_mprotect sys_munmap sys_mremap sys_madvise : Syscall
  sys_getuid sys_getpid sys_getppid sys_gettid sys_exit sys_exit_group sys_sched_yield : Syscall
  sys_set_robust_list sys_get_robust_list sys_rseq sys_clock_gettime sys_gettimeofday sys_time :
      Syscall
  sys_nanosleep sys_clock_nanosleep sys_epoll_create1 sys_epoll_ctl sys_pselect6 sys_eventfd2 :
      Syscall
  sys_pipe2 sys_getrandom sys_getcwd sys_uname sys_clone sys_clone3 sys_mkdirat sys_mkdir : Syscall
  sys_tgkill sys_prlimit64 sys_socket sys_connect sys_bind sys_listen sys_accept sys_sendto :
      Syscall
  sys_recvfrom sys_getsockname sys_recvmsg sys_getpeername sys_setsockopt sys_ppoll sys_sendmsg :
      Syscall
  sys_sendmmsg sys_getsockopt sys_fstatfs sys_poll sys_epoll_pwait sys_open sys_readlink : Syscall
  sys_dup3 sys_fsync : Syscall

abbrev pub python_allow_syscalls : List Syscall
python_allow_syscalls =
    sys_read ∷ sys_write ∷ sys_openat ∷ sys_close ∷ sys_newfstatat ∷ sys_statx ∷ sys_fstat
    ∷ sys_lseek ∷ sys_getdents64 ∷ sys_fcntl ∷ sys_pread64 ∷ sys_readv ∷ sys_writev
    ∷ sys_rt_sigreturn ∷ sys_rt_sigaction ∷ sys_rt_sigprocmask ∷ sys_sigaltstack ∷ sys_ioctl
    ∷ sys_futex ∷ sys_set_tid_address ∷ sys_sched_getaffinity ∷ sys_mmap ∷ sys_brk ∷ sys_mprotect
    ∷ sys_munmap ∷ sys_mremap ∷ sys_madvise ∷ sys_getuid ∷ sys_getpid ∷ sys_getppid ∷ sys_gettid
    ∷ sys_exit ∷ sys_exit_group ∷ sys_sched_yield ∷ sys_set_robust_list ∷ sys_get_robust_list
    ∷ sys_rseq ∷ sys_clock_gettime ∷ sys_gettimeofday ∷ sys_time ∷ sys_nanosleep
    ∷ sys_clock_nanosleep ∷ sys_epoll_create1 ∷ sys_epoll_ctl ∷ sys_pselect6 ∷ sys_eventfd2
    ∷ sys_pipe2 ∷ sys_getrandom ∷ sys_getcwd ∷ sys_uname ∷ []

abbrev pub python_allow_error_syscalls : List Syscall
python_allow_error_syscalls =
    sys_clone ∷ sys_clone3 ∷ sys_mkdirat ∷ sys_mkdir ∷ sys_tgkill ∷ sys_prlimit64 ∷ []

abbrev pub python_allow_network_syscalls : List Syscall
python_allow_network_syscalls =
    sys_socket ∷ sys_connect ∷ sys_bind ∷ sys_listen ∷ sys_accept ∷ sys_sendto ∷ sys_recvfrom
    ∷ sys_getsockname ∷ sys_recvmsg ∷ sys_getpeername ∷ sys_setsockopt ∷ sys_ppoll ∷ sys_sendmsg
    ∷ sys_sendmmsg ∷ sys_getsockopt ∷ sys_fstatfs ∷ sys_poll ∷ sys_epoll_pwait ∷ []

abbrev pub nodejs_allow_syscalls : List Syscall
nodejs_allow_syscalls =
    sys_open ∷ sys_write ∷ sys_close ∷ sys_read ∷ sys_openat ∷ sys_newfstatat ∷ sys_statx
    ∷ sys_lseek ∷ sys_fstat ∷ sys_readlink ∷ sys_dup3 ∷ sys_fcntl ∷ sys_fsync ∷ sys_mprotect
    ∷ sys_mmap ∷ sys_munmap ∷ sys_mremap ∷ sys_brk ∷ sys_madvise ∷ sys_rt_sigaction
    ∷ sys_rt_sigprocmask ∷ sys_sigaltstack ∷ sys_rt_sigreturn ∷ sys_ioctl ∷ sys_futex
    ∷ sys_sched_yield ∷ sys_set_robust_list ∷ sys_rseq ∷ sys_getuid ∷ sys_getpid ∷ sys_gettid
    ∷ sys_exit ∷ sys_exit_group ∷ sys_sched_getaffinity ∷ sys_clock_gettime ∷ sys_gettimeofday
    ∷ sys_nanosleep ∷ sys_time ∷ sys_epoll_ctl ∷ sys_epoll_pwait ∷ sys_eventfd2 ∷ []

abbrev pub nodejs_allow_error_syscalls : List Syscall
nodejs_allow_error_syscalls = sys_clone ∷ sys_clone3 ∷ sys_tgkill ∷ []

abbrev pub nodejs_allow_network_syscalls : List Syscall
nodejs_allow_network_syscalls =
    sys_socket ∷ sys_connect ∷ sys_bind ∷ sys_listen ∷ sys_accept ∷ sys_sendto ∷ sys_recvfrom
    ∷ sys_getsockname ∷ sys_recvmsg ∷ sys_getpeername ∷ sys_setsockopt ∷ sys_ppoll ∷ sys_uname
    ∷ sys_sendmsg ∷ sys_getsockopt ∷ sys_fcntl ∷ sys_fstatfs ∷ []

-- A number of its own for each name, to tell the names apart.
unfoldable pub place : Syscall → ℕ
place sys_read = 0
place sys_write = 1
place sys_openat = 2
place sys_close = 3
place sys_newfstatat = 4
place sys_statx = 5
place sys_fstat = 6
place sys_lseek = 7
place sys_getdents64 = 8
place sys_fcntl = 9
place sys_pread64 = 10
place sys_readv = 11
place sys_writev = 12
place sys_rt_sigreturn = 13
place sys_rt_sigaction = 14
place sys_rt_sigprocmask = 15
place sys_sigaltstack = 16
place sys_ioctl = 17
place sys_futex = 18
place sys_set_tid_address = 19
place sys_sched_getaffinity = 20
place sys_mmap = 21
place sys_brk = 22
place sys_mprotect = 23
place sys_munmap = 24
place sys_mremap = 25
place sys_madvise = 26
place sys_getuid = 27
place sys_getpid = 28
place sys_getppid = 29
place sys_gettid = 30
place sys_exit = 31
place sys_exit_group = 32
place sys_sched_yield = 33
place sys_set_robust_list = 34
place sys_get_robust_list = 35
place sys_rseq = 36
place sys_clock_gettime = 37
place sys_gettimeofday = 38
place sys_time = 39
place sys_nanosleep = 40
place sys_clock_nanosleep = 41
place sys_epoll_create1 = 42
place sys_epoll_ctl = 43
place sys_pselect6 = 44
place sys_eventfd2 = 45
place sys_pipe2 = 46
place sys_getrandom = 47
place sys_getcwd = 48
place sys_uname = 49
place sys_clone = 50
place sys_clone3 = 51
place sys_mkdirat = 52
place sys_mkdir = 53
place sys_tgkill = 54
place sys_prlimit64 = 55
place sys_socket = 56
place sys_connect = 57
place sys_bind = 58
place sys_listen = 59
place sys_accept = 60
place sys_sendto = 61
place sys_recvfrom = 62
place sys_getsockname = 63
place sys_recvmsg = 64
place sys_getpeername = 65
place sys_setsockopt = 66
place sys_ppoll = 67
place sys_sendmsg = 68
place sys_sendmmsg = 69
place sys_getsockopt = 70
place sys_fstatfs = 71
place sys_poll = 72
place sys_epoll_pwait = 73
place sys_open = 74
place sys_readlink = 75
place sys_dup3 = 76
place sys_fsync = 77

-- Whether a name stands in a table.
abbrev pub listed : Syscall → List Syscall → Bool
listed s [] = false
listed s (t ∷ ts) = place t == place s || listed s ts

abbrev all_names : List Syscall
all_names =
    sys_read ∷ sys_write ∷ sys_openat ∷ sys_close ∷ sys_newfstatat ∷ sys_statx ∷ sys_fstat
    ∷ sys_lseek ∷ sys_getdents64 ∷ sys_fcntl ∷ sys_pread64 ∷ sys_readv ∷ sys_writev
    ∷ sys_rt_sigreturn ∷ sys_rt_sigaction ∷ sys_rt_sigprocmask ∷ sys_sigaltstack ∷ sys_ioctl
    ∷ sys_futex ∷ sys_set_tid_address ∷ sys_sched_getaffinity ∷ sys_mmap ∷ sys_brk ∷ sys_mprotect
    ∷ sys_munmap ∷ sys_mremap ∷ sys_madvise ∷ sys_getuid ∷ sys_getpid ∷ sys_getppid ∷ sys_gettid
    ∷ sys_exit ∷ sys_exit_group ∷ sys_sched_yield ∷ sys_set_robust_list ∷ sys_get_robust_list
    ∷ sys_rseq ∷ sys_clock_gettime ∷ sys_gettimeofday ∷ sys_time ∷ sys_nanosleep
    ∷ sys_clock_nanosleep ∷ sys_epoll_create1 ∷ sys_epoll_ctl ∷ sys_pselect6 ∷ sys_eventfd2
    ∷ sys_pipe2 ∷ sys_getrandom ∷ sys_getcwd ∷ sys_uname ∷ sys_clone ∷ sys_clone3 ∷ sys_mkdirat
    ∷ sys_mkdir ∷ sys_tgkill ∷ sys_prlimit64 ∷ sys_socket ∷ sys_connect ∷ sys_bind ∷ sys_listen
    ∷ sys_accept ∷ sys_sendto ∷ sys_recvfrom ∷ sys_getsockname ∷ sys_recvmsg ∷ sys_getpeername
    ∷ sys_setsockopt ∷ sys_ppoll ∷ sys_sendmsg ∷ sys_sendmmsg ∷ sys_getsockopt ∷ sys_fstatfs
    ∷ sys_poll ∷ sys_epoll_pwait ∷ sys_open ∷ sys_readlink ∷ sys_dup3 ∷ sys_fsync ∷ []

-- The names are told apart by their places.
named : ℕ → Syscall
named n = get_or all_names n sys_read

named-place : (s : Syscall) → named (place s) ≡ s
unfolding named place
named-place sys_read = refl
named-place _ = refl

pub place_inj : (s t : Syscall) → place s ≡ place t → s ≡ t
place_inj s t e = sym (named-place s) ∙ ap named e ∙ named-place t
