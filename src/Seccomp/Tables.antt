-- ===== src/Seccomp/Tables.antt =====
-- internal/static/python_syscall/syscalls_amd64.go and nodejs_syscall/syscalls_amd64.go, with the
-- numbers that Linux gives these calls on amd64; and which tables an architecture builds with.
use dify_sandbox.Base.{ℕ, List, [], ◌∷◌}
use dify_sandbox.Seccomp.TablesArm64.{
  python_allow_arm64, python_error_arm64, python_network_arm64, nodejs_allow_arm64,
  nodejs_error_arm64, nodejs_network_arm64,
}

abbrev pub python_allow : List ℕ
python_allow =
    -- NEWFSTATAT FSTAT FCNTL IOCTL LSEEK GETDENTS64 WRITE CLOSE OPENAT READ
    262 ∷ 5 ∷ 72 ∷ 16 ∷ 8 ∷ 217 ∷ 1 ∷ 3 ∷ 257 ∷ 0
    -- FUTEX SCHED_GETAFFINITY MMAP BRK MPROTECT MUNMAP RT_SIGRETURN MREMAP MADVISE
    ∷ 202 ∷ 204 ∷ 9 ∷ 12 ∷ 10 ∷ 11 ∷ 15 ∷ 25 ∷ 28
    -- SETGROUPS SETGID SETUID GETUID GETPID GETPPID GETTID EXIT EXIT_GROUP
    ∷ 116 ∷ 106 ∷ 105 ∷ 102 ∷ 39 ∷ 110 ∷ 186 ∷ 60 ∷ 231
    -- TGKILL RT_SIGACTION IOCTL SCHED_YIELD SET_ROBUST_LIST GET_ROBUST_LIST RSEQ
    ∷ 234 ∷ 13 ∷ 16 ∷ 24 ∷ 273 ∷ 274 ∷ 334
    -- CLOCK_GETTIME GETTIMEOFDAY NANOSLEEP EPOLL_CREATE1 EPOLL_CTL CLOCK_NANOSLEEP PSELECT6 TIME
    ∷ 228 ∷ 96 ∷ 35 ∷ 291 ∷ 233 ∷ 230 ∷ 270 ∷ 201
    -- RT_SIGPROCMASK SIGALTSTACK GETRANDOM EVENTFD2
    ∷ 14 ∷ 131 ∷ 318 ∷ 290 ∷ []

-- CLONE MKDIRAT MKDIR
abbrev pub python_error : List ℕ
python_error = 56 ∷ 258 ∷ 83 ∷ []

abbrev pub python_network : List ℕ
python_network =
    -- SOCKET CONNECT BIND LISTEN ACCEPT SENDTO RECVFROM
    41 ∷ 42 ∷ 49 ∷ 50 ∷ 43 ∷ 44 ∷ 45
    -- GETSOCKNAME RECVMSG GETPEERNAME SETSOCKOPT PPOLL UNAME
    ∷ 51 ∷ 47 ∷ 52 ∷ 54 ∷ 271 ∷ 63
    -- SENDMSG SENDMMSG GETSOCKOPT FSTAT FCNTL FSTATFS POLL EPOLL_PWAIT
    ∷ 46 ∷ 307 ∷ 55 ∷ 5 ∷ 72 ∷ 138 ∷ 7 ∷ 281 ∷ []

abbrev pub nodejs_allow : List ℕ
nodejs_allow =
    -- OPEN WRITE CLOSE READ OPENAT NEWFSTATAT IOCTL LSEEK FSTAT MPROTECT MMAP MUNMAP MREMAP BRK
    2 ∷ 1 ∷ 3 ∷ 0 ∷ 257 ∷ 262 ∷ 16 ∷ 8 ∷ 5 ∷ 10 ∷ 9 ∷ 11 ∷ 25 ∷ 12
    -- RT_SIGACTION RT_SIGPROCMASK MADVISE GETPID GETUID FCNTL SIGALTSTACK RT_SIGRETURN FUTEX
    ∷ 13 ∷ 14 ∷ 28 ∷ 39 ∷ 102 ∷ 72 ∷ 131 ∷ 15 ∷ 202
    -- EXIT_GROUP EPOLL_CTL EPOLL_PWAIT SCHED_YIELD EXIT SCHED_GETAFFINITY SET_ROBUST_LIST RSEQ
    ∷ 231 ∷ 233 ∷ 281 ∷ 24 ∷ 60 ∷ 204 ∷ 273 ∷ 334
    -- SETGROUPS SETGID SETUID GETTID CLOCK_GETTIME GETTIMEOFDAY NANOSLEEP TIME
    ∷ 116 ∷ 106 ∷ 105 ∷ 186 ∷ 228 ∷ 96 ∷ 35 ∷ 201
    -- TGKILL READLINK DUP3 EVENTFD2
    ∷ 234 ∷ 89 ∷ 292 ∷ 290 ∷ []

-- CLONE CLONE3
abbrev pub nodejs_error : List ℕ
nodejs_error = 56 ∷ 435 ∷ []

abbrev pub nodejs_network : List ℕ
nodejs_network =
    -- SOCKET CONNECT BIND LISTEN ACCEPT SENDTO RECVFROM
    41 ∷ 42 ∷ 49 ∷ 50 ∷ 43 ∷ 44 ∷ 45
    -- GETSOCKNAME RECVMSG GETPEERNAME SETSOCKOPT PPOLL UNAME SENDMSG GETSOCKOPT FCNTL FSTATFS
    ∷ 51 ∷ 47 ∷ 52 ∷ 54 ∷ 271 ∷ 63 ∷ 46 ∷ 55 ∷ 72 ∷ 138 ∷ []

-- The build tags of the tables.
pub data Arch : Type 0 where
  amd64 arm64 : Arch

-- The three tables of a language.
pub record Tables : Type 0 where
  pub allow : List ℕ
  pub error : List ℕ
  pub network : List ℕ

abbrev pub python_tables : Arch → Tables
python_tables amd64 = record {
  allow = python_allow;
  error = python_error;
  network = python_network;
}
python_tables arm64 = record {
  allow = python_allow_arm64;
  error = python_error_arm64;
  network = python_network_arm64;
}

abbrev pub nodejs_tables : Arch → Tables
nodejs_tables amd64 = record {
  allow = nodejs_allow;
  error = nodejs_error;
  network = nodejs_network;
}
nodejs_tables arm64 = record {
  allow = nodejs_allow_arm64;
  error = nodejs_error_arm64;
  network = nodejs_network_arm64;
}

-- `syscall.SYS_SETGROUPS`
abbrev pub setgroups_number : Arch → ℕ
setgroups_number amd64 = 116
setgroups_number arm64 = 159
