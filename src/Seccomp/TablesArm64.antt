-- ===== src/Seccomp/TablesArm64.antt =====
-- internal/static/python_syscall/syscalls_arm64.go and nodejs_syscall/syscalls_arm64.go, with the
-- numbers that Linux gives these calls on arm64.
use dify_sandbox.Base.{ℕ, List, [], ◌∷◌}

abbrev pub python_allow_arm64 : List ℕ
python_allow_arm64 =
    -- WRITE CLOSE OPENAT READ LSEEK GETDENTS64 FSTAT FCNTL FUTEX
    64 ∷ 57 ∷ 56 ∷ 63 ∷ 62 ∷ 61 ∷ 80 ∷ 25 ∷ 98
    -- SCHED_GETAFFINITY MMAP BRK MPROTECT MUNMAP RT_SIGRETURN RT_SIGPROCMASK SIGALTSTACK MREMAP
    ∷ 123 ∷ 222 ∷ 214 ∷ 226 ∷ 215 ∷ 139 ∷ 135 ∷ 132 ∷ 216
    -- MADVISE SETGROUPS SETGID SETUID GETUID GETPID GETPPID GETTID EXIT
    ∷ 233 ∷ 159 ∷ 144 ∷ 146 ∷ 174 ∷ 172 ∷ 173 ∷ 178 ∷ 93
    -- EXIT_GROUP TGKILL RT_SIGACTION IOCTL SCHED_YIELD GET_ROBUST_LIST SET_ROBUST_LIST RSEQ EPOLL_CREATE1
    ∷ 94 ∷ 131 ∷ 134 ∷ 29 ∷ 124 ∷ 100 ∷ 99 ∷ 293 ∷ 20
    -- CLOCK_GETTIME GETTIMEOFDAY NANOSLEEP EPOLL_CTL CLOCK_NANOSLEEP PSELECT6 TIMERFD_CREATE TIMERFD_SETTIME TIMERFD_GETTIME
    ∷ 113 ∷ 169 ∷ 101 ∷ 21 ∷ 115 ∷ 72 ∷ 85 ∷ 86 ∷ 87
    -- GETRANDOM EVENTFD2
    ∷ 278 ∷ 19 ∷ []

abbrev pub python_error_arm64 : List ℕ
python_error_arm64 =
    -- CLONE MKDIRAT
    220 ∷ 34 ∷ []

abbrev pub python_network_arm64 : List ℕ
python_network_arm64 =
    -- SOCKET CONNECT BIND LISTEN ACCEPT SENDTO RECVFROM RECVMSG GETSOCKOPT
    198 ∷ 203 ∷ 200 ∷ 201 ∷ 202 ∷ 206 ∷ 207 ∷ 212 ∷ 209
    -- GETSOCKNAME GETPEERNAME SETSOCKOPT PPOLL UNAME SENDMMSG FSTATAT FSTAT FSTATFS
    ∷ 204 ∷ 205 ∷ 208 ∷ 73 ∷ 160 ∷ 269 ∷ 79 ∷ 80 ∷ 44
    -- EPOLL_PWAIT
    ∷ 22 ∷ []

abbrev pub nodejs_allow_arm64 : List ℕ
nodejs_allow_arm64 =
    -- CLOSE WRITE READ FSTAT FCNTL READLINKAT OPENAT GETPID TGKILL
    57 ∷ 64 ∷ 63 ∷ 80 ∷ 25 ∷ 78 ∷ 56 ∷ 172 ∷ 131
    -- FUTEX IOCTL EXIT EXIT_GROUP SET_ROBUST_LIST NANOSLEEP SCHED_GETAFFINITY SCHED_YIELD RT_SIGPROCMASK
    ∷ 98 ∷ 29 ∷ 93 ∷ 94 ∷ 99 ∷ 101 ∷ 123 ∷ 124 ∷ 135
    -- SIGALTSTACK RT_SIGACTION MMAP MUNMAP MADVISE MPROTECT RT_SIGRETURN BRK SETGROUPS
    ∷ 132 ∷ 134 ∷ 222 ∷ 215 ∷ 233 ∷ 226 ∷ 139 ∷ 214 ∷ 159
    -- SETGID SETUID GETTID GETUID GETGID EPOLL_CTL EPOLL_PWAIT EVENTFD2
    ∷ 144 ∷ 146 ∷ 178 ∷ 174 ∷ 176 ∷ 21 ∷ 22 ∷ 19 ∷ []

abbrev pub nodejs_error_arm64 : List ℕ
nodejs_error_arm64 =
    -- CLONE 293
    220 ∷ 293 ∷ []

abbrev pub nodejs_network_arm64 : List ℕ
nodejs_network_arm64 =
    -- SOCKET CONNECT BIND LISTEN ACCEPT SENDTO RECVFROM GETSOCKNAME SETSOCKOPT
    198 ∷ 203 ∷ 200 ∷ 201 ∷ 202 ∷ 206 ∷ 207 ∷ 204 ∷ 208
    -- GETSOCKOPT SENDMMSG RECVMSG GETPEERNAME PPOLL UNAME FSTATAT LSEEK FSTATFS
    ∷ 209 ∷ 269 ∷ 212 ∷ 205 ∷ 73 ∷ 160 ∷ 79 ∷ 62 ∷ 44 ∷ []
