-- ===== src/Config/SystemPaths.antt =====
-- internal/static/config_default_amd64.go, internal/static/config_default_arm64.go, and the reading
-- of SYSTEM_LIB_REQUIREMENTS in internal/static/config.go.
use dify_sandbox.Base.{not, List, [], ◌∷◌, Bytes, codes, eqb, if◌then◌else◌}
use dify_sandbox.Seccomp.Tables.{Arch, amd64, arm64}
use dify_sandbox.Text.Split.{split, trim_space}

-- The parts of SYSTEM_LIB_REQUIREMENTS that are not blank.
unfoldable pub trimmed_parts : List Bytes → List Bytes
unfolding trim_space eqb
trimmed_parts [] = []
trimmed_parts (p ∷ ps) =
    let rest = trimmed_parts ps in if not (eqb (trim_space p) []) then trim_space p ∷ rest else rest

-- `defaultSystemLibRequirements` on amd64, and on arm64.
abbrev pub amd64_lib_requirements : List Bytes
amd64_lib_requirements =
    codes "/usr/lib/x86_64-linux-gnu"
    ∷ codes "/etc/ssl/certs/ca-certificates.crt"
    ∷ codes "/etc/nsswitch.conf"
    ∷ codes "/etc/hosts"
    ∷ codes "/etc/resolv.conf"
    ∷ codes "/run/systemd/resolve/stub-resolv.conf"
    ∷ codes "/run/resolvconf/resolv.conf"
    ∷ codes "/etc/localtime"
    ∷ codes "/usr/share/zoneinfo"
    ∷ codes "/etc/timezone"
    ∷ []

abbrev pub arm64_lib_requirements : List Bytes
arm64_lib_requirements =
    codes "/usr/lib/aarch64-linux-gnu"
    ∷ codes "/etc/ssl/certs/ca-certificates.crt"
    ∷ codes "/etc/nsswitch.conf"
    ∷ codes "/etc/hosts"
    ∷ codes "/etc/resolv.conf"
    ∷ codes "/run/systemd/resolve/stub-resolv.conf"
    ∷ codes "/run/resolvconf/resolv.conf"
    ∷ codes "/etc/localtime"
    ∷ codes "/usr/share/zoneinfo"
    ∷ codes "/etc/timezone"
    ∷ []

abbrev pub default_system_lib_requirements : Arch → List Bytes
default_system_lib_requirements amd64 = amd64_lib_requirements
default_system_lib_requirements arm64 = arm64_lib_requirements

unfoldable pub system_paths : Arch → Bytes → List Bytes
unfolding trimmed_parts split
system_paths arch value =
    if not (eqb value [])
    then trimmed_parts (split b',' value)
    else default_system_lib_requirements arch
