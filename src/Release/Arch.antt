-- ===== src/Release/Arch.antt =====
-- internal/release/arch.go: the architecture tables. `goarch` stands for runtime.GOARCH and
-- `machine` for what uname(2) reports.
use sysext_alpine.Base.{
  Bool, List, [], ◌∷◌, Option, none, some, Bytes, codes, same, contains, if◌then◌else◌,
}

abbrev pub architectures : List Bytes
architectures =
    codes "arm64"
    ∷ codes "arm64-be"
    ∷ codes "arm"
    ∷ codes "arm-be"
    ∷ codes "alpha"
    ∷ codes "arc"
    ∷ codes "arc-be"
    ∷ codes "cris"
    ∷ codes "x86-64"
    ∷ codes "x86"
    ∷ codes "ia64"
    ∷ codes "loongarch64"
    ∷ codes "m68k"
    ∷ codes "mips64-le"
    ∷ codes "mips64"
    ∷ codes "mips-le"
    ∷ codes "mips"
    ∷ codes "nios2"
    ∷ codes "parisc64"
    ∷ codes "parisc"
    ∷ codes "ppc64-le"
    ∷ codes "ppc64"
    ∷ codes "ppc"
    ∷ codes "ppc-le"
    ∷ codes "riscv32"
    ∷ codes "riscv64"
    ∷ codes "s390x"
    ∷ codes "s390"
    ∷ codes "sh64"
    ∷ codes "sh"
    ∷ codes "sparc64"
    ∷ codes "sparc"
    ∷ codes "tilegx"
    ∷ []

unfoldable pub is_architecture : Bytes → Bool
is_architecture s = contains architectures s

pub data Family : Type 0 where
  arm x86 loongarch mips ppc riscv s390 no_family : Family

-- A machine string and the architecture that it stands for.
abbrev pub MachineArch : Type 0
MachineArch = Bytes × Bytes

unfoldable pub uname_machines : Family → List MachineArch
uname_machines arm =
    (codes "aarch64", codes "arm64")
    ∷ (codes "aarch64_be", codes "arm64-be")
    ∷ (codes "armv8l", codes "arm")
    ∷ (codes "armv8b", codes "arm-be")
    ∷ (codes "armv7ml", codes "arm")
    ∷ (codes "armv7mb", codes "arm-be")
    ∷ (codes "armv7l", codes "arm")
    ∷ (codes "armv7b", codes "arm-be")
    ∷ (codes "armv6l", codes "arm")
    ∷ (codes "armv6b", codes "arm-be")
    ∷ (codes "armv5tl", codes "arm")
    ∷ (codes "armv5tel", codes "arm")
    ∷ (codes "armv5tejl", codes "arm")
    ∷ (codes "armv5tejb", codes "arm-be")
    ∷ (codes "armv5teb", codes "arm-be")
    ∷ (codes "armv5tb", codes "arm-be")
    ∷ (codes "armv4tl", codes "arm")
    ∷ (codes "armv4tb", codes "arm-be")
    ∷ (codes "armv4l", codes "arm")
    ∷ (codes "armv4b", codes "arm-be")
    ∷ []
uname_machines x86 =
    (codes "x86_64", codes "x86-64")
    ∷ (codes "i686", codes "x86")
    ∷ (codes "i586", codes "x86")
    ∷ (codes "i486", codes "x86")
    ∷ (codes "i386", codes "x86")
    ∷ []
uname_machines loongarch = (codes "loongarch64", codes "loongarch64") ∷ []
uname_machines mips = (codes "mips64", codes "mips64") ∷ (codes "mips", codes "mips") ∷ []
uname_machines ppc =
    (codes "ppc64le", codes "ppc64-le")
    ∷ (codes "ppc64", codes "ppc64")
    ∷ (codes "ppcle", codes "ppc-le")
    ∷ (codes "ppc", codes "ppc")
    ∷ []
uname_machines riscv =
    (codes "riscv64", codes "riscv64")
    ∷ (codes "riscv32", codes "riscv32")
    ∷ (codes "riscv", codes "riscv64")
    ∷ []
uname_machines s390 = (codes "s390x", codes "s390x") ∷ (codes "s390", codes "s390") ∷ []
uname_machines no_family = []

-- Strings to values: the first entry that is the string.
abbrev choose {ℓ} : {A : Type ℓ} → A → List (Bytes × A) → Bytes → A
choose default [] s = default
choose default ((w, a) ∷ rest) s = if same w s then a else choose default rest s

unfoldable pub cpu_family : Bytes → Family
cpu_family = choose no_family (
    (codes "amd64", x86)
    ∷ (codes "386", x86)
    ∷ (codes "arm64", arm)
    ∷ (codes "arm", arm)
    ∷ (codes "loong64", loongarch)
    ∷ (codes "mips", mips)
    ∷ (codes "mipsle", mips)
    ∷ (codes "mips64", mips)
    ∷ (codes "mips64le", mips)
    ∷ (codes "ppc64", ppc)
    ∷ (codes "ppc64le", ppc)
    ∷ (codes "riscv64", riscv)
    ∷ (codes "s390x", s390)
    ∷ [])

lookup_machine : List MachineArch → Bytes → Option Bytes
lookup_machine [] machine = none
lookup_machine ((m, arch) ∷ rest) machine =
    if same m machine then some arch else lookup_machine rest machine

unfoldable pub arch_from_machine : Bytes → Bytes → Option Bytes
unfolding lookup_machine
arch_from_machine goarch machine = lookup_machine (uname_machines (cpu_family goarch)) machine

-- The native and the secondary architecture.
unfoldable pub native_architectures : Bytes → Bytes × Bytes
native_architectures goarch =
    choose (goarch, [])
      ((codes "amd64", (codes "x86-64", codes "x86"))
        ∷ (codes "386", (codes "x86", []))
        ∷ (codes "arm64", (codes "arm64", codes "arm"))
        ∷ (codes "arm", (codes "arm", []))
        ∷ (codes "loong64", (codes "loongarch64", []))
        ∷ (codes "mips", (codes "mips", []))
        ∷ (codes "mipsle", (codes "mips-le", []))
        ∷ (codes "mips64", (codes "mips64", []))
        ∷ (codes "mips64le", (codes "mips64-le", []))
        ∷ (codes "ppc64", (codes "ppc64", codes "ppc"))
        ∷ (codes "ppc64le", (codes "ppc64-le", codes "ppc-le"))
        ∷ (codes "riscv64", (codes "riscv64", []))
        ∷ (codes "s390x", (codes "s390x", codes "s390"))
        ∷ [])
      goarch

abbrev arch_or : Option Bytes → Bytes → Bytes
arch_or none native = native
arch_or (some arch) native = arch

-- `hostArchitecture`, with the machine string that uname(2) gives, if it does.
unfoldable pub host_architecture : Bytes → Option Bytes → Bytes
host_architecture goarch none = (native_architectures goarch).0
host_architecture goarch (some machine) =
    arch_or (arch_from_machine goarch machine) (native_architectures goarch).0
