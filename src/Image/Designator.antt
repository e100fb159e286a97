-- ===== src/Image/Designator.antt =====
-- internal/image/gpt.go, the partition designators. `partInvalid` is `none`.
use sysext_alpine.Base.{
  ℕ, Bool, true, false, List, [], ◌∷◌, Option, none, some, Bytes, codes, same, if◌then◌else◌,
}

pub data Designator : Type 0 where
  root usr home srv esp xbootldr swap : Designator
  root_verity usr_verity root_verity_sig usr_verity_sig : Designator
  tmp var : Designator

-- `range numDesignators`, in the order of the source.
abbrev pub designators : List Designator
designators =
    root ∷ usr ∷ home ∷ srv ∷ esp ∷ xbootldr ∷ swap ∷ root_verity ∷ usr_verity ∷ root_verity_sig
    ∷ usr_verity_sig ∷ tmp ∷ var ∷ []

unfoldable pub designator_name : Designator → Bytes
designator_name root = codes "root"
designator_name usr = codes "usr"
designator_name home = codes "home"
designator_name srv = codes "srv"
designator_name esp = codes "esp"
designator_name xbootldr = codes "xbootldr"
designator_name swap = codes "swap"
designator_name root_verity = codes "root-verity"
designator_name usr_verity = codes "usr-verity"
designator_name root_verity_sig = codes "root-verity-sig"
designator_name usr_verity_sig = codes "usr-verity-sig"
designator_name tmp = codes "tmp"
designator_name var = codes "var"

find_designator : List Designator → Bytes → Option Designator
unfolding designator_name same
find_designator [] s = none
find_designator (d ∷ ds) s = if same (designator_name d) s then some d else find_designator ds s

unfoldable pub designator_from_string : Bytes → Option Designator
unfolding find_designator
designator_from_string s = find_designator designators s

abbrev pub verity_hash : Designator → Option Designator
verity_hash root = some root_verity
verity_hash usr = some usr_verity
verity_hash _ = none

abbrev pub verity_sig : Designator → Option Designator
verity_sig root = some root_verity_sig
verity_sig usr = some usr_verity_sig
verity_sig _ = none

abbrev pub verity_data : Designator → Option Designator
verity_data root_verity = some root
verity_data root_verity_sig = some root
verity_data usr_verity = some usr
verity_data usr_verity_sig = some usr
verity_data _ = none

abbrev pub is_verity_sig : Designator → Bool
is_verity_sig root_verity_sig = true
is_verity_sig usr_verity_sig = true
is_verity_sig _ = false

abbrev pub versioned : Designator → Bool
versioned root = true
versioned usr = true
versioned root_verity = true
versioned usr_verity = true
versioned root_verity_sig = true
versioned usr_verity_sig = true
versioned _ = false

-- The position of a designator, its value in the source.
abbrev pub index : Designator → ℕ
index root = 0
index usr = 1
index home = 2
index srv = 3
index esp = 4
index xbootldr = 5
index swap = 6
index root_verity = 7
index usr_verity = 8
index root_verity_sig = 9
index usr_verity_sig = 10
index tmp = 11
index var = 12
