-- ===== src/Lib.antt =====
-- sysext-alpine merges system extension images into /usr, /opt and /etc on systems without systemd.
-- This library models the parts of it that decide: which images are installed and which version of an
-- image is picked, whether an extension fits the host, which partitions of a disk image are used and
-- what the image policy allows, what the configuration says, and how the overlays are set up,
-- replaced and taken down again.
--
-- The parts, and the files that they model:
--   Discover/Version.antt: CompareVersions of internal/discover/version.go. A position in a string is
--     the rest of the string. A round of the loop gives the sign that it returns (`err`) or the two
--     rests (`ok`). The loop runs on fuel, one more than the bytes of both strings: a round that goes
--     on consumes a byte.
--   Discover/Version/Key.antt: the independent description, a list of keys for each string.
--   Discover/Pick.antt: pickVersion, better and the parsers of entry names of
--     internal/discover/vpick.go. Chase, os.Stat and the directory's names are parameters.
--   Release/Class.antt, Release/Validate.antt: Validate and Class of internal/release/release.go.
--   Release/Arch.antt: internal/release/arch.go; the machine string of uname(2) is an argument.
--   Release/Lookup.antt: internal/release/lookup.go, HostScope of release.go, and ParseFile of envfile.go.
--     A record gives what the file system answers. The loop over the buffers of the extended attribute
--     has its 8 rounds. Release/Lookup/Candidates.antt describes the file that is found.
--   Command/CheckImage.antt: mergeOptions, as far as it reads the host, and checkImage of
--     cmd/sysext/verbs.go; the check is a function that mergeOptions returns.
--   Release/Names.antt: internal/release/names.go, with utf8.DecodeRune written out.
--   Release/EnvFile.antt: Parse and ParseBoolean of internal/release/envfile.go. The variables of
--     Parse are a record, the body of its loop is `step`; the newest assignment stands first, where
--     `lookup` finds it.
--   Discover/Images.antt: internal/discover/discover.go; the creation time of a file, the directory
--     listing and the file system are parameters.
--   Config.antt, Config/Lines.antt, Config/Assign.antt, Config/File.antt, Config/Load.antt:
--     internal/config/config.go: its lines, assignments, files, and the search for the files. The line
--     reader has as much fuel as the file has bytes.
--   Files/Chase.antt: Chase of internal/fsutil/chase.go, on parameters for Lstat, Readlink and Abs. The
--     walk has fuel for each component of the path between two links, and at most 40 links are followed.
--   Files/Mounts.antt: internal/fsutil/mount.go, the parser of mountinfo and IsBelow.
--   Image/Designator.antt, Image/Gpt.antt: designators, partition types and the ranking of
--     architectures of internal/image/gpt.go.
--   Image/Policy/: internal/image/policy.go. Flags.antt has the flag sets, a function from flags to
--     Bool for the bits of a uint32; Parse.antt the parser and the printer; Decide.antt the rules
--     that a policy implies and its enforcement. The recursion of `get` has fuel 2, since it goes from
--     a verity partition to its data partition and no further.
--   Image/Ids.antt, Image/Dissect.antt, Image/Dissect/Finish.antt: internal/image/dissect.go. The
--     array indexed by designators is a function; the pointer to the generic partition is an Option.
--     The signature reader, the machine ID and HMAC-SHA256 are parameters. Image/Table.antt reads the
--     bytes of a partition table (internal/image/gpt.go); CRC-32 is a parameter.
--     Image/Dissect/RootHash.antt has loadSigPartitionRootHash and guessRootHash.
--   Overlay/: internal/overlay. Markers.antt has markers.go up to the reading of a marker, Options.antt
--     the mount options and flags, Submounts.antt the choice and the attaching of submounts, Origin.antt
--     the origin document and its JSON text, Mutable.antt mutable.go, Workspace.antt the detaching of
--     mounts and the workspace, Unmerge.antt takeSubmounts and unmergeHierarchy, Commands.antt the
--     hierarchies, Unmerge and CurrentStatus. Engine.antt has mergeOp and its parts; Engine/Images.antt,
--     Engine/Layers.antt, Engine/Assemble.antt, Engine/Swap.antt and Engine/Run.antt follow engine.go.
--     Overlay/Kernel.antt is what they run on: a record of the answers of the system calls, which may
--     depend on all calls made before, and a trace of the calls that change something. An action gives
--     a result and the state after it, also when it fails. detachAll has its 64 rounds;
--     unmergeHierarchy is given a number of rounds, one for each overlay stacked on a hierarchy and one
--     more. The permissions that a call gives a new file, and clone and close of a file descriptor,
--     are not part of an event.
--     Overlay/Kernel/Keeps.antt and Stays.antt are small logics for such actions: what they leave alone,
--     and an invariant that they keep; Extends.antt has the order of calls in a trace.
--     Overlay/Engine/Spared/ follows an operation with them. The JSON reader of Overlay/Origin/Text.antt
--     is not part of the program: it follows RFC 8259.
--   Service/Units.antt: internal/service/units.go. A set of unit names is a sorted list, and a warning
--     is a value that says what it is about.
--   Service/Cmdline.antt: internal/service/cmdline.go; the environment, the process ID and the files are
--     a record of parameters.
--   Base/: byte strings with the functions of Go's strings package that the code calls, results,
--     lists and tests.
--
-- Texts are lists of bytes, each a number. Version comparison feeds the choice among versioned
-- images and among partitions with the same designator; the policy is consulted for each candidate
-- partition, and once more for each designator when the table has been read. The engine chases
-- hierarchies inside the root, parses what the kernel says of mounts, and writes and reads markers.
--
-- Not modelled: what only calls the kernel (loop devices, dm-verity, mounting a disk image, OpenRC's
-- commands, reading files), PKCS#7, the messages of errors and logs, the lock of a class, the
-- resolution of --root, the comparison of two JSON documents, and the rest of cmd/sysext: its options,
-- verbs, tables and messages.
pub mod Base
pub mod Command
pub mod Config
pub mod Discover
pub mod Files
pub mod Image
pub mod Overlay
pub mod Release
pub mod Service
pub mod Tests
