-- ===== src/Image/Gpt/Types.antt =====
-- internal/image/gpt.go, the partition types of the architectures.
use sysext_alpine.Base.{List, [], ◌∷◌, Bytes, codes}

-- The types of one architecture: root, root-verity, root-verity-sig, usr, usr-verity,
-- usr-verity-sig.
pub record ArchTypes : Type 0 where
  pub arch_name : Bytes
  pub types : List Bytes

abbrev types_alpha : ArchTypes
types_alpha = record {
  arch_name = codes "alpha";
  types =
      codes "6523f8ae-3eb1-4e2a-a05a-18b695ae656f"
      ∷ codes "fc56d9e9-e6e5-4c06-be32-e74407ce09a5"
      ∷ codes "d46495b7-a053-414f-80f7-700c99921ef8"
      ∷ codes "e18cf08c-33ec-4c0d-8246-c6c6fb3da024"
      ∷ codes "8cce0d25-c0d0-4a44-bd87-46331bf1df67"
      ∷ codes "5c6e1c76-076a-457a-a0fe-f3b4cd21ce6e"
      ∷ [];
}

abbrev types_arc : ArchTypes
types_arc = record {
  arch_name = codes "arc";
  types =
      codes "d27f46ed-2919-4cb8-bd25-9531f3c16534"
      ∷ codes "24b2d975-0f97-4521-afa1-cd531e421b8d"
      ∷ codes "143a70ba-cbd3-4f06-919f-6c05683a78bc"
      ∷ codes "7978a683-6316-4922-bbee-38bff5a2fecc"
      ∷ codes "fca0598c-d880-4591-8c16-4eda05c7347c"
      ∷ codes "94f9a9a1-9971-427a-a400-50cb297f0f35"
      ∷ [];
}

abbrev types_arm : ArchTypes
types_arm = record {
  arch_name = codes "arm";
  types =
      codes "69dad710-2ce4-4e3c-b16c-21a1d49abed3"
      ∷ codes "7386cdf2-203c-47a9-a498-f2ecce45a2d6"
      ∷ codes "42b0455f-eb11-491d-98d3-56145ba9d037"
      ∷ codes "7d0359a3-02b3-4f0a-865c-654403e70625"
      ∷ codes "c215d751-7bcd-4649-be90-6627490a4c05"
      ∷ codes "d7ff812f-37d1-4902-a810-d76ba57b975a"
      ∷ [];
}

abbrev types_arm64 : ArchTypes
types_arm64 = record {
  arch_name = codes "arm64";
  types =
      codes "b921b045-1df0-41c3-af44-4c6f280d3fae"
      ∷ codes "df3300ce-d69f-4c92-978c-9bfb0f38d820"
      ∷ codes "6db69de6-29f4-4758-a7a5-962190f00ce3"
      ∷ codes "b0e01050-ee5f-4390-949a-9101b17104e9"
      ∷ codes "6e11a4e7-fbca-4ded-b9e9-e1a512bb664e"
      ∷ codes "c23ce4ff-44bd-4b00-b2d4-b41b3419e02a"
      ∷ [];
}

abbrev types_ia64 : ArchTypes
types_ia64 = record {
  arch_name = codes "ia64";
  types =
      codes "993d8d3d-f80e-4225-855a-9daf8ed7ea97"
      ∷ codes "86ed10d5-b607-45bb-8957-d350f23d0571"
      ∷ codes "e98b36ee-32ba-4882-9b12-0ce14655f46a"
      ∷ codes "4301d2a6-4e3b-4b2a-bb94-9e0b2c4225ea"
      ∷ codes "6a491e03-3be7-4545-8e38-83320e0ea880"
      ∷ codes "8de58bc2-2a43-460d-b14e-a76e4a17b47f"
      ∷ [];
}

abbrev types_loongarch64 : ArchTypes
types_loongarch64 = record {
  arch_name = codes "loongarch64";
  types =
      codes "77055800-792c-4f94-b39a-98c91b762bb6"
      ∷ codes "f3393b22-e9af-4613-a948-9d3bfbd0c535"
      ∷ codes "5afb67eb-ecc8-4f85-ae8e-ac1e7c50e7d0"
      ∷ codes "e611c702-575c-4cbe-9a46-434fa0bf7e3f"
      ∷ codes "f46b2c26-59ae-48f0-9106-c50ed47f673d"
      ∷ codes "b024f315-d330-444c-8461-44bbde524e99"
      ∷ [];
}

abbrev types_mips : ArchTypes
types_mips = record {
  arch_name = codes "mips";
  types =
      codes "e9434544-6e2c-47cc-bae2-12d6deafb44c"
      ∷ codes "7a430799-f711-4c7e-8e5b-1d685bd48607"
      ∷ codes "bba210a2-9c5d-45ee-9e87-ff2ccbd002d0"
      ∷ codes "773b2abc-2a99-4398-8bf5-03baac40d02b"
      ∷ codes "6e5a1bc8-d223-49b7-bca8-37a5fcceb996"
      ∷ codes "97ae158d-f216-497b-8057-f7f905770f54"
      ∷ [];
}

abbrev types_mips64 : ArchTypes
types_mips64 = record {
  arch_name = codes "mips64";
  types =
      codes "d113af76-80ef-41b4-bdb6-0cff4d3d4a25"
      ∷ codes "579536f8-6a33-4055-a95a-df2d5e2c42a8"
      ∷ codes "43ce94d4-0f3d-4999-8250-b9deafd98e6e"
      ∷ codes "57e13958-7331-4365-8e6e-35eeee17c61b"
      ∷ codes "81cf9d90-7458-4df4-8dcf-c8a3a404f09b"
      ∷ codes "05816ce2-dd40-4ac6-a61d-37d32dc1ba7d"
      ∷ [];
}

abbrev types_mips_le : ArchTypes
types_mips_le = record {
  arch_name = codes "mips-le";
  types =
      codes "37c58c8a-d913-4156-a25f-48b1b64e07f0"
      ∷ codes "d7d150d2-2a04-4a33-8f12-16651205ff7b"
      ∷ codes "c919cc1f-4456-4eff-918c-f75e94525ca5"
      ∷ codes "0f4868e9-9952-4706-979f-3ed3a473e947"
      ∷ codes "46b98d8d-b55c-4e8f-aab3-37fca7f80752"
      ∷ codes "3e23ca0b-a4bc-4b4e-8087-5ab6a26aa8a9"
      ∷ [];
}

abbrev types_mips64_le : ArchTypes
types_mips64_le = record {
  arch_name = codes "mips64-le";
  types =
      codes "700bda43-7a34-4507-b179-eeb93d7a7ca3"
      ∷ codes "16b417f8-3e06-4f57-8dd2-9b5232f41aa6"
      ∷ codes "904e58ef-5c65-4a31-9c57-6af5fc7c5de7"
      ∷ codes "c97c1f32-ba06-40b4-9f22-236061b08aa8"
      ∷ codes "3c3d61fe-b5f3-414d-bb71-8739a694a4ef"
      ∷ codes "f2c2c7ee-adcc-4351-b5c6-ee9816b66e16"
      ∷ [];
}

abbrev types_parisc : ArchTypes
types_parisc = record {
  arch_name = codes "parisc";
  types =
      codes "1aacdb3b-5444-4138-bd9e-e5c2239b2346"
      ∷ codes "d212a430-fbc5-49f9-a983-a7feef2b8d0e"
      ∷ codes "15de6170-65d3-431c-916e-b0dcd8393f25"
      ∷ codes "dc4a4480-6917-4262-a4ec-db9384949f25"
      ∷ codes "5843d618-ec37-48d7-9f12-cea8e08768b2"
      ∷ codes "450dd7d1-3224-45ec-9cf2-a43a346d71ee"
      ∷ [];
}

abbrev types_ppc : ArchTypes
types_ppc = record {
  arch_name = codes "ppc";
  types =
      codes "1de3f1ef-fa98-47b5-8dcd-4a860a654d78"
      ∷ codes "98cfe649-1588-46dc-b2f0-add147424925"
      ∷ codes "1b31b5aa-add9-463a-b2ed-bd467fc857e7"
      ∷ codes "7d14fec5-cc71-415d-9d6c-06bf0b3c3eaf"
      ∷ codes "df765d00-270e-49e5-bc75-f47bb2118b09"
      ∷ codes "7007891d-d371-4a80-86a4-5cb875b9302e"
      ∷ [];
}

abbrev types_ppc64 : ArchTypes
types_ppc64 = record {
  arch_name = codes "ppc64";
  types =
      codes "912ade1d-a839-4913-8964-a10eee08fbd2"
      ∷ codes "9225a9a3-3c19-4d89-b4f6-eeff88f17631"
      ∷ codes "f5e2c20c-45b2-4ffa-bce9-2a60737e1aaf"
      ∷ codes "2c9739e2-f068-46b3-9fd0-01c5a9afbcca"
      ∷ codes "bdb528a5-a259-475f-a87d-da53fa736a07"
      ∷ codes "0b888863-d7f8-4d9e-9766-239fce4d58af"
      ∷ [];
}

abbrev types_ppc64_le : ArchTypes
types_ppc64_le = record {
  arch_name = codes "ppc64-le";
  types =
      codes "c31c45e6-3f39-412e-80fb-4809c4980599"
      ∷ codes "906bd944-4589-4aae-a4e4-dd983917446a"
      ∷ codes "d4a236e7-e873-4c07-bf1d-bf6cf7f1c3c6"
      ∷ codes "15bb03af-77e7-4d4a-b12b-c0d084f7491c"
      ∷ codes "ee2b9983-21e8-4153-86d9-b6901a54d1ce"
      ∷ codes "c8bfbd1e-268e-4521-8bba-bf314c399557"
      ∷ [];
}

abbrev types_riscv32 : ArchTypes
types_riscv32 = record {
  arch_name = codes "riscv32";
  types =
      codes "60d5a7fe-8e7d-435c-b714-3dd8162144e1"
      ∷ codes "ae0253be-1167-4007-ac68-43926c14c5de"
      ∷ codes "3a112a75-8729-4380-b4cf-764d79934448"
      ∷ codes "b933fb22-5c3f-4f91-af90-e2bb0fa50702"
      ∷ codes "cb1ee4e3-8cd0-4136-a0a4-aa61a32e8730"
      ∷ codes "c3836a13-3137-45ba-b583-b16c50fe5eb4"
      ∷ [];
}

abbrev types_riscv64 : ArchTypes
types_riscv64 = record {
  arch_name = codes "riscv64";
  types =
      codes "72ec70a6-cf74-40e6-bd49-4bda08e8f224"
      ∷ codes "b6ed5582-440b-4209-b8da-5ff7c419ea3d"
      ∷ codes "efe0f087-ea8d-4469-821a-4c2a96a8386a"
      ∷ codes "beaec34b-8442-439b-a40b-984381ed097d"
      ∷ codes "8f1056be-9b05-47c4-81d6-be53128e5b54"
      ∷ codes "d2f9000a-7a18-453f-b5cd-4d32f77a7b32"
      ∷ [];
}

abbrev types_s390 : ArchTypes
types_s390 = record {
  arch_name = codes "s390";
  types =
      codes "08a7acea-624c-4a20-91e8-6e0fa67d23f9"
      ∷ codes "7ac63b47-b25c-463b-8df8-b4a94e6c90e1"
      ∷ codes "3482388e-4254-435a-a241-766a065f9960"
      ∷ codes "cd0f869b-d0fb-4ca0-b141-9ea87cc78d66"
      ∷ codes "b663c618-e7bc-4d6d-90aa-11b756bb1797"
      ∷ codes "17440e4f-a8d0-467f-a46e-3912ae6ef2c5"
      ∷ [];
}

abbrev types_s390x : ArchTypes
types_s390x = record {
  arch_name = codes "s390x";
  types =
      codes "5eead9a9-fe09-4a1e-a1d7-520d00531306"
      ∷ codes "b325bfbe-c7be-4ab8-8357-139e652d2f6b"
      ∷ codes "c80187a5-73a3-491a-901a-017c3fa953e9"
      ∷ codes "8a4f5770-50aa-4ed3-874a-99b710db6fea"
      ∷ codes "31741cc4-1a2a-4111-a581-e00b447d2d06"
      ∷ codes "3f324816-667b-46ae-86ee-9b0c0c6c11b4"
      ∷ [];
}

abbrev types_tilegx : ArchTypes
types_tilegx = record {
  arch_name = codes "tilegx";
  types =
      codes "c50cdd70-3862-4cc3-90e1-809a8c93ee2c"
      ∷ codes "966061ec-28e4-4b2e-b4a5-1f0a825a1d84"
      ∷ codes "b3671439-97b0-4a53-90f7-2d5a8f3ad47b"
      ∷ codes "55497029-c7c1-44cc-aa39-815ed1558630"
      ∷ codes "2fb4bf56-07fa-42da-8132-6b139f2026ae"
      ∷ codes "4ede75e2-6ccc-4cc8-b9c7-70334b087510"
      ∷ [];
}

abbrev types_x86 : ArchTypes
types_x86 = record {
  arch_name = codes "x86";
  types =
      codes "44479540-f297-41b2-9af7-d131d5f0458a"
      ∷ codes "d13c5d3b-b5d1-422a-b29f-9454fdc89d76"
      ∷ codes "5996fc05-109c-48de-808b-23fa0830b676"
      ∷ codes "75250d76-8cc6-458e-bd66-bd47cc81a812"
      ∷ codes "8f461b0d-14ee-4e81-9aa9-049b6fb97abd"
      ∷ codes "974a71c0-de41-43c3-be5d-5c5ccd1ad2c0"
      ∷ [];
}

abbrev types_x86_64 : ArchTypes
types_x86_64 = record {
  arch_name = codes "x86-64";
  types =
      codes "4f68bce3-e8cd-4db1-96e7-fbcaf984b709"
      ∷ codes "2c7357ed-ebd2-46d9-aec1-23d437ec2bf5"
      ∷ codes "41092b05-9fc8-4523-994f-2def0408b176"
      ∷ codes "8484680c-9521-48c6-9c11-b0720656f69e"
      ∷ codes "77ff5f63-e7b6-4633-acf4-1565b864c0e6"
      ∷ codes "e7bb33fb-06cf-4e81-8273-e543b413e2e2"
      ∷ [];
}

abbrev pub arch_partition_types : List ArchTypes
arch_partition_types =
    types_alpha ∷ types_arc ∷ types_arm ∷ types_arm64 ∷ types_ia64 ∷ types_loongarch64 ∷ types_mips
    ∷ types_mips64 ∷ types_mips_le ∷ types_mips64_le ∷ types_parisc ∷ types_ppc ∷ types_ppc64
    ∷ types_ppc64_le ∷ types_riscv32 ∷ types_riscv64 ∷ types_s390 ∷ types_s390x ∷ types_tilegx
    ∷ types_x86 ∷ types_x86_64 ∷ []
