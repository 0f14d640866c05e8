-- ===== src/Packages/Cpu.antt =====
-- gucc/src/cpu.cpp: the ISA levels that a CPU supports. What the instructions `cpuid` and `xgetbv`
-- and the call `uname` return is a parameter; the cache of the result is left out.
pub mod Levels
use new_cli_installer.Base.{
  String, ℕ, ◌/◌, ◌%◌, ◌^◌, Bool, true, false, ◌&&◌, List, [], ◌∷◌, ◌++◌, if◌then◌else◌, eqb, leb,
  ltb,
}

-- The registers after `cpuid(0)`, `cpuid(1)` and `cpuidex(7, 0)`, and the result of `xgetbv`.
pub record Registers : Type 0 where
  pub eax_0 : ℕ
  pub ecx_1 : ℕ
  pub ebx_7 : ℕ
  pub xcr0 : ℕ
  pub machine : String

-- One field for each bit of the `cpu_feature` values.
pub record Features : Type 0 where
  pub ssse3 : Bool
  pub sse41 : Bool
  pub sse42 : Bool
  pub avx : Bool
  pub avx2 : Bool
  pub avx512f : Bool
  pub avx512bw : Bool
  pub avx512cd : Bool
  pub avx512dq : Bool
  pub avx512vl : Bool

-- `reg & (1UL << k)`
abbrev pub bit : ℕ → ℕ → Bool
bit reg k = eqb (reg / 2 ^ k % 2) 1

-- `static_cast<int32_t>(eax) >= 7`
abbrev pub has_leaf_7 : ℕ → Bool
has_leaf_7 eax = ltb eax (2 ^ 31) && leb 7 eax

-- `(mask & 6) == 6`
abbrev pub saves_avx : ℕ → Bool
saves_avx mask = bit mask 1 && bit mask 2

-- `(mask & 224) == 224`
abbrev pub saves_avx512 : ℕ → Bool
saves_avx512 mask = bit mask 5 && bit mask 6 && bit mask 7

unfoldable pub get_cpu_features : Registers → Features
get_cpu_features r =
    let states = bit r.ecx_1 27 && saves_avx r.xcr0 in
    let leaf_7 = states && has_leaf_7 r.eax_0 in
    let zmm = leaf_7 && saves_avx512 r.xcr0 in
    record {
      ssse3 = bit r.ecx_1 0;
      sse41 = bit r.ecx_1 19;
      sse42 = bit r.ecx_1 20;
      avx = states && bit r.ecx_1 28;
      avx2 = leaf_7 && bit r.ebx_7 5;
      avx512f = zmm && bit r.ebx_7 16;
      avx512bw = zmm && bit r.ebx_7 30;
      avx512cd = zmm && bit r.ebx_7 28;
      avx512dq = zmm && bit r.ebx_7 17;
      avx512vl = zmm && bit r.ebx_7 31;
    }

abbrev pub supports_v2 : Features → Bool
supports_v2 f = f.ssse3 && f.sse41 && f.sse42

abbrev pub supports_v3 : Features → Bool
supports_v3 f = supports_v2 f && f.avx && f.avx2

abbrev pub supports_v4 : Features → Bool
supports_v4 f = supports_v3 f && f.avx512f && f.avx512vl && f.avx512bw && f.avx512cd && f.avx512dq

abbrev pub level_if : Bool → String → List String
level_if true level = level ∷ []
level_if false level = []

unfoldable pub get_isa_levels : Registers → List String
get_isa_levels r =
    let f = get_cpu_features r in
    r.machine
    ∷ (level_if (supports_v2 f) "x86_64_v2"
        ++ (level_if (supports_v3 f) "x86_64_v3" ++ level_if (supports_v4 f) "x86_64_v4"))
