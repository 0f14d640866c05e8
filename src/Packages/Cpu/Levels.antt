-- ===== src/Packages/Cpu/Levels.antt =====
-- Which ISA levels are reported together, and when.
use new_cli_installer.Base.{◌≡◌, Bool, true, false, ◌&&◌, [], ◌∷◌, if◌then◌else◌, arith}
use new_cli_installer.Packages.Cpu.{
  Registers, bit, has_leaf_7, saves_avx, saves_avx512, get_cpu_features, supports_v2, supports_v3,
  supports_v4, get_isa_levels,
}

-- The levels are reported as a chain: each comes with all those below it, behind the machine's name.
pub get_isa_levels_chain :
    (r : Registers)
    → get_isa_levels r
      ≡ r.machine
        ∷ (if supports_v4 (get_cpu_features r)
            then "x86_64_v2" ∷ "x86_64_v3" ∷ "x86_64_v4" ∷ []
            else if supports_v3 (get_cpu_features r)
            then "x86_64_v2" ∷ "x86_64_v3" ∷ []
            else if supports_v2 (get_cpu_features r)
            then "x86_64_v2" ∷ []
            else [])
unfolding get_isa_levels
get_isa_levels_chain r = ground arith

saved_512 :
    (v3 states leaf saved a b c d e : Bool)
    → (v3
        && ((states && leaf) && saved && a)
        && ((states && leaf) && saved && b)
        && ((states && leaf) && saved && c)
        && ((states && leaf) && saved && d)
        && ((states && leaf) && saved && e))
      ≡ true
    → (saved && leaf) ≡ true
saved_512 v3 states leaf true a b c d e h = ground arith
saved_512 true states leaf false a b c d e h = ground arith
saved_512 false states leaf false a b c d e h = ground arith

saved_avx :
    (v2 osxsave mask leaf a b : Bool)
    → (v2 && ((osxsave && mask) && a) && (((osxsave && mask) && leaf) && b)) ≡ true
    → (osxsave && mask) ≡ true
saved_avx v2 osxsave mask leaf a b h = ground arith

-- `x86_64_v4` is supported only if the operating system saves the AVX-512 registers and `cpuid` has
-- its seventh leaf, `x86_64_v3` only if the system saves the AVX registers.
pub supports_v4_saved :
    (r : Registers)
    → (supports_v4 (get_cpu_features r) ≡ true → (saves_avx512 r.xcr0 && has_leaf_7 r.eax_0) ≡ true)
      × (supports_v3 (get_cpu_features r) ≡ true → (bit r.ecx_1 27 && saves_avx r.xcr0) ≡ true)
unfolding get_cpu_features
supports_v4_saved r =
    let f = get_cpu_features r in
    let osxsave = bit r.ecx_1 27 in
    let states = osxsave && saves_avx r.xcr0 in
    (
      λ h.
          saved_512 (supports_v3 f) states (has_leaf_7 r.eax_0) (saves_avx512 r.xcr0)
            (bit r.ebx_7 16) (bit r.ebx_7 31) (bit r.ebx_7 30) (bit r.ebx_7 28) (bit r.ebx_7 17) h,
      λ h.
          saved_avx (supports_v2 f) osxsave (saves_avx r.xcr0) (has_leaf_7 r.eax_0) (bit r.ecx_1 28)
            (bit r.ebx_7 5) h,
    )
