-- ===== src/CheckEnv/Magisk/Scans.antt =====
-- The two scans of the Magisk check, one after the other.
use environment_check.Prelude.{
  ℕ, ◌%◌, ◌<◌, ◌≡◌, refl, some, Bool, true, false, List, [], ◌∷◌, ◌++◌, ◌==◌, if◌then◌else◌, All,
  codes, strstr, arith,
}
use environment_check.Outcome.{returns}
use environment_check.CheckEnv.System.{System}
use environment_check.CheckEnv.Texts.{IsLine, unlines, until_nul-line, strstr-line}
use environment_check.CheckEnv.Common.Lines.{with_newlines, lines-unlines}
use environment_check.CheckEnv.Magisk.{
  DataDevice, minus_one, word_bits, store_device, mount_loop, scan_mounts_of, scan_mountinfo,
  scan_maps_of, scan_maps, have_magic_mount,
}
use environment_check.CheckEnv.Magisk.Digits.{value}
use environment_check.CheckEnv.Magisk.Lines.{
  Mount, IsMount, mount_line, scan-mount_text, mount_text-append, Mapping,
}
use environment_check.CheckEnv.Magisk.Mappings.{is_found_in, map_lines, IsPrinted, map_loop-lines}

abbrev pub mounts_data : List ℕ → Bool
mounts_data l = strstr (codes "/ /data ") l

mount_loop-others :
    (g : DataDevice) (ls : List (List ℕ))
    → All (λ l. mounts_data l ≡ false) ls
    → All (IsLine 4094) ls
    → mount_loop (with_newlines ls) g ≡ g
unfolding mount_loop
mount_loop-others g [] h k = refl
mount_loop-others g (l ∷ ls) h k =
    rw
      (
        mount_loop,
        until_nul-line 4094 l k.0,
        strstr-line 47 (codes " /data ") l (ground arith),
        h.0,
      )
      (mount_loop-others g ls h.1 k.1)

abbrev pub device_of : Mount → DataDevice
device_of m = record {
  major = value 10 0 m.major % word_bits;
  minor = value 10 0 m.minor % word_bits;
}

mount_loop-lines :
    (before after : List (List ℕ)) (m : Mount) (g : DataDevice)
    → IsMount m
    → mounts_data (mount_line m) ≡ true
    → All (λ l. mounts_data l ≡ false) after
    → All (IsLine 4094) (before ++ mount_line m ∷ after)
    → mount_loop (with_newlines (before ++ mount_line m ∷ after)) g ≡ device_of m
unfolding mount_loop store_device
mount_loop-lines [] after m g h e f k =
    rw
      (
        mount_loop,
        until_nul-line 4094 (mount_line m) k.0,
        strstr-line 47 (codes " /data ") (mount_line m) (ground arith),
        e,
        mount_text-append m m.rest (10 ∷ []),
        scan-mount_text m (m.rest ++ 10 ∷ []) h,
      )
      (mount_loop-others (device_of m) after f k.1)
mount_loop-lines (l ∷ before) after m g h e f k = mount_loop-lines before after m _ h e f k.1

is_known : (n : ℕ) → n < minus_one → (n % word_bits == minus_one) ≡ false
is_known n h = ground arith

-- The last line of mountinfo that mounts /data names the device m, both of whose numbers are below
-- 2 ^ 32 - 1, and the lines of mountinfo and maps, as the kernel prints them, are shorter than the
-- buffers. Then haveMagicMount returns 1 if a mapping names a directory of the system and lies on
-- that device, and 0 if none does; it keeps the device, whatever device it knew before.
pub have_magic_mount-mapped :
    (sys : System) (g : DataDevice) (before after : List (List ℕ)) (m : Mount) (ms : List Mapping)
    → IsMount m
    → value 10 0 m.major < minus_one
    → value 10 0 m.minor < minus_one
    → mounts_data (mount_line m) ≡ true
    → All (λ l. mounts_data l ≡ false) after
    → All (IsLine 4094) (before ++ mount_line m ∷ after)
    → All IsPrinted ms
    → All (IsLine 4094) (map_lines ms)
    → sys.file (codes "/proc/self/mountinfo") ≡ some (unlines (before ++ mount_line m ∷ after))
    → sys.file (codes "/proc/self/maps") ≡ some (unlines (map_lines ms))
    → have_magic_mount sys g
      ≡ (returns (if is_found_in (device_of m) ms then 1 else 0), device_of m)
unfolding have_magic_mount scan_mountinfo scan_maps scan_mounts_of scan_maps_of
have_magic_mount-mapped sys g before after m ms h a b e f k p q mounts maps =
    rw
      (
        mounts,
        lines-unlines 4094 (before ++ mount_line m ∷ after) k,
        mount_loop-lines before after m g h e f k,
        maps,
        is_known (value 10 0 m.minor) b,
        is_known (value 10 0 m.major) a,
        lines-unlines 4094 (map_lines ms) q,
        map_loop-lines (device_of m) ms p q,
      )
      refl
