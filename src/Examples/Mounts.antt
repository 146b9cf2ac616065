-- ===== src/Examples/Mounts.antt =====
-- A device on which a library of the system lies on the device of /data.
use environment_check.Prelude.{
  ℕ, ◌≡◌, refl, none, some, Bool, true, false, List, [], ◌∷◌, if◌then◌else◌, codes, until_nul,
  starts_with, strstr, arith,
}
use environment_check.Outcome.{returns, fails, undefined_behaviour}
use environment_check.CheckEnv.System.{System, print_into}
use environment_check.CheckEnv.Decimal.{skip_spaces}
use environment_check.CheckEnv.Texts.{unlines}
use environment_check.CheckEnv.Common.{get_build_info64, get_build_info256}
use environment_check.CheckEnv.Magisk.{
  DataDevice, have_magic_mount, is_module_line, scan, digit_of, names_system,
}
use environment_check.CheckEnv.Magisk.Lines.{Mount, mount_line, Mapping}
use environment_check.CheckEnv.Magisk.Mappings.{is_found_in, map_lines}
use environment_check.CheckEnv.Magisk.Scans.{device_of, have_magic_mount-mapped}

abbrev root_mount : List ℕ
root_mount = codes "21 1 253:4 / / ro,relatime"

abbrev data_mount : Mount
data_mount = record {
  mount_id = codes "26";
  parent_id = codes "21";
  major = codes "253";
  minor = codes "11";
  rest = codes "/ /data rw,nosuid";
}

abbrev mapped : List Mapping
mapped =
    record {
      address = codes "70-71";
      permissions = codes "rw-p";
      offset = codes "00";
      major = codes "00";
      minor = codes "00";
      inode = codes "0";
      path = [];
    }
    ∷ record {
      address = codes "71-72";
      permissions = codes "r-xp";
      offset = codes "00";
      major = codes "fd";
      minor = codes "0b";
      inode = codes "99";
      path = codes "  /system/lib64/libc.so";
    }
    ∷ []

abbrev is_maps : List ℕ → Bool
is_maps path = strstr (codes "maps") path

abbrev phone : System
phone = record {
  file = λ path.
      if is_maps path
      then some (unlines (map_lines mapped))
      else some (unlines (root_mount ∷ mount_line data_mount ∷ []));
  command = λ cmd. none;
  exists = λ path. false;
  executable = λ path. false;
  readable = λ path. false;
  property = λ name. codes "0123456789012345678901234567890123456789012345678901234567890123";
  pid = 42;
  ppid = 1;
  uid = 10050;
  library = λ name. false;
  symbol = λ name sym. false;
  traceable = true;
  file_when_traced = λ path. none;
}

abbrev unknown : DataDevice
unknown = record { major = 4294967295; minor = 4294967295 }

have_magic_mount-mapped_example :
    have_magic_mount phone unknown
    ≡ (returns (if is_found_in (device_of data_mount) mapped then 1 else 0), device_of data_mount)
unfolding strstr starts_with map_lines digit_of skip_spaces names_system
have_magic_mount-mapped_example =
    have_magic_mount-mapped phone unknown (root_mount ∷ []) [] data_mount mapped (ground arith)
      (ground arith) (ground arith) refl tt (ground arith) (ground arith) (ground arith) refl refl

the_library_is_found : is_found_in (device_of data_mount) mapped ≡ true
unfolding is_found_in names_system strstr starts_with digit_of
the_library_is_found = refl

-- A line that ends after its device leaves the path without a value.
a_line_without_path :
    is_module_line (device_of data_mount) (codes "71-72 r-xp /system/ fd:0b 99")
    ≡ fails undefined_behaviour
unfolding is_module_line scan names_system digit_of strstr skip_spaces
a_line_without_path = refl

-- A property of 64 bytes, which are fewer than a property may have.
a_property_too_long :
    (get_build_info64 phone (codes "ro.product.name") ≡ fails undefined_behaviour)
    × (get_build_info256 phone (codes "ro.product.name") ≡ returns (phone.property []))
unfolding get_build_info64 get_build_info256 print_into until_nul
a_property_too_long = (refl, refl)
