-- ===== src/Devices/Tests.antt =====
-- A tree with one device, "/a/b", made in an empty one.
use ga_os.Base.{
  ℕ, zero, suc, ◌≤◌, ◌<◌, ◌≡◌, ◌≢◌, refl, arith, true, false, none, some, List, [], ◌∷◌, ◌++◌,
  get_or, length,
}
use ga_os.Libc.Memory.{Memory}
use ga_os.Libc.Strings.{strncmp}
use ga_os.Filesystem.Paths.{vfs_sanatise_path, sanatise_from, shift_left}
use ga_os.Devices.{
  Device, Devices, end, device, created, serial, dir_len, is_named, plain_device, allocate_device,
  allocate_dummy, child_of, append_device, is_duplicate, append_last, create_last, within,
  create_from, device_create_at,
}
use ga_os.Devices.Segments.{IsFilePath}
use ga_os.Devices.Ops.{devfs_open, open_device}
use ga_os.Devices.Registry.{devfs_open-device_create_at}
use ga_os.Devices.ByType.{put_bytes, device_get_by_type}
use ga_os.Devices.ByType.Paths.{slashed, device_get_by_type-slashed}

abbrev path : List ℕ
path = b'/' ∷ b'a' ∷ b'/' ∷ b'b' ∷ []

abbrev port : Device ℕ
port = record {
  name = [];
  name_length = 0;
  device_type = serial;
  on_read = none;
  on_write = none;
  initialise_node = none;
}

abbrev named_port : Device ℕ
named_port = record port { name = b'b' ∷ []; name_length = 1 }

-- The devices after the call.
abbrev tree : Devices ℕ
tree = device (plain_device (b'.' ∷ [])) false end (
    device (plain_device (b'a' ∷ [])) true
      (device (plain_device (b'.' ∷ [])) false end (device named_port false end end)) end)

sane : vfs_sanatise_path 6 path ≡ some (4, path)
unfolding vfs_sanatise_path sanatise_from shift_left
sane = refl

nonzero : (i : ℕ) → i < 3 → ◌≢◌ {A = ℕ} (get_or (b'a' ∷ b'/' ∷ b'b' ∷ []) i 0) 0
nonzero zero h e = absurd (cc)
nonzero (suc zero) h e = absurd (cc)
nonzero (suc (suc zero)) h e = absurd (cc)
nonzero (suc (suc (suc i))) h e = absurd (omega arith)

file : IsFilePath (b'a' ∷ b'/' ∷ b'b' ∷ [])
file = record { nonzero = nonzero; no_dir = refl }

made : device_create_at 6 path port allocate_dummy ≡ some (created tree)
unfolding device_create_at vfs_sanatise_path sanatise_from shift_left create_from dir_len child_of
    is_named strncmp is_duplicate within append_device create_last append_last
made = refl

devfs_open-device_create_at_example :
    (name : List ℕ) × (after : Devices ℕ) × (devfs_open 6 path 0 tree 5
      ≡ some (
        (open_device path 0 (allocate_device name port) 5).0,
        after,
        (open_device path 0 (allocate_device name port) 5).1,
      ))
devfs_open-device_create_at_example =
    devfs_open-device_create_at 6 4 0 path path port allocate_dummy 5 sane file made

abbrev blank : Memory
blank a = 0

device_get_by_type-slashed_example :
    ((names : List (List ℕ))
      → some ((b'a' ∷ []) ∷ (b'b' ∷ []) ∷ []) ≡ some names
      → length (slashed names) < 10
      → device_get_by_type serial blank 100 10 0 tree
        ≡ some (put_bytes blank 100 (slashed names ++ 0 ∷ [])))
    × (1 ≤ 0 → device_get_by_type serial blank 100 10 0 tree ≡ none)
device_get_by_type-slashed_example =
    device_get_by_type-slashed serial blank 100 10 0 tree (omega arith)
