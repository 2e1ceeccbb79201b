-- ===== src/Devices.antt =====
-- kernel/src/devices/manager.c: the tree of devices, its registration and the file system `devfs` on it.
-- `S` is the state that the callbacks of the devices act on. A name or a path is the list of its bytes
-- before the terminator: behind it stands 0, as in a cleared block. The `parent` pointers follow from the
-- place in the tree, but for the head of the list under a fresh directory, whose pointer is set when a walk
-- first goes through the directory.
pub mod Ops
pub mod ByType
mod Segments
mod Lists
mod Registry
mod Ends
mod Tests
use ga_os.Base.{
  ℕ, zero, suc, ◌+◌, ◌-◌, Bool, true, false, not, ◌&&◌, ◌||◌, Option, none, some, List, [], ◌∷◌,
  ◌==◌, if◌then◌else◌, get_or, length, take, drop, bit_and,
}
use ga_os.Base.Int.{ℤ}
use ga_os.Libc.Strings.{CString, strncmp, is_zero}
use ga_os.Filesystem.Errors.{enoent, ebadf, eacces, o_rdonly, o_wronly}
use ga_os.Filesystem.Node.{Node, Opened, node, error}
use ga_os.Filesystem.Paths.{vfs_sanatise_path}

-- `device_type_t`, by the values of its enumerators.
pub data DeviceType : Type 0 where
  other : DeviceType
  reserved : DeviceType
  serial : DeviceType
  framebuffer : DeviceType
  timer : DeviceType
  hmi : DeviceType
  boot_module : DeviceType
  acpi_table : DeviceType

abbrev pub type_value : DeviceType → ℕ
type_value other = 0
type_value reserved = 1
type_value serial = 2
type_value framebuffer = 3
type_value timer = 4
type_value hmi = 5
type_value boot_module = 6
type_value acpi_table = 7

-- `struct device` without its links. A callback gets the node, the buffer and the size.
pub record Device (S : Type 0) : Type 0 where
  pub name : List ℕ
  pub name_length : ℕ
  pub device_type : DeviceType
  pub on_read : Option (Node → ℕ → ℕ → S → ℤ × Node × S)
  pub on_write : Option (Node → ℕ → ℕ → S → ℤ × Node × S)
  pub initialise_node : Option (Node → S → Node × S)

-- A list of devices by its `child` and `next` pointers; `linked` says that the `parent` pointer of the
-- head of the child list is set.
pub data Devices (S : Type 0) : Type 0 where
  end : Devices S
  device : Device S → (linked : Bool) → (child next : Devices S) → Devices S

-- What `device_create_at` did: a new device, `nullptr`, or a null pointer that it went through.
pub data Created (S : Type 0) : Type 0 where
  created : Devices S → Created S
  refused : Devices S → Created S
  fault : Created S

abbrev pub text : List ℕ → CString
text bytes i = get_or bytes i 0

-- The length of the first directory or file name of the path.
pub dir_len : List ℕ → ℕ
dir_len [] = 0
dir_len (c ∷ cs) = let rest = dir_len cs in if (c == b'/') || (c == 0) then 0 else suc rest

-- There is another layer behind a first name of `n` bytes.
abbrev pub goes_deeper : List ℕ → ℕ → Bool
goes_deeper path n = (get_or path n 0 == b'/') && not (get_or path (n + 1) 0 == 0)

abbrev pub skip_delimiter : List ℕ → List ℕ
skip_delimiter path = if get_or path 0 0 == b'/' then drop 1 path else path

-- path[strlen(path) - 1] == '/'
abbrev pub create_as_dir : List ℕ → Bool
create_as_dir path = get_or path (length path - 1) 0 == b'/'

module _ {S : Type 0} where
  -- dir_len == dev->name_length && strncmp(path, dev->name, dir_len) == 0
  pub is_named : List ℕ → ℕ → Device S → Bool
  is_named path n d = (n == d.name_length) && is_zero (strncmp (text path) (text d.name) n)

  -- `allocate_device`, for the callbacks of `spec`.
  abbrev pub allocate_device : List ℕ → Device S → Device S
  allocate_device path spec = record spec { name = path; name_length = length path }

  -- A reserved device without callbacks.
  abbrev pub plain_device : List ℕ → Device S
  plain_device path = record {
    name = path;
    name_length = length path;
    device_type = reserved;
    on_read = none;
    on_write = none;
    initialise_node = none;
  }

  -- A list of only the device of `allocate_dummy`.
  abbrev pub allocate_dummy : Devices S
  allocate_dummy = device (plain_device (b'.' ∷ [])) false end end

  abbrev pub or_dummy : Devices S → Devices S
  or_dummy end = allocate_dummy
  or_dummy (device d l c next) = device d l c next

  -- The child list of the first device that has the name, initialised if needed.
  pub child_of : List ℕ → ℕ → Devices S → Option (Devices S)
  child_of path n end = none
  child_of path n (device d l c next) =
      let rest = child_of path n next in if is_named path n d then some (or_dummy c) else rest

  -- The list when the walk through that device has left `child` as its child list.
  pub put_child : List ℕ → ℕ → Devices S → Devices S → Devices S
  put_child path n child end = end
  put_child path n child (device d l c next) =
      let rest = put_child path n child next in
      if is_named path n d then device d true child next else device d l c rest

  -- last->next = ...
  pub append_device : Devices S → Device S → Bool → Devices S → Devices S
  append_device end new l child = device new l child end
  append_device (device d l' c next) new l child = device d l' c (append_device next new l child)

  -- strncmp(current->name, path, strlen(path)) == 0 for some device of the list.
  pub is_duplicate : List ℕ → Devices S → Bool
  is_duplicate path end = false
  is_duplicate path (device d l c next) =
      is_zero (strncmp (text d.name) (text path) (length path)) || is_duplicate path next

  abbrev pub is_end : Devices S → Bool
  is_end end = true
  is_end (device d l c next) = false

  -- The device that is made at the end of a path; the last delimiter of a directory is removed.
  pub append_last : List ℕ → Device S → Devices S → Devices S
  append_last path spec list =
      let new = allocate_device path spec in
      if create_as_dir path
      then append_device list
          (record new { name = take (length path - 1) path; name_length = length path - 1 }) false
          allocate_dummy
      else append_device list new false end

  -- The end of `device_create_at`, in the list of the last directory.
  pub create_last : List ℕ → Device S → Devices S → Created S
  create_last path spec list =
      if is_duplicate path list
      then refused list
      else if is_end list
      then fault
      else created (append_last path spec list)

  -- What happened in a list, as seen from the list around it.
  pub within : (Devices S → Devices S) → Option (Created S) → Option (Created S)
  within f none = none
  within f (some (created list)) = some (created (f list))
  within f (some (refused list)) = some (refused (f list))
  within f (some fault) = some fault

  -- The loop of `device_create_at` in a list. Where a directory is missing, the source calls itself for the
  -- part of the path up to it: that walk goes through the same directories and adds it to this list.
  pub create_from : ℕ → List ℕ → Device S → Devices S → Option (Created S)
  create_from zero path spec list = none
  create_from (suc fuel) [] spec list = some (refused list)
  create_from (suc fuel) (c ∷ cs) spec list =
      let path = c ∷ cs in
      let n = dir_len path in
      let parent = take n path in
      let behind = drop (n + 1) path in
      if n == 0
      then create_from fuel cs spec list
      else if goes_deeper path n
      then elim (child_of path n list) [
        | some child ↦ within (λ c'. put_child path n c' list) (create_from fuel behind spec child)
        | none ↦
            if is_duplicate parent list || is_end list
            then some fault
            else within (λ c'. append_device list (plain_device parent) true c')
                (create_from fuel behind spec allocate_dummy)
      ]
      else some (create_last path spec list)

  -- `device_create_at`; `spec` has the type and the callbacks.
  pub device_create_at : ℕ → List ℕ → Device S → Devices S → Option (Created S)
  device_create_at fuel path spec devices = elim (vfs_sanatise_path fuel path) [
    | none ↦ none
    | some r ↦ create_from fuel (skip_delimiter r.1) spec devices
  ]

  pub find_named : List ℕ → ℕ → Devices S → Option (Device S)
  find_named path n end = none
  find_named path n (device d l c next) =
      let rest = find_named path n next in if is_named path n d then some d else rest

  -- The loop of `devfs_open` in a list: the device that it finds, and the list it leaves.
  pub open_from : ℕ → List ℕ → Devices S → Option (Option (Device S) × Devices S)
  open_from zero path list = none
  open_from (suc fuel) [] list = some (none, list)
  open_from (suc fuel) (c ∷ cs) list =
      let path = c ∷ cs in
      let n = dir_len path in
      if n == 0
      then open_from fuel cs list
      else if goes_deeper path n
      then elim (child_of path n list) [
        | none ↦ some (none, list)
        | some child ↦ elim (open_from fuel (drop (n + 1) path) child) [
          | none ↦ none
          | some r ↦ some (r.0, put_child path n r.1 list)
        ]
      ]
      else some (find_named path n list, list)
