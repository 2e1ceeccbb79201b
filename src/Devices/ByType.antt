-- ===== src/Devices/ByType.antt =====
-- `device_get_by_type` and `device_generate_path_of` of kernel/src/devices/manager.c.
pub mod Paths
use ga_os.Base.{
  ℕ, zero, suc, ◌+◌, ◌-◌, ◌%◌, ◌^◌, Bool, ◌&&◌, Option, none, some, List, [], ◌∷◌, ◌++◌, ◌==◌, leb,
  if◌then◌else◌, length, take,
}
use ga_os.Libc.Memory.{Memory, store}
use ga_os.Libc.Integers.{min}
use ga_os.Devices.{Device, Devices, end, device, DeviceType, type_value}

-- memcpy(path, name, size) for a name that stands elsewhere.
pub put_bytes : Memory → ℕ → List ℕ → Memory
put_bytes m path [] = m
put_bytes m path (c ∷ cs) = put_bytes (store m path c) (path + 1) cs

-- The loop over the hierarchy from the root: memory, and the offset at its end.
pub write_names : List (List ℕ) → Memory → (path path_len offset : ℕ) → Memory × ℕ
write_names [] m path path_len offset = (m, offset)
write_names (name ∷ names) m path path_len offset =
    let slash = store m (path + offset) b'/' in
    let size = min (length name) (path_len - (offset + 1)) in
    let copied = put_bytes slash (path + (offset + 1)) (take size name) in
    let rest = write_names names copied path path_len (offset + 1 + length name) in
    if leb path_len offset
    then (m, offset)
    else if leb path_len (offset + 1)
    then (slash, offset + 1)
    else rest

-- `device_generate_path_of`, for the names of the device and its parents from the root on.
pub device_generate_path_of : List (List ℕ) → Memory → (path path_len : ℕ) → Memory
device_generate_path_of names m path path_len =
    let r = write_names names m path ((path_len + 2 ^ 64 - 1) % 2 ^ 64) 0 in
    store r.0 (path + r.1) 0

-- if (ret) return ret;
abbrev pub first_found : {A : Type 0} → Option A × ℕ → Option A × ℕ → Option A × ℕ
first_found (some a, i) rest = (some a, i)
first_found (none, i) rest = rest

module _ {S : Type 0} where
  -- The loops of `device_get_by_type_recursive`: the names from the root to the device that is found, and
  -- the index that is left. `parents` are the names from the root to the list.
  pub find_by_type : DeviceType → ℕ → List (List ℕ) → Devices S → Option (List (List ℕ)) × ℕ
  find_by_type t index parents end = (none, index)
  find_by_type t index parents (device d linked child next) =
      let trail = parents ++ d.name ∷ [] in
      let under = if linked then trail else [] in
      let matches = type_value d.device_type == type_value t in
      let left = if matches then index - 1 else index in
      let inner = find_by_type t left under child in
      let rest = find_by_type t inner.1 parents next in
      if matches && (index == 0) then (some trail, 0) else first_found inner rest

  -- `device_get_by_type`, for a buffer that is not null: `none` is `nullptr`.
  pub device_get_by_type :
      DeviceType → Memory → (path path_len index : ℕ) → Devices S → Option Memory
  device_get_by_type t m path path_len index devices = elim ((find_by_type t index [] devices).0) [
    | none ↦ none
    | some names ↦ some (device_generate_path_of names m path path_len)
  ]
