-- ===== src/Devices/Ops.antt =====
-- `devfs_open`, `devfs_read`, `devfs_write` and `devfs_dup` of kernel/src/devices/manager.c, and the
-- callbacks of kernel/src/devices/console.c.
use ga_os.Base.{
  ℕ, Bool, true, false, not, [], ◌∷◌, ◌&&◌, Option, none, some, List, ◌++◌, ◌==◌, if◌then◌else◌,
  bit_and,
}
use ga_os.Base.Int.{ℤ, pos}
use ga_os.Libc.Memory.{Memory}
use ga_os.Libc.Format.{bytes_at}
use ga_os.Filesystem.Errors.{enoent, ebadf, eacces, o_rdonly, o_wronly}
use ga_os.Filesystem.Node.{Node, Opened, node, error}
use ga_os.Devices.{Device, Devices, reserved, skip_delimiter, open_from, device_create_at, Created}

-- `device_node_t`
pub record DeviceNode (S : Type 0) : Type 0 where
  pub vfs_header : Node
  pub dev : Device S

abbrev pub is_null : {A : Type 0} → Option A → Bool
is_null none = true
is_null (some a) = false

module _ {S : Type 0} where
  -- A new node for a device.
  pub make_node : List ℕ → ℕ → Device S → S → DeviceNode S × S
  make_node path mode d s =
      let header : Node = record {
        path = path;
        mode = mode;
        seek_position = 0;
        max_seek_position = 0;
        is_device = true;
      } in
      elim (d.initialise_node) [
        | none ↦ (record { vfs_header = header; dev = d }, s)
        | some initialise ↦
            (let r = initialise header s in (record { vfs_header = r.0; dev = d }, r.1))
      ]

  -- `devfs_open` of a device that was found.
  pub open_device : List ℕ → ℕ → Device S → S → Opened (DeviceNode S) × S
  open_device path mode d s =
      if not (bit_and mode o_rdonly == 0) && is_null d.on_read
      then (error eacces, s)
      else if not (bit_and mode o_wronly == 0) && is_null d.on_write
      then (error eacces, s)
      else (let r = make_node path mode d s in (node r.0, r.1))

  -- `devfs_open`: the result, the devices and the state of the callbacks.
  unfoldable pub devfs_open :
      ℕ → List ℕ → ℕ → Devices S → S → Option (Opened (DeviceNode S) × Devices S × S)
  devfs_open fuel path mode devices s = elim (open_from fuel (skip_delimiter path) devices) [
    | none ↦ none
    | some found ↦ elim (found.0) [
      | none ↦ some (error enoent, found.1, s)
      | some d ↦ (let r = open_device path mode d s in some (r.0, found.1, r.1))
    ]
  ]

  pub devfs_read : DeviceNode S → ℕ → ℕ → S → ℤ × DeviceNode S × S
  devfs_read n buffer size s = elim (n.dev.on_read) [
    | none ↦ (ebadf, n, s)
    | some read ↦
        (let r = read n.vfs_header buffer size s in (r.0, record n { vfs_header = r.1 }, r.2))
  ]

  pub devfs_write : DeviceNode S → ℕ → ℕ → S → ℤ × DeviceNode S × S
  devfs_write n buffer size s = elim (n.dev.on_write) [
    | none ↦ (ebadf, n, s)
    | some write ↦
        (let r = write n.vfs_header buffer size s in (r.0, record n { vfs_header = r.1 }, r.2))
  ]

  -- `devfs_dup`: the node is opened again and takes over the positions. Where the open fails the source
  -- writes through the error, which is `error` here.
  pub devfs_dup : ℕ → DeviceNode S → Devices S → S → Option (Opened (DeviceNode S) × Devices S × S)
  devfs_dup fuel n devices s =
      elim (devfs_open fuel n.vfs_header.path n.vfs_header.mode devices s) [
        | none ↦ none
        | some r ↦ elim (r.0) [
          | error e ↦ some r
          | node new ↦ some (
            node (record new {
              vfs_header = record new.vfs_header {
                seek_position = n.vfs_header.seek_position;
                max_seek_position = n.vfs_header.max_seek_position;
              };
            }),
            r.1,
            r.2,
          )
        ]
      ]

-- What the console is written to: memory, and the text printed so far.
pub record Terminal : Type 0 where
  pub memory : Memory
  pub printed : List ℕ

pub console_write : Node → ℕ → ℕ → Terminal → ℤ × Node × Terminal
console_write n buffer size t =
    (pos size, n, record t { printed = t.printed ++ bytes_at size t.memory buffer })

pub console_read : Node → ℕ → ℕ → Terminal → ℤ × Node × Terminal
console_read n buffer size t = (pos 0, n, t)

pub console_create_device : ℕ → Devices Terminal → Option (Created Terminal)
console_create_device fuel devices =
    device_create_at fuel (b'/' ∷ b'c' ∷ b'o' ∷ b'n' ∷ b's' ∷ b'o' ∷ b'l' ∷ b'e' ∷ [])
      (record {
        name = [];
        name_length = 0;
        device_type = reserved;
        on_read = some console_read;
        on_write = some console_write;
        initialise_node = none;
      })
      devices
