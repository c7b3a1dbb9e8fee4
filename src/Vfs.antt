-- ===== src/Vfs.antt =====
-- packages/vfs/main.cpp: the VFS service. It keeps the drivers and the root, passes requests for files on
-- to the root's driver, and tells who waits for a root when there is one. What a driver answers to a
-- message is the parameter `ask`: from its process and the request to the bytes of its answer.
pub mod Await
pub mod Drivers
mod Tests
use akari.Prelude.{
  ℕ, zero, suc, ◌+◌, ◌-◌, List, [], ◌∷◌, ◌++◌, map, Option, none, some, get_elem?, length, ltb,
  ◌==◌, if◌then◌else◌, Result, ok, panic, fault, ◌>>=◌, or_fault,
}
use akari.Tasks.{Name}

-- The requests, with the fields that are read: `VFSOpRead` to `VFSOpAwaitRoot`, and any other.
pub data Request : Type 0 where
  read : (inode offset len : ℕ) → Request
  readdir : (inode index : ℕ) → Request
  finddir : (inode : ℕ) (name : Name) → Request
  root register_driver await_root confused : Request
  mount_root : (driver inode : ℕ) → Request

abbrev pub Ask : Type 0
Ask = ℕ → Request → List ℕ

-- The driver and the inode of `vfs_root`; its flags, length and impl are never set.
pub record Root : Type 0 where
  pub driver : ℕ
  pub inode : ℕ

-- What a message to a client holds.
pub data Payload : Type 0 where
  bytes : List ℕ → Payload
  root_node : Root → Payload
  registered : (driver : ℕ) → Payload
  mounted : Payload

abbrev pub nothing : Payload
nothing = bytes []

-- A message of `sendQueue`: to a process, in reply to a message of it.
pub record Message : Type 0 where
  pub to : ℕ
  pub reply_to : ℕ
  pub payload : Payload

-- The statics: the processes of the drivers, the root, and who waits for it, as process and message.
pub record Vfs : Type 0 where
  pub drivers : List ℕ
  pub vfs_root : Option Root
  pub awaiting_root : List (ℕ × ℕ)

-- The null driver is the service's own process.
abbrev pub start : ℕ → Vfs
start pid = record { drivers = pid ∷ []; vfs_root = none; awaiting_root = [] }

abbrev pub sizeof_dirent : ℕ
sizeof_dirent = 132

abbrev pub sizeof_node : ℕ
sizeof_node = 148

-- `pidForDriver(vfs_root->driver)`
unfoldable pub root_pid : Vfs → Result ℕ
root_pid s = do r ← or_fault s.vfs_root; or_fault (get_elem? s.drivers r.driver)

-- The tests of `fs_read`, `fs_readdir` and `fs_finddir` on an answer: the bytes to pass on.
unfoldable pub fs_answer : List ℕ → ℕ → Result (List ℕ)
fs_answer answer len = if ltb len (length answer) then panic else ok answer

unfoldable pub fs_sized : List ℕ → ℕ → Result (List ℕ)
fs_sized answer size =
    if length answer == 0 then ok [] else (if length answer == size then ok answer else panic)

-- The messages to those that wait.
abbrev pub told : List (ℕ × ℕ) → List Message
told = map (λ w. record { to = w.0; reply_to = w.1; payload = nothing })

module _ (ask : Ask) where
  abbrev pub fs_read : ℕ → ℕ → ℕ → ℕ → Result (List ℕ)
  fs_read pid inode offset len = fs_answer (ask pid (read inode offset len)) len

  abbrev pub fs_readdir : ℕ → ℕ → ℕ → Result (List ℕ)
  fs_readdir pid inode index = fs_sized (ask pid (readdir inode index)) sizeof_dirent

  abbrev pub fs_finddir : ℕ → ℕ → Name → Result (List ℕ)
  fs_finddir pid inode name = fs_sized (ask pid (finddir inode name)) sizeof_node

  -- A round of `main`, for a request with its sender and the id of its message.
  unfoldable pub handle : Vfs → ℕ → ℕ → Request → Result (List Message × Vfs)
  handle s from id request =
      let answer : Payload → List Message =
        λ p. record { to = from; reply_to = id; payload = p } ∷ [] in
      elim request [
        | read inode offset len ↦ do
          pid ← root_pid s
          out ← fs_read pid inode offset len
          ok (answer (bytes out), s)
        | readdir inode index ↦ do
          pid ← root_pid s
          out ← fs_readdir pid inode index
          ok (answer (bytes out), s)
        | finddir inode name ↦ do
          pid ← root_pid s
          out ← fs_finddir pid inode name
          ok (answer (bytes out), s)
        | root ↦ elim s.vfs_root [
          | none ↦ ok (answer nothing, s)
          | some r ↦ ok (answer (root_node r), s)
        ]
        | register_driver ↦
            ok (
              answer (registered (length s.drivers)),
              record s { drivers = s.drivers ++ from ∷ [] },
            )
        | mount_root driver inode ↦ elim s.vfs_root [
          | some r ↦ panic
          | none ↦ ok (
            answer mounted ++ told s.awaiting_root,
            record s {
              vfs_root = some (record { driver = driver; inode = inode });
              awaiting_root = [];
            },
          )
        ]
        | await_root ↦ elim s.vfs_root [
          | some r ↦ ok (answer nothing, s)
          | none ↦ ok ([], record s { awaiting_root = s.awaiting_root ++ (from, id) ∷ [] })
        ]
        | confused ↦ panic
      ]

  -- The rounds for the requests that come in.
  unfoldable pub serve : Vfs → List (ℕ × ℕ × Request) → Result (List Message × Vfs)
  serve s [] = ok ([], s)
  serve s ((from, id, request) ∷ rest) = do
    (sent, s') ← handle s from id request
    (after, s'') ← serve s' rest
    ok (sent ++ after, s'')
