-- ===== src/Vfs/Tests.antt =====
-- A client waits for a root, a driver registers and mounts it, and the client reads its directory.
use akari.Prelude.{ℕ, ◌≡◌, refl, List, [], ◌∷◌, some, ok, panic, fault, replicate}
use akari.Vfs.{
  Request, readdir, register_driver, await_root, mount_root, Ask, Root, Message, Vfs, bytes,
  registered, mounted, start, root_pid, fs_sized, handle, serve,
}
use akari.Vfs.Await.{IsVfs, Has, tells, serve-tells}
use akari.Vfs.Drivers.{register_driver-root_pid}

-- A driver that answers with its process, as many bytes as a `VFSDirent` has.
abbrev ask : Ask
ask pid request = replicate 132 pid

abbrev fat_requests : List (ℕ × ℕ × Request)
fat_requests = (9, 11, await_root) ∷ (5, 12, mount_root 1 0) ∷ (9, 13, readdir 0 4) ∷ []

abbrev fat_root : Root
fat_root = record { driver = 1; inode = 0 }

abbrev at_end : Vfs
at_end = record { drivers = 2 ∷ 5 ∷ []; vfs_root = some fat_root; awaiting_root = [] }

abbrev sent : List Message
sent =
    record { to = 5; reply_to = 10; payload = registered 1 }
    ∷ record { to = 5; reply_to = 12; payload = mounted }
    ∷ tells (9, 11)
    ∷ record { to = 9; reply_to = 13; payload = bytes (replicate 132 5) }
    ∷ []

serves : serve ask (start 2) ((5, 10, register_driver) ∷ fat_requests) ≡ ok (sent, at_end)
unfolding serve handle root_pid fs_sized
serves = refl

start-IsVfs : IsVfs (start 2)
start-IsVfs r e = refl

serve-tells_example :
    ((v : ℕ × ℕ) → Has v [] → Has (tells v) sent)
    × ((from id : ℕ)
        → Has (from, id, await_root) ((5, 10, register_driver) ∷ fat_requests)
        → Has (tells (from, id)) sent)
serve-tells_example =
    serve-tells ask (start 2) at_end ((5, 10, register_driver) ∷ fat_requests) sent fat_root
      start-IsVfs serves refl

register_driver-root_pid_example :
    (root_pid at_end ≡ ok 5)
    × ((rest : List Message) × (sent
          ≡ record { to = 5; reply_to = 10; payload = registered 1 } ∷ rest))
register_driver-root_pid_example =
    register_driver-root_pid ask (start 2) at_end 5 10 0 fat_requests sent serves refl

-- A file request before there is a root follows a null pointer, and a second root is refused.
no_root : handle ask (start 2) 9 3 (readdir 0 0) ≡ fault
unfolding handle root_pid
no_root = refl

second_root : handle ask at_end 5 3 (mount_root 1 0) ≡ panic
unfolding handle
second_root = refl
