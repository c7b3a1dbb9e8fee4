-- ===== src/Vfs/Drivers.antt =====
-- The numbers of the drivers of packages/vfs/main.cpp.
use akari.Prelude.{
  ℕ, ◌≡◌, refl, ap, sym, ◌∙◌, List, [], ◌∷◌, ◌++◌, some, arith, Result, ok, ◌>>=◌, bind_ok, length,
  get_elem?, append-nil, append_assoc, get_elem?-append,
}
use akari.Vfs.{
  Request, read, readdir, finddir, root, register_driver, await_root, confused, mount_root, Ask,
  Message, Vfs, registered, root_pid, fs_read, fs_readdir, fs_finddir, handle, serve,
}
use akari.Vfs.Await.{passes}

-- Drivers are added at the end.
abbrev Grows : Vfs → Vfs → Type 0
Grows s s' = (more : List ℕ) × (s'.drivers ≡ s.drivers ++ more)

Grows-same : (s s' : Vfs) → s'.drivers ≡ s.drivers → Grows s s'
Grows-same s s' e = ([], e ∙ sym (append-nil s.drivers))

module _ (ask : Ask) where
  handle-Grows :
      (s s' : Vfs) (from id : ℕ) (request : Request) (sent : List Message)
      → handle ask s from id request ≡ ok (sent, s')
      → Grows s s'
  unfolding handle
  handle-Grows s s' from id (read inode offset len) sent e = Grows-same s s' (
      ap Vfs.drivers (
        passes s s' (λ pid. fs_read ask pid inode offset len)
          (λ p. record { to = from; reply_to = id; payload = p } ∷ []) sent e))
  handle-Grows s s' from id (readdir inode index) sent e = Grows-same s s' (
      ap Vfs.drivers (
        passes s s' (λ pid. fs_readdir ask pid inode index)
          (λ p. record { to = from; reply_to = id; payload = p } ∷ []) sent e))
  handle-Grows s s' from id (finddir inode name) sent e = Grows-same s s' (
      ap Vfs.drivers (
        passes s s' (λ pid. fs_finddir ask pid inode name)
          (λ p. record { to = from; reply_to = id; payload = p } ∷ []) sent e))
  handle-Grows s s' from id root sent e = Grows-same s s' (ground (arith, e))
  handle-Grows s s' from id register_driver sent e = (from ∷ [], ground (arith, e))
  handle-Grows s s' from id await_root sent e = Grows-same s s' (ground (arith, e))
  handle-Grows s s' from id (mount_root driver inode) sent e = Grows-same s s' (ground (arith, e))
  handle-Grows s s' from id confused sent e = absurd (ground (arith, e))

  serve-Grows :
      (s s' : Vfs) (requests : List (ℕ × ℕ × Request)) (sent : List Message)
      → serve ask s requests ≡ ok (sent, s')
      → Grows s s'
  unfolding serve
  serve-Grows s s' [] sent e = Grows-same s s' (ground (arith, e))
  serve-Grows s s' ((from, id, request) ∷ rest) sent e =
      let after : List Message × Vfs → Result (List Message × Vfs) =
        λ p. serve ask p.1 rest >>= (λ q. ok (p.0 ++ q.0, q.1)) in
      let ((first_sent, s1), e0, e1) = bind_ok (handle ask s from id request) after e in
      let joined : List Message × Vfs → Result (List Message × Vfs) =
        λ q. ok (first_sent ++ q.0, q.1) in
      let ((rest_sent, s2), e2, e3) = bind_ok (serve ask s1 rest) joined e1 in
      let last : s'.drivers ≡ s2.drivers = ground (arith, e3) in
      let (some_more, f) = handle-Grows s s1 from id request first_sent e0 in
      let (more, g) = serve-Grows s1 s2 rest rest_sent e2 in
      (
        some_more ++ more,
        last ∙ g ∙ ap (λ ds. ds ++ more) f ∙ append_assoc s.drivers some_more more,
      )

  -- A process that registers as a driver is told the number of the drivers before it, and when the service has
  -- gone on and the root is then of that number, requests for files go to that process.
  pub register_driver-root_pid :
      (s s' : Vfs) (from id inode : ℕ) (requests : List (ℕ × ℕ × Request)) (sent : List Message)
      → serve ask s ((from, id, register_driver) ∷ requests) ≡ ok (sent, s')
      → s'.vfs_root ≡ some (record { driver = length s.drivers; inode = inode })
      → (root_pid s' ≡ ok from)
        × ((rest : List Message) × (sent
              ≡ record { to = from; reply_to = id; payload = registered (length s.drivers) }
                ∷ rest))
  unfolding serve handle root_pid
  register_driver-root_pid s s' from id inode requests sent e there =
      let s1 : Vfs = record s { drivers = s.drivers ++ from ∷ [] } in
      let told_number : Message = record {
        to = from;
        reply_to = id;
        payload = registered (length s.drivers);
      } in
      let joined : List Message × Vfs → Result (List Message × Vfs) =
        λ q. ok (told_number ∷ q.0, q.1) in
      let ((rest, s2), e2, e3) = bind_ok (serve ask s1 requests) joined e in
      let last : s'.drivers ≡ s2.drivers = ground (arith, e3) in
      let out : sent ≡ told_number ∷ rest = ground (arith, e3) in
      let (more, g) = serve-Grows s1 s2 requests rest e2 in
      let all : s'.drivers ≡ s.drivers ++ from ∷ more =
        last ∙ g ∙ append_assoc s.drivers (from ∷ []) more in
      let found : get_elem? s'.drivers (length s.drivers) ≡ some from =
        ap (λ ds. get_elem? ds (length s.drivers)) all
        ∙ get_elem?-append (length s.drivers) s.drivers more from refl in
      (ground (arith, there, found), (rest, out))
