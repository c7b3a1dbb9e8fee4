-- ===== src/Vfs/Await.antt =====
-- The processes that wait for a root of packages/vfs/main.cpp.
use akari.Prelude.{
  ℕ, ◌≡◌, refl, ap, sym, subst, ◌∙◌, ◌⊎◌, inl, inr, List, [], ◌∷◌, ◌++◌, none, some, arith, Result,
  ok, ◌>>=◌, bind_ok, Option-cases,
}
use akari.Vfs.{
  Request, read, readdir, finddir, root, register_driver, await_root, confused, mount_root, Ask,
  Root, Message, Vfs, Payload, nothing, mounted, root_pid, fs_read, fs_readdir, fs_finddir, bytes,
  told, handle, serve,
}

-- Nobody waits once there is a root.
abbrev pub IsVfs : Vfs → Type 0
IsVfs s = (r : Root) → s.vfs_root ≡ some r → s.awaiting_root ≡ []

pub data Has {ℓ} {A : Type ℓ} (x : A) : List A → Type ℓ where
  first : {xs : List A} → Has x (x ∷ xs)
  later : {y : A} {xs : List A} → Has x xs → Has x (y ∷ xs)

module _ {ℓ} {A : Type ℓ} {x : A} where
  Has-left : {xs : List A} (ys : List A) → Has x xs → Has x (xs ++ ys)
  Has-left ys first = first
  Has-left ys (later h) = later (Has-left ys h)

  Has-right : (xs : List A) {ys : List A} → Has x ys → Has x (xs ++ ys)
  Has-right [] h = h
  Has-right (z ∷ xs) h = later (Has-right xs h)

  Has-cons : {xs : List A} → Has x xs → (y : A) × (ys : List A) × (xs ≡ y ∷ ys)
  Has-cons (first {xs = xs}) = (x, xs, refl)
  Has-cons (later {y = y} {xs = xs} h) = (y, xs, refl)

  not-Has-nil : Has x [] → ⊥
  not-Has-nil h = let (y, ys, e) = Has-cons h in ground (arith, e)

  Has-cases : {y : A} {xs : List A} → Has x (y ∷ xs) → (y ≡ x) ⊎ Has x xs
  Has-cases first = inl refl
  Has-cases (later h) = inr h

-- The empty message that tells a process of the root.
abbrev pub tells : ℕ × ℕ → Message
tells w = record { to = w.0; reply_to = w.1; payload = nothing }

Has-told : {w : ℕ × ℕ} {ws : List (ℕ × ℕ)} → Has w ws → Has (tells w) (told ws)
Has-told first = first
Has-told (later h) = later (Has-told h)

-- What becomes of a process that waits: it is told, or waits on.
abbrev Kept : ℕ × ℕ → List Message → Vfs → Type 0
Kept w sent s = Has (tells w) sent ⊎ Has w s.awaiting_root

abbrev Handled : Vfs → ℕ × ℕ → Request → List Message → Vfs → Type 0
Handled s w request sent s' =
    IsVfs s'
    × ((v : ℕ × ℕ) → Has v s.awaiting_root → Kept v sent s')
    × (request ≡ await_root → Kept w sent s')

Handled-same :
    (s s' : Vfs) (w : ℕ × ℕ) (request : Request) (sent : List Message)
    → IsVfs s
    → s' ≡ s
    → (request ≡ await_root → Kept w sent s')
    → Handled s w request sent s'
Handled-same s s' w request sent h e a =
    (subst IsVfs (sym e) h, λ v k. inr (subst (λ s. Has v s.awaiting_root) (sym e) k), a)

-- A request that is passed on changes nothing.
abbrev pub passed : Vfs → (Payload → List Message) → List ℕ → Result (List Message × Vfs)
passed s answer b = ok (answer (bytes b), s)

pub passes :
    (s s' : Vfs) (out : ℕ → Result (List ℕ)) (answer : Payload → List Message) (sent : List Message)
    → (root_pid s >>= (λ pid. out pid >>= passed s answer)) ≡ ok (sent, s')
    → s' ≡ s
passes s s' out answer sent e =
    let (pid, _, e1) = bind_ok (root_pid s) (λ pid. out pid >>= passed s answer) e in
    let (b, _, e2) = bind_ok (out pid) (passed s answer) e1 in ground (arith, e2)

module _ (ask : Ask) where
  handle-Handled :
      (s s' : Vfs) (from id : ℕ) (request : Request) (sent : List Message)
      → IsVfs s
      → handle ask s from id request ≡ ok (sent, s')
      → Handled s (from, id) request sent s'
  unfolding handle
  handle-Handled s s' from id (read inode offset len) sent h e =
      Handled-same s s' (from, id) (read inode offset len) sent h
        (passes s s' (λ pid. fs_read ask pid inode offset len)
          (λ p. record { to = from; reply_to = id; payload = p } ∷ []) sent e)
        (λ q. absurd (ground (arith, q)))
  handle-Handled s s' from id (readdir inode index) sent h e =
      Handled-same s s' (from, id) (readdir inode index) sent h
        (passes s s' (λ pid. fs_readdir ask pid inode index)
          (λ p. record { to = from; reply_to = id; payload = p } ∷ []) sent e)
        (λ q. absurd (ground (arith, q)))
  handle-Handled s s' from id (finddir inode name) sent h e =
      Handled-same s s' (from, id) (finddir inode name) sent h
        (passes s s' (λ pid. fs_finddir ask pid inode name)
          (λ p. record { to = from; reply_to = id; payload = p } ∷ []) sent e)
        (λ q. absurd (ground (arith, q)))
  handle-Handled s s' from id root sent h e = elim (Option-cases s.vfs_root) [
    | inl none_yet ↦
        Handled-same s s' (from, id) root sent h (ground (arith, e, none_yet))
          (λ q. absurd (ground (arith, q)))
    | inr r ↦
        let (r, there) = r in
        Handled-same s s' (from, id) root sent h (ground (arith, e, there))
          (λ q. absurd (ground (arith, q)))
  ]
  handle-Handled s s' from id register_driver sent h e =
      let kept : s'.awaiting_root ≡ s.awaiting_root = ground (arith, e) in
      let same : s'.vfs_root ≡ s.vfs_root = ground (arith, e) in
      (
        λ r q. kept ∙ h r (sym same ∙ q),
        λ v k. inr (subst (Has v) (sym kept) k),
        λ q. absurd (ground (arith, q)),
      )
  handle-Handled s s' from id await_root sent h e = elim (Option-cases s.vfs_root) [
    | inl none_yet ↦
        let wait : s'.awaiting_root ≡ s.awaiting_root ++ (from, id) ∷ [] =
          ground (arith, e, none_yet) in
        let still : s'.vfs_root ≡ none = ground (arith, e, none_yet) in
        (
          λ r q. absurd (ground (arith, q, still)),
          λ v k. inr (subst (Has v) (sym wait) (Has-left ((from, id) ∷ []) k)),
          λ q. inr (subst (Has (from, id)) (sym wait) (Has-right s.awaiting_root first)),
        )
    | inr r ↦
        let (r, there) = r in
        let sent_now : sent ≡ tells (from, id) ∷ [] = ground (arith, e, there) in
        Handled-same s s' (from, id) await_root sent h (ground (arith, e, there))
          (λ q. inl (subst (Has (tells (from, id))) (sym sent_now) first))
  ]
  handle-Handled s s' from id (mount_root driver inode) sent h e = elim (Option-cases s.vfs_root) [
    | inl none_yet ↦
        let cleared : s'.awaiting_root ≡ [] = ground (arith, e, none_yet) in
        let out : sent
            ≡ record { to = from; reply_to = id; payload = mounted } ∷ told s.awaiting_root =
          ground (arith, e, none_yet) in
        (
          λ r q. cleared,
          λ v k. inl (subst (Has (tells v)) (sym out) (later (Has-told k))),
          λ q. absurd (ground (arith, q)),
        )
    | inr r ↦ let (r, there) = r in absurd (ground (arith, e, there))
  ]
  handle-Handled s s' from id confused sent h e = absurd (ground (arith, e))

  -- When the service has run on some requests from a state where nobody waits unless there is no root yet, and
  -- there is a root at the end, every process that waited or that sent a request to wait for the root has
  -- been told, in reply to its message.
  pub serve-tells :
      (s s' : Vfs) (requests : List (ℕ × ℕ × Request)) (sent : List Message) (r : Root)
      → IsVfs s
      → serve ask s requests ≡ ok (sent, s')
      → s'.vfs_root ≡ some r
      → ((v : ℕ × ℕ) → Has v s.awaiting_root → Has (tells v) sent)
        × ((from id : ℕ) → Has (from, id, await_root) requests → Has (tells (from, id)) sent)
  unfolding serve
  serve-tells s s' [] sent r h e there =
      let same : s ≡ s' = ground (arith, e) in
      let nobody : s.awaiting_root ≡ [] = h r (ap Vfs.vfs_root same ∙ there) in
      (λ v k. absurd (not-Has-nil (subst (Has v) nobody k)), λ from id k. absurd (not-Has-nil k))
  serve-tells s s' ((from, id, request) ∷ rest) sent r h e there =
      let after : List Message × Vfs → Result (List Message × Vfs) =
        λ p. serve ask p.1 rest >>= (λ q. ok (p.0 ++ q.0, q.1)) in
      let ((first_sent, s1), e0, e1) = bind_ok (handle ask s from id request) after e in
      let joined : List Message × Vfs → Result (List Message × Vfs) =
        λ q. ok (first_sent ++ q.0, q.1) in
      let ((rest_sent, s2), e2, e3) = bind_ok (serve ask s1 rest) joined e1 in
      let last : s2 ≡ s' = ground (arith, e3) in
      let out : first_sent ++ rest_sent ≡ sent = ground (arith, e3) in
      let (h1, kept, asked) = handle-Handled s s1 from id request first_sent h e0 in
      let (waiting, asking) =
        serve-tells s1 s2 rest rest_sent r h1 e2 (ap Vfs.vfs_root last ∙ there) in
      let told_in : (v : ℕ × ℕ) → Kept v first_sent s1 → Has (tells v) sent = λ v k.
        subst (Has (tells v)) out (elim k [
          | inl now ↦ Has-left rest_sent now
          | inr wait ↦ Has-right first_sent (waiting v wait)
        ]) in
      (
        λ v k. told_in v (kept v k),
        λ f i k. elim (Has-cases k) [
          | inl same ↦
              let w : (from, id) ≡ (f, i) = ap (λ q. (q.0, q.1)) same in
              let is_await : request ≡ await_root = ap (λ q. q.2) same in
              subst (λ v. Has (tells v) sent) w (told_in (from, id) (asked is_await))
          | inr in_rest ↦ subst (Has (tells (f, i))) out (Has-right first_sent (asking f i in_rest))
        ],
      )
