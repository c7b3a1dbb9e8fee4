-- ===== src/Tasks/Access.antt =====
-- The maps of ports and privileges: what a write to one bit changes, and the privileges of a new task.
use native.Mathlib.Decide.{ℕ_discrete}
use akari.Prelude.{
  ℕ, zero, suc, ◌*◌, ◌/◌, ◌%◌, ◌<◌, ◌≡◌, refl, ap, Bool, true, false, ◌||◌, List, Option, none,
  some, arith, get_elem?, set, length, get_elem?-lt, get_elem?-bound, get_elem?-set_self,
  get_elem?-set_ne, length-set, ◌==◌, if◌then◌else◌, test_bit, set_bit, clear_bit, test_bit-set_bit,
  full_bit, replicate, get_elem?-replicate, [], ◌∷◌, test_bit-clear_bit, ok,
}
use akari.Tasks.{Task, get_io_map, set_io_map, grant_privilege, has_privilege, new_task, priv_count}

-- A bit of a map of bytes.
unfoldable read_bit : List ℕ → ℕ → Option Bool
read_bit l q = elim (get_elem? l (q / 8)) [ some byte ↦ some (test_bit byte (q % 8)) | none ↦ none ]

-- A write to the byte that holds bit `p`.
read_bit-set :
    (l : List ℕ) (p byte byte' : ℕ) (b : Bool)
    → get_elem? l (p / 8) ≡ some byte
    → ((k : ℕ) → test_bit byte' k ≡ (if p % 8 == k then b else test_bit byte k))
    → (q : ℕ) → read_bit (set l (p / 8) byte') q ≡ (if p == q then some b else read_bit l q)
unfolding read_bit
read_bit-set l p byte byte' b e law q = elim (ℕ_discrete (p / 8) (q / 8)) [
  | yes same ↦ ground (
    arith,
    e,
    ap (get_elem? l) same,
    ap (get_elem? (set l (p / 8) byte')) same,
    get_elem?-set_self l (p / 8) byte' (get_elem?-bound l (p / 8) e),
    law (q % 8),
  )
  | no n ↦ ground (arith, get_elem?-set_ne l {i = p / 8} {j = q / 8} byte' n)
]

-- `setIOMap` of a port in the map sets what `getIOMap` reads of that port, and of no other.
pub get_io_map-set_io_map :
    (t : Task) (port : ℕ) (enabled : Bool)
    → port / 8 < length t.iomap
    → (t' : Task) × (set_io_map t port enabled ≡ ok t')
      × (length t'.iomap ≡ length t.iomap)
      × ((other : ℕ)
          → get_io_map t' other ≡ (if port == other then ok enabled else get_io_map t other))
unfolding set_io_map get_io_map read_bit
get_io_map-set_io_map t port true u =
    let (byte, e) = get_elem?-lt t.iomap (port / 8) u in
    let byte' = clear_bit byte (port % 8) in
    let law = read_bit-set t.iomap port byte byte' false e (test_bit-clear_bit byte (port % 8)) in
    (
      record t { iomap = set t.iomap (port / 8) byte' },
      ground (arith, e),
      length-set t.iomap (port / 8) byte',
      λ other. ground (arith, law other),
    )
get_io_map-set_io_map t port false u =
    let (byte, e) = get_elem?-lt t.iomap (port / 8) u in
    let byte' = set_bit byte (port % 8) in
    let law = read_bit-set t.iomap port byte byte' true e (test_bit-set_bit byte (port % 8)) in
    (
      record t { iomap = set t.iomap (port / 8) byte' },
      ground (arith, e),
      length-set t.iomap (port / 8) byte',
      λ other. ground (arith, law other),
    )

-- `grantPrivilege` of a privilege that exists grants it, and no other.
pub has_privilege-grant_privilege :
    (t : Task) (priv : ℕ)
    → priv < priv_count
    → 0 < length t.priv_map
    → (t' : Task) × (grant_privilege t priv ≡ ok t')
      × (length t'.priv_map ≡ length t.priv_map)
      × ((other : ℕ)
          → has_privilege t' other ≡ (if priv == other then ok true else has_privilege t other))
unfolding grant_privilege has_privilege read_bit
has_privilege-grant_privilege t priv u l =
    let (byte, e) = get_elem?-lt t.priv_map (priv / 8) (omega (arith, u, l)) in
    (
      record t { priv_map = set t.priv_map (priv / 8) (set_bit byte (priv % 8)) },
      ground (arith, e, u),
      length-set t.priv_map (priv / 8) (set_bit byte (priv % 8)),
      λ other. ground (
        arith,
        u,
        read_bit-set t.priv_map priv byte (set_bit byte (priv % 8)) true e
            (test_bit-set_bit byte (priv % 8)) other,
      ),
    )

-- The privileges of a new task, as the bits of its one byte.
new_bits : (priv : ℕ) → priv < priv_count → test_bit 10 priv ≡ ((priv == 1) || (priv == 3))
unfolding test_bit
new_bits zero u = refl
new_bits (suc zero) u = refl
new_bits (suc (suc zero)) u = refl
new_bits (suc (suc (suc zero))) u = refl
new_bits (suc (suc (suc (suc zero)))) u = refl
new_bits (suc (suc (suc (suc (suc zero))))) u = refl
new_bits (suc (suc (suc (suc (suc (suc zero)))))) u = refl
new_bits (suc (suc (suc (suc (suc (suc (suc n))))))) u = absurd (omega (arith, u))

-- A new task can write to the console and allocate memory, has no other privilege, and no port.
pub new_task-has_privilege :
    (ports id cpl : ℕ)
    → (t : Task) × (new_task ports id cpl ≡ ok t)
      × (t.id ≡ id)
      × (t.user_waiting ≡ false)
      × ((priv : ℕ) → priv < priv_count → has_privilege t priv ≡ ok ((priv == 1) || (priv == 3)))
      × ((port : ℕ) → port < 8 * ports → get_io_map t port ≡ ok false)
unfolding new_task has_privilege get_io_map grant_privilege set_bit
new_task-has_privilege ports id cpl = (
  record {
    id = id;
    cpl = cpl;
    irq_listen = 0;
    irq_listen_hits = 0;
    user_waiting = false;
    user_call = none;
    registered_name = none;
    iomap = replicate ports 0xFF;
    priv_map = 10 ∷ [];
    reply_queue = [];
  },
  refl,
  refl,
  refl,
  λ priv u.
      let first : priv / 8 ≡ 0 = omega (arith, u) in
      let same : priv % 8 ≡ priv = omega (arith, u) in
      let byte : get_elem? {A = ℕ} (10 ∷ []) (priv / 8) ≡ some 10 =
        ap (get_elem? {A = ℕ} (10 ∷ [])) first in
      let low : test_bit 10 (priv % 8) ≡ test_bit 10 priv = ap (test_bit 10) same in
      ground (arith, u, byte, low, new_bits priv u),
  λ port u. ground (
    arith,
    get_elem?-replicate {A = ℕ} ports 0xFF (port / 8) (omega (arith, u)),
    full_bit 8 0xFF (port % 8) (omega arith) (omega arith),
  ),
)
