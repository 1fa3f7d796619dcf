-- ===== src/Buffer/Manager/Account.antt =====
-- The account of reserved memory over any sequence of uploads that open and close their buffers.
use backupgate.Prelude.{
  ℕ, ◌+◌, ◌-◌, ◌*◌, ◌≤◌, ◌<◌, max, ◌≡◌, refl, sym, ap, ◌∙◌, Bool, true, false, List, [], ◌∷◌, ◌++◌,
  arith, ◌==◌, if◌then◌else◌, All, Bytes,
}
use backupgate.Prelude.Int.{ℤ, pos, pos_part, neg_part, ◌≤ℤ◌, int64_end}
use backupgate.Config.Types.{BufferConfig}
use backupgate.Buffer.Manager.{
  Manager, ManagedMemoryBuffer, managed, file_backed, new_manager, try_reserve_memory,
  release_memory, new_managed_memory_buffer, new_full_buffer, close_managed,
}

-- The bytes that the buffers handed out still hold reserved.
abbrev pub live : List ManagedMemoryBuffer → ℕ
live [] = 0
live (b ∷ bs) = (if b.released then 0 else pos_part b.reserved) + live bs

-- A manager with the managed buffers that it has handed out.
pub record Pool : Type 0 where
  pub manager : Manager
  pub handed_out : List ManagedMemoryBuffer

-- What an upload does to the pool: it asks for a buffer, which may be a file, or closes a managed
-- buffer, for the first time or again.
pub data Step {F : Type 0} (new_file : Bytes → Bytes → F) (p q : Pool) : Type 0 where
  hand_out :
      (key : Bytes) (size : ℤ) (b : ManagedMemoryBuffer)
      → new_full_buffer new_file p.manager key size ≡ (managed b, q.manager)
      → q.handed_out ≡ b ∷ p.handed_out
      → Step new_file p q
  hand_out_file :
      (key : Bytes) (size : ℤ) (f : F)
      → new_full_buffer new_file p.manager key size ≡ (file_backed f, q.manager)
      → q.handed_out ≡ p.handed_out
      → Step new_file p q
  close :
      (before after : List ManagedMemoryBuffer) (b : ManagedMemoryBuffer)
      → p.handed_out ≡ before ++ b ∷ after
      → q.manager ≡ (close_managed p.manager b).1
      → q.handed_out ≡ before ++ (close_managed p.manager b).2 ∷ after
      → Step new_file p q

-- The account is right: what is in use is what the open buffers reserved, never more than
-- `max_memory`. Its sums are int64 values because `memory` and `max_memory` together are one.
pub record IsBalanced (p : Pool) : Type 0 where
  pub max : ℕ
  pub capped : p.manager.cfg.max_memory ≡ pos max
  pub no_wrap : max + pos_part p.manager.cfg.memory < int64_end
  pub in_use : p.manager.memory_in_use ≡ pos (live p.handed_out)
  pub within : live p.handed_out ≤ max
  pub sizes : All (λ b. neg_part b.reserved ≡ 0) p.handed_out

live-append : (xs ys : List ManagedMemoryBuffer) → live (xs ++ ys) ≡ live xs + live ys
live-append [] ys = omega arith
live-append (x ∷ xs) ys = omega (arith, live-append xs ys)

All-middle :
    (xs ys : List ManagedMemoryBuffer) (b : ManagedMemoryBuffer)
    → All (λ c. neg_part c.reserved ≡ 0) (xs ++ b ∷ ys)
    → neg_part b.reserved ≡ 0
All-middle [] ys b h = h.0
All-middle (x ∷ xs) ys b h = All-middle xs ys b h.1

All-replace :
    (xs ys : List ManagedMemoryBuffer) (b c : ManagedMemoryBuffer)
    → c.reserved ≡ b.reserved
    → All (λ d. neg_part d.reserved ≡ 0) (xs ++ b ∷ ys)
    → All (λ d. neg_part d.reserved ≡ 0) (xs ++ c ∷ ys)
All-replace [] ys b c e h = (ap neg_part e ∙ h.0, h.1)
All-replace (x ∷ xs) ys b c e h = (h.0, All-replace xs ys b c e h.1)

-- What a successful request for managed memory did.
handed_out-lem :
    {F : Type 0} (new_file : Bytes → Bytes → F) (m m' : Manager) (key : Bytes) (size : ℤ)
    (b : ManagedMemoryBuffer) (max used : ℕ)
    → m.cfg.max_memory ≡ pos max
    → max + pos_part m.cfg.memory < int64_end
    → m.memory_in_use ≡ pos used
    → used ≤ max
    → new_full_buffer new_file m key size ≡ (managed b, m')
    → (b.reserved ≡ size)
      × (b.released ≡ false)
      × (neg_part size ≡ 0)
      × (m'.cfg ≡ m.cfg)
      × (m'.memory_in_use ≡ pos (used + pos_part size))
      × (used + pos_part size ≤ max)
unfolding new_full_buffer try_reserve_memory new_managed_memory_buffer
handed_out-lem new_file m m' key size b max used capped no_wrap in_use within e = ground arith

-- A request that falls back to a file changes nothing.
file-lem :
    {F : Type 0} (new_file : Bytes → Bytes → F) (m m' : Manager) (key : Bytes) (size : ℤ) (f : F)
    → new_full_buffer new_file m key size ≡ (file_backed f, m')
    → m' ≡ m
unfolding new_full_buffer try_reserve_memory
file-lem new_file m m' key size f e = ground arith

-- What a `Close` does to the account: only the first gives the memory back.
closed-lem :
    (m : Manager) (b : ManagedMemoryBuffer) (used : ℕ)
    → m.memory_in_use ≡ pos used
    → used < int64_end
    → neg_part b.reserved ≡ 0
    → (b.released ≡ false → pos_part b.reserved ≤ used)
    → ((close_managed m b).1.cfg ≡ m.cfg)
      × ((close_managed m b).1.memory_in_use
          ≡ pos (used - (if b.released then 0 else pos_part b.reserved)))
      × ((close_managed m b).2.reserved ≡ b.reserved)
      × ((close_managed m b).2.released ≡ true)
unfolding close_managed release_memory
closed-lem m b used in_use small sign enough = ground arith

live-close :
    (xs ys : List ManagedMemoryBuffer) (b c : ManagedMemoryBuffer)
    → c.released ≡ true
    → (live (xs ++ b ∷ ys) ≡ live (xs ++ c ∷ ys) + (if b.released then 0 else pos_part b.reserved))
live-close xs ys b c e = ground (arith, live-append xs (b ∷ ys), live-append xs (c ∷ ys))

-- Each step keeps the account right.
pub Step-IsBalanced :
    {F : Type 0} (new_file : Bytes → Bytes → F) {p q : Pool}
    → Step new_file p q
    → IsBalanced p
    → IsBalanced q
Step-IsBalanced new_file {p} {q} (hand_out key size b e out) v =
    let (res, rel, sign, cfg, spent, fits) =
      handed_out-lem new_file p.manager q.manager key size b v.max (live p.handed_out) v.capped
        v.no_wrap v.in_use v.within e in
    record {
      max = v.max;
      capped = ground arith;
      no_wrap = ground arith;
      in_use = ground arith;
      within = ground arith;
      sizes = rw out (ground arith, v.sizes);
    }
Step-IsBalanced new_file {p} {q} (hand_out_file key size f e out) v =
    let same = file-lem new_file p.manager q.manager key size f e in
    record {
      max = v.max;
      capped = ap (λ m. m.cfg.max_memory) same ∙ v.capped;
      no_wrap = rw same v.no_wrap;
      in_use = ap (λ m. m.memory_in_use) same ∙ v.in_use ∙ ap (λ l. pos (live l)) (sym out);
      within = rw out v.within;
      sizes = rw out v.sizes;
    }
Step-IsBalanced new_file {p} {q} (close xs ys b here manager out) v =
    let c = (close_managed p.manager b).2 in
    let sign = All-middle xs ys b (rw here at v.sizes) in
    let held : live p.handed_out ≡ live (xs ++ b ∷ ys) = ap live here in
    let (cfg, left, reserved, released) =
      closed-lem p.manager b (live p.handed_out) v.in_use (omega (arith, v.within, v.no_wrap)) sign
        (λ r. enough r) in
    record {
      max = v.max;
      capped = ap (λ m. m.cfg.max_memory) manager ∙ ap (λ d. d.max_memory) cfg ∙ v.capped;
      no_wrap = rw (manager, cfg) v.no_wrap;
      in_use =
          ap (λ m. m.memory_in_use) manager
          ∙ left
          ∙ ap pos (omega (arith, held, live-close xs ys b c released, ap live out));
      within = omega (arith, held, live-close xs ys b c released, ap live out, v.within);
      sizes = rw out (All-replace xs ys b c reserved (rw here at v.sizes));
    }
  where
    enough : b.released ≡ false → pos_part b.reserved ≤ live p.handed_out
    enough r = ground (arith, ap live here, live-append xs (b ∷ ys))

-- A pool reached from another by any number of steps.
pub data Reach {F : Type 0} (new_file : Bytes → Bytes → F) (p : Pool) : Pool → Type 0 where
  here : Reach new_file p p
  next : {q r : Pool} → Reach new_file p q → Step new_file q r → Reach new_file p r

abbrev pub new_pool : BufferConfig → List Bool → Pool
new_pool cfg flags = record { manager = new_manager cfg flags; handed_out = [] }

-- A configuration that `Validate` accepts, with limits whose sum is an int64.
pub record HasLimits (cfg : BufferConfig) : Type 0 where
  pub memory : neg_part cfg.memory ≡ 0
  pub max_memory : neg_part cfg.max_memory ≡ 0
  pub no_wrap :
      pos_part cfg.memory + pos_part cfg.max_memory + 2 * (1 * 1024 * 1024 * 1024) < int64_end

new_pool-IsBalanced :
    (cfg : BufferConfig) (flags : List Bool) → HasLimits cfg → IsBalanced (new_pool cfg flags)
unfolding new_manager
new_pool-IsBalanced cfg flags h = record {
  max = pos_part (new_manager cfg flags).cfg.max_memory;
  capped = ground arith;
  no_wrap = ground arith;
  in_use = refl;
  within = omega arith;
  sizes = tt;
}

Reach-IsBalanced :
    {F : Type 0} (new_file : Bytes → Bytes → F) {p q : Pool}
    → Reach new_file p q
    → IsBalanced p
    → IsBalanced q
Reach-IsBalanced new_file here v = v
Reach-IsBalanced new_file (next r s) v = Step-IsBalanced new_file s (Reach-IsBalanced new_file r v)

-- From a new manager with limits, whatever sequence of requests and closes follows, repeated closes
-- included: the memory in use is exactly what the open managed buffers reserved.
pub Reach-in_use :
    {F : Type 0} (new_file : Bytes → Bytes → F) (cfg : BufferConfig) (flags : List Bool) (q : Pool)
    → HasLimits cfg
    → Reach new_file (new_pool cfg flags) q
    → q.manager.memory_in_use ≡ pos (live q.handed_out)
Reach-in_use new_file cfg flags q h r =
    (Reach-IsBalanced new_file r (new_pool-IsBalanced cfg flags h)).in_use

cfg-Step :
    {F : Type 0} (new_file : Bytes → Bytes → F) {p q : Pool}
    → Step new_file p q
    → q.manager.cfg ≡ p.manager.cfg
unfolding close_managed release_memory new_full_buffer try_reserve_memory
cfg-Step new_file (hand_out key size b e out) = ground arith
cfg-Step new_file (hand_out_file key size f e out) = ground arith
cfg-Step new_file (close xs ys b e manager out) = ground arith

cfg-Reach :
    {F : Type 0} (new_file : Bytes → Bytes → F) {p q : Pool}
    → Reach new_file p q
    → q.manager.cfg ≡ p.manager.cfg
cfg-Reach new_file here = refl
cfg-Reach new_file (next r s) = cfg-Step new_file s ∙ cfg-Reach new_file r

-- From a new manager with limits, whatever sequence of requests and closes follows: the memory in use
-- never exceeds `max_memory`, or 1 GiB where the configuration leaves that at 0.
pub Reach-max_memory :
    {F : Type 0} (new_file : Bytes → Bytes → F) (cfg : BufferConfig) (flags : List Bool) (q : Pool)
    → HasLimits cfg
    → Reach new_file (new_pool cfg flags) q
    → q.manager.memory_in_use
      ≤ℤ (if pos_part cfg.max_memory == 0 then pos (1024 * 1024 * 1024) else cfg.max_memory)
unfolding new_manager
Reach-max_memory new_file cfg flags q h r =
    let v = Reach-IsBalanced new_file r (new_pool-IsBalanced cfg flags h) in
    ground (arith, v.capped, v.in_use, v.within, cfg-Reach new_file r)
