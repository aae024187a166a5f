-- ===== src/Sync.antt =====
-- src/sync.c: the spin lock and the lock that holds back interrupts, for any number of cores that
-- use one lock word. A core between two instructions on the word is a state, and the cores take
-- their steps in any order. `atomic_exchange` is the instruction `lock xchg`.
mod Exclusion
mod Examples
use hvos.Common.{
  ℕ, zero, suc, ◌+◌, ◌-◌, ◌*◌, ◌/◌, ◌%◌, ◌^◌, ◌≤◌, ◌<◌, bit_and, bit_or, ◌≡◌, refl, sym, ap, subst,
  ◌∙◌, ◌≢◌, ◌↔◌, ◌⊎◌, inl, inr, Bool, true, false, not, ◌&&◌, ◌||◌, Option, none, some, List, [],
  ◌∷◌, ◌++◌, map, arith, ltb, leb, ◌==◌, if◌then◌else◌, Bool-cases, Option-cases, every, every-lem,
  ltb→lt, lt→ltb, le→ltb, ==→eq, ==-ne, ==_refl, u8, u16, u32, u64, sub64, ◌<<<◌, ◌>>>◌, length,
  assign, replicate, take, drop, listed, get_elem?, get_or, set, All, length-set, get_or-set_self,
  get_or-set_ne, length-append, length-replicate, All-replicate, get_or-replicate, All-set,
  All-get_or,
}
use hvos.Common.Loops.{each_from, each_from-keeps}

-- Where a core is: outside of the lock's section, in the loop of `spin_lock` or `safe_lock`, in the
-- section, or in `safe_unlock` behind the write to the word.
pub data Pc : Type 0 where
  outside : Pc
  spinning : Pc
  inside : Pc
  restoring : Pc

-- `safe` says that the core took the lock by `safe_lock`; `rflags` is then the interrupt flag
-- that `safe_lock` returned, and `interrupts` is the flag of the core.
pub record Core : Type 0 where
  pub pc : Pc
  pub safe : Bool
  pub rflags : Bool
  pub interrupts : Bool

-- `locked` is the word of `spinlock_t` or `safe_lock_t`.
pub record System : Type 0 where
  pub locked : ℕ
  pub core : ℕ → Core

-- The old value, and the new one.
unfoldable pub atomic_exchange : ℕ → ℕ → ℕ × ℕ
atomic_exchange v val = (v, val)

-- The call of `spin_lock`.
unfoldable pub spin_lock : Core → Core
spin_lock c = record c { pc = Pc.spinning; safe = false }

-- The call of `safe_lock`: `save_and_disable_interrupt`.
unfoldable pub safe_lock : Core → Core
safe_lock c = record c { pc = Pc.spinning; safe = true; rflags = c.interrupts; interrupts = false }

-- One round of `while (atomic_exchange(&lock->locked, 1) != 0)`.
unfoldable pub lock_round : ℕ → Core → ℕ × Core
unfolding atomic_exchange
lock_round locked c =
    let (old, new) = atomic_exchange locked 1 in
    (new, if old == 0 then record c { pc = Pc.inside } else c)

-- `lock->locked = 0`, which ends `spin_unlock`, and goes before the last step of `safe_unlock`.
unfoldable pub unlock : Core → ℕ × Core
unlock c = (0, record c { pc = if c.safe then Pc.restoring else Pc.outside })

-- `restore_interrupts(rflags)`
unfoldable pub restore : Core → Core
restore c = record c { pc = Pc.outside; interrupts = c.rflags }

-- A step of core `i`. Outside of the lock, and inside of a spin lock, it may set and clear its
-- interrupt flag.
pub data Step (s : System) : System → Type 0 where
  spins :
      (i : ℕ)
      → (s.core i).pc ≡ Pc.outside
      → Step s (record s { core = assign s.core i (spin_lock (s.core i)) })
  saves :
      (i : ℕ)
      → (s.core i).pc ≡ Pc.outside
      → Step s (record s { core = assign s.core i (safe_lock (s.core i)) })
  tries :
      (i : ℕ)
      → (s.core i).pc ≡ Pc.spinning
      → Step s (record {
        locked = (lock_round s.locked (s.core i)).0;
        core = assign s.core i (lock_round s.locked (s.core i)).1;
      })
  unlocks :
      (i : ℕ)
      → (s.core i).pc ≡ Pc.inside
      → Step s
          (record { locked = (unlock (s.core i)).0; core = assign s.core i (unlock (s.core i)).1 })
  restores :
      (i : ℕ)
      → (s.core i).pc ≡ Pc.restoring
      → Step s (record s { core = assign s.core i (restore (s.core i)) })
  flags :
      (i : ℕ) (b : Bool)
      → ((s.core i).pc ≡ Pc.outside) ⊎ ((s.core i).safe ≡ false)
      → Step s (record s { core = assign s.core i (record (s.core i) { interrupts = b }) })

pub data Steps (s : System) : System → Type 0 where
  here : Steps s s
  then_ : (t u : System) → Steps s t → Step t u → Steps s u

-- No core is at the lock, and the word is clear.
pub record IsInitial (s : System) : Type 0 where
  pub free : s.locked ≡ 0
  pub all_outside : (i : ℕ) → (s.core i).pc ≡ Pc.outside
