-- ===== src/SdifV2/Host/Owner.antt =====
-- `acquire_host` and `release_host` called by any number of threads: at most one owns the host.
use phytium_sdk.Prelude.{ℕ, ◌≡◌, ◌⊎◌, Bool, true, false, some, arith, update}
use phytium_sdk.SdifV2.Softc.{Softc}
use phytium_sdk.SdifV2.Host.{acquire_host, release_host}

-- the driver, and which threads own the host
pub record Threads : Type 0 where
  pub softc : Softc
  pub owns : ℕ → Bool

-- A thread that does not own the host may try to acquire it; one that does may release it.
pub data Step (t u : Threads) : Type 0 where
  acquires :
      (i : ℕ) (s : Softc)
      → t.owns i ≡ false
      → acquire_host t.softc ≡ some s
      → u ≡ record { softc = s; owns = update t.owns i true }
      → Step t u
  releases :
      (i : ℕ)
      → t.owns i ≡ true
      → u ≡ record { softc = release_host t.softc; owns = update t.owns i false }
      → Step t u

pub data Reach (t : Threads) : Threads → Type 0 where
  here : Reach t t
  next : {u v : Threads} → Reach t u → Step u v → Reach t v

-- `bus_busy` counts the owners, and is 0 or 1
pub record IsExclusive (t : Threads) : Type 0 where
  pub count : (t.softc.bus_busy ≡ 0) ⊎ (t.softc.bus_busy ≡ 1)
  pub somebody : t.softc.bus_busy ≡ 1 → (i : ℕ) × (t.owns i ≡ true)
  pub nobody : (i : ℕ) → t.softc.bus_busy ≡ 0 → t.owns i ≡ false
  pub alone : (i j : ℕ) → t.owns i ≡ true → t.owns j ≡ true → i ≡ j

Step-IsExclusive : {t u : Threads} → Step t u → IsExclusive t → IsExclusive u
unfolding acquire_host release_host
Step-IsExclusive {t} (acquires i s free e p) x = record {
  count = ground arith;
  somebody = λ one_now. (i, ground arith);
  nobody = λ j zero_now. ground arith;
  alone = λ j k oj ok. ground (arith, x.nobody j, x.nobody k);
}
Step-IsExclusive {t} (releases i own p) x = record {
  count = ground (arith, x.nobody i, x.count);
  somebody = λ one_now. absurd (ground (arith, x.nobody i, x.count));
  nobody = λ j zero_now. ground (arith, x.alone i j, x.count);
  alone = λ j k oj ok. ground (arith, x.alone j k);
}

-- From a host that nobody owns, in every interleaving of the threads' calls, at most one thread owns
-- the host, and `bus_busy` is 0 or 1: 0 exactly when none does, and 1 exactly when one does.
pub Reach-IsExclusive : {t u : Threads} → IsExclusive t → Reach t u → IsExclusive u
Reach-IsExclusive x here = x
Reach-IsExclusive x (next r st) = Step-IsExclusive st (Reach-IsExclusive x r)
