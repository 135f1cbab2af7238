-- ===== src/Linux/Kernel.antt =====
-- What the drivers take from the kernel: the ends that a call can meet, and the accesses to the
-- registers behind `cmdev->base`.
use device_driver_on_so_c.Prelude.{ℕ}

-- `done`: the function returned. `oops`: it followed a null pointer, left an array, or asked the
-- kernel to copy from outside one.
-- `running`: the fuel of the model ended first.
pub data Outcome {ℓ} (A : Type ℓ) : Type ℓ where
  done : A → Outcome A
  oops : Outcome A
  running : Outcome A

infixl 5 ◌>>=◌
abbrev pub ◌>>=◌ {ℓ κ} : {A : Type ℓ} {B : Type κ} → Outcome A → (A → Outcome B) → Outcome B
done a >>= f = f a
oops >>= f = oops
running >>= f = running

-- `irqreturn_t`
pub data IrqReturn : Type 0 where
  irq_handled irq_none : IrqReturn

-- The registers of one block, as `readl` and `writel` reach them. `sleep` is what becomes of the
-- block from the moment that a process goes to sleep in `wait_event_interruptible` until it
-- returns there.
pub record Bus : Type 1 where
  pub Block : Type 0
  pub readl : Block → ℕ → ℕ × Block
  pub writel : Block → ℕ → ℕ → Block
  pub sleep : Block → Block
