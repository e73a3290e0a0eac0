-- ===== src/Threads/Interrupt.antt =====
-- threads/interrupt.c: the interrupt flag.
use juntos.Prelude.{Bool, true, false, not, Option, some, assert, ◌>>◌}
use juntos.Threads.State.{Kernel}

unfoldable pub intr_disable : Kernel → Kernel
intr_disable k = record k { intr_on = false }

unfoldable pub intr_enable : Kernel → Option Kernel
intr_enable k = do assert (not k.in_external_intr); some (record k { intr_on = true })

unfoldable pub intr_set_level : Bool → Kernel → Option Kernel
unfolding intr_enable intr_disable
intr_set_level true k = intr_enable k
intr_set_level false k = some (intr_disable k)

unfoldable pub intr_yield_on_return : Kernel → Option Kernel
intr_yield_on_return k = do assert k.in_external_intr; some (record k { yield_on_return = true })
