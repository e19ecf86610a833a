-- ===== src/Core/Context.antt =====
-- src/core/context.rs: the handle of the running actor on itself.
use shakespeare.Prelude.{ℕ, ◌+◌, Bool, true, false, ◌&&◌, ltb}

-- `shell_handle` is an `Arc`: what the code reads of it is how many strong references there are.
pub record Context : Type 0 where
  pub strong_count : ℕ
  pub running : Bool

unfoldable pub new : ℕ → Context
new strong_count = record { strong_count = strong_count; running = true }

unfoldable pub is_running : Context → Bool
is_running c = ltb 1 c.strong_count && c.running

-- A clone of the handle is one more strong reference.
unfoldable pub get_shell : Context → Context
get_shell c = record c { strong_count = c.strong_count + 1 }

unfoldable pub stop : Context → Context
stop c = record c { running = false }
