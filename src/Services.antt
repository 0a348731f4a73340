-- ===== src/Services.antt =====
-- The Services API: service_manager.go and the managers that build its requests. A request is a
-- parameter block of xpb.go, a reply is read with its cursor.
pub mod Consts
pub mod Maintenance
pub mod Backup
pub mod NBackup
pub mod Users
pub mod Stats
pub mod Trace
pub mod Info
pub mod Replies
pub mod Commands
pub mod Requests
pub mod Masks
pub mod Blocks
pub mod UserBlocks
pub mod Refinement
pub mod Options
pub mod Sessions
pub mod Acknowledged
mod Tests
use firebirdsql_go.Base.{
  ℕ, ◌+◌, ◌/◌, ◌%◌, ℤ, pos, Bool, true, false, List, [], ◌∷◌, u32, i32, ◌==◌, if◌then◌else◌,
}

-- Go's `mask |= flag`, where the flag is one bit.
unfoldable pub or_flag : ℕ → ℕ → ℕ
or_flag mask flag = if mask / flag % 2 == 1 then mask else mask + flag

abbrev pub or_flag_if : Bool → ℕ → ℕ → ℕ
unfolding or_flag
or_flag_if b flag mask = if b then or_flag mask flag else mask

-- The conversion `int32(x)`.
abbrev pub to_int32 : ℤ → ℤ
to_int32 z = i32 (u32 z)

-- A functional option, `func(*T)`, and the loop that applies some to the defaults.
abbrev pub apply_options : {A : Type 0} → A → List (A → A) → A
apply_options opts [] = opts
apply_options opts (o ∷ os) = apply_options (o opts) os

-- Go's `s == ""`.
abbrev pub is_empty : List ℕ → Bool
is_empty [] = true
is_empty (c ∷ cs) = false
