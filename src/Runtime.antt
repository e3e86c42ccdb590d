-- ===== src/Runtime.antt =====
-- The data of lib/lunatik/lunatik.c and include/linux/lunatik.h: results, contexts, bindings, works
-- and the data of a load request, as blocks of the kernel heap; and the Lua engine as the runtime
-- sees it.
pub mod Bindings
pub mod Lifetime
pub mod Loadcode
pub mod Examples
pub mod Result
use lunatik_ng.Base.{
  ℕ, ◌+◌, Bool, true, false, Option, none, some, List, ℤ, pos, negsuc, ◌==◌, if◌then◌else◌,
}
use lunatik_ng.Kernel.{Kernel, M, pure, fault, ◌>>=◌, load, store}

-- The value at index -1 of a Lua stack. A userdata has its bytes and the field `__name` of its
-- metatable, if it has one.
pub data Value : Type 0 where
  nil : Value
  boolean : Bool → Value
  light_userdata : ℕ → Value
  number : ℤ → Value
  string : List ℕ → Value
  table function thread : Value
  userdata : List ℕ → Option (List ℕ) → Value

-- `lua_type`
abbrev pub lua_type : Value → ℕ
lua_type nil = 0
lua_type (boolean _) = 1
lua_type (light_userdata _) = 2
lua_type (number _) = 3
lua_type (string _) = 4
lua_type table = 5
lua_type function = 6
lua_type (userdata _ _) = 7
lua_type thread = 8

abbrev pub enomem : ℤ
enomem = negsuc 11

abbrev pub einval : ℤ
einval = negsuc 21

-- The union of `struct lunatik_result`; `zeroed` is what `kzalloc` leaves.
pub data Payload : Type 0 where
  zeroed : Payload
  r_number : ℤ → Payload
  r_boolean : Bool → Payload
  r_string : (ptr size : ℕ) → Payload
  r_userdata : (ptr size type : ℕ) → Payload
  r_lightuserdata : ℕ → Payload

pub record LunatikResult : Type 0 where
  pub r_type : ℕ
  pub payload : Payload

-- The Lua engine over its state: `lua_open`, `luaL_loadbuffer`, `lua_pcall(L, 0, 1, 0)`, the value
-- at index -1, `lua_pop(L, 1)`, and a C function that is pushed and called.
pub record Engine (S : Type 0) : Type 0 where
  pub lua_open : S
  pub loadbuffer : S → List ℕ → ℤ × S
  pub pcall : S → ℤ × S
  pub top : S → Value
  pub pop : S → S
  pub call_c : ℕ → S → S

-- `struct lunatik_binding`, at its address. Its fields are never written after the registration.
pub record Binding (S : Type 0) : Type 0 where
  pub at : ℕ
  pub owner : ℕ
  pub regfunc : S → ℤ × S

-- `struct active_binding`, at its address.
pub record Active (S : Type 0) : Type 0 where
  pub node : ℕ
  pub b : Binding S

pub record Context (S : Type 0) : Type 0 where
  pub lua : S
  pub locked : Bool
  pub wq : ℕ
  pub active : List (Active S)

pub data CallbackWork : Type 0 where
  no_work work_cleanup async_work_cleanup : CallbackWork

-- `struct loadcode_data`. A callback is the address of a function, 0 for none; `complete` is the
-- count of the semaphore.
pub record LoadData : Type 0 where
  pub code : ℕ
  pub sz_code : ℕ
  pub result : ℕ
  pub ret : ℤ
  pub need_result : Bool
  pub callback_arg : ℕ
  pub callback : ℕ
  pub callback_nores : ℕ
  pub callback_work : CallbackWork
  pub complete : ℕ

pub data Handler : Type 0 where
  loadcode_handler openlib_handler : Handler

pub record Work : Type 0 where
  pub lc : ℕ
  pub wq : ℕ
  pub handler : Handler
  pub work_data : ℕ

pub data Block (S : Type 0) : Type 0 where
  context : Context S → Block S
  active_node : Block S
  binding_node : Block S
  load_data : LoadData → Block S
  work : Work → Block S
  result : LunatikResult → Block S
  bytes : List ℕ → Block S
  async_info : (lc code_kern : ℕ) → Block S

-- Reads of a pointer at its type.
module _ {S : Type 0} where
  abbrev pub as_context : Block S → M (Block S) (Context S)
  as_context (context c) = pure c
  as_context _ = fault

  abbrev pub as_load_data : Block S → M (Block S) LoadData
  as_load_data (load_data d) = pure d
  as_load_data _ = fault

  abbrev pub as_work : Block S → M (Block S) Work
  as_work (work w) = pure w
  as_work _ = fault

  abbrev pub as_result : Block S → M (Block S) LunatikResult
  as_result (result r) = pure r
  as_result _ = fault

  abbrev pub as_bytes : Block S → M (Block S) (List ℕ)
  as_bytes (bytes bs) = pure bs
  as_bytes _ = fault

  abbrev pub as_async_info : Block S → M (Block S) (ℕ × ℕ)
  as_async_info (async_info lc code_kern) = pure (lc, code_kern)
  as_async_info _ = fault

  unfoldable pub load_context : ℕ → M (Block S) (Context S)
  unfolding load
  load_context p = load p >>= as_context

  unfoldable pub read_load_data : ℕ → M (Block S) LoadData
  unfolding load
  read_load_data p = load p >>= as_load_data

  unfoldable pub load_work : ℕ → M (Block S) Work
  unfolding load
  load_work p = load p >>= as_work

  unfoldable pub load_result : ℕ → M (Block S) LunatikResult
  unfolding load
  load_result p = load p >>= as_result

  unfoldable pub load_bytes : ℕ → M (Block S) (List ℕ)
  unfolding load
  load_bytes p = load p >>= as_bytes

  unfoldable pub load_async_info : ℕ → M (Block S) (ℕ × ℕ)
  unfolding load
  load_async_info p = load p >>= as_async_info

  -- `lunatik_context_lock`. No other task runs between two commands here, so a lock that is held
  -- is never released: that is a deadlock.
  lock_if_free : ℕ → Context S → Bool → M (Block S) (Unit {0})
  unfolding store
  lock_if_free lc c true = fault
  lock_if_free lc c false = store lc (context (record c { locked = true }))

  unfoldable pub context_lock : ℕ → M (Block S) (Unit {0})
  unfolding load_context lock_if_free
  context_lock lc = do c ← load_context lc; lock_if_free lc c c.locked

  unfoldable pub context_unlock : ℕ → M (Block S) (Unit {0})
  unfolding load_context store
  context_unlock lc = do c ← load_context lc; store lc (context (record c { locked = false }))
