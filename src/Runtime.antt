-- ===== src/Runtime.antt =====
-- The records of cpp/m3_env.h, cpp/m3_core.h, cpp/m3_code.h and cpp/m3_function.h that the
-- components share.
use react_native_webassembly.Common.{ℕ, Option, List}

-- A machine address; NULL is `none` where the code tests for it.
abbrev pub Address : Type 0
Address = ℕ

-- The block that `M3Memory.mallocated` points to: its address, the fields of `M3MemoryHeader`, and
-- the bytes behind the header, the reserved ones past `length` included.
pub record Block : Type 0 where
  pub address : Address
  pub max_stack : ℕ
  pub length : ℕ
  pub cells : ℕ → ℕ

-- `M3Memory`
pub record Memory : Type 0 where
  pub mallocated : Option Block
  pub num_pages : ℕ
  pub max_pages : ℕ
  pub reservation : Option Address
  pub reservation_bytes : ℕ
  pub committed_bytes : ℕ

-- `M3CodePage`: the lines are the words that were emitted.
pub record CodePage : Type 0 where
  pub sequence : ℕ
  pub line_index : ℕ
  pub num_lines : ℕ
  pub code : List ℕ

-- `M3FuncType`: the results, then the arguments, one byte each.
pub record FuncType : Type 0 where
  pub num_rets : ℕ
  pub num_args : ℕ
  pub types : List ℕ

-- The parts of `M3Environment` that are modelled: the interned signatures, newest first, and the
-- code pages that runtimes gave back.
pub record Environment : Type 0 where
  pub func_types : List FuncType
  pub pages_released : List CodePage

-- The parts of `M3Runtime` that are modelled. Its linked lists of pages are lists, first page first.
pub record Runtime : Type 0 where
  pub environment : Environment
  pub pages_open : List CodePage
  pub pages_full : List CodePage
  pub num_code_pages : ℕ
  pub num_active_code_pages : ℕ
  pub stack : ℕ
  pub num_stack_slots : ℕ
  pub memory : Memory
  pub memory_limit : ℕ
  pub call_depth : ℕ
  pub new_code_page_sequence : ℕ
