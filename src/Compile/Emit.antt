-- ===== src/Compile/Emit.antt =====
-- cpp/m3_compile.c, the emission of words into code pages. What the machine decides is a parameter:
-- the address of each operation's code, of a page's next line and of the objects that the code
-- points to, and whether memory is given.
pub mod Room
use react_native_webassembly.Common.{
  ℕ, ◌+◌, Bool, Option, none, some, ltb, ◌==◌, if◌then◌else◌, u32,
}
use react_native_webassembly.Results.{Result, ok, err, malloc_failed_code_page}
use react_native_webassembly.Core.ValueType.{is_64bit_type}
use react_native_webassembly.Runtime.{CodePage, Runtime}
use react_native_webassembly.CodePages.{
  num_free_lines, emit_word, emit_word32, acquire_code_page, acquire_code_page_with_capacity,
  release_code_page, free_lines_threshold,
}
use react_native_webassembly.Compile.State.{Compilation, Compile}

-- The operations of cpp/m3_exec.h that the modelled code emits by name, and those that it takes
-- from a table by type. `null_operation` is the NULL that stands at the type none.
pub data Operation : Type 0 where
  null_operation : Operation
  op_branch op_return op_const32 op_const64 op_unreachable op_loop op_entry : Operation
  op_call op_compile op_call_indirect op_mem_size op_mem_grow op_mem_copy op_mem_fill : Operation
  op_call_raw_function : Operation
  op_copy_slot_32 op_copy_slot_64 op_preserve_copy_slot_32 op_preserve_copy_slot_64 : Operation
  op_get_global_s32 op_get_global_s64 op_set_global_s32 op_set_global_s64 : Operation
  op_set_slot op_preserve_set_slot op_set_register op_set_global : ℕ → Operation
  op_int_select : ℕ → ℕ → Operation
  op_fp_select : ℕ → Bool → ℕ → Operation
  -- the operation that the table of opcodes lists at that place for an opcode
  listed : ℕ → ℕ → Operation

-- `c_setSetOps`, `c_preserveSetSlot`, `c_setRegisterOps` and `c_setGlobalOps`; what a read behind the
-- last type gives is left to the parameter `word_of`.
abbrev pub by_type : (ℕ → Operation) → ℕ → Operation
by_type operation type = if type == 0 then null_operation else operation type

pub record Target : Type 0 where
  pub word_of : Operation → ℕ
  pub pc_of : CodePage → ℕ
  pub allocated : Runtime → Bool
  -- the addresses of a global's value, of a function, of its code, of a signature and of the module
  pub address_of_global : ℕ → ℕ
  pub address_of_function : ℕ → ℕ
  pub address_of_type : ℕ → ℕ
  pub address_of_module : ℕ

-- What emission changes: the runtime's lists of pages, and the page.
abbrev pub Emitted : Type 0
Emitted = Runtime × CodePage × Result (Unit {0})

module _ (target : Target) where
  -- The old page ends in a branch to the new one and is given back.
  abbrev pub bridge : CodePage → Option CodePage × Runtime → Emitted
  bridge page (none, rt) = (rt, page, err malloc_failed_code_page)
  bridge page (some new, rt) = (
    release_code_page rt
        (some (emit_word (emit_word page (target.word_of op_branch)) (target.pc_of new))),
    new,
    ok tt,
  )

  -- `EnsureCodePageNumLines`
  unfoldable pub ensure_code_page_num_lines : ℕ → Runtime → CodePage → Emitted
  unfolding num_free_lines emit_word acquire_code_page_with_capacity release_code_page
  ensure_code_page_num_lines num_lines rt page =
      let with_bridge = u32 (num_lines + 2) in
      if ltb (num_free_lines page) with_bridge
      then bridge page (acquire_code_page_with_capacity (target.allocated rt) rt with_bridge)
      else (rt, page, ok tt)

  abbrev pub then_word : ℕ → Emitted → Emitted
  then_word word (rt, page, ok done) = (rt, emit_word page word, ok done)
  then_word word (rt, page, err e) = (rt, page, err e)

  abbrev pub emit_into :
      Operation → Runtime → Option CodePage → Runtime × Option CodePage × Result (Unit {0})
  emit_into operation rt none = (rt, none, ok tt)
  emit_into operation rt (some page) =
      let (rt', page', done) =
        then_word (target.word_of operation)
          (ensure_code_page_num_lines free_lines_threshold rt page) in
      (rt', some page', done)

  -- `EmitOp`
  unfoldable pub emit_op : Operation → Compile (Unit {0})
  unfolding ensure_code_page_num_lines emit_word
  emit_op operation o =
      let (rt, page, done) = emit_into operation o.runtime o.page in
      (record o { runtime = rt; page = page }, done)

abbrev pub word_into : ℕ → Option CodePage → Option CodePage
word_into word none = none
word_into word (some page) = some (emit_word page word)

abbrev pub word32_into : ℕ → Option CodePage → Option CodePage
word32_into word none = none
word32_into word (some page) = some (emit_word32 page word)

-- `EmitConstant32`, `EmitSlotOffset` and the write of `EmitPointer`.
unfoldable pub emit_constant32 : ℕ → Compilation → Compilation
unfolding emit_word32
emit_constant32 immediate o = record o { page = word32_into immediate o.page }

unfoldable pub emit_slot_offset : ℕ → Compilation → Compilation
unfolding emit_word32
emit_slot_offset offset o = record o { page = word32_into offset o.page }

unfoldable pub emit_pointer : ℕ → Compilation → Compilation
unfolding emit_word
emit_pointer pointer o = record o { page = word_into pointer o.page }

abbrev pub acquired : Compilation → Option CodePage × Runtime → Compilation × Result CodePage
acquired o (none, rt) = (record o { runtime = rt }, err malloc_failed_code_page)
acquired o (some page, rt) = (record o { runtime = rt }, ok page)

-- `AcquireCompilationCodePage`, without the counting of references, which is switched off.
unfoldable pub acquire_compilation_code_page : Target → Compile CodePage
unfolding acquire_code_page
acquire_compilation_code_page target o =
    acquired o (acquire_code_page (target.allocated o.runtime) o.runtime)

-- `ReleaseCompilationCodePage`
unfoldable pub release_compilation_code_page : Compilation → Compilation
unfolding release_code_page
release_compilation_code_page o = record o { runtime = release_code_page o.runtime o.page }
