-- ===== src/Tests/Texts.antt =====
-- The parser on short files.
use Prim.Native.String
use Prim.Native.String.{String}
use mini_asm.Base.{ℕ, ◌≡◌, ◌≢◌, refl, List, [], ◌∷◌, ◌++◌, some, arith}
use mini_asm.Base.Int.{ℤ, pos, negsuc, ◌+ℤ◌}
use mini_asm.Ir.{Opcode, op_add, op_ret, op_gep, op_alloca, Operand, vreg, imm, Instr, Block, Func}
use mini_asm.Ir.FpTable.{fp_table_new}
use mini_asm.Parse.State.{Parser, Result, ok, err, no_block, no_func, out_of_bounds, out_of_fuel}
use mini_asm.Parse.Literal.{quoted, read_string_literal-quoted}
use mini_asm.Parse.Symbols.{IsNamed, sym_intern_lem}
use mini_asm.Parse.Halts.Run.{parse_total}
use mini_asm.Parse.State.{
  parser_new, skip_blanks, peekc, read_token, take_word, word, fgetc, emit, edit,
}
use mini_asm.Parse.Names.{
  find_name, lookup, lookup_pred, type_lookup, type_define, sym_add, sym_lookup, sym_intern,
  numbered_reg, named_reg,
}
use mini_asm.Parse.Types.{
  new_type, cell_at, type_at, basic_kind, other_ty, lookup_ty, field_align, field_size,
  layout_fields, layout_struct, lookup_word, next_field, field_step, read_fields, fuel_here,
  shapes_of, struct_fields, parse_struct, close_bracket, bracket_count, parse_count, elem_bytes,
  parse_array, type_body, parse_type,
}
use mini_asm.Parse.Operand.{
  fpimm, read_operand, put_slot, parse_operand, emit_op, read_chars, read_string_literal,
}
use mini_asm.Parse.Instrs.{
  emit_only, parse_br, put_labels, alloca_bytes, alloca_size, parse_alloca, copy_aggregate,
  load_from, store_to, ret_value, ret_of, parse_ret, one_arg, arg_step, read_args, args_of,
  parse_call, parse_cmp, parse_cbr, parse_phi, parse_load, parse_store,
}
use mini_asm.Parse.Others.{
  take_literal, add_string, emit_str, str_of, parse_str, parse_va_start, field_offset, offset_in,
  elem_step, gep_field, gep_elem, gep_of, parse_va_arg, parse_va_end, parse_conv, parse_gep,
  parse_unary, parse_ext, parse_binary,
}
use mini_asm.Parse.Run.{
  new_func, edit_func, param_step, read_params, params_of, brace_step, skip_to_brace, parse_func,
  new_block, parse_block, close_func, after_dst, read_dst, parse_op, op_of, parse_instr, parse_line,
  line_step, parse_lines, parse,
}
use mini_asm.Base.Numerals.{strtoll, atoi}
use mini_asm.Ir.Build.{ir_module_new, ir_func_new, ir_block_new, ir_emit}
use mini_asm.Builder.Layout.{round_up}

-- No file of these has a floating-point literal.
abbrev no_double : String → ℕ
no_double s = 0

abbrev instr_list : List Instr → List (Opcode × ℤ × List Operand)
instr_list [] = []
instr_list (i ∷ is) = (i.op, i.dst, i.args) ∷ instr_list is

abbrev block_list : List Block → List (Opcode × ℤ × List Operand)
block_list [] = []
block_list (b ∷ bs) = instr_list b.instrs ++ block_list bs

abbrev func_list : List Func → List (Opcode × ℤ × List Operand)
func_list [] = []
func_list (f ∷ fs) = block_list f.blocks ++ func_list fs

-- The opcode, the result and the operands of each instruction, or the fault.
abbrev outcome : Result (Unit {0} × Parser) → Result (List (Opcode × ℤ × List Operand))
outcome (err e) = err e
outcome (ok (u, p)) = ok (func_list p.m.funcs)

abbrev in_block : String → String
in_block s = String.◌++◌ "func f i32 (i32) {\nblock entry # first\n" s

run : String → Result (List (Opcode × ℤ × List Operand))
run s = outcome (parse no_double fp_table_new s)

-- A register by name and by number; a use of a parameter.
-- An instruction outside a block, and a block outside a function, are faults.
-- A negative field index reads before the array of offsets.
-- `unreachable` is no mnemonic, so the line is passed over.
-- An `f64` without a count takes 4 bytes, and %0 is the register of the name %x.
-- The word after a `gep` is lost: the result of the next line is not seen.
runs_test :
    (run (in_block "%x = add i32 %arg0 1\nret i32 %x\n}")
      ≡ ok (
          (op_add, pos 0, vreg (pos 1000) ∷ imm (pos 1) ∷ [])
          ∷ (op_ret, negsuc 0, vreg (pos 0) ∷ [])
          ∷ []))
    × (run "ret i32 1" ≡ err no_block)
    × (run "block b" ≡ err no_func)
    × (run "type P = { i8, i64 } func f i32 () { block e %p = gep P %0 -1 field"
        ≡ err out_of_bounds)
    × (run (in_block "unreachable }") ≡ ok [])
    × (run (in_block "%x = alloca f64\n%0 = add i32 1 2 }")
        ≡ ok (
            (op_alloca, pos 0, imm (pos 4) ∷ [])
            ∷ (op_add, pos 0, imm (pos 1) ∷ imm (pos 2) ∷ [])
            ∷ []))
    × (run (in_block "%g = gep i32 %0 1\n%y = add i32 1 2\n}")
        ≡ ok (
            (op_gep, pos 0, vreg (pos 0) ∷ imm (pos 1) ∷ [])
            ∷ (op_add, negsuc 0, imm (pos 1) ∷ imm (pos 2) ∷ [])
            ∷ []))
unfolding parser_new skip_blanks peekc read_token take_word word fgetc emit edit find_name lookup
    lookup_pred type_lookup type_define sym_add sym_lookup sym_intern numbered_reg named_reg
    new_type cell_at type_at basic_kind other_ty lookup_ty field_align field_size layout_fields
    layout_struct lookup_word next_field field_step read_fields fuel_here shapes_of struct_fields
    parse_struct close_bracket bracket_count parse_count elem_bytes parse_array type_body parse_type
    fpimm read_operand put_slot parse_operand emit_op read_chars read_string_literal emit_only
    parse_br put_labels alloca_bytes alloca_size parse_alloca copy_aggregate load_from store_to
    ret_value ret_of parse_ret one_arg arg_step read_args args_of parse_call parse_cmp parse_cbr
    parse_phi parse_load parse_store take_literal add_string emit_str str_of parse_str
    parse_va_start field_offset offset_in elem_step gep_field gep_elem gep_of parse_va_arg
    parse_va_end parse_conv parse_gep parse_unary parse_ext parse_binary new_func edit_func
    param_step read_params params_of brace_step skip_to_brace parse_func new_block parse_block
    close_func after_dst read_dst parse_op op_of parse_instr parse_line line_step parse_lines parse
    strtoll atoi ir_module_new ir_func_new ir_block_new ir_emit round_up run ◌+ℤ◌
runs_test = (refl, refl, refl, refl, refl, refl, refl)

parse_total_example : parse no_double fp_table_new (in_block "ret i32 1 }") ≢ err out_of_fuel
parse_total_example = parse_total no_double fp_table_new (in_block "ret i32 1 }")

read_string_literal-quoted_example :
    read_string_literal (String.◌∷◌ "\"" (quoted "a\"\nb" " rest"))
    ≡ (some (97 ∷ 34 ∷ 10 ∷ 98 ∷ []), " rest")
read_string_literal-quoted_example = read_string_literal-quoted "a\"\nb" " rest"

abbrev named : Parser
named = record (parser_new fp_table_new "") { symtab = ("x", 0) ∷ []; next_user_vreg = 1 }

sym_intern_lem_example :
    (v : ℕ) × (q : Parser) × (sym_intern "y" named ≡ ok (v, q))
    × (sym_lookup "y" q ≡ some v)
    × ((k : String) (w : ℕ) → sym_lookup k named ≡ some w → sym_lookup k q ≡ some w)
    × IsNamed q.symtab q.next_user_vreg
sym_intern_lem_example =
    sym_intern_lem "y" named ((tt, tt), (omega arith, tt)) (omega arith) (omega arith)
