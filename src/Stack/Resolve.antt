-- ===== src/Stack/Resolve.antt =====
-- How src/stack_info.cpp finds out about an address of code: `dladdr` and the program addr2line.
pub mod Parse
pub mod Pipe
use nodecpp_foundation.Base.{ℕ, zero, suc, ◌+◌, ◌-◌, ◌%◌, List, [], ◌∷◌, ◌++◌, Option, none, some}
use nodecpp_foundation.Base.{Bool, true, false, not, ◌&&◌, ◌==◌, if◌then◌else◌}
use nodecpp_foundation.Base.Lists.{length, take, drop}
use nodecpp_foundation.Base.Outcome.{Outcome, ok, throws, out_of_fuel, ◌>>=◌}
use nodecpp_foundation.Log.State.{word_sub}
use nodecpp_foundation.Stack.Text.{equal, until_zero, find, find_from, substr, atol, fgets}

-- `StackFrameInfo`; `line` is the 32 bits of an `int`.
pub record StackFrameInfo : Type 0 where
  pub module_path : List ℕ
  pub function_name : List ℕ
  pub src_path : List ℕ
  pub line : ℕ
  pub column : ℕ
  pub offset : ℕ
  pub offset2 : ℕ

abbrev pub new_info : StackFrameInfo
new_info = record {
  module_path = [];
  function_name = [];
  src_path = [];
  line = 0;
  column = 0;
  offset = 0;
  offset2 = 0;
}

-- What the code has of the system: the name and the base of the module at an address (`dladdr`), what
-- a command prints (`popen`), an address in hexadecimal, and an `int`, by its 32 bits, as the
-- formatting library writes it.
pub record System : Type 0 where
  pub dladdr : ℕ → Option (List ℕ × ℕ)
  pub run : List ℕ → Option (List ℕ)
  pub hex : ℕ → List ℕ
  pub int_text : ℕ → List ℕ

-- "??"
abbrev pub unknown : List ℕ
unknown = b'?' ∷ b'?' ∷ []

-- "??\n??:0\n"
abbrev pub unknown_output : List ℕ
unknown_output = b'?' ∷ b'?' ∷ b'\n' ∷ b'?' ∷ b'?' ∷ b':' ∷ b'0' ∷ b'\n' ∷ []

-- A path or a name that addr2line does not know
abbrev pub cleared_unknown : List ℕ → List ℕ
cleared_unknown name = if equal name unknown then [] else name

-- `parseAddr2LineOutput`: what follows the first line, which ends at `pos`
unfoldable pub parse_source : List ℕ → ℕ → StackFrameInfo → StackFrameInfo
parse_source str pos info = elim (find_from b':' str (pos + 1)) [
  | none ↦ info
  | some pos2 ↦ record info {
    src_path = cleared_unknown (substr str (pos + 1) (pos2 - (pos + 1)));
    line = atol (drop (pos2 + 1) str);
  }
]

-- `parseAddr2LineOutput`
unfoldable pub parse_addr2line_output : List ℕ → StackFrameInfo → StackFrameInfo
unfolding parse_source
parse_addr2line_output str info = if length str == 0 then info else elim (find b'\n' str) [
  | none ↦ record info { function_name = str }
  | some pos ↦ parse_source str pos (record info { function_name = cleared_unknown (take pos str) })
]

-- The loop of `sh`, which reads what is left of the output of a command in pieces of at most 127
-- characters
unfoldable pub sh_loop : ℕ → List ℕ → List ℕ → Outcome (List ℕ)
sh_loop zero output result = throws out_of_fuel
sh_loop (suc fuel) output result =
    let r = fgets 127 output in
    let result' = result ++ until_zero (r.0) in
    let rest = sh_loop fuel (r.1) result' in if r.2 then ok result' else rest

-- "addr2line -e ", " -f -C " and "0x"
abbrev pub addr2line : List ℕ
addr2line =
    b'a' ∷ b'd' ∷ b'd' ∷ b'r' ∷ b'2' ∷ b'l' ∷ b'i' ∷ b'n' ∷ b'e' ∷ b' ' ∷ b'-' ∷ b'e' ∷ b' ' ∷ []

abbrev pub with_functions : List ℕ
with_functions = b' ' ∷ b'-' ∷ b'f' ∷ b' ' ∷ b'-' ∷ b'C' ∷ b' ' ∷ []

module _ (sys : System) where
  -- `sh`
  unfoldable pub sh : List ℕ → Outcome (List ℕ)
  unfolding sh_loop
  sh cmd = elim (sys.run cmd) [ none ↦ ok [] | some output ↦ sh_loop (length output + 1) output [] ]

  -- `callAddr2Line`
  unfoldable pub call_addr2line : List ℕ → ℕ → Outcome (List ℕ)
  call_addr2line module_path offset =
      sh (addr2line ++ (module_path ++ (with_functions ++ (b'0' ∷ b'x' ∷ sys.hex offset))))

  -- `useAddr2Line`
  unfoldable pub use_addr2line : StackFrameInfo → Outcome StackFrameInfo
  use_addr2line info = call_addr2line info.module_path info.offset >>= λ r.
      if equal r unknown_output && not (info.offset2 == 0)
      then (call_addr2line info.module_path info.offset2 >>= λ r2. ok (
          parse_addr2line_output r2 (record info { offset = info.offset2; offset2 = info.offset })))
      else ok (parse_addr2line_output r info)

  -- `addrToModuleAndOffset` and `stackPointerToInfo` as built by GCC: the result, and whether it
  -- returns true
  unfoldable pub stack_pointer_to_info : ℕ → StackFrameInfo → Outcome (StackFrameInfo × Bool)
  stack_pointer_to_info ptr info = elim (sys.dladdr ptr) [
    | none ↦ ok (info, false)
    | some (fname, fbase) ↦
        use_addr2line (record info { offset = word_sub ptr fbase; module_path = fname }) >>= λ i.
        ok (i, true)
  ]

  -- `stackPointerToInfo` as built by Clang
  unfoldable pub stack_pointer_to_info_clang : ℕ → StackFrameInfo → Outcome (StackFrameInfo × Bool)
  stack_pointer_to_info_clang ptr info = elim (sys.dladdr ptr) [
    | none ↦ ok (info, false)
    | some (fname, fbase) ↦
        use_addr2line
          (record info { offset = ptr; offset2 = word_sub ptr fbase; module_path = fname })
        >>= λ i. ok (i, true)
  ]
