-- ===== src/Stack/Cache.antt =====
-- `StackPointerInfoCache` of src/stack_info_impl.h. A call is made under its mutex, whole.
pub mod Laws
pub mod Entries
pub mod Reached
use nodecpp_foundation.Base.{ℕ, zero, suc, List, [], ◌∷◌, ◌++◌, Option, none, some}
use nodecpp_foundation.Base.{Bool, true, false, ◌==◌, if◌then◌else◌}
use nodecpp_foundation.Base.Lists.{put}
use nodecpp_foundation.Base.Outcome.{Outcome, ok, ◌>>=◌}
use nodecpp_foundation.Stack.Text.{equal, until_zero}
use nodecpp_foundation.Stack.Resolve.{StackFrameInfo, new_info}

-- `StackStringCacheT`: a string is known by its place, since a `std::set` never moves its elements and
-- none is removed. The order of the set is not used.
abbrev pub StackStringCache : Type 0
StackStringCache = List (List ℕ)

abbrev pub string_at : StackStringCache → ℕ → List ℕ
string_at [] i = []
string_at (s ∷ coll) zero = s
string_at (s ∷ coll) (suc i) = string_at coll i

-- `coll.find( str )`
abbrev pub find_string : List ℕ → StackStringCache → Option ℕ
find_string str [] = none
find_string str (s ∷ coll) =
    let later : Option ℕ = elim (find_string str coll) [ none ↦ none | some i ↦ some (suc i) ] in
    if equal s str then some 0 else later

abbrev pub size : StackStringCache → ℕ
size [] = 0
size (s ∷ coll) = suc (size coll)

-- `StackFrameInfoInternal`, its strings by their places
pub record StackFrameInfoInternal : Type 0 where
  pub module_path : ℕ
  pub function_name : ℕ
  pub src_path : ℕ
  pub line : ℕ
  pub column : ℕ

pub record StackPointerInfoCache : Type 0 where
  pub modules : StackStringCache
  pub src_files : StackStringCache
  pub function_names : StackStringCache
  pub resolved_data : ℕ → Option StackFrameInfoInternal

abbrev pub new_cache : StackPointerInfoCache
new_cache = record {
  modules = [];
  src_files = [];
  function_names = [];
  resolved_data = λ ptr. none;
}

-- `getResolvedStackPtrData_`: `info` changed, where it returns true
unfoldable pub get_resolved : StackPointerInfoCache → ℕ → StackFrameInfo → Option StackFrameInfo
get_resolved c ptr info = elim (c.resolved_data ptr) [
  | none ↦ none
  | some e ↦ some (record info {
    function_name = until_zero (string_at c.function_names e.function_name);
    module_path = until_zero (string_at c.modules e.module_path);
    src_path = until_zero (string_at c.src_files e.src_path);
    line = e.line;
    column = e.column;
  })
]

-- `add2stringCache`; a string that is not found is always inserted.
unfoldable pub add_to_string_cache : List ℕ → StackStringCache → ℕ × StackStringCache
add_to_string_cache str coll = elim (find_string str coll) [
  | some i ↦ (i, coll)
  | none ↦ (size coll, coll ++ (str ∷ []))
]

-- `addResolvedStackPtrData_`; `insert` changes nothing where the address has an entry.
unfoldable pub add_resolved : StackPointerInfoCache → ℕ → StackFrameInfo → StackPointerInfoCache
add_resolved c ptr info =
    let m = add_to_string_cache info.module_path c.modules in
    let s = add_to_string_cache info.src_path c.src_files in
    let f = add_to_string_cache info.function_name c.function_names in
    let sfi : StackFrameInfoInternal = record {
      module_path = m.0;
      function_name = f.0;
      src_path = s.0;
      line = info.line;
      column = info.column;
    } in
    record {
      modules = m.1;
      src_files = s.1;
      function_names = f.1;
      resolved_data = elim (c.resolved_data ptr) [
        | none ↦ put c.resolved_data ptr (some sfi)
        | some e ↦ c.resolved_data
      ];
    }

-- `to_info` is `stackPointerToInfo` as built by one of the compilers.
module _ (to_info : ℕ → StackFrameInfo → Outcome (StackFrameInfo × Bool)) where
  -- `resolveData`
  unfoldable pub resolve_data :
      StackPointerInfoCache → ℕ → StackFrameInfo → Outcome (StackPointerInfoCache × StackFrameInfo)
  resolve_data c ptr info = elim (get_resolved c ptr info) [
    | some found ↦ ok (c, found)
    | none ↦ to_info ptr info >>= λ r. ok (add_resolved c ptr (r.0), r.0)
  ]
