-- ===== src/Stack/Cache/Entries.antt =====
-- What the entries of a `StackPointerInfoCache` stand for.
use nodecpp_foundation.Base.{ℕ, ◌≡◌, ◌<◌, refl, ◌∙◌, arith}
use nodecpp_foundation.Base.{none, some, true, ◌==◌, List}
use nodecpp_foundation.Base.Lists.{put}
use nodecpp_foundation.Stack.Text.{until_zero}
use nodecpp_foundation.Stack.Resolve.{StackFrameInfo, new_info}
use nodecpp_foundation.Stack.Cache.{
  StackStringCache, string_at, size, StackFrameInfoInternal, StackPointerInfoCache, get_resolved,
  add_to_string_cache, add_resolved,
}
use nodecpp_foundation.Stack.Cache.Laws.{until_zero_idem, Added, add_to_string_cache-Added}

-- What an answer says apart from the offsets, its names as strings of C
abbrev pub plain : StackFrameInfo → StackFrameInfo
plain info = record {
  module_path = until_zero info.module_path;
  function_name = until_zero info.function_name;
  src_path = until_zero info.src_path;
  line = info.line;
  column = info.column;
  offset = 0;
  offset2 = 0;
}

-- A place of a set holds a string.
pub record Holds (coll : StackStringCache) (i : ℕ) (str : List ℕ) : Type 0 where
  pub within : i < size coll
  pub stands : string_at coll i ≡ str

-- An entry stands for an answer.
pub record Entry (c : StackPointerInfoCache) (e : StackFrameInfoInternal) (info : StackFrameInfo)
    : Type 0 where
  pub module_path : Holds c.modules e.module_path info.module_path
  pub function_name : Holds c.function_names e.function_name info.function_name
  pub src_path : Holds c.src_files e.src_path info.src_path
  pub line : e.line ≡ info.line
  pub column : e.column ≡ info.column

pub Added-Holds :
    {str : List ℕ} {coll : StackStringCache} {r : ℕ × StackStringCache} {i : ℕ} {old : List ℕ}
    → Added str coll r
    → Holds coll i old
    → Holds (r.1) i old
Added-Holds added held = record {
  within = omega (arith, held.within, added.grows);
  stands = added.kept _ held.within ∙ held.stands;
}

pub Added-Holds_new :
    {str : List ℕ} {coll : StackStringCache} {r : ℕ × StackStringCache}
    → Added str coll r
    → Holds (r.1) (r.0) str
Added-Holds_new added = record { within = added.within; stands = added.stands }

-- An entry is as good after another address is added.
pub add_resolved-Entry :
    (c : StackPointerInfoCache) (ptr : ℕ) (info old : StackFrameInfo) (e : StackFrameInfoInternal)
    → Entry c e old
    → Entry (add_resolved c ptr info) e old
unfolding add_resolved
add_resolved-Entry c ptr info old e held = record {
  module_path = Added-Holds (add_to_string_cache-Added info.module_path c.modules) held.module_path;
  function_name =
      Added-Holds (add_to_string_cache-Added info.function_name c.function_names)
        held.function_name;
  src_path = Added-Holds (add_to_string_cache-Added info.src_path c.src_files) held.src_path;
  line = held.line;
  column = held.column;
}

-- The entry that is added
pub added_entry : StackPointerInfoCache → StackFrameInfo → StackFrameInfoInternal
added_entry c info = record {
  module_path = (add_to_string_cache info.module_path c.modules).0;
  function_name = (add_to_string_cache info.function_name c.function_names).0;
  src_path = (add_to_string_cache info.src_path c.src_files).0;
  line = info.line;
  column = info.column;
}

pub added_entry-Entry :
    (c : StackPointerInfoCache) (ptr : ℕ) (info : StackFrameInfo)
    → Entry (add_resolved c ptr info) (added_entry c info) info
unfolding add_resolved added_entry
added_entry-Entry c ptr info = record {
  module_path = Added-Holds_new (add_to_string_cache-Added info.module_path c.modules);
  function_name = Added-Holds_new (add_to_string_cache-Added info.function_name c.function_names);
  src_path = Added-Holds_new (add_to_string_cache-Added info.src_path c.src_files);
  line = refl;
  column = refl;
}

pub add_resolved-data :
    (c : StackPointerInfoCache) (ptr : ℕ) (info : StackFrameInfo)
    → c.resolved_data ptr ≡ none
    → (add_resolved c ptr info).resolved_data ≡ put c.resolved_data ptr (some (added_entry c info))
unfolding add_resolved added_entry
add_resolved-data c ptr info free = rw free refl

-- An entry gives back the answer that it stands for.
pub get_resolved-Entry :
    (c : StackPointerInfoCache) (ptr : ℕ) (e : StackFrameInfoInternal) (info : StackFrameInfo)
    → c.resolved_data ptr ≡ some e
    → Entry c e info
    → get_resolved c ptr new_info ≡ some (plain info)
unfolding get_resolved
get_resolved-Entry c ptr e info is held =
    rw
      (
        get_resolved, is, held.module_path.stands, held.function_name.stands, held.src_path.stands,
        held.line, held.column,
      )
      refl

pub plain_idem : (info : StackFrameInfo) → plain (plain info) ≡ plain info
plain_idem info =
    rw
      (
        until_zero_idem info.module_path,
        until_zero_idem info.function_name,
        until_zero_idem info.src_path,
      )
      refl

pub native_eq : (n : ℕ) → (n == n) ≡ true
native_eq n = ground arith

pub some_inj : {A : Type 0} {x y : A} → some x ≡ some y → x ≡ y
some_inj e = cc
