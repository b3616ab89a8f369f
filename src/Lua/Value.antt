-- ===== src/Lua/Value.antt =====
-- The values of the Lua library as lua/api.rs, lua/mod.rs and route/config.rs of
-- intermediate-proxy/src read them. Tables, numbers and functions belong to the library.
use proxy_systems.Common.{ℕ, Bool, List, [], ◌∷◌, Option, none, some, get_or_else}
use proxy_systems.Common.Text.{Text}
use proxy_systems.Common.Results.{Result}
use mathlib.Core.Option

-- `mlua::Value`; a string may be no UTF-8.
pub data Value (T I F G : Type 0) : Type 0 where
  nil other : Value T I F G
  boolean : Bool → Value T I F G
  integer : I → Value T I F G
  number : F → Value T I F G
  string : Option Text → Value T I F G
  table : T → Value T I F G
  function : G → Value T I F G

-- Tables with their reads, and the casts between the numbers of Lua and of Rust. A table is read once,
-- and what a read gives does not change meanwhile; `get` gives nothing where the read fails.
pub record LuaApi : Type 1 where
  pub Table : Type 0
  pub Integer : Type 0
  pub Number : Type 0
  pub Function : Type 0
  pub get : Table → Text → Option (Value Table Integer Number Function)
  pub sequence_of_strings : Table → List (Option Text)
  pub sequence_of_integers : Table → List (Option Integer)
  pub sequence_of_tables : Table → List (Result Table)
  pub pairs_of_strings : Table → List (Option (Text × Text))
  pub integer_to_number : Integer → Number
  pub number_to_u64 : Number → ℕ
  pub number_to_u16 : Number → ℕ
  pub integer_to_u16 : Integer → ℕ

-- `filter_map(|v| v.ok())`, or `flatten`.
unfoldable pub flatten : {A : Type 0} → List (Option A) → List A
flatten [] = []
flatten (none ∷ xs) = flatten xs
flatten (some x ∷ xs) = x ∷ flatten xs

module _ (lua : LuaApi) where
  open lua use {
    Table, Integer, Number, Function, get, sequence_of_strings, integer_to_number, number_to_u64,
  }

  abbrev pub LuaValue : Type 0
  LuaValue = Value Table Integer Number Function

  unfoldable pub number_of : Option LuaValue → Option Number
  number_of (some (integer i)) = some (integer_to_number i)
  number_of (some (number n)) = some n
  number_of _ = none

  unfoldable pub get_num : Table → Text → Option Number
  get_num t key = number_of (get t key)

  unfoldable pub get_u64 : Table → Text → ℕ → ℕ
  get_u64 t key default = get_or_else (Option.map number_to_u64 (get_num t key)) default

  -- `usize` has 64 bits.
  unfoldable pub get_usize : Table → Text → ℕ → ℕ
  get_usize t key default = get_or_else (Option.map number_to_u64 (get_num t key)) default

  unfoldable pub boolean_of : Option LuaValue → Bool → Bool
  boolean_of (some (boolean b)) default = b
  boolean_of _ default = default

  unfoldable pub get_bool : Table → Text → Bool → Bool
  get_bool t key default = boolean_of (get t key) default

  unfoldable pub string_of : Option LuaValue → Option Text
  string_of (some (string s)) = s
  string_of _ = none

  unfoldable pub get_string : Table → Text → Option Text
  get_string t key = string_of (get t key)

  unfoldable pub table_of : Option LuaValue → Option Table
  table_of (some (table t)) = some t
  table_of _ = none

  -- The pattern `Ok(Value::Table(t))`.
  unfoldable pub get_table : Table → Text → Option Table
  get_table t key = table_of (get t key)

  unfoldable pub function_of : Option LuaValue → Option Function
  function_of (some (function f)) = some f
  function_of _ = none

  -- The pattern `Ok(Value::Function(f))`.
  unfoldable pub get_function : Table → Text → Option Function
  get_function t key = function_of (get t key)

  unfoldable pub strings_in : Option Table → List Text
  strings_in (some list) = flatten (sequence_of_strings list)
  strings_in none = []

  unfoldable pub get_string_list : Table → Text → List Text
  get_string_list t key = strings_in (get_table t key)
