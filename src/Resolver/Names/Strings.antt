-- ===== src/Resolver/Names/Strings.antt =====
-- `get_function_name` on a table of names that end in a zero byte.
use golang_profiling.Base.{
  ℕ, ◌≡◌, refl, ◌≢◌, false, some, List, [], ◌∷◌, ◌++◌, arith, length, is_empty, length-append,
  drop-append,
}
use golang_profiling.Base.Bytes.{Bytes}
use golang_profiling.Base.Utf8.{from_utf8_ascii}
use golang_profiling.Pclntab.Read.Strings.{IsName, IsName-ascii}
use golang_profiling.Resolver.FuncTable.{FuncInfo}
use golang_profiling.Resolver.Names.{before_zero, string_at, cached_name, get_function_name}

before_zero-append : (name back : Bytes) → IsName name → before_zero (name ++ (0 ∷ back)) ≡ name
unfolding before_zero
before_zero-append [] back h = refl
before_zero-append (b ∷ name) back h = ground (arith, h.0, before_zero-append name back h.1)

string_at-append :
    (front name back : Bytes)
    → IsName name
    → is_empty name ≡ false
    → string_at (front ++ (name ++ (0 ∷ back))) (length front) ≡ some name
unfolding string_at
string_at-append front name back h full = ground (
  arith,
  length-append {0} front (name ++ (0 ∷ back)),
  length-append {0} name (0 ∷ back),
  drop-append front (name ++ (0 ∷ back)) (length front) refl,
  before_zero-append name back h,
  from_utf8_ascii name (IsName-ascii name h),
)

-- For a function whose name offset is not 1, the mark of a cached name, and is that of a name in
-- the string table, not empty, of ASCII bytes other than 0 and with a zero byte behind it,
-- `get_function_name` returns this name.
get_function_name-append :
    (cache : List (ℕ × Bytes)) (func : FuncInfo) (front name back : Bytes)
    → IsName name
    → is_empty name ≡ false
    → func.name_off ≡ length front
    → func.name_off ≢ 1
    → get_function_name cache (front ++ (name ++ (0 ∷ back))) func ≡ some name
unfolding get_function_name cached_name
get_function_name-append cache func front name back h full at other =
    ground (arith, string_at-append front name back h full, at)
